-- ===== src/Plugins/Lookup/Laws.antt =====
-- plugins/lookup.go: what `normalize` makes of a value with a prefix, and of one without.
use better_token.Base.{
  ℕ, ◌≡◌, refl, ap, ◌∙◌, Bool, true, false, some, [], ◌∷◌, ◌++◌, append_assoc, append-nil, All,
  arith, is_nil, map, if_pos, ◌==◌,
}
use better_token.Text.{Text, is_space, trim_left, trim_right, trim_space, dec_text}
use better_token.Plugins.Lookup.{
  fields_from, fields, rest_after, trim_prefix, equal_fold, unprefixed, normalize,
}

-- A text without a space in it.
abbrev pub IsWord : Text → Type 0
IsWord t = All (λ c. is_space c ≡ false) t

fields_from-word :
    (word t : Text) → IsWord t → is_nil (word ++ t) ≡ false → fields_from word t ≡ (word ++ t) ∷ []
unfolding fields_from
fields_from-word word [] h n =
    let e : is_nil word ≡ false = rw (append-nil word) at n in rw (e, append-nil word) refl
fields_from-word word (c ∷ t) (hc, h) n =
    rw (hc, fields_from)
      (fields_from-word (word ++ (c ∷ [])) t h (rw (append_assoc word (c ∷ []) t) n)
        ∙ ap (λ w. w ∷ []) (append_assoc word (c ∷ []) t))

fields_from-space :
    (word p t : Text)
    → IsWord p
    → is_nil (word ++ p) ≡ false
    → fields_from word (p ++ (32 ∷ t)) ≡ (word ++ p) ∷ fields_from [] t
unfolding fields_from is_space
fields_from-space word [] t h n =
    let e : is_nil word ≡ false = rw (append-nil word) at n in rw (e, append-nil word) refl
fields_from-space word (c ∷ p) t (hc, h) n =
    rw (hc, fields_from)
      (fields_from-space (word ++ (c ∷ [])) p t h (rw (append_assoc word (c ∷ []) p) n)
        ∙ ap (λ w. w ∷ fields_from [] t) (append_assoc word (c ∷ []) p))

pub fields-two :
    (p t : Text)
    → IsWord p
    → IsWord t
    → is_nil p ≡ false
    → is_nil t ≡ false
    → fields (p ++ (32 ∷ t)) ≡ p ∷ t ∷ []
unfolding fields
fields-two p t hp ht np nt =
    fields_from-space [] p t hp np ∙ ap (λ l. p ∷ l) (fields_from-word [] t ht nt)

trim_right-cons :
    (c : ℕ) (r : Text) → is_nil r ≡ false → trim_right r ≡ r → trim_right (c ∷ r) ≡ c ∷ r
unfolding trim_right
trim_right-cons c r n e = rw (e, n) refl

trim_right-word : (t : Text) → IsWord t → trim_right t ≡ t
unfolding trim_right
trim_right-word [] h = refl
trim_right-word (c ∷ []) (hc, h) = rw hc refl
trim_right-word (c ∷ d ∷ t) (hc, h) = trim_right-cons c (d ∷ t) refl (trim_right-word (d ∷ t) h)

append_cons-some : (p : Text) (c : ℕ) (t : Text) → is_nil (p ++ (c ∷ t)) ≡ false
append_cons-some [] c t = refl
append_cons-some (x ∷ p) c t = refl

trim_right-two :
    (p t : Text) → IsWord t → is_nil t ≡ false → trim_right (p ++ (32 ∷ t)) ≡ p ++ (32 ∷ t)
trim_right-two [] t h n = trim_right-cons 32 t n (trim_right-word t h)
trim_right-two (c ∷ p) t h n =
    trim_right-cons c (p ++ (32 ∷ t)) (append_cons-some p 32 t) (trim_right-two p t h n)

pub trim_space-word : (t : Text) → IsWord t → trim_space t ≡ t
unfolding trim_space trim_left
trim_space-word [] h = trim_right-word [] h
trim_space-word (c ∷ t) (hc, h) = rw hc (trim_right-word (c ∷ t) (hc, h))

pub trim_space-two :
    (p t : Text)
    → IsWord p
    → IsWord t
    → is_nil p ≡ false
    → is_nil t ≡ false
    → trim_space (p ++ (32 ∷ t)) ≡ p ++ (32 ∷ t)
unfolding trim_space trim_left
trim_space-two [] t hp ht np nt = absurd (cc)
trim_space-two (c ∷ p) t (hc, hp) ht np nt = rw hc (trim_right-two (c ∷ p) t ht nt)

trim_space-spaced : (t : Text) → IsWord t → trim_space (32 ∷ t) ≡ t
unfolding trim_space trim_left is_space
trim_space-spaced t h = trim_space-word t h

rest_after-append : (p s : Text) → rest_after p (p ++ s) ≡ some s
unfolding rest_after
rest_after-append [] s = refl
rest_after-append (c ∷ p) s = let e : (c == c) ≡ true = ground arith in rw e (rest_after-append p s)

trim_prefix-append : (p s : Text) → trim_prefix (p ++ s) p ≡ s
unfolding trim_prefix
trim_prefix-append p s = rw (rest_after-append p s) refl

module _ (fold : ℕ → ℕ) where
  equal_fold_self : (p : Text) → equal_fold fold p p ≡ true
  unfolding equal_fold
  equal_fold_self p = if_pos {C = Bool} (dec_text (map fold p) (map fold p)) refl true false

  -- A token after a prefix of the same word loses it, and a token alone stays where no prefix is set.
  pub normalize-prefixed :
      (prefix t : Text)
      → IsWord (trim_space prefix)
      → is_nil (trim_space prefix) ≡ false
      → IsWord t
      → is_nil t ≡ false
      → normalize fold prefix (trim_space prefix ++ (32 ∷ t)) ≡ some t
  unfolding normalize unprefixed
  normalize-prefixed prefix t hp np ht nt =
      let p = trim_space prefix in
      rw
        (
          trim_space-two p t hp ht np nt,
          append_cons-some p 32 t,
          np,
          fields-two p t hp ht np nt,
          unprefixed,
          equal_fold_self p,
          trim_prefix-append p (32 ∷ t),
          trim_space-spaced t ht,
          trim_space-word t ht,
          nt,
        )
        refl

  pub normalize-plain :
      (prefix t : Text)
      → is_nil (trim_space prefix) ≡ true
      → IsWord t
      → is_nil t ≡ false
      → normalize fold prefix t ≡ some t
  unfolding normalize
  normalize-plain prefix t np ht nt =
      rw (trim_space-word t ht, nt, np, trim_space-word t ht, nt) refl
