-- ===== src/Rbac/Passes.antt =====
-- rbac/authorizer.go: tests on the authorities that GetAuthorities lists.
use better_token.Base.{
  ◌≡◌, refl, sym, ◌∙◌, ap, Bool, true, false, ◌||◌, List, [], ◌∷◌, ◌++◌, is_nil, arith, if_pos,
  if_neg, inl, inr, Bool-cases,
}
use better_token.Base.Map.{keys}
use better_token.Text.{Text, dec_text}
use better_token.Errors.{Authority}
use better_token.Authorizer.{dec_type}
use better_token.Rbac.{
  Rbac, members, is_listed, to_permission, to_role, add_authority, add_permissions, add_roles,
  listed_of,
}

-- Whether some authority of a list passes a test.
abbrev pub any_passes : (Authority → Bool) → List Authority → Bool
any_passes f [] = false
any_passes f (a ∷ rest) = f a || any_passes f rest

abbrev pub any_permission : (Authority → Bool) → List Text → Bool
any_permission f [] = false
any_permission f (value ∷ rest) = f (to_permission value) || any_permission f rest

any_passes-append :
    (f : Authority → Bool) (xs : List Authority) (a : Authority)
    → any_passes f (xs ++ (a ∷ [])) ≡ (any_passes f xs || f a)
any_passes-append f [] a = ground arith
any_passes-append f (x ∷ xs) a = ground (arith, any_passes-append f xs a)

-- A test that no blank value passes does not see that an authority is listed but once.
module _ (f : Authority → Bool)
    (blank_fails : (a : Authority) → is_nil a.value ≡ true → f a ≡ false) where
  is_listed-passes :
      (a : Authority) (xs : List Authority)
      → is_listed a xs ≡ true
      → f a ≡ true
      → any_passes f xs ≡ true
  is_listed-passes a [] e h = absurd (cc)
  is_listed-passes a (x ∷ xs) e h = elim (dec_type a.kind x.kind) [
    | no p ↦
        let ih = is_listed-passes a xs (rw (if_neg {C = Bool} (dec_type a.kind x.kind) p) at e) h in
        ground (arith, ih)
    | yes p ↦ elim (dec_text a.value x.value) [
      | yes q ↦
          let same : a ≡ x = λ i. record { kind = p i; value = q i } in
          let g : f x ≡ true = ap f (sym same) ∙ h in rw g refl
      | no q ↦
          let e' =
            rw
              (
                if_pos {C = Bool} (dec_type a.kind x.kind) p,
                if_neg {C = Bool} (dec_text a.value x.value) q,
              )
              at e in
          let ih = is_listed-passes a xs e' h in ground (arith, ih)
    ]
  ]

  any_passes-add_authority :
      (a : Authority) (xs : List Authority)
      → any_passes f (add_authority a xs) ≡ (any_passes f xs || f a)
  unfolding add_authority
  any_passes-add_authority a xs = elim (Bool-cases (is_nil a.value)) [
    | inl n ↦ rw (n, blank_fails a n) (ground arith)
    | inr n ↦ elim (Bool-cases (is_listed a xs)) [
      | inr l ↦ rw (n, l) (any_passes-append f xs a)
      | inl l ↦
          rw (n, l)
            (elim (Bool-cases (f a)) [
              | inl h ↦ rw (h, is_listed-passes a xs l h) refl
              | inr h ↦ rw h (ground arith)
            ])
    ]
  ]

  any_passes-add_permissions :
      (values : List Text) (xs : List Authority)
      → any_passes f (add_permissions values xs) ≡ (any_passes f xs || any_permission f values)
  unfolding add_permissions
  any_passes-add_permissions [] xs = ground arith
  any_passes-add_permissions (value ∷ rest) xs =
      let a = to_permission value in
      ground
        (arith, any_passes-add_permissions rest (add_authority a xs), any_passes-add_authority a xs)

  abbrev pub any_of_roles : Rbac → List Text → Bool
  any_of_roles a [] = false
  any_of_roles a (name ∷ rest) =
      (f (to_role name) || any_permission f (keys (members a.role_permissions name)))
      || any_of_roles a rest

  any_passes-add_roles :
      (a : Rbac) (names : List Text) (xs : List Authority)
      → any_passes f (add_roles a names xs) ≡ (any_passes f xs || any_of_roles a names)
  unfolding add_roles
  any_passes-add_roles a [] xs = ground arith
  any_passes-add_roles a (name ∷ rest) xs =
      let r = to_role name in
      let values = keys (members a.role_permissions name) in
      let ys = add_authority r xs in
      ground (
        arith,
        any_passes-add_roles a rest (add_permissions values ys),
        any_passes-add_permissions values ys,
        any_passes-add_authority r xs,
      )

  pub any_passes-listed_of :
      (a : Rbac) (user : Text)
      → any_passes f (listed_of a user) ≡ (
          any_of_roles a (keys (members a.user_roles user))
          || any_permission f (keys (members a.direct_permissions user)))
  unfolding listed_of
  any_passes-listed_of a user =
      let names = keys (members a.user_roles user) in
      ground (
        arith,
        any_passes-add_permissions (keys (members a.direct_permissions user))
            (add_roles a names []),
        any_passes-add_roles a names [],
      )
