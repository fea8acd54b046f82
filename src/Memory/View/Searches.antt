-- ===== src/Memory/View/Searches.antt =====
-- storage/memory/store.go: a search, seen through the view.
use mathlib.Core.Path.{fun_ext, subst}
use better_token.Base.{
  ◌≡◌, refl, sym, ◌∙◌, ap, Bool, true, false, ◌&&◌, Option, none, some, List, [], ◌∷◌, arith, ite,
  is_nil, inl, inr, Option-cases, Bool-cases, if_pos, if_neg, if◌then◌else◌,
}
use better_token.Base.Map
use better_token.Text.{Text, dec_text}
use better_token.Time.{Time}
use better_token.Errors.{Result, ok, err}
use better_token.State.{
  LoginSubject, normalize_subject, TokenKind, TokenState, dec_state, match_kind,
}
use better_token.Store.{Reading}
use better_token.Memory.{TokenItem, MemoryStore, token_at, item_expired}
use better_token.Memory.Tokens.{find_one, find_all, find_states, indexed, drop_if_empty}
use better_token.Memory.Index.{IsConsistent, token_at-delete_token}
use better_token.Memory.Effects.{unexpired, live_at, state_of, equals}
use better_token.Memory.Subject.{among, among-indexed, is_selected, token_at-forget}
use better_token.Memory.Search.{Within, IsHit, of_live, find_states-exact}
use better_token.Memory.View.{hits, swept, searched}
use better_token.Memory.View.Writes.{
  view_of, Refines, Refines-same, Refines-live, session_get, sessions-delete_token,
}

-- What a search has found, as a set.
abbrev pub is_within : List TokenState → TokenState → Bool
is_within [] state = false
is_within (x ∷ xs) state = ite (dec_state x state) true (is_within xs state)

abbrev pub as_set : Result (List TokenState) → Result (TokenState → Bool)
as_set (ok states) = ok (is_within states)
as_set (err e) = err e

unexpired_again :
    (now : Time) (o : Option TokenItem) → unexpired now (unexpired now o) ≡ unexpired now o
unexpired_again now none = refl
unexpired_again now (some item) = elim (Bool-cases (item_expired item now)) [
  | inl x ↦ rw x refl
  | inr x ↦ rw x (rw x refl)
]

module _ (now : Time) (kinds : List TokenKind) (key : LoginSubject) where
  token_at-find_one_self :
      (t : Text) (s : MemoryStore)
      → token_at (find_one now kinds key t s).1 t ≡ unexpired now (token_at s t)
  unfolding find_one
  token_at-find_one_self t s = elim (Option-cases (token_at s t)) [
    | inl e ↦ rw (e, find_one) (token_at-forget key t t s ∙ e)
    | inr (item, e) ↦
        rw (e, find_one)
          (elim (Bool-cases (item_expired item now)) [
            | inl x ↦ rw x (
                token_at-delete_token t t s
                ∙ if_pos {C = Option TokenItem} (dec_text t t) refl none (token_at s t))
            | inr x ↦ rw x (elim (Bool-cases (match_kind item.state.kind kinds)) [
              | inl m ↦ rw m e
              | inr m ↦ rw m e
            ])
          ])
  ]

  token_at-find_one_other :
      (t k : Text) (s : MemoryStore)
      → ((t ≡ k) → ⊥)
      → token_at (find_one now kinds key t s).1 k ≡ token_at s k
  unfolding find_one
  token_at-find_one_other t k s n = elim (Option-cases (token_at s t)) [
    | inl e ↦ rw (e, find_one) (token_at-forget key t k s)
    | inr (item, e) ↦
        rw (e, find_one)
          (elim (Bool-cases (item_expired item now)) [
            | inl x ↦ rw x (
                token_at-delete_token t k s
                ∙ if_neg {C = Option TokenItem} (dec_text t k) n none (token_at s k))
            | inr x ↦ rw x (elim (Bool-cases (match_kind item.state.kind kinds)) [
              | inl m ↦ rw m refl
              | inr m ↦ rw m refl
            ])
          ])
  ]

  token_at-find_all :
      (ts : List Text) (k : Text) (s : MemoryStore)
      → token_at (find_all now kinds key ts s).1 k
        ≡ (if among k ts then unexpired now (token_at s k) else token_at s k)
  unfolding find_all among
  token_at-find_all [] k s = refl
  token_at-find_all (t ∷ ts) k s =
      let u = (find_one now kinds key t s).1 in
      let ih = token_at-find_all ts k u in
      elim (dec_text t k) [
        | yes p ↦
            let q =
              subst (λ (j : Text). token_at u j ≡ unexpired now (token_at s j)) p
                (token_at-find_one_self t s) in
            rw (if_pos {C = Bool} (dec_text t k) p)
              (ih ∙ rw q (first (among k ts) (unexpired_again now (token_at s k))))
        | no p ↦
            let q = token_at-find_one_other t k s p in
            rw (if_neg {C = Bool} (dec_text t k) p) (ih ∙ rw q refl)
      ]
    where
      first : (b : Bool) {a c : Option TokenItem} → a ≡ c → (if b then a else c) ≡ c
      first true e = e
      first false e = refl

  sessions-find_one :
      (t : Text) (s : MemoryStore) → (find_one now kinds key t s).1.sessions ≡ s.sessions
  unfolding find_one
  sessions-find_one t s = elim (Option-cases (token_at s t)) [
    | inl e ↦ rw (e, find_one) (ground arith)
    | inr (item, e) ↦ rw (e, find_one) (ground (arith, sessions-delete_token t s))
  ]

  sessions-find_all :
      (ts : List Text) (s : MemoryStore) → (find_all now kinds key ts s).1.sessions ≡ s.sessions
  unfolding find_all
  sessions-find_all [] s = refl
  sessions-find_all (t ∷ ts) s =
      sessions-find_all ts (find_one now kinds key t s).1 ∙ sessions-find_one t s

drop_if_empty-same :
    (key : LoginSubject) (s : MemoryStore)
    → ((drop_if_empty key s).tokens ≡ s.tokens) × ((drop_if_empty key s).sessions ≡ s.sessions)
drop_if_empty-same key s = elim (Bool-cases (is_nil (indexed key s))) [
  | inl e ↦ rw e (refl, refl)
  | inr e ↦ rw e (refl, refl)
]

Bool-iff : (a b : Bool) → (a ≡ true → b ≡ true) → (b ≡ true → a ≡ true) → a ≡ b
Bool-iff true true f g = refl
Bool-iff true false f g = sym (f refl)
Bool-iff false true f g = g refl
Bool-iff false false f g = refl

is_within-Within :
    (states : List TokenState) (state : TokenState)
    → is_within states state ≡ true
    → Within state states
is_within-Within [] state e = absurd (cc)
is_within-Within (x ∷ xs) state e = elim (dec_state x state) [
  | yes p ↦ inl p
  | no p ↦ inr (is_within-Within xs state (rw (if_neg {C = Bool} (dec_state x state) p) at e))
]

Within-is_within :
    (states : List TokenState) (state : TokenState)
    → Within state states
    → is_within states state ≡ true
Within-is_within [] state w = elim w [ ]
Within-is_within (x ∷ xs) state (inl p) =
    if_pos {C = Bool} (dec_state x state) p true (is_within xs state)
Within-is_within (x ∷ xs) state (inr w) = elim (dec_state x state) [
  | yes p ↦ if_pos {C = Bool} (dec_state x state) p true (is_within xs state)
  | no p ↦
      if_neg {C = Bool} (dec_state x state) p true (is_within xs state)
      ∙ Within-is_within xs state w
]

module _ (subject : LoginSubject) (kinds : List TokenKind) (now : Time) (s : MemoryStore) where
  hits-IsHit :
      (state : TokenState)
      → hits (normalize_subject subject) kinds now (view_of s) state ≡ true
      → IsHit s subject kinds now state.token state
  unfolding live_at
  hits-IsHit state e = go (unexpired now (token_at s state.token)) refl e
    where
      go :
          (o : Option TokenItem)
          → unexpired now (token_at s state.token) ≡ o
          → (is_selected (normalize_subject subject) kinds o && equals (state_of o) state) ≡ true
          → IsHit s subject kinds now state.token state
      go none l h = absurd (cc)
      go (some item) l h = record {
        item = item;
        live = l;
        holds = ground (arith, h);
        selected = ground (arith, h);
      }

  IsHit-hits :
      (token : Text) (state : TokenState)
      → IsConsistent s
      → IsHit s subject kinds now token state
      → hits (normalize_subject subject) kinds now (view_of s) state ≡ true
  unfolding live_at
  IsHit-hits token state h hit =
      let n : token ≡ state.token =
        sym (h.named token hit.item (of_live s token now hit.live))
        ∙ ap (λ (t : TokenState). t.token) hit.holds in
      let l = subst (λ (t : Text). unexpired now (token_at s t) ≡ some hit.item) n hit.live in
      let e : equals (some hit.item.state) state ≡ true =
        if_pos {C = Bool} (dec_state hit.item.state state) hit.holds true false in
      rw (l, hit.selected, e) refl

  found_set :
      (answer : Result (List TokenState))
      → IsConsistent s
      → ((found : List TokenState) × (answer ≡ ok found)
          × ((state : TokenState)
              → Within state found
              → (token : Text) × IsHit s subject kinds now token state)
          × ((token : Text) (state : TokenState)
              → IsHit s subject kinds now token state
              → Within state found))
      → as_set answer ≡ ok (hits (normalize_subject subject) kinds now (view_of s))
  found_set answer h (found, e, sound, complete) =
      ap as_set e
      ∙ ap ok (
          fun_ext (λ state.
            Bool-iff (is_within found state)
              (hits (normalize_subject subject) kinds now (view_of s) state)
              (λ w.
                let (token, hit) = sound state (is_within-Within found state w) in
                IsHit-hits token state h hit)
              (λ w.
                Within-is_within found state (complete state.token state (hits-IsHit state w)))))

  token_at-find_states :
      (r : Reading) (k : Text)
      → IsConsistent s
      → r.ctx_err ≡ none
      → token_at (find_states subject kinds r s).1 k
        ≡ swept (normalize_subject subject) r.now (token_at s k)
  unfolding find_states
  token_at-find_states r k h c = rw c (
      ap (Map.get dec_text k) (
        (drop_if_empty-same (normalize_subject subject)
          (find_all r.now kinds (normalize_subject subject) (indexed (normalize_subject subject) s)
            s).1).0)
      ∙ token_at-find_all r.now kinds (normalize_subject subject)
          (indexed (normalize_subject subject) s) k s
      ∙ ground (
        arith,
        among-indexed k (normalize_subject subject) s,
        h.agrees (normalize_subject subject) k,
      ))

  sessions-find_states :
      (r : Reading) → r.ctx_err ≡ none → (find_states subject kinds r s).1.sessions ≡ s.sessions
  unfolding find_states
  sessions-find_states r c = rw c (
      (drop_if_empty-same (normalize_subject subject)
        (find_all r.now kinds (normalize_subject subject) (indexed (normalize_subject subject) s)
          s).1).1
      ∙ sessions-find_all r.now kinds (normalize_subject subject)
          (indexed (normalize_subject subject) s) s)

pub find_states-Refines :
    (subject : LoginSubject) (kinds : List TokenKind) (r : Reading) (s : MemoryStore)
    → IsConsistent s
    → Refines
        (as_set (find_states subject kinds r s).0, (find_states subject kinds r s).1)
        (searched subject kinds r (view_of s))
find_states-Refines subject kinds r s h = elim (Option-cases r.ctx_err) [
  | inr (x, c) ↦ unfold find_states in rw c (Refines-same (err x) s)
  | inl c ↦ Refines-live r s c (record {
    answer =
        found_set subject kinds r.now s (find_states subject kinds r s).0 h
          (find_states-exact subject kinds r s h c);
    tokens = λ k. token_at-find_states subject kinds r.now s r k h c;
    sessions = λ k. session_get k (sessions-find_states subject kinds r.now s r c);
  })
]
