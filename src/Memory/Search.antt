-- ===== src/Memory/Search.antt =====
-- What `FindTokenStates` of the store in memory finds: exactly the live states of the subject.
use better_token.Base.{
  ◌≡◌, refl, ap, true, Option, none, some, List, [], ◌∷◌, ◌++◌, arith, inl, inr, ◌⊎◌, Bool-cases,
  if_pos,
}
use better_token.Text.{Text, dec_text}
use better_token.Time.{Time}
use better_token.Errors.{ok}
use better_token.State.{LoginSubject, normalize_subject, TokenKind, TokenState, match_kind}
use better_token.Store.{Reading}
use better_token.Memory.{TokenItem, MemoryStore, token_at}
use better_token.Memory.Tokens.{find_states, indexed}
use better_token.Memory.Index.{IsConsistent}
use better_token.Memory.Effects.{live_at}
use better_token.Memory.Subject.{
  among, among-indexed, is_selected, chosen, chosen_all, find_all-result,
}

-- Membership of a state in a list of states.
abbrev pub Within : TokenState → List TokenState → Type 0
Within x [] = ⊥
Within x (y ∷ ys) = (y ≡ x) ⊎ Within x ys

-- The states that a search of the subject should find: live at the time and of a kind asked for.
pub record IsHit (s : MemoryStore) (subject : LoginSubject) (kinds : List TokenKind) (now : Time)
    (token : Text) (state : TokenState) : Type 0 where
  pub item : TokenItem
  pub live : live_at s token now ≡ some item
  pub holds : item.state ≡ state
  pub selected : is_selected (normalize_subject subject) kinds (some item) ≡ true

pub of_live :
    (s : MemoryStore) (k : Text) (now : Time) {item : TokenItem}
    → live_at s k now ≡ some item
    → token_at s k ≡ some item
unfolding live_at
of_live s k now e = ground arith

-- A state that the loop over the tokens `ts` should find.
abbrev Chosen : Time → List TokenKind → MemoryStore → TokenState → List Text → Type 0
Chosen now kinds s state ts =
    (k : Text) × (item : TokenItem) × (among k ts ≡ true)
    × (live_at s k now ≡ some item)
    × (item.state ≡ state)
    × (match_kind item.state.kind kinds ≡ true)

module _ (now : Time) (kinds : List TokenKind) (s : MemoryStore) where
  Chosen-cons :
      (state : TokenState) (t : Text) (ts : List Text)
      → Chosen now kinds s state ts
      → Chosen now kinds s state (t ∷ ts)
  unfolding among
  Chosen-cons state t ts (k, item, a, l, h, m) = (k, item, ground arith, l, h, m)

  chosen-first :
      (state : TokenState) (t : Text) (ts : List Text) (rest : List TokenState)
      (o : Option TokenItem)
      → live_at s t now ≡ o
      → Within state (chosen kinds o ++ rest)
      → Chosen now kinds s state (t ∷ ts) ⊎ Within state rest
  unfolding among
  chosen-first state t ts rest none e w = inr w
  chosen-first state t ts rest (some item) e w =
      elim (Bool-cases (match_kind item.state.kind kinds)) [
        | inl m ↦ elim (rw m at w) [
          | inl p ↦ inl (t, item, if_pos (dec_text t t) refl _ _, e, p, m)
          | inr v ↦ inr v
        ]
        | inr m ↦ inr (rw m at w)
      ]

  chosen_all_sound :
      (ts : List Text) (state : TokenState)
      → Within state (chosen_all now kinds ts s)
      → Chosen now kinds s state ts
  chosen_all_sound (t ∷ ts) state w =
      elim (chosen-first state t ts (chosen_all now kinds ts s) (live_at s t now) refl w) [
        | inl c ↦ c
        | inr v ↦ Chosen-cons state t ts (chosen_all_sound ts state v)
      ]
  chosen_all_sound [] state w = elim w [ ]

  Within-append_right :
      (state : TokenState) (xs ys : List TokenState) → Within state ys → Within state (xs ++ ys)
  Within-append_right state [] ys w = w
  Within-append_right state (x ∷ xs) ys w = inr (Within-append_right state xs ys w)

  chosen_all_complete :
      (ts : List Text) (state : TokenState)
      → Chosen now kinds s state ts
      → Within state (chosen_all now kinds ts s)
  unfolding among
  chosen_all_complete [] state (k, item, a, l, h, m) = absurd (cc)
  chosen_all_complete (t ∷ ts) state (k, item, a, l, h, m) = elim (dec_text t k) [
    | yes p ↦ rw (p, l, m) (inl h)
    | no p ↦
        Within-append_right state (chosen kinds (live_at s t now)) (chosen_all now kinds ts s)
          (chosen_all_complete ts state (k, item, ground arith, l, h, m))
  ]

-- On a consistent store, in a context that has not ended, a search returns the states of exactly the
-- live tokens of the subject that are of a kind asked for: each state found is such a state, and each
-- such state is found.
pub find_states-exact :
    (subject : LoginSubject) (kinds : List TokenKind) (r : Reading) (s : MemoryStore)
    → IsConsistent s
    → r.ctx_err ≡ none
    → (found : List TokenState) × ((find_states subject kinds r s).0 ≡ ok found)
      × ((state : TokenState)
          → Within state found
          → (token : Text) × IsHit s subject kinds r.now token state)
      × ((token : Text) (state : TokenState)
          → IsHit s subject kinds r.now token state
          → Within state found)
unfolding find_states
find_states-exact subject kinds r s h c = (
  chosen_all r.now kinds ts s,
  rw c (ap ok (find_all-result r.now kinds key ts s)),
  λ state w. sound state (chosen_all_sound r.now kinds s ts state w),
  λ token state hit. chosen_all_complete r.now kinds s ts state (complete token state hit),
)
  where
    key : LoginSubject
    key = normalize_subject subject

    ts : List Text
    ts = indexed key s

    sound :
        (state : TokenState)
        → Chosen r.now kinds s state ts
        → (token : Text) × IsHit s subject kinds r.now token state
    sound state (k, item, a, l, p, m) = (
      k,
      record {
        item = item;
        live = l;
        holds = p;
        selected = ground (arith, among-indexed k key s, h.agrees key k, of_live s k r.now l);
      },
    )

    complete :
        (token : Text) (state : TokenState)
        → IsHit s subject kinds r.now token state
        → Chosen r.now kinds s state ts
    complete token state hit = (
      token,
      hit.item,
      ground (
        arith,
        among-indexed token key s,
        h.agrees key token,
        of_live s token r.now hit.live,
        hit.selected,
      ),
      hit.live,
      hit.holds,
      ground (arith, hit.selected),
    )
