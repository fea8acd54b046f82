-- ===== src/Memory/Subject.antt =====
-- The two operations on all tokens of a subject: they reach exactly the tokens of the subject that
-- are of a kind asked for.
use mathlib.Core.Path.{subst, ap₂}
use better_token.Base.{
  ◌≡◌, refl, ◌∙◌, Bool, true, false, ◌&&◌, Option, none, some, List, [], ◌∷◌, ◌++◌, arith, ite, inl,
  inr, Option-cases, Bool-cases, if_pos, if_neg, if◌then◌else◌, is_some,
}
use better_token.Base.Map
use better_token.Base.Map.{Set, keys}
use better_token.Text.{Text, dec_text}
use better_token.Time.{Time}
use better_token.State.{
  LoginSubject, dec_subject, normalize_subject, TokenKind, TokenState, match_kind,
}
use better_token.Store.{Reading}
use better_token.Memory.{TokenItem, MemoryStore, item_expired, token_at, index_at}
use better_token.Memory.Tokens.{
  find_one, find_all, delete_one, delete_all, delete_states, indexed, forget,
}
use better_token.Memory.Index.{IsConsistent, is_indexed, home, token_at-delete_token}
use better_token.Memory.Effects.{live_at}

-- Whether a list has a token, and that a set has the tokens that its keys list.
unfoldable pub among : Text → List Text → Bool
among k [] = false
among k (t ∷ ts) = ite (dec_text t k) true (among k ts)

among-keys :
    (k : Text) (tokens : Set Text) → among k (keys tokens) ≡ is_some (Map.get dec_text k tokens)
unfolding among Map.get
among-keys k [] = refl
among-keys k ((t, v) ∷ tokens) = ground (arith, among-keys k tokens)

pub among-indexed :
    (k : Text) (key : LoginSubject) (s : MemoryStore) → among k (indexed key s) ≡ is_indexed s key k
unfolding among
among-indexed k key s = elim (Option-cases (index_at s key)) [
  | inl e ↦ rw (e, indexed) (unfold Map.get in refl)
  | inr (tokens, e) ↦ rw (e, indexed) (among-keys k tokens)
]

-- An item of a kind asked for, under the subject.
abbrev pub is_selected : LoginSubject → List TokenKind → Option TokenItem → Bool
is_selected key kinds none = false
is_selected key kinds (some item) =
    ite (dec_subject (home item) key) (match_kind item.state.kind kinds) false

abbrev of_kind : List TokenKind → Option TokenItem → Bool
of_kind kinds none = false
of_kind kinds (some item) = match_kind item.state.kind kinds

token_at-delete_one_self :
    (kinds : List TokenKind) (t : Text) (s : MemoryStore)
    → token_at (delete_one kinds t s) t
      ≡ (if of_kind kinds (token_at s t) then none else token_at s t)
unfolding delete_one
token_at-delete_one_self kinds t s = elim (Option-cases (token_at s t)) [
  | inl e ↦ rw (e, delete_one) e
  | inr (item, e) ↦
      rw (e, delete_one)
        (elim (Bool-cases (match_kind item.state.kind kinds)) [
          | inl x ↦ rw x (token_at-delete_token t t s ∙ if_pos (dec_text t t) refl _ _)
          | inr x ↦ rw x e
        ])
]

token_at-delete_one :
    (kinds : List TokenKind) (t k : Text) (s : MemoryStore)
    → token_at (delete_one kinds t s) k
      ≡ (if ite (dec_text t k) (of_kind kinds (token_at s k)) false then none else token_at s k)
unfolding delete_one
token_at-delete_one kinds t k s = elim (dec_text t k) [
  | yes p ↦ rw (if_pos (dec_text t k) p) (
      subst
        (λ (q : Text).
          token_at (delete_one kinds t s) q
          ≡ (if of_kind kinds (token_at s q) then none else token_at s q))
        p (token_at-delete_one_self kinds t s))
  | no p ↦ rw (if_neg (dec_text t k) p) (elim (Option-cases (token_at s t)) [
    | inl e ↦ rw (e, delete_one)
    | inr (item, e) ↦ rw (e, delete_one) (ground (arith, token_at-delete_token t k s))
  ])
]

pub token_at-delete_all :
    (kinds : List TokenKind) (ts : List Text) (k : Text) (s : MemoryStore)
    → token_at (delete_all kinds ts s) k
      ≡ (if among k ts && of_kind kinds (token_at s k) then none else token_at s k)
unfolding delete_all among
token_at-delete_all kinds [] k s = refl
token_at-delete_all kinds (t ∷ ts) k s =
    ground (
      arith,
      token_at-delete_all kinds ts k (delete_one kinds t s),
      token_at-delete_one kinds t k s,
    )

-- On a consistent store, in a context that has not ended, deleting the tokens of a subject removes
-- each of its tokens that is of a kind asked for, and leaves every other token as it was.
pub delete_states-exact :
    (subject : LoginSubject) (kinds : List TokenKind) (r : Reading) {s : MemoryStore} (k : Text)
    → IsConsistent s
    → r.ctx_err ≡ none
    → token_at (delete_states subject kinds r s).1 k ≡ (
        if is_selected (normalize_subject subject) kinds (token_at s k) then none else token_at s k)
unfolding delete_states
delete_states-exact subject kinds r {s} k h c =
    let key = normalize_subject subject in
    rw c (
      ground (
        arith,
        token_at-delete_all kinds (indexed key s) k s,
        among-indexed k key s,
        h.agrees key k,
      ))

-- One round of the search finds the live state of its token, if that is of a kind asked for, and
-- changes what is live at no token.
abbrev pub chosen : List TokenKind → Option TokenItem → List TokenState
chosen kinds none = []
chosen kinds (some item) = if match_kind item.state.kind kinds then item.state ∷ [] else []

find_one-result :
    (now : Time) (kinds : List TokenKind) (key : LoginSubject) (t : Text) (s : MemoryStore)
    → (find_one now kinds key t s).0 ≡ chosen kinds (live_at s t now)
unfolding find_one live_at
find_one-result now kinds key t s = elim (Option-cases (token_at s t)) [
  | inl e ↦ rw (e, find_one)
  | inr (item, e) ↦ rw (e, find_one) (ground arith)
]

pub token_at-forget :
    (key : LoginSubject) (t k : Text) (s : MemoryStore) → token_at (forget key t s) k ≡ token_at s k
token_at-forget key t k s = elim (Option-cases (index_at s key)) [
  | inl e ↦ rw (e, forget)
  | inr (tokens, e) ↦ rw (e, forget)
]

pub live_at-find_one :
    (now : Time) (kinds : List TokenKind) (key : LoginSubject) (t k : Text) (s : MemoryStore)
    → live_at (find_one now kinds key t s).1 k now ≡ live_at s k now
unfolding find_one live_at
live_at-find_one now kinds key t k s = elim (Option-cases (token_at s t)) [
  | inl e ↦ rw (e, find_one, token_at-forget)
  | inr (item, e) ↦
      rw (e, find_one)
        (elim (Bool-cases (item_expired item now)) [
          | inl x ↦
              rw (x, token_at-delete_token)
                (elim (dec_text t k) [
                  | yes p ↦ rw (if_pos (dec_text t k) p, ← p, e) (rw x)
                  | no p ↦ rw (if_neg (dec_text t k) p)
                ])
          | inr x ↦ rw x (ground arith)
        ])
]

abbrev pub chosen_all : Time → List TokenKind → List Text → MemoryStore → List TokenState
chosen_all now kinds [] s = []
chosen_all now kinds (t ∷ ts) s = chosen kinds (live_at s t now) ++ chosen_all now kinds ts s

chosen_all-cong :
    (now : Time) (kinds : List TokenKind) (ts : List Text) (s u : MemoryStore)
    → ((k : Text) → live_at u k now ≡ live_at s k now)
    → chosen_all now kinds ts u ≡ chosen_all now kinds ts s
chosen_all-cong now kinds [] s u h = refl
chosen_all-cong now kinds (t ∷ ts) s u h = rw (h t, chosen_all-cong now kinds ts s u h)

pub find_all-result :
    (now : Time) (kinds : List TokenKind) (key : LoginSubject) (ts : List Text) (s : MemoryStore)
    → (find_all now kinds key ts s).0 ≡ chosen_all now kinds ts s
unfolding find_all
find_all-result now kinds key [] s = refl
find_all-result now kinds key (t ∷ ts) s =
    let u = (find_one now kinds key t s).1 in
    ap₂ ◌++◌ (find_one-result now kinds key t s) (
      find_all-result now kinds key ts u
      ∙ chosen_all-cong now kinds ts s u (λ k. live_at-find_one now kinds key t k s))
