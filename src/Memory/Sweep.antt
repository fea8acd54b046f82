-- ===== src/Memory/Sweep.antt =====
-- The operations on all tokens of a subject keep the tokens and the index in agreement.
use mathlib.Core.Path.{subst}
use better_token.Base.{
  ◌≡◌, refl, sym, true, false, Option, none, some, List, [], ◌∷◌, arith, inl, inr, Option-cases,
  Bool-cases, if_pos, if_neg, if◌then◌else◌, ◌∙◌, is_some, is_nil,
}
use better_token.Base.Map
use better_token.Base.Map.{Set, keys, get-put, get-delete}
use better_token.Text.{Text, dec_text}
use better_token.Time.{Time}
use better_token.State.{LoginSubject, dec_subject, normalize_subject, TokenKind, match_kind}
use better_token.Store.{Reading}
use better_token.Memory.{TokenItem, MemoryStore, token_at, tokens_of, index_at, delete_token}
use better_token.Memory.Tokens.{
  find_one, find_all, find_states, delete_one, delete_all, delete_states, forget, drop_if_empty,
  indexed,
}
use better_token.Memory.Index.{IsConsistent, is_indexed, owns, delete_token-IsConsistent}
use better_token.Memory.Invariant.{Ends, ends_rules}

-- A token of the index is stored, so no round of the search meets a token that is not.
forget-IsConsistent :
    (key : LoginSubject) (token : Text) {s : MemoryStore}
    → token_at s token ≡ none
    → IsConsistent s
    → IsConsistent (forget key token s)
forget-IsConsistent key token {s} e h = elim (Option-cases (index_at s key)) [
  | inl x ↦ rw (x, forget) h
  | inr (tokens, x) ↦
      rw (x, forget) (record { agrees = λ subject k. agree tokens x subject k; named = h.named })
]
  where
    agree :
        (tokens : Set Text)
        → index_at s key ≡ some tokens
        → (subject : LoginSubject) (k : Text)
        → is_indexed
            (record s {
              indexes = Map.put dec_subject key (Map.delete dec_text token tokens) s.indexes;
            })
            subject
            k
          ≡ owns subject (token_at s k)
    agree tokens x subject k = elim (dec_subject key subject) [
      | yes p ↦
          rw (get-put, if_pos (dec_subject key subject) p, get-delete)
            (ground (arith, listed tokens x subject k p))
      | no p ↦ rw (get-put, if_neg (dec_subject key subject) p) (h.agrees subject k)
    ]
      where
        listed :
            (tokens : Set Text)
            → index_at s key ≡ some tokens
            → (subject : LoginSubject) (k : Text) → key ≡ subject
            → is_some (Map.get dec_text k tokens) ≡ owns subject (token_at s k)
        listed tokens x subject k p =
            rw (subst (λ (q : LoginSubject). index_at s q ≡ some tokens) p x) at
              (h.agrees subject k)

find_one-IsConsistent :
    (now : Time) (kinds : List TokenKind) (key : LoginSubject) (token : Text) {s : MemoryStore}
    → IsConsistent s
    → Ends IsConsistent (find_one now kinds key token s)
unfolding find_one
find_one-IsConsistent now kinds key token {s} h = elim (Option-cases (token_at s token)) [
  | inl e ↦ rw (e, find_one) (search (ends_rules, forget-IsConsistent key token e h))
  | inr (item, e) ↦ rw (e, find_one) (search (ends_rules, delete_token-IsConsistent))
]

find_all-IsConsistent :
    (now : Time) (kinds : List TokenKind) (key : LoginSubject) (tokens : List Text)
    {s : MemoryStore}
    → IsConsistent s
    → Ends IsConsistent (find_all now kinds key tokens s)
unfolding find_all
find_all-IsConsistent now kinds key [] h = record { at = h }
find_all-IsConsistent now kinds key (token ∷ rest) h = record {
  at =
      (find_all-IsConsistent now kinds key rest
        (find_one-IsConsistent now kinds key token h).at).at;
}

lists_nothing :
    (o : Option (Set Text)) (k : Text)
    → is_nil (elim o [ none ↦ [] | some tokens ↦ keys tokens ]) ≡ true
    → is_some (Map.get dec_text k (tokens_of o)) ≡ false
unfolding Map.get
lists_nothing none k x = refl
lists_nothing (some []) k x = refl
lists_nothing (some (e ∷ tokens)) k x = cc

drop_if_empty-IsConsistent :
    (key : LoginSubject) {s : MemoryStore} → IsConsistent s → IsConsistent (drop_if_empty key s)
unfolding Map.get
drop_if_empty-IsConsistent key {s} h = elim (Bool-cases (is_nil (indexed key s))) [
  | inl x ↦ rw x (record { agrees = λ subject k. agree x subject k; named = h.named })
  | inr x ↦ rw x h
]
  where
    agree :
        is_nil (indexed key s) ≡ true
        → (subject : LoginSubject) (k : Text)
        → is_indexed (record s { indexes = Map.delete dec_subject key s.indexes }) subject k
          ≡ owns subject (token_at s k)
    agree x subject k = elim (dec_subject key subject) [
      | yes p ↦
          rw (get-delete, if_pos (dec_subject key subject) p)
            (sym (
                lists_nothing (index_at s subject) k
                  (subst (λ (q : LoginSubject). is_nil (indexed q s) ≡ true) p x))
              ∙ h.agrees subject k)
      | no p ↦ rw (get-delete, if_neg (dec_subject key subject) p) (h.agrees subject k)
    ]

pub find_states-IsConsistent :
    (subject : LoginSubject) (kinds : List TokenKind) (r : Reading) {s : MemoryStore}
    → IsConsistent s
    → Ends IsConsistent (find_states subject kinds r s)
unfolding find_states
find_states-IsConsistent subject kinds r {s} h = search (
  ends_rules,
  drop_if_empty-IsConsistent,
  (find_all-IsConsistent r.now kinds (normalize_subject subject)
      (indexed (normalize_subject subject) s) h).at,
)

delete_all-IsConsistent :
    (kinds : List TokenKind) (tokens : List Text) {s : MemoryStore}
    → IsConsistent s
    → IsConsistent (delete_all kinds tokens s)
unfolding delete_all delete_one
delete_all-IsConsistent kinds [] h = h
delete_all-IsConsistent kinds (token ∷ rest) {s} h =
    delete_all-IsConsistent kinds rest (one (token_at s token))
  where
    one :
        (o : Option TokenItem)
        → IsConsistent (elim o [
          | none ↦ s
          | some item ↦ if match_kind item.state.kind kinds then delete_token token s else s
        ])
    one none = h
    one (some item) = elim (Bool-cases (match_kind item.state.kind kinds)) [
      | inl e ↦ rw e (delete_token-IsConsistent token h)
      | inr e ↦ rw e h
    ]

pub delete_states-IsConsistent :
    (subject : LoginSubject) (kinds : List TokenKind) (r : Reading) {s : MemoryStore}
    → IsConsistent s
    → Ends IsConsistent (delete_states subject kinds r s)
unfolding delete_states
delete_states-IsConsistent subject kinds r h =
    search (ends_rules, delete_all-IsConsistent kinds _ h)
