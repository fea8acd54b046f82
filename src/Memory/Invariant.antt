-- ===== src/Memory/Invariant.antt =====
-- Every operation of the store in memory keeps its tokens and its index in agreement.
use better_token.Base.{
  ◌≡◌, Bool, true, false, Option, none, some, arith, ite, inl, inr, Option-cases, Bool-cases,
  if_pos, if_neg, if◌then◌else◌, ◌∙◌,
}
use better_token.Base.Map
use better_token.Base.Map.{Set, keys, get-put, get-delete}
use better_token.Text.{Text, dec_text}
use better_token.Time.{Time, Duration}
use better_token.Errors.{Error, Result}
use better_token.State.{
  LoginSubject, dec_subject, normalize_subject, TokenKind, TokenState, normalize_state, subject_of,
  mark_consumed,
}
use better_token.Store.{Reading}
use better_token.Memory.{
  TokenItem, MemoryStore, item_expired, token_at, unless_ended, add_index, delete_token,
}
use better_token.Memory.Tokens.{
  install, unindex_old, save_state, compare_and_swap, reread, get_state, put_state, consume_state,
  consume_state_of_kind, delete_state,
}
use better_token.Memory.Index.{
  IsConsistent, is_indexed, is_indexed-add_index, is_indexed-remove_index,
  delete_token-IsConsistent,
}

-- The write of a save: the item, and the index of its subject alone.
pub token_at-install :
    (state : TokenState) (expires : Option Time) (s : MemoryStore) (k : Text)
    → token_at (install state expires s) k
      ≡ ite
          (dec_text state.token k)
          (some (record { state = state; expires_at = expires }))
          (token_at s k)
unfolding install add_index
token_at-install state expires s k =
    get-put dec_text state.token k (record { state = state; expires_at = expires }) s.tokens

is_indexed-unindex_old :
    (token k : Text) (key : LoginSubject) (s : MemoryStore)
    → IsConsistent s
    → is_indexed (unindex_old (token_at s token) token s) key k
      ≡ ite (dec_text token k) false (is_indexed s key k)
unfolding unindex_old
is_indexed-unindex_old token k key s h = elim (Option-cases (token_at s token)) [
  | inl e ↦ rw (e, unindex_old) (ground (arith, h.agrees key token))
  | inr (item, e) ↦
      rw (e, unindex_old)
        (ground (
          arith,
          h.agrees key token,
          is_indexed-remove_index (subject_of item.state) key token k s,
        ))
]

is_indexed-install :
    (state : TokenState) (expires : Option Time) (s : MemoryStore) (key : LoginSubject) (k : Text)
    → IsConsistent s
    → is_indexed (install state expires s) key k
      ≡ ite
          (dec_text state.token k)
          (ite (dec_subject (normalize_subject (subject_of state)) key) true false)
          (is_indexed s key k)
unfolding install
is_indexed-install state expires s key k h =
    let rest = unindex_old (token_at s state.token) state.token s in
    let item : TokenItem = record { state = state; expires_at = expires } in
    ground (
      arith,
      is_indexed-add_index (subject_of state) key state.token k
          (record rest { tokens = Map.put dec_text state.token item s.tokens }),
      is_indexed-unindex_old state.token k key s h,
    )

pub install-IsConsistent :
    (state : TokenState) (expires : Option Time) {s : MemoryStore}
    → IsConsistent s
    → IsConsistent (install state expires s)
install-IsConsistent state expires {s} h = record {
  agrees = λ subject k. ground (
    arith,
    is_indexed-install state expires s subject k h,
    token_at-install state expires s k,
    h.agrees subject k,
  );
  named = λ k item e. ground (arith, token_at-install state expires s k, h.named k item);
}

-- An operation that ends in a state with `P`, whatever it returns.
pub record Ends {A : Type 0} (P : MemoryStore → Type 0) (out : A × MemoryStore) : Type 0 where
  pub at : P out.1

module _ {P : MemoryStore → Type 0} where
  pub Ends-pair : {A : Type 0} (a : A) (s : MemoryStore) → P s → Ends P (a, s)
  Ends-pair a s h = record { at = h }

  pub Ends-if :
      {A : Type 0} (b : Bool) (x y : A × MemoryStore)
      → Ends P x
      → Ends P y
      → Ends P (if b then x else y)
  Ends-if true x y h k = h
  Ends-if false x y h k = k

  pub Ends-unless_ended :
      {A : Type 0} (c : Option Error) (s : MemoryStore) (rest : Result A × MemoryStore)
      → P s
      → Ends P rest
      → Ends P (unless_ended c s rest)
  Ends-unless_ended none s rest h k = k
  Ends-unless_ended (some e) s rest h k = record { at = h }

pub ruleset ends_rules = (Ends-pair, Ends-if, Ends-unless_ended)

pub save_state-IsConsistent :
    (expected state : Option TokenState) (ttl : Duration) (r : Reading) {s : MemoryStore}
    → IsConsistent s
    → Ends IsConsistent (save_state expected state ttl r s)
unfolding save_state
save_state-IsConsistent expected none ttl r {s} h = search ends_rules
save_state-IsConsistent expected (some state) ttl r {s} h =
    search (ends_rules, install-IsConsistent (normalize_state state)) depth 8

pub compare_and_swap-IsConsistent :
    (expected next : TokenState) (ttl : Duration) (r : Reading) {s : MemoryStore}
    → IsConsistent s
    → Ends IsConsistent (compare_and_swap (some expected) (some next) ttl r s)
unfolding compare_and_swap
compare_and_swap-IsConsistent expected next ttl r {s} h =
    elim (dec_text expected.token next.token) [
      | yes p ↦
          rw (if_pos (dec_text expected.token next.token) p)
            (record { at = (save_state-IsConsistent (some expected) (some next) ttl r h).at })
      | no p ↦ rw (if_neg (dec_text expected.token next.token) p) (record { at = h })
    ]

-- The second look of a read finds what the first one found.
pub reread_expired :
    (token : Text) (now : Time) (s : MemoryStore) {item : TokenItem}
    → token_at s token ≡ some item
    → item_expired item now ≡ true
    → reread token now s ≡ (none, delete_token token s)
unfolding reread
reread_expired token now s e x = rw (e, reread) (rw x)

pub get_state-IsConsistent :
    (token : Text) (r : Reading) {s : MemoryStore}
    → IsConsistent s
    → Ends IsConsistent (get_state token r s)
unfolding get_state
get_state-IsConsistent token r {s} h = elim (Option-cases (token_at s token)) [
  | inl e ↦ rw e (search ends_rules)
  | inr (item, e) ↦ rw e (elim (Bool-cases (item_expired item r.now)) [
    | inl x ↦
        rw (x, reread_expired token r.now s e x) (search (ends_rules, delete_token-IsConsistent))
    | inr x ↦ rw x (search ends_rules)
  ])
]

put_state-IsConsistent :
    (token : Text) (item : TokenItem) (now : Time) {s : MemoryStore}
    → token_at s token ≡ some item
    → IsConsistent s
    → IsConsistent (put_state token item (mark_consumed now item.state) s)
unfolding mark_consumed
put_state-IsConsistent token item now {s} e h = record {
  agrees = λ subject k. rw get-put (elim (dec_text token k) [
    | yes p ↦ rw (if_pos _ p) (h.agrees subject k ∙ rw (← p, e))
    | no p ↦ rw (if_neg _ p) (h.agrees subject k)
  ]);
  named = λ k found f. ground (
    arith,
    get-put dec_text token k (record item { state = mark_consumed now item.state }) s.tokens,
    h.named k found,
    h.named token item,
  );
}

pub consume_state-IsConsistent :
    (token : Text) (kind : Option TokenKind) (r : Reading) {s : MemoryStore}
    → IsConsistent s
    → Ends IsConsistent (consume_state token kind r s)
unfolding consume_state
consume_state-IsConsistent token kind r {s} h = elim (Option-cases (token_at s token)) [
  | inl e ↦ rw e (search ends_rules)
  | inr (item, e) ↦ rw e (
      search
        (ends_rules, delete_token-IsConsistent token h, put_state-IsConsistent token item r.now e h)
        depth 8)
]

pub consume_state_of_kind-IsConsistent :
    (token : Text) (kind : TokenKind) (r : Reading) {s : MemoryStore}
    → IsConsistent s
    → Ends IsConsistent (consume_state_of_kind token kind r s)
unfolding consume_state_of_kind
consume_state_of_kind-IsConsistent token TokenKind.unset r h = search ends_rules
consume_state_of_kind-IsConsistent token kind r h = consume_state-IsConsistent token (some kind) r h

pub delete_state-IsConsistent :
    (token : Text) (r : Reading) {s : MemoryStore}
    → IsConsistent s
    → Ends IsConsistent (delete_state token r s)
unfolding delete_state
delete_state-IsConsistent token r h = search (ends_rules, delete_token-IsConsistent)
