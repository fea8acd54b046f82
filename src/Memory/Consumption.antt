-- ===== src/Memory/Consumption.antt =====
-- storage/memory/store.go: what `ConsumeTokenState` and `ConsumeTokenStateOfKind` do, case by case.
use mathlib.Core.Option
use better_token.Base.{
  if_pos, if_neg, ◌≡◌, refl, ◌∙◌, Bool, ◌⊎◌, inl, inr, true, false, Option, none, some, Bool-cases,
}
use better_token.Text.{Text, dec_text}
use better_token.Time.{Time}
use better_token.Errors.{Result, ok}
use better_token.State.{TokenKind, TokenState, dec_kind, is_active, mark_consumed}
use better_token.Store.{Reading}
use better_token.Memory.{TokenItem, MemoryStore, item_expired, token_at}
use better_token.Memory.Tokens.{consume_state, wanted}
use better_token.Memory.Effects.{
  live_at, unexpired, state_of, consumed_item, consume_state-result, token_at-consume_state,
}

-- A consumption of any kind, or of one, is about a token of a kind.
abbrev pub Covers : Option TokenKind → TokenKind → Type 0
Covers none kind = Unit
Covers (some k) kind = kind ≡ k

-- A consumption of a token at a time, of a kind or of any: the item that was stored for the token, the
-- answer, and the item that is stored then.
pub data Consumption (kind : Option TokenKind) (now : Time) (before : Option TokenItem)
    (answer : Result (Option TokenState)) (after : Option TokenItem) : Type 0 where
  missing :
      before ≡ none → answer ≡ ok none → after ≡ none → Consumption kind now before answer after
  dropped :
      (item : TokenItem)
      → before ≡ some item
      → item_expired item now ≡ true
      → answer ≡ ok none
      → after ≡ none
      → Consumption kind now before answer after
  marked :
      (item : TokenItem)
      → before ≡ some item
      → item_expired item now ≡ false
      → is_active item.state now ≡ true
      → Covers kind item.state.kind
      → answer ≡ ok (some item.state)
      → after ≡ some (record item { state = mark_consumed now item.state })
      → Consumption kind now before answer after
  kept :
      (item : TokenItem)
      → before ≡ some item
      → item_expired item now ≡ false
      → (is_active item.state now ≡ false) ⊎ ¬ Covers kind item.state.kind
      → answer ≡ ok (some item.state)
      → after ≡ some item
      → Consumption kind now before answer after

wanted_yes :
    (wants : Option TokenKind) (kind : TokenKind) → wanted wants kind ≡ true → Covers wants kind
wanted_yes none kind e = tt
wanted_yes (some k) kind e = elim (dec_kind kind k) [
  | yes p ↦ p
  | no p ↦ absurd (let f = if_neg {C = Bool} (dec_kind kind k) p true false in cc)
]

wanted_no :
    (wants : Option TokenKind) (kind : TokenKind) → wanted wants kind ≡ false → ¬ Covers wants kind
wanted_no none kind e h = absurd (cc)
wanted_no (some k) kind e h =
    absurd (let f = if_pos {C = Bool} (dec_kind kind k) h true false in cc)

module _ {kind : Option TokenKind} {now : Time} {answer : Result (Option TokenState)}
    {after : Option TokenItem} where
  classified :
      (before : Option TokenItem)
      → answer ≡ ok (state_of (unexpired now before))
      → after ≡ Option.map (consumed_item kind now) (unexpired now before)
      → Consumption kind now before answer after
  classified none a b = missing refl a b
  classified (some item) a b = elim (Bool-cases (item_expired item now)) [
    | inl x ↦ dropped item refl x (rw x at a) (rw x at b)
    | inr x ↦ elim (Bool-cases (is_active item.state now)) [
      | inr y ↦ kept item refl x (inl y) (rw x at a) (rw (x, y) at b)
      | inl y ↦ elim (Bool-cases (wanted kind item.state.kind)) [
        | inr z ↦
            kept item refl x (inr (wanted_no kind item.state.kind z)) (rw x at a)
              (rw (x, y, z) at b)
        | inl z ↦
            marked item refl x y (wanted_yes kind item.state.kind z) (rw x at a) (rw (x, y, z) at b)
      ]
    ]
  ]

-- In a context that has not ended, a consumption of a token that is stored and has not expired answers
-- its state as it was before, as the comment on ConsumeTokenState promises; it marks the state consumed
-- where it is active and of the kind, and keeps the item otherwise. A token that has expired is dropped,
-- and answered like one that is not stored, where that comment promises its snapshot. No other token
-- changes.
pub consume_state-Consumption :
    (token : Text) (kind : Option TokenKind) (r : Reading) (s : MemoryStore) (k : Text)
    → r.ctx_err ≡ none
    → Consumption kind r.now
        (token_at s token)
        (consume_state token kind r s).0
        (token_at (consume_state token kind r s).1 token)
      × ((token ≡ k) ⊎ (token_at (consume_state token kind r s).1 k ≡ token_at s k))
unfolding live_at
consume_state-Consumption token kind r s k c = (
  classified (token_at s token) (consume_state-result token kind r s c) (
      token_at-consume_state token kind r s token c
      ∙ if_pos {C = Option TokenItem} (dec_text token token) refl
          (Option.map (consumed_item kind r.now) (unexpired r.now (token_at s token)))
          (token_at s token)),
  elim (dec_text token k) [
    | yes p ↦ inl p
    | no p ↦ inr (
        token_at-consume_state token kind r s k c
        ∙ if_neg {C = Option TokenItem} (dec_text token k) p
            (Option.map (consumed_item kind r.now) (unexpired r.now (token_at s token)))
            (token_at s k))
  ],
)
