-- ===== src/Run.antt =====
-- The world that the manager's methods run in, and actions on it.
--
-- An action works on the state of the store, the events published so far, and an environment that
-- answers the n-th question that the code puts to it. Each reading of the clock and each call of
-- the store is one question, so clocks may run in any way between two readings and a context may
-- end at any call.
pub mod Inversion
use better_token.Base.{ℕ, suc, Bool, true, false, Option, none, some, List, [], ◌∷◌, ◌++◌}
use better_token.Text.{Text}
use better_token.Time.{Time}
use better_token.Errors.{Error, Result, ok, err}
use better_token.State.{LoginSubject}
use better_token.Store.{Op}
use better_token.Event.{EventType, Event}

-- The answers to one question: two readings of the clock, the errors of the caller's context and
-- of a context that is detached from it, and what `rand.RandomString` returns for a length.
pub record Moment : Type 0 where
  pub now : Time
  pub later : Time
  pub ctx_err : Option Error
  pub detached_err : Option Error
  pub random_string : ℕ → Result Text

pub record World (S : Type 0) : Type 0 where
  pub store : S
  pub events : List Event
  pub env : ℕ → Moment
  pub step : ℕ

abbrev pub M : Type 0 → Type 0 → Type 0
M S A = World S → Result A × World S

-- The context of a call: the caller's, or one of `context.WithoutCancel`.
pub data Ctx : Type 0 where
  caller detached : Ctx

abbrev ctx_error : Ctx → Moment → Option Error
ctx_error caller t = t.ctx_err
ctx_error detached t = t.detached_err

module _ {S : Type 0} where
  abbrev pub moment : World S → Moment
  moment w = w.env w.step

  abbrev pub tick : World S → World S
  tick w = record w { step = suc w.step }

  module _ {A : Type 0} where
    unfoldable pub pure : A → M S A
    pure a w = (ok a, w)

    unfoldable pub raise : Error → M S A
    raise e w = (err e, w)

    -- A call of the store.
    unfoldable pub call_in : Ctx → Op S A → M S A
    call_in ctx op w =
        let t = moment w in
        let done =
          op (record { now = t.now; later = t.later; ctx_err = ctx_error ctx t }) w.store in
        (done.0, record w { store = done.1; step = suc w.step })

    unfoldable pub call : Op S A → M S A
    unfolding call_in
    call = call_in caller

    -- `_ = f()`: the error is dropped.
    unfoldable pub attempt : M S A → M S Unit
    attempt m w = (ok tt, (m w).1)

    -- `if err != nil { _ = cleanup(); return err }`
    abbrev pub cleaned : M S Unit → Result A × World S → Result A × World S
    cleaned cleanup (ok a, w) = (ok a, w)
    cleaned cleanup (err e, w) = (err e, (cleanup w).1)

    unfoldable pub or_cleanup : M S A → M S Unit → M S A
    or_cleanup m cleanup w = cleaned cleanup (m w)

  module _ {A B : Type 0} where
    abbrev pub continue : (A → M S B) → Result A × World S → Result B × World S
    continue f (ok a, w) = f a w
    continue f (err e, w) = (err e, w)

    infixl 5 ◌>>=◌
    unfoldable pub ◌>>=◌ : M S A → (A → M S B) → M S B
    ◌>>=◌ m f w = continue f (m w)

    infixl 5 ◌>>◌
    unfoldable pub ◌>>◌ : M S A → M S B → M S B
    unfolding ◌>>=◌
    m >> k = m >>= λ _. k

  -- if b { return err }
  unfoldable pub fail_if : Bool → Error → M S Unit
  unfolding pure raise
  fail_if true e = raise e
  fail_if false e = pure tt

  unfoldable pub when : Bool → M S Unit → M S Unit
  unfolding pure
  when true m = m
  when false m = pure tt

  -- m.now()
  unfoldable pub now : M S Time
  now w = (ok (moment w).now, tick w)

  -- ctxErr
  unfoldable pub check_ctx : M S Unit
  check_ctx w = elim (moment w).ctx_err [ none ↦ (ok tt, tick w) | some e ↦ (err e, tick w) ]

  -- RandomString
  unfoldable pub random_string : ℕ → M S Text
  random_string n w = ((moment w).random_string n, tick w)

  -- Manager.publish: no method sets the time of an event.
  unfoldable pub publish : EventType → LoginSubject → Text → Option Text → M S Unit
  publish kind subject token device w = (
    ok tt,
    record (tick w) {
      events =
          w.events
          ++ record {
            kind = kind;
            login_id = subject.login_id;
            login_type = subject.login_type;
            token = token;
            time = (moment w).now;
            device = device;
          }
            ∷ [];
    },
  )
