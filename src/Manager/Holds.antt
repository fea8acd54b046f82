-- ===== src/Manager/Holds.antt =====
-- Actions that keep a predicate of the store and return values with a property: one rule for each
-- way to build an action.
use better_token.Base.{Bool, true, false, Option, if◌then◌else◌}
use better_token.Text.{Text}
use better_token.Errors.{Error, Result, ok, err}
use better_token.State.{LoginSubject}
use better_token.Store.{Reading, Op}
use better_token.Event.{EventType}
use better_token.Run.{
  World, M, Ctx, pure, raise, call_in, call, attempt, or_cleanup, cleaned, continue, ◌>>=◌, ◌>>◌,
  fail_if, when, now, publish,
}

-- No property.
abbrev pub Any : {A : Type 0} → A → Type 0
Any a = Unit

-- What a result gives, if it is no error.
abbrev pub Gives : {A : Type 0} → (A → Type 0) → Result A → Type 0
Gives R (ok a) = R a
Gives R (err e) = Unit

pub record OpHolds {S A : Type 0} (P : S → Type 0) (R : A → Type 0) (op : Op S A) : Type 0 where
  pub keeps : (r : Reading) (s : S) → P s → P (op r s).1
  pub gives : (r : Reading) (s : S) → P s → Gives R (op r s).0

pub record Holds {S A : Type 0} (P : S → Type 0) (R : A → Type 0) (m : M S A) : Type 0 where
  pub keeps : (w : World S) → P w.store → P (m w).1.store
  pub gives : (w : World S) → P w.store → Gives R (m w).0

Gives-Any : {A : Type 0} (out : Result A) → Gives Any out
Gives-Any (ok a) = tt
Gives-Any (err e) = tt

-- An operation that keeps the predicate.
pub OpHolds-Any :
    {S A : Type 0} {P : S → Type 0} (op : Op S A)
    → ((r : Reading) (s : S) → P s → P (op r s).1)
    → OpHolds P Any op
OpHolds-Any op k = record { keeps = k; gives = λ r s h. Gives-Any (op r s).0 }

module _ {S A : Type 0} where
  cleaned-keeps :
      {P : S → Type 0} (cleanup : M S Unit)
      → Holds P Any cleanup
      → (out : Result A × World S) → P out.1.store
      → P (cleaned cleanup out).1.store
  cleaned-keeps cleanup l (ok a, w) h = h
  cleaned-keeps cleanup l (err e, w) h = l.keeps w h

  cleaned-Gives :
      (R : A → Type 0) (cleanup : M S Unit) (out : Result A × World S)
      → Gives R out.0
      → Gives R (cleaned cleanup out).0
  cleaned-Gives R cleanup (ok a, w) g = g
  cleaned-Gives R cleanup (err e, w) g = tt

module _ {S : Type 0} {P : S → Type 0} where
  module _ {A : Type 0} {R : A → Type 0} where
    pub Holds-pure : (a : A) → R a → Holds P R (pure a)
    unfolding pure
    Holds-pure a r = record { keeps = λ w h. h; gives = λ w h. r }

    pub Holds-raise : (e : Error) → Holds P R (raise e)
    unfolding raise
    Holds-raise e = record { keeps = λ w h. h; gives = λ w h. tt }

    pub Holds-call_in : (ctx : Ctx) (op : Op S A) → OpHolds P R op → Holds P R (call_in ctx op)
    unfolding call_in
    Holds-call_in ctx op o = record {
      keeps = λ w h. o.keeps _ w.store h;
      gives = λ w h. o.gives _ w.store h;
    }

    pub Holds-call : (op : Op S A) → OpHolds P R op → Holds P R (call op)
    unfolding call
    Holds-call op o = Holds-call_in Ctx.caller op o

    pub Holds-attempt : (m : M S A) → Holds P R m → Holds P Any (attempt m)
    unfolding attempt
    Holds-attempt m k = record { keeps = k.keeps; gives = λ w h. tt }

    pub Holds-if :
        (b : Bool) (m n : M S A) → Holds P R m → Holds P R n → Holds P R (if b then m else n)
    Holds-if true m n k l = k
    Holds-if false m n k l = l

    pub Holds-or_cleanup :
        (m : M S A) (cleanup : M S Unit)
        → Holds P R m
        → Holds P Any cleanup
        → Holds P R (or_cleanup m cleanup)
    unfolding or_cleanup
    Holds-or_cleanup m cleanup k l = record {
      keeps = λ w h. cleaned-keeps cleanup l (m w) (k.keeps w h);
      gives = λ w h. cleaned-Gives _ cleanup (m w) (k.gives w h);
    }

  module _ {A B : Type 0} {R : A → Type 0} {T : B → Type 0} where
    continue-keeps :
        (f : A → M S B)
        → ((a : A) → R a → Holds P T (f a))
        → (out : Result A × World S) → P out.1.store
        → Gives R out.0
        → P (continue f out).1.store
    continue-keeps f k (ok a, w) h g = (k a g).keeps w h
    continue-keeps f k (err e, w) h g = h

    continue-Gives :
        (f : A → M S B)
        → ((a : A) → R a → Holds P T (f a))
        → (out : Result A × World S) → P out.1.store
        → Gives R out.0
        → Gives T (continue f out).0
    continue-Gives f k (ok a, w) h g = (k a g).gives w h
    continue-Gives f k (err e, w) h g = tt

    pub Holds-bind :
        (m : M S A) (f : A → M S B)
        → Holds P R m
        → ((a : A) → R a → Holds P T (f a))
        → Holds P T (m >>= f)
    unfolding ◌>>=◌
    Holds-bind m f k l = record {
      keeps = λ w h. continue-keeps f l (m w) (k.keeps w h) (k.gives w h);
      gives = λ w h. continue-Gives f l (m w) (k.keeps w h) (k.gives w h);
    }

    pub Holds-then : (m : M S A) (n : M S B) → Holds P R m → Holds P T n → Holds P T (m >> n)
    unfolding ◌>>◌
    Holds-then m n k l = Holds-bind m (λ _. n) k (λ a r. l)

  pub Holds-fail_if : (b : Bool) (e : Error) → Holds P Any (fail_if {S = S} b e)
  unfolding fail_if
  Holds-fail_if true e = Holds-raise e
  Holds-fail_if false e = Holds-pure tt tt

  pub Holds-when : (b : Bool) (m : M S Unit) → Holds P Any m → Holds P Any (when b m)
  unfolding when
  Holds-when true m k = k
  Holds-when false m k = Holds-pure tt tt

  pub Holds-now : Holds P Any (now {S = S})
  unfolding now
  Holds-now = record { keeps = λ w h. h; gives = λ w h. tt }

  pub Holds-publish :
      (kind : EventType) (subject : LoginSubject) (token : Text) (device : Option Text)
      → Holds P Any (publish {S = S} kind subject token device)
  unfolding publish
  Holds-publish kind subject token device = record { keeps = λ w h. h; gives = λ w h. tt }

pub ruleset holds_rules = (
  Holds-pure, Holds-raise, Holds-call, Holds-call_in, Holds-attempt, Holds-if, Holds-or_cleanup,
  Holds-bind, Holds-then, Holds-fail_if, Holds-when, Holds-now, Holds-publish,
)
