-- ===== src/Run/Inversion.antt =====
-- What the success of a sequence of actions says of its first action.
use mathlib.Core.Path.{subst}
use better_token.Base.{◌≡◌, refl, sym, ap, ◌∙◌}
use better_token.Errors.{Result, ok, err}
use better_token.Run.{World, M, continue, ◌>>=◌, ◌>>◌}

-- The first action succeeded, and the rest went on from its value and its world.
pub record Went {S A B : Type 0} (m : M S A) (f : A → M S B) (w : World S) : Type 0 where
  pub value : A
  pub next : World S
  pub first : m w ≡ (ok value, next)
  pub rest : (m >>= f) w ≡ f value next

-- What holds of the value and the outcome of an action wherever it succeeds.
abbrev pub Post : {S B : Type 0} → (Result B × World S → B → Type 0) → M S B → Type 0
Post {S = S} {B = B} Q n = (w : World S) (b : B) → (n w).0 ≡ ok b → Q (n w) b

module _ {S A B : Type 0} where
  went :
      (m : M S A) (f : A → M S B) (w : World S) {b : B} (out : Result A × World S)
      → m w ≡ out
      → (continue f out).0 ≡ ok b
      → Went m f w
  unfolding ◌>>=◌
  went m f w (ok a, w') e h = record { value = a; next = w'; first = e; rest = rw e refl }
  went m f w (err x, w') e h = absurd (cc)

  pub bind-Went :
      (m : M S A) (f : A → M S B) (w : World S) {b : B} → ((m >>= f) w).0 ≡ ok b → Went m f w
  unfolding ◌>>=◌
  bind-Went m f w h = went m f w (m w) refl h

  -- A sequence ends as its last action does.
  pub bind-Post :
      (Q : Result B × World S → B → Type 0) (m : M S A) (f : A → M S B)
      → ((a : A) → Post Q (f a))
      → Post Q (m >>= f)
  bind-Post Q m f k w b e =
      let went = bind-Went m f w e in
      subst (λ (out : Result B × World S). Q out b) (sym went.rest)
        (k went.value went.next b (ap (λ (out : Result B × World S). out.0) (sym went.rest) ∙ e))

  pub then-Post :
      (Q : Result B × World S → B → Type 0) (m : M S A) (n : M S B) → Post Q n → Post Q (m >> n)
  unfolding ◌>>◌
  then-Post Q m n k = bind-Post Q m (λ a. n) (λ a. k)
