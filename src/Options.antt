-- ===== src/Options.antt =====
-- pkg/option/option.go: options are functions on the value that they set up, and a nil one is
-- skipped.
use better_token.Base.{Option, none, some, List, [], ◌∷◌}
use better_token.Errors.{Result, ok, err}

module _ {ℓ} {T : Type ℓ} where
  -- Apply
  unfoldable pub apply : T → List (Option (T → T)) → T
  apply t [] = t
  apply t (none ∷ opts) = apply t opts
  apply t (some opt ∷ opts) = apply (opt t) opts

  -- ApplyErr: what an option wrote before the error stays written.
  unfoldable pub apply_err : T → List (Option (T → Result (Unit {0}) × T)) → Result (Unit {0}) × T
  apply_err t [] = (ok tt, t)
  apply_err t (none ∷ opts) = apply_err t opts
  apply_err t (some opt ∷ opts) =
      let (r, t') = opt t in elim r [ ok u ↦ apply_err t' opts | err e ↦ (err e, t') ]
