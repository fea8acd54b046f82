-- ===== src/Manager/Authorities/Laws.antt =====
-- core/manager.go: what `CheckAll` and `CheckAny` decide.
use better_token.Base.{
  ◌⊎◌, ◌≡◌, refl, true, Option, none, some, List, [], ◌∷◌, inl, inr, Bool-cases,
}
use better_token.Errors.{Error, Result, ok, err, Authority, is_authority_denied}
use better_token.Context.{AuthContext}
use better_token.Manager.{AuthorizerOps}
use better_token.Manager.Authorities.{check_authority, check_all, check_any_from, check_any}

module _ (a : AuthorizerOps) (ctx_err : Option Error) (auth : Option AuthContext) where
  abbrev check : Authority → Result (Unit {0})
  check = check_authority a ctx_err auth

  -- Each authority of the list passes.
  abbrev pub AllPass : List Authority → Type 0
  AllPass [] = Unit
  AllPass (authority ∷ rest) = (check authority ≡ ok tt) × AllPass rest

  -- Some authority of the list passes, and each one before it is denied.
  abbrev pub Passes : List Authority → Type 0
  Passes [] = ⊥
  Passes (authority ∷ rest) =
      (check authority ≡ ok tt)
      ⊎ ((e : Error) × (check authority ≡ err e) × (is_authority_denied e ≡ true) × Passes rest)

  result-cases : (r : Result (Unit {0})) → (r ≡ ok tt) ⊎ ((e : Error) × (r ≡ err e))
  result-cases (ok tt) = inl refl
  result-cases (err e) = inr (e, refl)

  all-to :
      (authorities : List Authority)
      → check_all a ctx_err auth authorities ≡ ok tt
      → AllPass authorities
  unfolding check_all
  all-to [] h = tt
  all-to (authority ∷ rest) h = elim (result-cases (check authority)) [
    | inl p ↦ (p, all-to rest (let f = rw (p, check_all) at h in f))
    | inr (e, p) ↦ absurd (let f = rw (p, check_all) at h in cc)
  ]

  all-from :
      (authorities : List Authority)
      → AllPass authorities
      → check_all a ctx_err auth authorities ≡ ok tt
  unfolding check_all
  all-from [] h = refl
  all-from (authority ∷ rest) (p, h) = rw (p, check_all) (all-from rest h)

  -- `CheckAll` succeeds exactly where every authority of the list passes.
  pub check_all-AllPass :
      (authorities : List Authority)
      → (check_all a ctx_err auth authorities ≡ ok tt → AllPass authorities)
        × (AllPass authorities → check_all a ctx_err auth authorities ≡ ok tt)
  check_all-AllPass authorities = (all-to authorities, all-from authorities)

  any-to :
      (last : Option Error) (authorities : List Authority)
      → check_any_from a ctx_err auth last authorities ≡ ok tt
      → Passes authorities
  unfolding check_any_from
  any-to last [] h = absurd (cc)
  any-to last (authority ∷ rest) h = elim (result-cases (check authority)) [
    | inl p ↦ inl p
    | inr (e, p) ↦
        let f = rw (p, check_any_from) at h in
        elim (Bool-cases (is_authority_denied e)) [
          | inl d ↦ inr (e, p, d, any-to (some e) rest (let g = rw d at f in g))
          | inr d ↦ absurd (let g = rw d at f in cc)
        ]
  ]

  any-from :
      (last : Option Error) (authorities : List Authority)
      → Passes authorities
      → check_any_from a ctx_err auth last authorities ≡ ok tt
  unfolding check_any_from
  any-from last [] h = absurd h
  any-from last (authority ∷ rest) (inl p) = rw (p, check_any_from)
  any-from last (authority ∷ rest) (inr (e, p, d, h)) =
      rw (p, check_any_from) (rw d (any-from (some e) rest h))

  -- `CheckAny` succeeds exactly where some authority of the list passes and each one before it is
  -- denied: another error ends the search.
  pub check_any-Passes :
      (authorities : List Authority)
      → (check_any a ctx_err auth authorities ≡ ok tt → Passes authorities)
        × (Passes authorities → check_any a ctx_err auth authorities ≡ ok tt)
  unfolding check_any
  check_any-Passes authorities = (any-to none authorities, any-from none authorities)
