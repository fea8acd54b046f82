-- ===== src/Rbac/Listing.antt =====
-- rbac/authorizer.go: what GetAuthorities lists, and that HasAuthority grants exactly what follows from
-- the list.
use better_token.Base.{
  ◌≡◌, refl, sym, ap, Bool, true, false, none, List, [], ◌∷◌, ite, is_nil, is_some, arith, if_neg,
  All, inl, inr, Bool-cases,
}
use better_token.Base.Map
use better_token.Base.Map.{Map, Set, keys}
use better_token.Text.{Text, dec_text, trim_space, trim_left, trim_right, before_star}
use better_token.Errors.{ok, Authority, AuthorityType}
use better_token.Authorizer.{value_matches}
use better_token.Rbac.{
  Rbac, members, holds, any_value_matches, any_role_matches, has_authority, listed_of,
  get_authorities,
}
use better_token.Rbac.Passes.{any_passes, any_permission, any_of_roles, any_passes-listed_of}

-- What a listed authority grants of a request.
abbrev pub kind_grants : AuthorityType → AuthorityType → Text → Text → Bool
kind_grants AuthorityType.permission AuthorityType.permission c v = value_matches c v
kind_grants AuthorityType.role AuthorityType.role c v = ite (dec_text c v) true false
kind_grants requested kind c v = false

abbrev pub grants : Authority → Authority → Bool
grants requested a = kind_grants requested.kind a.kind a.value requested.value

-- The values that a user's authorities come from have no spaces around them, as the methods store them.
abbrev AllTrimmed : List Text → Type 0
AllTrimmed values = All (λ value. trim_space value ≡ value) values

pub record IsTrimmed (a : Rbac) (user : Text) : Type 0 where
  pub roles : AllTrimmed (keys (members a.user_roles user))
  pub of_roles : (name : Text) → AllTrimmed (keys (members a.role_permissions name))
  pub direct : AllTrimmed (keys (members a.direct_permissions user))

module _ (v : Text) (trimmed : trim_space v ≡ v) (some_value : is_nil v ≡ false) where
  abbrev permission_of : Authority
  permission_of = record { kind = AuthorityType.permission; value = v }

  abbrev role_of : Authority
  role_of = record { kind = AuthorityType.role; value = v }

  blank_value :
      (c : Text)
      → is_nil c ≡ true
      → (value_matches c v ≡ false) × (ite {C = Bool} (dec_text c v) true false ≡ false)
  unfolding value_matches trim_space trim_left trim_right before_star
  blank_value (x ∷ c) n = absurd (cc)
  blank_value [] n =
      let ne : ([] ≡ v) → ⊥ = λ e. absurd (let f = rw (← e) at some_value in cc) in
      (
        rw trimmed (if_neg {C = Bool} (dec_text [] v) ne true false),
        if_neg {C = Bool} (dec_text [] v) ne true false,
      )

  blank_grants :
      (requested kind : AuthorityType) (c : Text)
      → is_nil c ≡ true
      → kind_grants requested kind c v ≡ false
  blank_grants AuthorityType.permission AuthorityType.permission c n = (blank_value c n).0
  blank_grants AuthorityType.permission AuthorityType.role c n = refl
  blank_grants AuthorityType.permission (AuthorityType.other k) c n = refl
  blank_grants AuthorityType.role AuthorityType.permission c n = refl
  blank_grants AuthorityType.role AuthorityType.role c n = (blank_value c n).1
  blank_grants AuthorityType.role (AuthorityType.other k) c n = refl
  blank_grants (AuthorityType.other m) AuthorityType.permission c n = refl
  blank_grants (AuthorityType.other m) AuthorityType.role c n = refl
  blank_grants (AuthorityType.other m) (AuthorityType.other k) c n = refl

  permission_blank : (a : Authority) → is_nil a.value ≡ true → grants permission_of a ≡ false
  permission_blank a n = blank_grants AuthorityType.permission a.kind a.value n

  role_blank : (a : Authority) → is_nil a.value ≡ true → grants role_of a ≡ false
  role_blank a n = blank_grants AuthorityType.role a.kind a.value n

  permission-values :
      (values : List Text)
      → AllTrimmed values
      → any_permission (grants permission_of) values ≡ any_value_matches values v
  unfolding any_value_matches
  permission-values [] t = refl
  permission-values (c ∷ values) (t, ts) = rw t (ground (arith, permission-values values ts))

  permission-roles :
      (a : Rbac) (names : List Text)
      → ((name : Text) → AllTrimmed (keys (members a.role_permissions name)))
      → any_of_roles (grants permission_of) permission_blank a names ≡ any_role_matches a names v
  unfolding any_role_matches
  permission-roles a [] t = refl
  permission-roles a (name ∷ names) t = ground (
    arith,
    permission-values (keys (members a.role_permissions name)) (t name),
    permission-roles a names t,
  )

  role-values : (values : List Text) → any_permission (grants role_of) values ≡ false
  role-values [] = refl
  role-values (c ∷ values) = role-values values

  role-roles :
      (a : Rbac) (roles : Set Text)
      → AllTrimmed (keys roles)
      → any_of_roles (grants role_of) role_blank a (keys roles) ≡ is_some (Map.get dec_text v roles)
  unfolding Map.get
  role-roles a [] t = refl
  role-roles a ((name, u) ∷ roles) (t, ts) =
      rw t (
        ground (arith, role-values (keys (members a.role_permissions name)), role-roles a roles ts))

  holds-listed_of :
      (a : Rbac) (user : Text) (kind : AuthorityType)
      → IsTrimmed a user
      → holds a user kind v
        ≡ any_passes (grants (record { kind = kind; value = v })) (listed_of a user)
  unfolding holds
  holds-listed_of a user AuthorityType.permission h = ground (
    arith,
    any_passes-listed_of (grants permission_of) permission_blank a user,
    permission-values (keys (members a.direct_permissions user)) h.direct,
    permission-roles a (keys (members a.user_roles user)) h.of_roles,
  )
  holds-listed_of a user AuthorityType.role h = ground (
    arith,
    any_passes-listed_of (grants role_of) role_blank a user,
    role-values (keys (members a.direct_permissions user)),
    role-roles a (members a.user_roles user) h.roles,
  )
  holds-listed_of a user (AuthorityType.other k) h = sym (never (listed_of a user))
    where
      never :
          (xs : List Authority)
          → any_passes (grants (record { kind = AuthorityType.other k; value = v })) xs ≡ false
      never [] = refl
      never (x ∷ xs) = rw (other_grants x.kind x.value) (never xs)
        where
          other_grants :
              (kind : AuthorityType) (c : Text)
              → kind_grants (AuthorityType.other k) kind c v ≡ false
          other_grants AuthorityType.permission c = refl
          other_grants AuthorityType.role c = refl
          other_grants (AuthorityType.other j) c = refl

-- Over values without spaces around them: HasAuthority grants an authority exactly where one that
-- GetAuthorities lists for the login id grants it, a role its own name and a permission what it matches.
pub has_authority-get_authorities :
    (a : Rbac) (login_id : Text) (requested : Authority) {listed : List Authority}
    → IsTrimmed a (trim_space login_id)
    → trim_space requested.value ≡ requested.value
    → is_nil requested.value ≡ false
    → get_authorities none a login_id ≡ ok listed
    → has_authority none a login_id requested ≡ ok (any_passes (grants requested) listed)
unfolding has_authority get_authorities
has_authority-get_authorities a login_id requested {listed} h t n e =
    elim (Bool-cases (is_nil (trim_space login_id))) [
      | inl u ↦
          let f : ok [] ≡ ok listed = rw u at e in let g : [] ≡ listed = cc in rw (u, ← g) refl
      | inr u ↦
          let f : ok (listed_of a (trim_space login_id)) ≡ ok listed = rw u at e in
          let g : listed_of a (trim_space login_id) ≡ listed = cc in
          rw (u, t, n, ← g)
            (ap ok (holds-listed_of requested.value t n a (trim_space login_id) requested.kind h))
    ]
