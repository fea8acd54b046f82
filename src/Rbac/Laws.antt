-- ===== src/Rbac/Laws.antt =====
-- rbac/authorizer.go: assigning and revoking a role, as `HasAuthority` sees it.
use better_token.Base.{
  ◌≡◌, refl, Bool, true, false, none, [], ◌∷◌, arith, inl, inr, Option-cases, is_nil, is_some, ite,
  if◌then◌else◌, if_pos, if_neg,
}
use better_token.Base.Map
use better_token.Base.Map.{Map, Set, get-put, get-delete}
use better_token.Text.{Text, dec_text, trim_space}
use better_token.Errors.{ok, Authority, role}
use better_token.Rbac.{
  Rbac, members, put_or_drop, insert_member, remove_member, assign_role, revoke_role, holds,
  has_authority,
}

-- Whether the set of a key has a value.
abbrev pub is_member : Map Text (Set Text) → Text → Text → Bool
is_member m k v = is_some (Map.get dec_text v (members m k))

is_nil-get : (v : Text) (s : Set Text) → is_nil s ≡ true → Map.get dec_text v s ≡ none
unfolding Map.get
is_nil-get v [] h = refl
is_nil-get v (e ∷ s) h = ground arith

module _ (k v : Text) (m : Map Text (Set Text)) (k' v' : Text) where
  is_member-insert_member :
      is_member (insert_member k v m) k' v'
      ≡ ite (dec_text k k') (ite (dec_text v v') true (is_member m k' v')) (is_member m k' v')
  unfolding insert_member
  is_member-insert_member = ground (
    arith,
    get-put dec_text k k' (Map.put dec_text v tt (members m k)) m,
    get-put dec_text v v' tt (members m k),
  )

  is_member-put_or_drop :
      (s : Set Text)
      → is_member (put_or_drop k s m) k' v'
        ≡ ite (dec_text k k') (is_some (Map.get dec_text v' s)) (is_member m k' v')
  unfolding Map.get
  is_member-put_or_drop s =
      ground (arith, is_nil-get v' s, get-put dec_text k k' s m, get-delete dec_text k k' m)

  no_member : Map.get dec_text k m ≡ none → k ≡ k' → is_member m k' v' ≡ false
  unfolding Map.get
  no_member e p = rw (← p, e)

  is_member-remove_member :
      is_member (remove_member k v m) k' v'
      ≡ ite (dec_text k k') (ite (dec_text v v') false (is_member m k' v')) (is_member m k' v')
  unfolding remove_member
  is_member-remove_member = elim (Option-cases (Map.get dec_text k m)) [
    | inl e ↦
        rw (e, remove_member)
          (elim (dec_text k k') [
            | yes p ↦ rw (if_pos (dec_text k k') p, no_member e p) (ground arith)
            | no p ↦ rw (if_neg (dec_text k k') p)
          ])
    | inr (s, e) ↦
        rw (e, remove_member)
          (elim (dec_text k k') [
            | yes p ↦
                rw
                  (
                    is_member-put_or_drop (Map.delete dec_text v s),
                    if_pos (dec_text k k') p,
                    get-delete,
                  )
                  (rw (← p, e) (ground arith))
            | no p ↦ ground (arith, is_member-put_or_drop (Map.delete dec_text v s))
          ])
  ]

-- The role that a request asks for.
abbrev role_request : Text → Authority
role_request value = record { kind = role; value = value }

abbrev same_role : Text → Text → Text → Text → Bool
same_role user user' name name' =
    ite (dec_text user user') (ite (dec_text name name') true false) false

-- After `AssignRole` of a login id and a role that are not blank, `HasAuthority` finds the role for that
-- login id, and every other answer on a role stays as it was. Login ids and roles are compared without
-- the spaces around them.
pub has_authority-assign_role :
    (login_id name : Text) (a : Rbac) (user value : Text)
    → is_nil (trim_space login_id) ≡ false
    → is_nil (trim_space name) ≡ false
    → has_authority none (assign_role login_id name a) user (role_request value) ≡ (
        if same_role (trim_space login_id) (trim_space user) (trim_space name) (trim_space value)
        then ok true
        else has_authority none a user (role_request value))
unfolding has_authority holds assign_role
has_authority-assign_role login_id name a user value b c =
    rw (b, c)
      (ground (
        arith,
        is_member-insert_member (trim_space login_id) (trim_space name) a.user_roles
            (trim_space user) (trim_space value),
      ))

-- After `RevokeRole` of a login id and a role that are not blank, `HasAuthority` does not find the role
-- for that login id, and every other answer on a role stays as it was.
pub has_authority-revoke_role :
    (login_id name : Text) (a : Rbac) (user value : Text)
    → is_nil (trim_space login_id) ≡ false
    → is_nil (trim_space name) ≡ false
    → has_authority none (revoke_role login_id name a) user (role_request value) ≡ (
        if same_role (trim_space login_id) (trim_space user) (trim_space name) (trim_space value)
        then ok false
        else has_authority none a user (role_request value))
unfolding has_authority holds revoke_role
has_authority-revoke_role login_id name a user value b c =
    rw (b, c)
      (ground (
        arith,
        is_member-remove_member (trim_space login_id) (trim_space name) a.user_roles
            (trim_space user) (trim_space value),
      ))
