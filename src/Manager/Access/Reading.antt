-- ===== src/Manager/Access/Reading.antt =====
-- core/manager.go: which tokens `getTokenState` accepts, over any store, and whose state it returns.
use better_token.Base.{
  suc, ◌≡◌, ◌&&◌, ite, refl, Bool, true, false, not, Option, none, some, arith, inl, inr,
  Bool-cases, is_nil,
}
use better_token.Text.{Text, trim_space}
use better_token.Time.{Time}
use better_token.Errors.{Error, Result, ok, err, token_invalid}
use better_token.State.{
  TokenKind, TokenState, default_kind, or_default, default_login_type, dec_kind, normalize_state,
  default_status, is_active_status, is_expired_at,
}
use better_token.Store.{Reading}
use better_token.Run.{
  World, Ctx, moment, continue, pure, raise, call_in, call, attempt, fail_if, now, ◌>>=◌, ◌>>◌,
}
use better_token.Manager.{Manager, store_key}
use better_token.Run.Inversion.{Post, bind-Post, then-Post}
use better_token.Manager.Access.{
  read_token_state, check_state, live_state, drop_expired, auto_renew, renewed,
}

-- A state that may be accepted at a time: its status is active, or unset, and it has not expired.
pub record IsUsable (t : Time) (found : TokenState) : Type 0 where
  pub active : is_active_status (default_status found.status) ≡ true
  pub unexpired : is_expired_at found.expires_at t ≡ false

abbrev pub Usable : Time → Option TokenState → Type 0
Usable t none = ⊥
Usable t (some found) = IsUsable t found

abbrev pub reading : {S : Type 0} → World S → Reading
reading w = record { now = (moment w).now; later = (moment w).later; ctx_err = (moment w).ctx_err }

module _ {S : Type 0} (m : Manager S) where
  check_state-Usable :
      (key : Text) (renew : Bool) (found : Option TokenState) (w : World S) {state : TokenState}
      → (check_state m key renew found w).0 ≡ ok state
      → Usable (moment w).now found
  unfolding check_state live_state drop_expired ◌>>=◌ ◌>>◌ raise pure fail_if now normalize_state
      attempt
  check_state-Usable key renew none w e = absurd (cc)
  check_state-Usable key renew (some found) w e = record {
    active = ground arith;
    unexpired = ground arith;
  }

  abbrev pub key : Text → Text
  key token = store_key m (trim_space token)

  -- The world after the store has answered, and its answer.
  abbrev asked : Text → World S → Result (Option TokenState) × World S
  asked token w = call_in Ctx.caller (m.store.get_token_state (key token)) w

  checked-Usable :
      (token : Text) (renew : Bool) (out : Result (Option TokenState) × World S)
      {state : TokenState}
      → (continue (check_state m (key token) renew) out).0 ≡ ok state
      → (found : Option TokenState) × (out.0 ≡ ok found) × Usable (moment out.1).now found
  checked-Usable token renew (ok found, w) e =
      (found, refl, check_state-Usable (key token) renew found w e)
  checked-Usable token renew (err x, w) e = absurd (cc)

  some-Usable :
      {t : Time} {answer : Result (Option TokenState)}
      → (found : Option TokenState) × (answer ≡ ok found) × Usable t found
      → (found : TokenState) × (answer ≡ ok (some found)) × IsUsable t found
  some-Usable (none, e, u) = absurd u
  some-Usable (some found, e, u) = (found, e, u)

  -- A token is accepted only where its digest names a stored state whose status is active or unset and
  -- which has not expired at the reading of the clock after the store's answer.
  pub read_token_state_sound :
      (token : Text) (renew : Bool) (w : World S) {state : TokenState}
      → (read_token_state m token renew w).0 ≡ ok state
      → (found : TokenState) × ((m.store.get_token_state (key token) (reading w) w.store).0
          ≡ ok (some found))
        × IsUsable (w.env (suc w.step)).now found
  unfolding read_token_state ◌>>=◌ ◌>>◌ raise pure fail_if call call_in
  read_token_state_sound token renew w e = elim (Bool-cases (is_nil (trim_space token))) [
    | inl b ↦ absurd (let f = rw b at e in cc)
    | inr b ↦ some-Usable (checked-Usable token renew (asked token w) (let f = rw b at e in f))
  ]

-- A state that says the same of its holder as a stored one, whose unset fields stand for their defaults.
pub record Carries (found state : TokenState) : Type 0 where
  pub kind : state.kind ≡ default_kind found.kind
  pub login_id : state.login_id ≡ found.login_id
  pub login_type : state.login_type ≡ or_default found.login_type default_login_type
  pub device : state.device ≡ found.device
  pub metadata : state.metadata ≡ found.metadata

normalize_state-Carries : (found : TokenState) → Carries found (normalize_state found)
unfolding normalize_state
normalize_state-Carries found = record {
  kind = refl;
  login_id = refl;
  login_type = refl;
  device = refl;
  metadata = refl;
}

module _ {S : Type 0} (m : Manager S) (found : TokenState) where
  abbrev Carried : Result TokenState × World S → TokenState → Type 0
  Carried out state = Carries found state

  pure-Carried : (state : TokenState) → Carries found state → Post Carried (pure {S = S} state)
  unfolding pure
  pure-Carried state h w b e = let p : state ≡ b = cc in rw (← p) h

  renewed-Carries :
      (t : Time) (state : TokenState) → Carries found state → Carries found (renewed m t state)
  unfolding renewed
  renewed-Carries t state h = record {
    kind = ground (arith, h.kind);
    login_id = ground (arith, h.login_id);
    login_type = ground (arith, h.login_type);
    device = ground (arith, h.device);
    metadata = ground (arith, h.metadata);
  }

  auto_renew-Carried :
      (t : Time) (state : TokenState) → Carries found state → Post Carried (auto_renew m t state)
  unfolding auto_renew
  auto_renew-Carried t state h =
      search (then-Post Carried, bind-Post Carried, pure-Carried, renewed-Carries t state h) depth
        12

  raise-Carried : (x : Error) → Post Carried (raise {S = S} x)
  unfolding raise
  raise-Carried x w b e = absurd (cc)

  drop_expired-Carried : (k : Text) → Post Carried (drop_expired m k)
  unfolding drop_expired
  drop_expired-Carried k = search (then-Post Carried, raise-Carried) depth 12

  live_state-Carried :
      (k : Text) (renew : Bool) (state : TokenState) (t : Time)
      → Carries found state
      → Post Carried (live_state m k renew state t)
  unfolding live_state
  live_state-Carried k renew state t h = elim (Bool-cases (is_expired_at state.expires_at t)) [
    | inl x ↦ rw x (drop_expired-Carried k)
    | inr x ↦
        elim (Bool-cases
          (renew && m.config.auto_renew && ite (dec_kind state.kind TokenKind.access) true false)) [
            | inl r ↦ rw (x, r) (auto_renew-Carried t state h)
            | inr r ↦ rw (x, r) (pure-Carried state h)
          ]
  ]

  check_state-Carried :
      (k : Text) (renew : Bool) → Post Carried (check_state m k renew (some found))
  unfolding check_state
  check_state-Carried k renew =
      let live = live_state m k renew (normalize_state found) in
      then-Post Carried
        (fail_if (not (is_active_status (normalize_state found).status)) token_invalid)
        (now >>= live)
        (bind-Post Carried now live (λ t.
          live_state-Carried k renew (normalize_state found) t (normalize_state-Carries found)))

  continued-Carries :
      (token : Text) (renew : Bool) (out : Result (Option TokenState) × World S)
      {state : TokenState}
      → out.0 ≡ ok (some found)
      → (continue (check_state m (key m token) renew) out).0 ≡ ok state
      → Carries found state
  continued-Carries token renew (err x, w) p e = absurd (cc)
  continued-Carries token renew (ok none, w) p e = absurd (cc)
  continued-Carries token renew (ok (some other), w) {state} p e =
      let q : other ≡ found = cc in check_state-Carried (key m token) renew w state (rw q at e)

  -- What is read of a token is said of the holder of the state that is stored for it.
  pub read_token_state-Carries :
      (token : Text) (renew : Bool) (w : World S) {state : TokenState}
      → (m.store.get_token_state (key m token) (reading w) w.store).0 ≡ ok (some found)
      → (read_token_state m token renew w).0 ≡ ok state
      → Carries found state
  unfolding read_token_state ◌>>=◌ ◌>>◌ raise pure fail_if call call_in
  read_token_state-Carries token renew w p e = elim (Bool-cases (is_nil (trim_space token))) [
    | inl b ↦ absurd (let f = rw b at e in cc)
    | inr b ↦ continued-Carries token renew (asked m token w) p (let f = rw b at e in f)
  ]
