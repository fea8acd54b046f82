-- ===== src/Manager/Access/KickedOut.antt =====
-- core/manager.go over storage/memory/store.go: no access token of a subject stays after
-- `LogoutByLoginID`.
use mathlib.Core.Path.{subst}
use better_token.Base.{
  ◌≡◌, refl, sym, ap, Bool, true, false, Option, none, List, [], ◌∷◌, arith, is_nil, if◌then◌else◌,
  inl, inr, Bool-cases, Option-cases,
}
use better_token.Text.{Text, trim_space}
use better_token.Errors.{Result, ok}
use better_token.State.{LoginSubject, normalize_subject, TokenKind}
use better_token.Config.{Config}
use better_token.Event.{EventType}
use better_token.Options
use better_token.Store.{Reading}
use better_token.Memory.{TokenItem, MemoryStore, token_at}
use better_token.Memory.Index.{IsConsistent}
use better_token.Memory.Tokens.{delete_states, delete_all, indexed}
use better_token.Memory.Sessions.{delete_session}
use better_token.Memory.Subject.{is_selected, token_at-delete_all, delete_states-exact}
use better_token.Run.{World, M, pure, raise, call_in, call, fail_if, when, publish, ◌>>=◌, ◌>>◌}
use better_token.Run.Inversion.{bind-Went}
use better_token.Manager.{Manager, AuthorizerOps, revoke_refresh_except, revoke_refresh_for_subject}
use better_token.Manager.Holds.{
  Any, OpHolds, OpHolds-Any, Holds, Holds-pure, Holds-if, Holds-call, Holds-then, Holds-when,
  Holds-publish,
}
use better_token.Manager.OnMemory.{memory_manager, reading}
use better_token.Manager.Access.{logout_by_login_id}
use better_token.Manager.Access.Opts.{LogoutOptions, default_logout_options}

-- No stored token of the subject is of the kinds.
pub record IsRid (key : LoginSubject) (kinds : List TokenKind) (s : MemoryStore) : Type 0 where
  pub rid : (k : Text) → is_selected key kinds (token_at s k) ≡ false

ctx_of_delete_states :
    (subject : LoginSubject) (kinds : List TokenKind) (r : Reading) (s : MemoryStore)
    → (delete_states subject kinds r s).0 ≡ ok tt
    → r.ctx_err ≡ none
unfolding delete_states
ctx_of_delete_states subject kinds r s e = ground arith

-- A deletion that succeeds leaves none.
delete_states-rids :
    (subject : LoginSubject) (kinds : List TokenKind) (r : Reading) (s : MemoryStore)
    → IsConsistent s
    → (delete_states subject kinds r s).0 ≡ ok tt
    → IsRid (normalize_subject subject) kinds (delete_states subject kinds r s).1
delete_states-rids subject kinds r s h e = record {
  rid = λ k.
      rw (delete_states-exact subject kinds r k h (ctx_of_delete_states subject kinds r s e))
        (elim (Bool-cases (is_selected (normalize_subject subject) kinds (token_at s k))) [
          | inl x ↦ rw x refl
          | inr x ↦ rw x x
        ]);
}

module _ (key : LoginSubject) (kinds : List TokenKind) where
  rid-unless :
      (b : Bool) (o : Option TokenItem)
      → is_selected key kinds o ≡ false
      → is_selected key kinds (if b then none else o) ≡ false
  rid-unless true o h = refl
  rid-unless false o h = h

  delete_all-IsRid :
      (other : List TokenKind) (ts : List Text) {s : MemoryStore}
      → IsRid key kinds s
      → IsRid key kinds (delete_all other ts s)
  delete_all-IsRid other ts {s} h = record {
    rid = λ k. rw token_at-delete_all (rid-unless _ (token_at s k) (h.rid k));
  }

  delete_states-IsRid :
      (subject : LoginSubject) (other : List TokenKind) (r : Reading) (s : MemoryStore)
      → IsRid key kinds s
      → IsRid key kinds (delete_states subject other r s).1
  unfolding delete_states
  delete_states-IsRid subject other r s h = elim (Option-cases r.ctx_err) [
    | inl c ↦ rw c (delete_all-IsRid other (indexed (normalize_subject subject) s) h)
    | inr (e, c) ↦ rw c h
  ]

  tokens-delete_session :
      (subject : LoginSubject) (r : Reading) (s : MemoryStore)
      → (delete_session subject r s).1.tokens ≡ s.tokens
  unfolding delete_session
  tokens-delete_session subject r s = ground arith

  tokens-IsRid : {s u : MemoryStore} → u.tokens ≡ s.tokens → IsRid key kinds s → IsRid key kinds u
  tokens-IsRid e h = record { rid = λ k. rw e (h.rid k) }

module _ (config : Config) (authorizer : AuthorizerOps) (sha256_hex : Text → Text) where
  abbrev m : Manager MemoryStore
  m = memory_manager config authorizer sha256_hex

  abbrev ending : Bool → LoginSubject → M MemoryStore Unit
  ending session subject =
      revoke_refresh_for_subject m subject
      >> (when session (call (m.store.delete_session subject))
          >> publish EventType.kick_out subject [] none)

  module _ (key : LoginSubject) (kinds : List TokenKind) where
    deletes_of :
        (subject : LoginSubject) (other : List TokenKind)
        → OpHolds (IsRid key kinds) Any (m.store.delete_token_states subject other)
    deletes_of subject other =
        OpHolds-Any (m.store.delete_token_states subject other)
          (delete_states-IsRid key kinds subject other)

    deletes_session :
        (subject : LoginSubject) → OpHolds (IsRid key kinds) Any (m.store.delete_session subject)
    deletes_session subject =
        OpHolds-Any (m.store.delete_session subject)
          (λ r s h. tokens-IsRid key kinds (tokens-delete_session key kinds subject r s) h)

    revoke-Holds :
        (subject : LoginSubject)
        → Holds (IsRid key kinds) Any (revoke_refresh_for_subject m subject)
    unfolding revoke_refresh_for_subject revoke_refresh_except
    revoke-Holds subject = Holds-if _ _ _ (Holds-pure tt tt) (Holds-call _ (deletes_of _ _))

    ending-Holds :
        (session : Bool) (subject : LoginSubject)
        → Holds (IsRid key kinds) Any (ending session subject)
    ending-Holds session subject = Holds-then _ _ (revoke-Holds subject) (
        Holds-then _ _ (Holds-when _ _ (Holds-call _ (deletes_session subject)))
          (Holds-publish _ _ _ _))

  module _ (login_id : Text) (opts : List (Option (LogoutOptions → LogoutOptions))) where
    abbrev logout_opts : LogoutOptions
    logout_opts = Options.apply default_logout_options opts

    -- The subject whose tokens go: the store normalizes what the manager has normalized already.
    abbrev subject : LoginSubject
    subject =
        normalize_subject
          (record { login_id = trim_space login_id; login_type = logout_opts.login_type })

    abbrev stored_subject : LoginSubject
    stored_subject = normalize_subject subject

    abbrev deleting : M MemoryStore Unit
    deleting = call (m.store.delete_token_states subject (TokenKind.access ∷ []))

    abbrev kicking : M MemoryStore Unit
    kicking = deleting >> ending logout_opts.delete_session subject

    deleting-IsRid :
        (w next : World MemoryStore)
        → IsConsistent w.store
        → deleting w ≡ (ok tt, next)
        → IsRid stored_subject (TokenKind.access ∷ []) next.store
    unfolding call call_in
    deleting-IsRid w next h e =
        subst (λ (s : MemoryStore). IsRid stored_subject (TokenKind.access ∷ []) s)
          (ap (λ (o : Result Unit × World MemoryStore). o.1.store) e)
          (delete_states-rids subject (TokenKind.access ∷ []) (reading w) w.store h
            (ap (λ (o : Result Unit × World MemoryStore). o.0) e))

    kicking-IsRid :
        (w : World MemoryStore)
        → IsConsistent w.store
        → (kicking w).0 ≡ ok tt
        → IsRid stored_subject (TokenKind.access ∷ []) (kicking w).1.store
    unfolding ◌>>◌
    kicking-IsRid w h e =
        let a = bind-Went deleting (λ _. ending logout_opts.delete_session subject) w e in
        subst
          (λ (out : Result Unit × World MemoryStore).
            IsRid stored_subject (TokenKind.access ∷ []) out.1.store)
          (sym a.rest)
          ((ending-Holds stored_subject (TokenKind.access ∷ []) logout_opts.delete_session
              subject).keeps
            a.next (deleting-IsRid w a.next h a.first))

    -- Over the store in memory, from a consistent store: after `LogoutByLoginID` has succeeded, no access
    -- token of the login id and login type is stored.
    pub logout_by_login_id-IsRid :
        (w : World MemoryStore)
        → IsConsistent w.store
        → (logout_by_login_id m login_id opts w).0 ≡ ok tt
        → IsRid stored_subject
            (TokenKind.access ∷ [])
            (logout_by_login_id m login_id opts w).1.store
    unfolding logout_by_login_id ◌>>=◌ ◌>>◌ fail_if pure raise
    logout_by_login_id-IsRid w h e = elim (Bool-cases (is_nil (trim_space login_id))) [
      | inl b ↦ absurd (let f = rw b at e in cc)
      | inr b ↦ rw b (kicking-IsRid w h (let f = rw b at e in f))
    ]
