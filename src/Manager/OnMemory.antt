-- ===== src/Manager/OnMemory.antt =====
-- The manager on the store in memory: core/manager.go over storage/memory/store.go.
use better_token.Base.{◌≡◌, true, false, Option, none, some, arith}
use better_token.Text.{Text}
use better_token.Time.{Time}
use better_token.Errors.{ok}
use better_token.State.{
  TokenKind, TokenState, default_status, is_active_status, is_active, is_expired_at,
}
use better_token.Store.{Reading}
use better_token.Config.{Config}
use better_token.Memory.{TokenItem, MemoryStore, item_expired, token_at}
use better_token.Memory.Tokens.{consume_state}
use better_token.Memory.Ops.{memory_ops, memory_atomic_ops}
use better_token.Memory.Once.{live_of_consume}
use better_token.Memory.Effects.{live_at, unexpired}
use better_token.Run.{World, moment, now}
use better_token.Manager.{Manager, AuthorizerOps}

-- A manager on the store in memory, which has the port AtomicStore.
abbrev pub memory_manager : Config → AuthorizerOps → (Text → Text) → Manager MemoryStore
memory_manager config authorizer sha256_hex = record {
  config = config;
  store = memory_ops;
  atomic_store = some memory_atomic_ops;
  authorizer = authorizer;
  sha256_hex = sha256_hex;
}

-- What a call from the caller's context finds.
abbrev pub reading : World MemoryStore → Reading
reading w = record { now = (moment w).now; later = (moment w).later; ctx_err = (moment w).ctx_err }

live-unexpired :
    (o : Option TokenItem) (now : Time) {item : TokenItem}
    → unexpired now o ≡ some item
    → is_expired_at item.state.expires_at now ≡ false
unfolding item_expired
live-unexpired none now e = absurd (cc)
live-unexpired (some found) now {item} e = ground arith

active_status :
    (found : TokenState) (now : Time)
    → is_expired_at found.expires_at now ≡ false
    → is_active_status (default_status found.status) ≡ true
    → is_active found now ≡ true
unfolding is_active
active_status found now x a = rw x (ground arith)

-- A state that was handed out as acceptable was active when the store looked at it.
pub handed_out-is_active :
    (key : Text) (kind : TokenKind) (r : Reading) (s : MemoryStore) {found : TokenState}
    → (consume_state key (some kind) r s).0 ≡ ok (some found)
    → is_active_status (default_status found.status) ≡ true
    → is_active found r.now ≡ true
unfolding live_at
handed_out-is_active key kind r s {found} e a =
    let (item, l, h) = live_of_consume key (some kind) r s e in
    active_status found r.now (rw (← h) (live-unexpired (token_at s key) r.now l)) a
