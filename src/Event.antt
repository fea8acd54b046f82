-- ===== src/Event.antt =====
-- core/event.go: events, and the bus that hands each event to its listeners in turn. A listener is
-- a step of its own state `L` that ends in nil, an error or a panic, all of which the bus drops.
pub mod Async
use better_token.Base.{ℕ, suc, Option, none, some, List, [], ◌∷◌, ◌++◌}
use better_token.Text.{Text}
use better_token.Time.{Time}
use better_token.Errors.{Error}

-- EventType
pub data EventType : Type 0 where
  login logout kick_out renew_timeout replaced refresh_issued : EventType
  refresh refresh_revoked nonce_consumed online offline : EventType

-- The only metadata that an event carries is the device of `LogoutByDevice`.
pub record Event : Type 0 where
  pub kind : EventType
  pub login_id : Text
  pub login_type : Text
  pub token : Text
  pub time : Time
  pub device : Option Text

pub data Outcome : Type 0 where
  returned : Option Error → Outcome
  panicked : Outcome

abbrev pub Listener {ℓ} : Type ℓ → Type ℓ
Listener L = Event → L → Outcome × L

-- SyncEventBus
abbrev pub Bus {ℓ} : Type ℓ → Type ℓ
Bus L = List (Listener L)

module _ {ℓ} {L : Type ℓ} where
  -- Register, where a nil listener is ignored
  unfoldable pub register : Option (Listener L) → Bus L → Bus L
  register none bus = bus
  register (some listener) bus = bus ++ listener ∷ []

  -- Clear and ListenerCount
  unfoldable pub clear : Bus L → Bus L
  clear bus = []

  unfoldable pub listener_count : Bus L → ℕ
  listener_count [] = 0
  listener_count (listener ∷ bus) = suc (listener_count bus)

  -- Publish
  unfoldable pub publish : Event → Bus L → L → L
  publish event [] l = l
  publish event (listener ∷ bus) l = publish event bus (listener event l).1
