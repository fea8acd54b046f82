-- ===== src/State/Lifetime.antt =====
-- When a state expires.
use better_token.Base.{◌≡◌, ◌||◌, Option, arith}
use better_token.Time.{Time, Duration}
use better_token.State.{is_expired_at, effective_expires_at, deadline}

-- The effective instant has passed exactly when the lifetime from now on or the state's own
-- instant has.
pub effective_expires_at_lem :
    (expires : Option Time) (now : Time) (ttl : Duration) (t : Time)
    → is_expired_at (effective_expires_at expires now ttl) t
      ≡ (is_expired_at (deadline now ttl) t || is_expired_at expires t)
unfolding is_expired_at effective_expires_at
effective_expires_at_lem expires now ttl t = ground arith
