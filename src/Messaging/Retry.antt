-- ===== src/Messaging/Retry.antt =====
-- `RetryPolicy` of libs/sentinel/messaging/bus.py. Delays and the backoff factor are counted in
-- thousandths; a delay is rounded down to one.
use Prim.Native.Nat.{◌^◌}
use sentinal_ai_control_room.Prelude.{ℕ, ◌-◌, ◌*◌, ◌/◌, min, Bool, ltb}

pub record RetryPolicy : Type 0 where
  pub max_retries : ℕ
  pub base_delay_s : ℕ
  pub backoff_factor : ℕ
  pub max_delay_s : ℕ

abbrev pub default_retry : RetryPolicy
default_retry = record {
  max_retries = 3;
  base_delay_s = 100;
  backoff_factor = 2000;
  max_delay_s = 5000;
}

-- `attempt` counts from 1; `max(0, attempt - 1)` is the subtraction of ℕ.
unfoldable pub delay_for : RetryPolicy → ℕ → ℕ
delay_for r attempt =
    min (r.base_delay_s * r.backoff_factor ^ (attempt - 1) / 1000 ^ (attempt - 1)) r.max_delay_s

unfoldable pub should_retry : RetryPolicy → ℕ → Bool
should_retry r retry_count = ltb retry_count r.max_retries
