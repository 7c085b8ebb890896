-- ===== src/Throttle.antt =====
-- app/services/rate_limit.py: slots reserved in the table throttle_state, which all processes share.
-- Times and intervals are whole microseconds; the clock is read by the caller's process.
pub mod Spacing
mod Examples
use text.Mathlib.Text.{◌==◌ as str_eq}
use signal_map.Common.{ℕ, ◌+◌, ◌-◌, String, Option, none, some, List, [], ◌∷◌, max, if◌then◌else◌}

pub record ThrottleState : Type 0 where
  pub key : String
  pub next_available_at : ℕ

abbrev pub next_of : List ThrottleState → String → Option ℕ
next_of [] key = none
next_of (r ∷ rs) key = if str_eq r.key key then some r.next_available_at else next_of rs key

-- INSERT … ON CONFLICT (key) DO UPDATE SET next_available_at = greatest(next_available_at, now) + interval
unfoldable pub reserve : List ThrottleState → String → ℕ → ℕ → List ThrottleState
reserve [] key now interval = record { key = key; next_available_at = now + interval } ∷ []
reserve (r ∷ rs) key now interval =
    if str_eq r.key key
    then record r { next_available_at = max r.next_available_at now + interval } ∷ rs
    else r ∷ reserve rs key now interval

-- RETURNING next_available_at
abbrev returned : Option ℕ → ℕ → ℕ → ℕ
returned none now interval = now + interval
returned (some next) now interval = max next now + interval

-- the table, and how long the caller sleeps; `remaining > 0` is what subtraction on ℕ gives
unfoldable pub throttle : List ThrottleState → String → ℕ → ℕ → List ThrottleState × ℕ
unfolding reserve
throttle db key now interval =
    (reserve db key now interval, (returned (next_of db key) now interval - interval) - now)
