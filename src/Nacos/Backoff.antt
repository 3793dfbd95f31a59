-- ===== src/Nacos/Backoff.antt =====
-- `FailureBackoff` and `entry_of`: crates/doggy-dns-nacos/src/watcher.rs.
-- Times are Unix seconds, which `unix_now_secs` never returns below 0; `opened_at` is `none` for
-- WINDOW_CLOSED. The calls are taken one after another.
pub mod History
use doggy_dns.Common.{
  ℕ, ◌+◌, ◌-◌, ◌%◌, ◌^◌, Bool, true, false, ◌&&◌, ◌||◌, Option, none, some, ltb, leb, if◌then◌else◌,
}

abbrev pub failure_threshold : ℕ
failure_threshold = 3

abbrev pub failure_backoff : ℕ
failure_backoff = 30

pub record FailureBackoff : Type 0 where
  pub failures : ℕ
  pub opened_at : Option ℕ
  pub confirmed : Bool

abbrev pub new_backoff : FailureBackoff
new_backoff = record { failures = 0; opened_at = none; confirmed = false }

-- The counter is a u32.
unfoldable pub record_failure : FailureBackoff → (now : ℕ) → FailureBackoff × Bool
record_failure b now =
    let streak = (b.failures + 1) % 2 ^ 32 in
    if ltb streak failure_threshold
    then (record b { failures = streak }, false)
    else (record b { failures = streak; opened_at = some now }, true)

unfoldable pub record_success : FailureBackoff → FailureBackoff
record_success b = record { failures = 0; opened_at = none; confirmed = true }

unfoldable pub is_open : FailureBackoff → (now : ℕ) → Bool
is_open b now = elim b.opened_at [
  | none ↦ false
  | some opened_at ↦
      if ltb b.failures failure_threshold
      then false
      else leb opened_at now && ltb (now - opened_at) failure_backoff
]

pub data QueryEntry : Type 0 where
  client_cache cache_first server_first cache_only : QueryEntry

unfoldable pub entry_of : (ledgered ever_confirmed window_open : Bool) → QueryEntry
entry_of ledgered ever_confirmed window_open =
    if ledgered
    then client_cache
    else if window_open
    then cache_only
    else if ever_confirmed
    then server_first
    else cache_first
