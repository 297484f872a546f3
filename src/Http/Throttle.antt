-- ===== src/Http/Throttle.antt =====
-- src/transports/lib/basic-auth-throttle.js. The module's `buckets` map is passed as a state, and
-- `Date.now()` is the argument `now`. Keys are what `throttleKey` returns.
pub mod Lockout
mod Tests
use canvas_server.Prelude.{
  string_key, ℕ, ◌+◌, ◌*◌, Bool, true, false, Option, none, some, List, [], ◌∷◌, String, Dict,
  lookup, insert, remove, ltb, leb, if◌then◌else◌,
}

pub record Bucket : Type 0 where
  pub count : ℕ
  pub reset_at : ℕ

abbrev pub pw_fail_window_ms : ℕ
pw_fail_window_ms = 15 * 60 * 1000

abbrev pub pw_fail_max : ℕ
pw_fail_max = 5

pub is_throttled : String → ℕ → Dict Bucket → Dict Bucket × Bool
is_throttled key now buckets = elim (lookup key buckets) [
  | none ↦ (buckets, false)
  | some bucket ↦
      if ltb bucket.reset_at now
      then (remove key buckets, false)
      else (buckets, leb pw_fail_max bucket.count)
]

abbrev pub fresh : ℕ → Bucket
fresh now = record { count = 1; reset_at = now + pw_fail_window_ms }

-- The bucket that `recordFailure` leaves under the key.
pub bumped : ℕ → Option Bucket → Bucket
bumped now none = fresh now
bumped now (some bucket) =
    if ltb bucket.reset_at now then fresh now else record bucket { count = bucket.count + 1 }

pub record_failure : String → ℕ → Dict Bucket → Dict Bucket
record_failure key now buckets = insert key (bumped now (lookup key buckets)) buckets

pub clear_failures : String → Dict Bucket → Dict Bucket
clear_failures key buckets = remove key buckets

-- What the WebDAV transport does with the buckets, over time.
pub data Event : Type 0 where
  check failure : String → ℕ → Event
  success : String → Event

pub step : Event → Dict Bucket → Dict Bucket
unfolding is_throttled record_failure clear_failures
step (check key now) buckets = (is_throttled key now buckets).0
step (failure key now) buckets = record_failure key now buckets
step (success key) buckets = clear_failures key buckets

pub run : List Event → Dict Bucket → Dict Bucket
run [] buckets = buckets
run (e ∷ es) buckets = run es (step e buckets)
