-- ===== src/Http/Throttle/Lockout.antt =====
-- When a key is locked out by src/transports/lib/basic-auth-throttle.js.
use canvas_server.Prelude.{
  string_key, ℕ, suc, ◌+◌, ◌≤◌, ◌<◌, ◌≡◌, ◌≢◌, inl, inr, false, none, some, List, [], ◌∷◌, String,
  ◌==◌, eq_iff, eq_refl, arith, Dict, lookup, lookup-insert, lookup-remove, leb, if◌then◌else◌,
  Bool-cases, Option-cases, ◌∙◌,
}
use canvas_server.Http.Throttle.{
  Bucket, pw_fail_window_ms, pw_fail_max, is_throttled, bumped, fresh, record_failure,
  clear_failures, Event, check, failure, success, step, run,
}

-- The failures of `key` among the events.
abbrev pub failures : String → List Event → ℕ
failures key [] = 0
failures key (failure k now ∷ es) = if k == key then suc (failures key es) else failures key es
failures key (_ ∷ es) = failures key es

-- Nobody signs in to `key`, and what happens to `key` happens by the time `limit`.
abbrev pub Quiet : String → ℕ → List Event → Type 0
Quiet key limit [] = Unit
Quiet key limit (check k now ∷ es) = (k ≡ key → now ≤ limit) × Quiet key limit es
Quiet key limit (failure k now ∷ es) = (k ≡ key → now ≤ limit) × Quiet key limit es
Quiet key limit (success k ∷ es) = (k ≢ key) × Quiet key limit es

step-lookup_check :
    (key k : String) (now : ℕ) (b : Bucket) (m : Dict Bucket)
    → lookup key m ≡ some b
    → (k ≡ key → now ≤ b.reset_at)
    → lookup key (step (check k now) m) ≡ some b
unfolding step is_throttled
step-lookup_check key k now b m h q = elim (Bool-cases (k == key)) [
  | inl same ↦ ground (arith, eq_iff k key, q ((eq_iff k key).0 same), lookup-remove k key m)
  | inr other ↦ ground (arith, lookup-remove k key m)
]

bumped_live :
    (now : ℕ) (b : Bucket)
    → now ≤ b.reset_at
    → bumped now (some b) ≡ record b { count = b.count + 1 }
unfolding bumped
bumped_live now b h = ground arith

step-lookup_failure :
    (key k : String) (now : ℕ) (b : Bucket) (m : Dict Bucket)
    → lookup key m ≡ some b
    → (k ≡ key → now ≤ b.reset_at)
    → lookup key (step (failure k now) m)
      ≡ (if k == key then some (record b { count = b.count + 1 }) else some b)
unfolding step record_failure
step-lookup_failure key k now b m h q = elim (Bool-cases (k == key)) [
  | inl same ↦
      let e : k ≡ key = (eq_iff k key).0 same in
      rw same (
        ground (
          arith,
          e,
          same,
          lookup-insert k key (bumped now (lookup k m)) m,
          bumped_live now b (q e),
        ))
  | inr other ↦ ground (arith, other, lookup-insert k key (bumped now (lookup k m)) m)
]

step-lookup_success :
    (key k : String) (m : Dict Bucket) → k ≢ key → lookup key (step (success k) m) ≡ lookup key m
unfolding step clear_failures
step-lookup_success key k m ne = ground (arith, eq_iff k key, lookup-remove k key m)

run-lookup :
    (key : String) (es : List Event) (b : Bucket) (m : Dict Bucket)
    → lookup key m ≡ some b
    → Quiet key b.reset_at es
    → lookup key (run es m) ≡ some (record b { count = b.count + failures key es })
unfolding run
run-lookup key [] b m h q = rw h (ground arith)
run-lookup key (check k now ∷ es) b m h (q, qs) =
    run-lookup key es b _ (step-lookup_check key k now b m h q) qs
run-lookup key (failure k now ∷ es) b m h (q, qs) = elim (Bool-cases (k == key)) [
  | inl same ↦
      let b' : Bucket = record b { count = b.count + 1 } in
      ground (
        arith,
        same,
        run-lookup key es b' (step (failure k now) m)
            (step-lookup_failure key k now b m h q ∙ (rw same)) qs,
      )
  | inr other ↦ ground (
    arith,
    other,
    run-lookup key es b (step (failure k now) m)
        (step-lookup_failure key k now b m h q ∙ (rw other)) qs,
  )
]
run-lookup key (success k ∷ es) b m h (q, qs) =
    run-lookup key es b (step (success k) m) (step-lookup_success key k m q ∙ h) qs

-- No bucket, or one whose window has passed.
abbrev pub IsClear : String → ℕ → Dict Bucket → Type 0
IsClear key now m = (b : Bucket) → lookup key m ≡ some b → b.reset_at < now

first_failure :
    (key : String) (now : ℕ) (m : Dict Bucket)
    → IsClear key now m
    → lookup key (step (failure key now) m) ≡ some (fresh now)
unfolding step record_failure bumped
first_failure key now m clear = elim (Option-cases (lookup key m)) [
  | inl nothing ↦ ground (arith, eq_refl key, lookup-insert key key (bumped now none) m)
  | inr (b, found) ↦ ground (arith, eq_refl key, clear b found, lookup-insert key key (fresh now) m)
]

-- From a state where a key has no live bucket, let its first failure come at `start`, and then any
-- checks, failures and sign-ins of other keys and any checks and failures of this key, the latter
-- within 15 minutes of `start`. A check of the key in the same 15 minutes answers "throttled"
-- exactly when the key has failed five times or more.
pub is_throttled-run :
    (key : String) (start now : ℕ) (es : List Event) (m : Dict Bucket)
    → IsClear key start m
    → Quiet key (start + pw_fail_window_ms) es
    → now ≤ start + pw_fail_window_ms
    → (is_throttled key now (run (failure key start ∷ es) m)).1
      ≡ leb pw_fail_max (1 + failures key es)
unfolding run is_throttled
is_throttled-run key start now es m clear quiet h = ground (
  arith,
  run-lookup key es (fresh start) (step (failure key start) m) (first_failure key start m clear)
      quiet,
)

-- Once the window of a key has passed, the key is not throttled, whatever its count; and the next
-- failure starts a count of one.
pub is_throttled-expired :
    (key : String) (now : ℕ) (m : Dict Bucket)
    → IsClear key now m
    → ((is_throttled key now m).1 ≡ false)
      × (lookup key (record_failure key now m) ≡ some (fresh now))
unfolding is_throttled
is_throttled-expired key now m clear = elim (Option-cases (lookup key m)) [
  | inl nothing ↦ (ground arith, unfold step in first_failure key now m clear)
  | inr (b, found) ↦ (ground (arith, clear b found), unfold step in first_failure key now m clear)
]

-- A sign-in takes the key's lock off at once and changes no other key's.
pub is_throttled-clear_failures :
    (key : String) (now : ℕ) (m : Dict Bucket)
    → ((is_throttled key now (clear_failures key m)).1 ≡ false)
      × ((k : String)
          → k ≢ key
          → (is_throttled k now (clear_failures key m)).1 ≡ (is_throttled k now m).1)
unfolding is_throttled clear_failures
is_throttled-clear_failures key now m = (
  ground (arith, eq_refl key, lookup-remove key key m),
  λ k ne. ground (arith, eq_iff key k, lookup-remove key k m, ne),
)
