-- ===== src/Http/Throttle/Tests.antt =====
-- Runs of the throttle, and its theorems at concrete states.
use canvas_server.Prelude.{
  string_key, ◌≡◌, refl, eq_iff, true, false, List, [], ◌∷◌, arith, Dict, lookup, insert, remove,
  leb,
}
use canvas_server.Http.Throttle.{
  Bucket, is_throttled, check, failure, success, Event, record_failure, clear_failures, run, step,
  bumped, pw_fail_max,
}
use canvas_server.Http.Throttle.Lockout.{is_throttled-run}

abbrev guesses : List Event
guesses =
    failure "a" 20
    ∷ failure "b" 30
    ∷ failure "a" 40
    ∷ check "a" 45
    ∷ success "b"
    ∷ failure "a" 50
    ∷ failure "a" 60
    ∷ []

locked_out : (is_throttled "a" 900010 (run (failure "a" 10 ∷ guesses) [])).1 ≡ true
unfolding run step is_throttled record_failure clear_failures lookup insert remove bumped
locked_out = refl

let_in_later : (is_throttled "a" 900011 (run (failure "a" 10 ∷ guesses) [])).1 ≡ false
unfolding run step is_throttled record_failure clear_failures lookup insert remove bumped
let_in_later = refl

is_throttled-run_example :
    (is_throttled "a" 900010 (run (failure "a" 10 ∷ guesses) [])).1 ≡ leb pw_fail_max 5
unfolding lookup
is_throttled-run_example =
    is_throttled-run "a" 10 900010 guesses [] (λ b e. cc) (ground (arith, eq_iff "b" "a"))
      (omega arith)

abbrev one_failure : Dict Bucket
one_failure = ("a", record { count = 7; reset_at = 90 }) ∷ []
