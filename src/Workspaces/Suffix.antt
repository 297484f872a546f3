-- ===== src/Workspaces/Suffix.antt =====
-- The loops of src/core/workspace/index.js that put a number behind a name until it is free.
pub mod Decimals
pub mod Ends
use canvas_server.Prelude.{
  ℕ, zero, suc, ◌+◌, ◌/◌, ◌%◌, Bool, not, Option, none, some, List, [], ◌∷◌, ◌++◌, ltb, Text,
  if◌then◌else◌,
}

-- A number in a template literal; `fuel` is at least the number of its digits.
unfoldable pub digits : ℕ → ℕ → Text
digits zero n = []
digits (suc fuel) n =
    let front = digits fuel (n / 10) in
    if ltb n 10 then (n + b'0') ∷ [] else front ++ (n % 10 + b'0') ∷ []

unfoldable pub decimal : ℕ → Text
decimal n = digits (suc n) n

-- `name` with the suffix n: the bare name for 1, and `${baseName}-${suffix}` from 2 on
unfoldable pub candidate : Text → ℕ → Text
candidate base n = if ltb n 2 then base else base ++ b'-' ∷ decimal n

-- The loop, from the suffix n on, with `taken` for its test: none only if the fuel runs out.
unfoldable pub first_free : (Text → Bool) → Text → ℕ → ℕ → Option Text
first_free taken base zero n = none
first_free taken base (suc fuel) n =
    let later = first_free taken base fuel (suc n) in
    if taken (candidate base n) then later else some (candidate base n)
