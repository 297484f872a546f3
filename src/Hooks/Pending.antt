-- ===== src/Hooks/Pending.antt =====
-- The store of proposals: src/core/workspace/services/hook/pending-actions.js. A file is the list of its
-- records, oldest first, each on a line of JSON; the live one may be absent. A line begins with the
-- id, which is the first key of a record, and the parameter `other_fields` is the text after it.
-- What the file system takes of an append is an argument. Times are milliseconds, with none for an
-- expiry that is missing.
pub mod Json
pub mod Found
pub mod Written
pub mod Latest
mod Tests
use canvas_server.Prelude.{
  ℕ, ◌+◌, ◌-◌, Bool, true, false, ◌||◌, ◌&&◌, not, Option, none, some, List, [], ◌∷◌, ◌++◌, any,
  leb, ltb, max, min, nat_eq, length, String, ◌==◌, or_else, Text, codes, text_eq, has_text,
  if◌then◌else◌,
}
use mathlib.Core.List.{reverse}
use canvas_server.Hooks.Pending.Json.{quoted, utf8_length}

pub data Status : Type 0 where
  pending approved declined failed expired : Status

abbrev pub same_status : Status → Status → Bool
same_status pending pending = true
same_status approved approved = true
same_status declined declined = true
same_status failed failed = true
same_status expired expired = true
same_status _ _ = false

pub record Proposal : Type 0 where
  pub action_id : Text
  pub ts : ℕ
  pub status : Status
  pub handler : Option Text
  pub expires_at : Option ℕ
  pub decided_by : Option String
  pub actions : String

-- `#file`, its rotation and `#size`
pub record Store : Type 0 where
  pub live : Option (List Proposal)
  pub rotated : List Proposal
  pub size : Option ℕ

-- Which of its calls succeed: `mkdirSync`, `renameSync` of a file that is there, `appendFileSync`.
pub record Disk : Type 0 where
  pub makes_dir : Bool
  pub renames : Bool
  pub appends : Bool

-- The fields that `supersede` changes.
pub record Changes : Type 0 where
  pub status : Option Status
  pub decided_by : Option String
  pub actions : Option String

-- `Date.parse(record.expiresAt) < now`
abbrev pub is_past : ℕ → Option ℕ → Bool
is_past now none = false
is_past now (some t) = ltb t now

unfoldable pub effective_status : ℕ → Proposal → Status
effective_status now p =
    if same_status p.status pending && is_past now p.expires_at then expired else p.status

-- A record with its status as it reads now.
abbrev pub view : ℕ → Proposal → Proposal
view now p = record p { status = effective_status now p }

-- The store after a rename that may have failed.
abbrev pub after_rename : Bool → Store → Option (List Proposal) → Store
after_rename true s (some ps) = record { live = none; rotated = ps; size = some 0 }
after_rename _ s _ = record s { size = some 0 }

module _ (other_fields : Proposal → Text) where
  -- `JSON.stringify(record)`
  unfoldable pub line : Proposal → Text
  line p = codes "{\"actionId\":" ++ quoted p.action_id ++ other_fields p

  -- The length of the text that is appended, with its line feed.
  abbrev pub line_length : Proposal → ℕ
  line_length p = length (line p) + 1

  -- The bytes of the file.
  abbrev pub file_size : List Proposal → ℕ
  file_size [] = 0
  file_size (p ∷ ps) = utf8_length (line p) + 1 + file_size ps

  -- `#size`, or the size of the file
  abbrev pub known_size : Store → ℕ
  known_size s = or_else s.size (file_size (or_else s.live []))

  -- `get` stops at this record: the line has the id in it and the record is that of the id.
  unfoldable pub is_of : Text → Proposal → Bool
  is_of id p = has_text id (line p) && text_eq p.action_id id

  -- The first such record in a list that is newest first.
  unfoldable pub first_with : Text → List Proposal → Option Proposal
  first_with id [] = none
  first_with id (p ∷ ps) = if is_of id p then some p else first_with id ps

  module _ (max_bytes : ℕ) where
    -- The record does not fit into the live file.
    abbrev pub is_full : Proposal → Store → Bool
    is_full p s = not (leb (known_size s + line_length p) max_bytes)

    -- `#rotateIfNeeded`
    unfoldable pub rotate_if_needed : Disk → Proposal → Store → Store
    rotate_if_needed disk p s =
        if is_full p s
        then after_rename disk.renames s s.live
        else record s { size = some (known_size s) }

    abbrev pub appended : Bool → Proposal → Store → Store × Bool
    appended true p ready = (
      record ready {
        live = some (or_else ready.live [] ++ p ∷ []);
        size = some (or_else ready.size 0 + line_length p);
      },
      true,
    )
    appended false p ready = (record ready { size = none }, false)

    -- `#append`
    unfoldable pub append : Disk → Proposal → Store → Store × Bool
    append disk p s =
        if disk.makes_dir
        then appended disk.appends p (rotate_if_needed disk p s)
        else (record s { size = none }, false)

    -- `propose`, on a record with its id and time filled in
    unfoldable pub propose : Disk → Proposal → Store → Store × Option Proposal
    propose disk p s = elim ((append disk p s).1) [
      | true ↦ ((append disk p s).0, some p)
      | false ↦ ((append disk p s).0, none)
    ]

    abbrev changed : ℕ → Changes → Proposal → Proposal
    changed now c p = record p {
      ts = now;
      status = or_else c.status p.status;
      decided_by = elim c.decided_by [ none ↦ p.decided_by | some d ↦ some d ];
      actions = or_else c.actions p.actions;
    }

    -- `supersede`
    unfoldable pub supersede : Disk → ℕ → Changes → Proposal → Store → Store × Option Proposal
    supersede disk now c p s = propose disk (changed now c p) s

-- All records, newest first.
abbrev pub newest_first : Store → List Proposal
newest_first s = reverse (or_else s.live []) ++ reverse s.rotated

-- `get`
unfoldable pub get : (Proposal → Text) → ℕ → Text → Store → Option Proposal
get other_fields now id s =
    if text_eq id [] then none else elim (first_with other_fields id (newest_first s)) [
      | none ↦ none
      | some p ↦ some (view now p)
    ]

-- The newest record of each id; `seen` are the ids met so far.
unfoldable pub latest : List Text → List Proposal → List Proposal
latest seen [] = []
latest seen (p ∷ ps) =
    let rest = latest (p.action_id ∷ seen) ps in
    if text_eq p.action_id [] || any (λ i. text_eq i p.action_id) seen
    then latest seen ps
    else p ∷ rest

-- The handler equals the filter or contains it.
abbrev handled : Text → Option Text → Bool
handled h none = has_text h []
handled h (some x) = has_text h x

pub record Filter : Type 0 where
  pub status : Option Status
  pub handler : Option Text
  pub limit : ℕ

abbrev wanted_status : Option Status → Status → Bool
wanted_status none s = true
wanted_status (some w) s = same_status s w

abbrev wanted_handler : Option Text → Option Text → Bool
wanted_handler none h = true
wanted_handler (some []) h = true
wanted_handler (some (c ∷ w)) h = handled (c ∷ w) h

abbrev pub is_wanted : Filter → Proposal → Bool
is_wanted f p = wanted_status f.status p.status && wanted_handler f.handler p.handler

-- At most `n` of the views that are wanted.
unfoldable pub collect : ℕ → Filter → ℕ → List Proposal → List Proposal
collect now f n [] = []
collect now f n (p ∷ ps) =
    let later = collect now f (n - 1) ps in
    let rest = collect now f n ps in
    if nat_eq n 0 then [] else if is_wanted f (view now p) then view now p ∷ later else rest

-- `Math.min(Math.max(1, Number(limit) || 100), 500)`
abbrev pub limit_of : ℕ → ℕ
limit_of n = min (if nat_eq n 0 then 100 else n) 500

unfoldable pub query : ℕ → Filter → Store → List Proposal
query now f s = collect now f (limit_of f.limit) (latest [] (newest_first s))

-- `pendingCount`
unfoldable pub pending_count : ℕ → Store → ℕ
pending_count now s =
    length (query now (record { status = some pending; handler = none; limit = 500 }) s)
