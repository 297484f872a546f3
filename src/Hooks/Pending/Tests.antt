-- ===== src/Hooks/Pending/Tests.antt =====
-- Runs of the store of proposals.
use mathlib.Core.List.{Memᴰ}
use canvas_server.Prelude.{◌≡◌, refl, true, ◌&&◌, none, some, [], ◌∷◌, if◌then◌else◌, Text, codes}
use canvas_server.Hooks.Pending.Json.{is_unescaped, escaped_unit, escaped, quoted}
use canvas_server.Hooks.Pending.{
  pending, approved, Proposal, Store, Disk, line, is_of, first_with, rotate_if_needed, append, get,
  Filter, is_wanted, query, latest, collect, effective_status,
}
use canvas_server.Hooks.Pending.Found.{IsUnescaped}
use canvas_server.Hooks.Pending.Written.{live_only, moves, get-append}
use canvas_server.Hooks.Pending.Latest.{query-get}

abbrev proposed : Proposal
proposed = record {
  action_id = codes "pa_1";
  ts = 5;
  status = pending;
  handler = some (codes "tagger");
  expires_at = some 90;
  decided_by = none;
  actions = "tag";
}

abbrev decided : Proposal
decided = record proposed { ts = 7; status = approved; decided_by = some "u1" }

abbrev store : Store
store = record { live = some (proposed ∷ decided ∷ []); rotated = []; size = none }

-- The other fields of a line, cut short.
abbrev fields : Proposal → Text
fields p = codes ",\"ts\":1}"

abbrev working : Disk
working = record { makes_dir = true; renames = true; appends = true }

abbrev other : Proposal
other = record proposed { action_id = codes "pa_2" }

plain_id : IsUnescaped (codes "pa_1")
unfolding is_unescaped
plain_id = (refl, (refl, (refl, (refl, tt))))

-- The new record does not fit, and moves the two of the other action out of the way.
get-append_example :
    ((append fields 70 working other store).1 ≡ true)
    × (get fields 50 (codes "pa_1") (append fields 70 working other store).0 ≡ (
        if true && moves fields 70 working other store
        then get fields 50 (codes "pa_1") (live_only store)
        else get fields 50 (codes "pa_1") store))
get-append_example = get-append fields 70 working other store 50 (codes "pa_1") refl plain_id

-- The rotated file survives a rename that has nothing to rename.
lost_live_test :
    get fields 50
      (codes "pa_1")
      (append fields 10 working other
        (record { live = none; rotated = proposed ∷ []; size = some 9 })).0
    ≡ some proposed
unfolding get append rotate_if_needed first_with is_of line quoted escaped escaped_unit is_unescaped
    effective_status
lost_live_test = refl

-- An id with a quote is on record, but its line has it only with a backslash.
quoted_id_test :
    get fields 50 (codes "a\"b") (record {
      live = some (record proposed { action_id = codes "a\"b" } ∷ []);
      rotated = [];
      size = none;
    })
    ≡ none
unfolding get first_with is_of line quoted escaped escaped_unit is_unescaped
quoted_id_test = refl

abbrev all_approved : Filter
all_approved = record { status = some approved; handler = none; limit = 0 }

query-get_example :
    (get fields 50 (codes "pa_1") store ≡ some decided) × (is_wanted all_approved decided ≡ true)
unfolding query collect latest effective_status
query-get_example = query-get fields 50 all_approved store decided plain_id (Memᴰ.head refl)
