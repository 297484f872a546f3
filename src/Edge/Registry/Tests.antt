-- ===== src/Edge/Registry/Tests.antt =====
-- Runs of the registry.
use canvas_server.Prelude.{
  ◌≡◌, refl, none, some, List, [], ◌∷◌, ◌++◌, codes, lookup, insert, string_key, text_key,
}
use canvas_server.Edge.Registry.{
  Announce, EdgeEntry, Head, resolved, Registry, concat, res, end, Event, announced, requested,
  framed, timed_out, disconnected, step, run,
}
use canvas_server.Edge.Registry.Exports.{IsOwnExport, find_by_export-IsOwnExport}
use canvas_server.Edge.Registry.{Export, find_by_export, find_export}
use canvas_server.Edge.Registry.Settled.{IsConsistent, run-IsConsistent}
use canvas_server.Edge.Registry.Owned.{chunk_events, run-resolved}

abbrev nothing : Registry
nothing = record { edges = []; pending = []; settled = [] }

nothing-IsConsistent : IsConsistent nothing
unfolding lookup
nothing-IsConsistent = record { once = tt; apart = λ id p h. cc }

abbrev hello : Announce
hello = record { instance_id = some (codes " e1"); exports = none }

abbrev events : List Event
events =
    announced "s1" (some "u1") hello "now"
    ∷ requested "r1" (codes "e1")
    ∷ requested "r2" (codes "e1")
    ∷ framed "s2" "r1" end
    ∷ framed "s1" "r1" end
    ∷ disconnected "s1"
    ∷ timed_out "r2"
    ∷ []

run-IsConsistent_example : IsConsistent (run events nothing)
unfolding lookup step insert
run-IsConsistent_example =
    run-IsConsistent events nothing (tt, (refl, (refl, (tt, (tt, (tt, (tt, tt)))))))
      nothing-IsConsistent

abbrev head_ok : Head
head_ok = record { status = 200; headers = [] }

abbrev edge_one : EdgeEntry
edge_one = record { socket_id = "s1"; user_id = some "u1"; announce = hello; connected_at = "now" }

abbrev connected : Registry
connected = record { edges = (codes "e1", edge_one) ∷ []; pending = []; settled = [] }

run-resolved_example :
    lookup "r1"
      (run
        (requested "r1" (codes "e1")
            ∷ framed "s1" "r1" (res head_ok)
            ∷ chunk_events "s1" "r1" ((1 ∷ 2 ∷ []) ∷ (3 ∷ []) ∷ [])
          ++ framed "s1" "r1" end ∷ [])
        connected).settled
    ≡ some (resolved head_ok (concat ((1 ∷ 2 ∷ []) ∷ (3 ∷ []) ∷ [])))
unfolding lookup
run-resolved_example =
    run-resolved "r1" (codes "e1") edge_one head_ok ((1 ∷ 2 ∷ []) ∷ (3 ∷ []) ∷ []) connected refl
      refl

abbrev drive : Export
drive = record { type = "drive"; id = "d1"; name = "disk" }

abbrev exporting : Registry
exporting = record {
  edges =
      (codes "e1", edge_one)
      ∷ (
        codes "e2",
        record edge_one {
          announce = record { instance_id = some (codes "e2"); exports = some (drive ∷ []) };
        },
      )
      ∷ [];
  pending = [];
  settled = [];
}

find_by_export-IsOwnExport_example :
    IsOwnExport "drive" "disk" "u1" exporting.edges (codes "e2", drive)
unfolding find_by_export find_export
find_by_export-IsOwnExport_example =
    find_by_export-IsOwnExport "drive" "disk" "u1" exporting (codes "e2", drive) refl
