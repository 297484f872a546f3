-- ===== src/Edge/Registry.antt =====
-- src/edge/registry.js. The two maps are the state; sockets are known by their ids. What happens to
-- the promise of `proxyRequest` is an outcome at the end of a log. Bodies are lists of bytes after
-- the base64 is decoded; the fresh request id is an argument.
pub mod Settled
pub mod Owned
pub mod Exports
mod Tests
use canvas_server.Prelude.{
  codes, ℕ, Bool, true, false, ◌||◌, ◌&&◌, not, Option, none, some, List, [], ◌∷◌, ◌++◌, any, find,
  keep, String, ◌==◌, or_else, Text, trim, text_eq, Dict, lookup, insert, remove, string_key,
  text_key, if◌then◌else◌,
}

-- An entry of `announce.exports`.
pub record Export : Type 0 where
  pub type : String
  pub id : String
  pub name : String

pub record Announce : Type 0 where
  pub instance_id : Option Text
  pub exports : Option (List Export)

pub record EdgeEntry : Type 0 where
  pub socket_id : String
  pub user_id : Option String
  pub announce : Announce
  pub connected_at : String

pub record Head : Type 0 where
  pub status : ℕ
  pub headers : Dict String

pub record Pending : Type 0 where
  pub head : Option Head
  pub chunks : List (List ℕ)
  pub socket_id : String

pub data Outcome : Type 0 where
  resolved : Head → List ℕ → Outcome
  rejected : (code message : String) → Outcome

pub record Registry : Type 0 where
  pub edges : List (Text × EdgeEntry)
  pub pending : Dict Pending
  pub settled : Dict Outcome

-- `user_id === x` on a field that may be undefined
abbrev pub is_user : Option String → String → Bool
is_user none x = false
is_user (some y) x = y == x

-- `register`: without an instance id it throws.
unfoldable pub register :
    String → Option String → Announce → String → Registry → Option (Text × Registry)
register socket_id user_id announce now r =
    let instance_id = trim (or_else announce.instance_id []) in
    if text_eq instance_id []
    then none
    else some (
      instance_id,
      record r {
        edges =
            insert instance_id
              (record {
                socket_id = socket_id;
                user_id = user_id;
                announce = announce;
                connected_at = now;
              })
              r.edges;
      },
    )

unfoldable pub get_edge : Text → Registry → Option EdgeEntry
get_edge instance_id r = lookup instance_id r.edges

-- `list`: all edges, or a user's
unfoldable pub list_edges : Option String → Registry → List (Text × EdgeEntry)
list_edges none r = r.edges
list_edges (some user) r = keep (λ e. is_user e.1.user_id user) r.edges

abbrev pub exports_of : EdgeEntry → List Export
exports_of e = or_else e.announce.exports []

abbrev pub matches : String → String → Export → Bool
matches type identifier e = e.type == type && (e.id == identifier || e.name == identifier)

-- The loop of `findByExport`.
unfoldable pub find_export :
    String → String → String → List (Text × EdgeEntry) → Option (Text × Export)
find_export type identifier user [] = none
find_export type identifier user ((instance_id, edge) ∷ rest) =
    let later = find_export type identifier user rest in
    if is_user edge.user_id user
    then elim (find (matches type identifier) (exports_of edge)) [
      | none ↦ later
      | some e ↦ some (instance_id, e)
    ]
    else later

unfoldable pub find_by_export : String → String → String → Registry → Option (Text × Export)
unfolding find_export
find_by_export type identifier user r =
    if identifier == "" || user == "" then none else find_export type identifier user r.edges

-- An edge that is announced over the socket by the user and serves the workspace: it has the
-- workspace's id or name, or exports it.
abbrev pub serves : String → String → String → String → Text × EdgeEntry → Bool
serves socket_id user id name (instance_id, edge) =
    edge.socket_id == socket_id
    && is_user edge.user_id user
    && (text_eq instance_id (codes id)
        || text_eq instance_id (codes name)
        || any (λ e. matches "workspace" id e || matches "workspace" name e) (exports_of edge))

-- `socketExportsWorkspace`, with the workspace's id and name, which name instances as well
unfoldable pub socket_exports_workspace : String → String → String → String → Registry → Bool
socket_exports_workspace socket_id user id name r =
    not (socket_id == "" || user == "") && any (serves socket_id user id name) r.edges

-- `socketHasEdge`
unfoldable pub socket_has_edge : String → Registry → Bool
socket_has_edge socket_id r = any (λ e. e.1.socket_id == socket_id) r.edges

-- The request leaves the map, and its promise has the outcome.
unfoldable pub settle : String → Outcome → Registry → Registry
settle id o r = record r { pending = remove id r.pending; settled = r.settled ++ (id, o) ∷ [] }

-- `#fail`
unfoldable pub fail : String → String → String → Registry → Registry
unfolding settle
fail id code message r = elim (lookup id r.pending) [
  | none ↦ r
  | some p ↦ settle id (rejected code message) r
]

-- The requests in flight over a socket are failed, in the order of the map.
unfoldable pub fail_all : String → Dict Pending → Registry → Registry
unfolding fail
fail_all socket_id [] r = r
fail_all socket_id ((id, p) ∷ rest) r =
    if p.socket_id == socket_id
    then fail_all socket_id rest (fail id "EDGE_GONE" "edge disconnected" r)
    else fail_all socket_id rest r

-- One edge of the socket: the edge goes, and what is in flight over the socket fails.
unfoldable pub drop_edge : String → Text → Registry → Registry
unfolding fail_all
drop_edge socket_id instance_id r =
    fail_all socket_id r.pending (record r { edges = remove instance_id r.edges })

-- The loop of `removeBySocket` over the edges: the ids that were removed, after those so far.
unfoldable pub remove_edges :
    String → List (Text × EdgeEntry) → List Text × Registry → List Text × Registry
unfolding drop_edge
remove_edges socket_id [] s = s
remove_edges socket_id ((instance_id, edge) ∷ rest) s = remove_edges socket_id rest (
    if edge.socket_id == socket_id
    then (s.0 ++ instance_id ∷ [], drop_edge socket_id instance_id s.1)
    else s)

unfoldable pub remove_by_socket : String → Registry → List Text × Registry
unfolding remove_edges
remove_by_socket socket_id r = remove_edges socket_id r.edges ([], r)

-- `proxyRequest`: the socket that the request is sent over; none is the rejection EDGE_GONE at once,
-- where the edge is not connected.
unfoldable pub proxy_request : String → Text → Registry → Option String × Registry
proxy_request id instance_id r = elim (lookup instance_id r.edges) [
  | none ↦ (none, r)
  | some edge ↦ (
    some edge.socket_id,
    record r {
      pending =
          insert id (record { head = none; chunks = []; socket_id = edge.socket_id }) r.pending;
    },
  )
]

-- `#ownedPending`
abbrev pub owned : String → Option Pending → Option Pending
owned socket_id none = none
owned socket_id (some p) = if p.socket_id == socket_id then some p else none

abbrev pub concat : List (List ℕ) → List ℕ
concat [] = []
concat (c ∷ cs) = c ++ concat cs

-- The frames of a response, each for a request id.
pub data Frame : Type 0 where
  res : Head → Frame
  chunk : Option (List ℕ) → Frame
  end : Frame
  err : (code message : Option String) → Frame

abbrev non_empty_or : Option String → String → String
non_empty_or none d = d
non_empty_or (some s) d = if s == "" then d else s

-- `handleRes`, `handleChunk`, `handleEnd` and `handleErr` on a request that the socket owns
unfoldable pub answer : String → Pending → Frame → Registry → Registry
unfolding settle fail
answer id p (res head) r = record r {
  pending = insert id (record p { head = some head }) r.pending;
}
answer id p (chunk none) r = r
answer id p (chunk (some bytes)) r = record r {
  pending = insert id (record p { chunks = p.chunks ++ bytes ∷ [] }) r.pending;
}
answer id p end r =
    settle id
      (elim p.head [
        | none ↦ rejected "EDGE_PROTOCOL" "edge closed stream before response head"
        | some head ↦ resolved head (concat p.chunks)
      ])
      r
answer id p (err code message) r =
    fail id (non_empty_or code "EDGE_ERROR") (non_empty_or message "edge request failed") r

unfoldable pub handle : String → String → Frame → Registry → Registry
unfolding answer
handle socket_id id frame r = elim (owned socket_id (lookup id r.pending)) [
  | none ↦ r
  | some p ↦ answer id p frame r
]

-- What happens to a registry; an instance id that is blank registers nothing.
pub data Event : Type 0 where
  announced :
      (socket_id : String) (user_id : Option String) (announce : Announce) (now : String) → Event
  requested : (id : String) (instance_id : Text) → Event
  framed : (socket_id id : String) → Frame → Event
  timed_out : (id : String) → Event
  disconnected : (socket_id : String) → Event

abbrev registered : Option (Text × Registry) → Registry → Registry
registered none r = r
registered (some (instance_id, r')) r = r'

unfoldable pub step : Event → Registry → Registry
unfolding register proxy_request handle fail remove_by_socket
step (announced socket_id user_id announce now) r =
    registered (register socket_id user_id announce now r) r
step (requested id instance_id) r = (proxy_request id instance_id r).1
step (framed socket_id id frame) r = handle socket_id id frame r
step (timed_out id) r = fail id "EDGE_TIMEOUT" "edge request timed out" r
step (disconnected socket_id) r = (remove_by_socket socket_id r).1

unfoldable pub run : List Event → Registry → Registry
unfolding step
run [] r = r
run (e ∷ es) r = run es (step e r)
