-- ===== src/Edge/Registry/Settled.antt =====
-- How often a request of src/edge/registry.js is settled.
use canvas_server.Prelude.{
  ◌≡◌, refl, inl, inr, Option, none, some, List, [], ◌∷◌, ◌++◌, arith, String, ◌==◌, eq_iff,
  or_else, Text, trim, text_eq, Dict, lookup, insert, same, string_key, text_key, lookup-insert,
  lookup-remove, if◌then◌else◌, Bool-cases, Option-cases,
}
use canvas_server.Edge.Registry.{
  Announce, EdgeEntry, Pending, Outcome, rejected, Registry, register, settle, fail, fail_all,
  drop_edge, remove_edges, remove_by_socket, proxy_request, owned, Frame, res, chunk, end, err,
  answer, handle, Event, announced, requested, framed, timed_out, disconnected, step, run,
}

-- No id is settled twice.
abbrev pub IsOnce : Dict Outcome → Type 0
IsOnce [] = Unit
IsOnce ((id, o) ∷ rest) = (lookup id rest ≡ none) × IsOnce rest

-- And none that is settled is in flight.
pub record IsConsistent (r : Registry) : Type 0 where
  pub once : IsOnce r.settled
  pub apart :
      (id : String) (p : Pending) → lookup id r.pending ≡ some p → lookup id r.settled ≡ none

lookup-append :
    (j id : String) (o : Outcome) (s : Dict Outcome)
    → lookup j (s ++ (id, o) ∷ [])
      ≡ (elim (lookup j s) [ some x ↦ some x | none ↦ if same id j then some o else none ])
unfolding lookup
lookup-append j id o [] = refl
lookup-append j id o ((k, x) ∷ s) = ground (arith, lookup-append j id o s)

IsOnce-append :
    (id : String) (o : Outcome) (s : Dict Outcome)
    → lookup id s ≡ none
    → IsOnce s
    → IsOnce (s ++ (id, o) ∷ [])
unfolding lookup
IsOnce-append id o [] h k = (refl, tt)
IsOnce-append id o ((j, x) ∷ s) h (fresh, k) =
    ground (arith, IsOnce-append id o s, lookup-append j id o s, eq_iff id j, eq_iff j id)

settle-IsConsistent :
    (id : String) (o : Outcome) (r : Registry) (p : Pending)
    → lookup id r.pending ≡ some p
    → IsConsistent r
    → IsConsistent (settle id o r)
unfolding settle
settle-IsConsistent id o r p h c = record {
  once = IsOnce-append id o r.settled (c.apart id p h) c.once;
  apart = λ j q k. ground (
    arith,
    lookup-append j id o r.settled,
    lookup-remove id j r.pending,
    c.apart j q,
    eq_iff id j,
  );
}

fail-IsConsistent :
    (id code message : String) (r : Registry)
    → IsConsistent r
    → IsConsistent (fail id code message r)
unfolding fail
fail-IsConsistent id code message r c = elim (Option-cases (lookup id r.pending)) [
  | inl unknown ↦ rw (unknown, fail) c
  | inr (p, known) ↦ rw (known, fail) (settle-IsConsistent id (rejected code message) r p known c)
]

update-IsConsistent :
    (id : String) (p q : Pending) (r : Registry)
    → lookup id r.pending ≡ some p
    → IsConsistent r
    → IsConsistent (record r { pending = insert id q r.pending })
update-IsConsistent id p q r h c = record {
  once = c.once;
  apart = λ j x k.
      ground (arith, lookup-insert id j q r.pending, c.apart j x, c.apart id p h, eq_iff id j);
}

answer-IsConsistent :
    (id : String) (p : Pending) (f : Frame) (r : Registry)
    → lookup id r.pending ≡ some p
    → IsConsistent r
    → IsConsistent (answer id p f r)
unfolding answer
answer-IsConsistent id p (res head) r h c = update-IsConsistent id p _ r h c
answer-IsConsistent id p (chunk none) r h c = c
answer-IsConsistent id p (chunk (some bytes)) r h c = update-IsConsistent id p _ r h c
answer-IsConsistent id p end r h c = settle-IsConsistent id _ r p h c
answer-IsConsistent id p (err code message) r h c = fail-IsConsistent id _ _ r c

owned-some :
    (socket_id : String) (o : Option Pending) (p : Pending)
    → owned socket_id o ≡ some p
    → o ≡ some p
owned-some socket_id none p h = h
owned-some socket_id (some q) p h = ground arith

handle-IsConsistent :
    (socket_id id : String) (f : Frame) (r : Registry)
    → IsConsistent r
    → IsConsistent (handle socket_id id f r)
unfolding handle
handle-IsConsistent socket_id id f r c =
    elim (Option-cases (owned socket_id (lookup id r.pending))) [
      | inl foreign ↦ rw (foreign, handle) c
      | inr (p, own) ↦
          rw (own, handle) (answer-IsConsistent id p f r (owned-some socket_id _ p own) c)
    ]

fail_all-IsConsistent :
    (socket_id : String) (ps : Dict Pending) (r : Registry)
    → IsConsistent r
    → IsConsistent (fail_all socket_id ps r)
unfolding fail_all
fail_all-IsConsistent socket_id [] r c = c
fail_all-IsConsistent socket_id ((id, p) ∷ rest) r c =
    elim (Bool-cases (p.socket_id == socket_id)) [
      | inl own ↦ rw own (fail_all-IsConsistent socket_id rest _ (fail-IsConsistent id _ _ r c))
      | inr foreign ↦ rw foreign (fail_all-IsConsistent socket_id rest r c)
    ]

edges-IsConsistent :
    (edges : List (Text × EdgeEntry)) (r : Registry)
    → IsConsistent r
    → IsConsistent (record r { edges = edges })
edges-IsConsistent edges r c = record { once = c.once; apart = c.apart }

remove_edges-IsConsistent :
    (socket_id : String) (edges : List (Text × EdgeEntry)) (s : List Text × Registry)
    → IsConsistent s.1
    → IsConsistent (remove_edges socket_id edges s).1
unfolding remove_edges drop_edge
remove_edges-IsConsistent socket_id [] s c = c
remove_edges-IsConsistent socket_id ((instance_id, edge) ∷ rest) s c =
    elim (Bool-cases (edge.socket_id == socket_id)) [
      | inl own ↦
          rw (own, remove_edges)
            (remove_edges-IsConsistent socket_id rest
              (s.0 ++ instance_id ∷ [], drop_edge socket_id instance_id s.1)
              (fail_all-IsConsistent socket_id s.1.pending _ (edges-IsConsistent _ s.1 c)))
      | inr foreign ↦ rw (foreign, remove_edges) (remove_edges-IsConsistent socket_id rest s c)
    ]

-- The id of a new request is one that was not used before.
abbrev pub IsFresh : Event → Registry → Type 0
IsFresh (requested id instance_id) r = lookup id r.settled ≡ none
IsFresh _ r = Unit

abbrev pub AreFresh : List Event → Registry → Type 0
AreFresh [] r = Unit
AreFresh (e ∷ es) r = IsFresh e r × AreFresh es (step e r)

register-IsConsistent :
    (socket_id : String) (user_id : Option String) (a : Announce) (now : String) (r : Registry)
    → IsConsistent r
    → IsConsistent (step (announced socket_id user_id a now) r)
unfolding step register
register-IsConsistent socket_id user_id a now r c =
    elim (Bool-cases (text_eq (trim (or_else a.instance_id [])) [])) [
      | inl blank ↦ rw blank c
      | inr named ↦ rw named (edges-IsConsistent _ r c)
    ]

proxy_request-IsConsistent :
    (id : String) (instance_id : Text) (r : Registry)
    → lookup id r.settled ≡ none
    → IsConsistent r
    → IsConsistent (proxy_request id instance_id r).1
unfolding proxy_request
proxy_request-IsConsistent id instance_id r fresh c =
    elim (Option-cases (lookup instance_id r.edges)) [
      | inl gone ↦ rw (gone, proxy_request) c
      | inr (edge, there) ↦
          rw (there, proxy_request)
            (record {
              once = c.once;
              apart = λ j x k. ground (
                arith,
                lookup-insert id j (record { head = none; chunks = []; socket_id = edge.socket_id })
                    r.pending,
                c.apart j x,
                eq_iff id j,
              );
            })
    ]

step-IsConsistent :
    (e : Event) (r : Registry) → IsFresh e r → IsConsistent r → IsConsistent (step e r)
unfolding step remove_by_socket
step-IsConsistent (announced socket_id user_id a now) r fresh c =
    register-IsConsistent socket_id user_id a now r c
step-IsConsistent (requested id instance_id) r fresh c =
    proxy_request-IsConsistent id instance_id r fresh c
step-IsConsistent (framed socket_id id f) r fresh c = handle-IsConsistent socket_id id f r c
step-IsConsistent (timed_out id) r fresh c = fail-IsConsistent id _ _ r c
step-IsConsistent (disconnected socket_id) r fresh c =
    remove_edges-IsConsistent socket_id r.edges ([], r) c

-- From a registry in which no request is settled twice and none that is settled is in flight,
-- whatever comes in, announcements, requests with ids not settled before, frames from any socket,
-- timeouts and disconnections in any order, this stays so.
pub run-IsConsistent :
    (es : List Event) (r : Registry) → AreFresh es r → IsConsistent r → IsConsistent (run es r)
unfolding run
run-IsConsistent [] r fresh c = c
run-IsConsistent (e ∷ es) r (fresh, later) c =
    run-IsConsistent es (step e r) later (step-IsConsistent e r fresh c)
