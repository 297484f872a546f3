-- ===== src/Edge/Registry/Owned.antt =====
-- Frames to src/edge/registry.js: those from a socket that does not own the request, and the assembly
-- of those from one that does.
use mathlib.Core.List.{append_assoc, append-nil}
use canvas_server.Prelude.{
  ℕ, ◌≡◌, refl, sym, ap, ◌∙◌, inl, inr, false, none, some, List, [], ◌∷◌, ◌++◌, arith, String, ◌==◌,
  eq_iff, eq_refl, Text, Dict, lookup, string_key, text_key, lookup-insert, Option-cases,
}
use canvas_server.Edge.Registry.{
  EdgeEntry, Head, Pending, Outcome, resolved, Registry, settle, proxy_request, owned, concat,
  Frame, res, chunk, end, answer, handle, Event, requested, framed, step, run,
}

-- A frame changes nothing unless it comes over the socket that the request was sent over: neither
-- another request's socket nor an unknown id can touch a response.
pub handle_foreign :
    (socket_id id : String) (f : Frame) (r : Registry)
    → ((p : Pending) → lookup id r.pending ≡ some p → p.socket_id == socket_id ≡ false)
    → handle socket_id id f r ≡ r
unfolding handle
handle_foreign socket_id id f r h = elim (Option-cases (lookup id r.pending)) [
  | inl unknown ↦ rw (unknown, handle)
  | inr (p, known) ↦ rw (known, handle) (rw (h p known))
]

-- The frames that bring the chunks, in order.
abbrev pub chunk_events : String → String → List (List ℕ) → List Event
chunk_events socket_id id [] = []
chunk_events socket_id id (c ∷ cs) =
    framed socket_id id (chunk (some c)) ∷ chunk_events socket_id id cs

concat-append : (xs ys : List (List ℕ)) → concat (xs ++ ys) ≡ concat xs ++ concat ys
concat-append [] ys = refl
concat-append (x ∷ xs) ys =
    ap (λ z. x ++ z) (concat-append xs ys) ∙ sym (append_assoc x (concat xs) (concat ys))

-- One chunk, for the socket that owns the request.
handle-chunk :
    (socket_id id : String) (c : List ℕ) (r : Registry) (p : Pending)
    → lookup id r.pending ≡ some p
    → p.socket_id ≡ socket_id
    → lookup id (handle socket_id id (chunk (some c)) r).pending
      ≡ some (record p { chunks = p.chunks ++ c ∷ [] })
unfolding handle answer
handle-chunk socket_id id c r p h own =
    rw (h, handle)
      (rw ((eq_iff p.socket_id socket_id).1 own, answer)
        (lookup-insert id id (record p { chunks = p.chunks ++ c ∷ [] }) r.pending
          ∙ (rw (eq_refl id))))

handle-chunks :
    (socket_id id : String) (cs : List (List ℕ)) (r : Registry) (p : Pending)
    → lookup id r.pending ≡ some p
    → p.socket_id ≡ socket_id
    → lookup id (run (chunk_events socket_id id cs) r).pending
      ≡ some (record p { chunks = p.chunks ++ cs })
unfolding run step
handle-chunks socket_id id [] r p h own =
    h ∙ ap (λ xs. some (record p { chunks = xs })) (sym (append-nil p.chunks))
handle-chunks socket_id id (c ∷ cs) r p h own =
    handle-chunks socket_id id cs (handle socket_id id (chunk (some c)) r)
      (record p { chunks = p.chunks ++ c ∷ [] }) (handle-chunk socket_id id c r p h own) own
    ∙ ap (λ xs. some (record p { chunks = xs })) (append_assoc p.chunks (c ∷ []) cs)

handle-chunk-settled :
    (socket_id id : String) (c : List ℕ) (r : Registry)
    → (handle socket_id id (chunk (some c)) r).settled ≡ r.settled
unfolding handle answer
handle-chunk-settled socket_id id c r =
    elim (Option-cases (owned socket_id (lookup id r.pending))) [
      | inl foreign ↦ rw (foreign, handle)
      | inr (p, own) ↦ rw (own, handle)
    ]

handle-chunks-settled :
    (socket_id id : String) (cs : List (List ℕ)) (r : Registry)
    → (run (chunk_events socket_id id cs) r).settled ≡ r.settled
unfolding run step
handle-chunks-settled socket_id id [] r = refl
handle-chunks-settled socket_id id (c ∷ cs) r =
    handle-chunks-settled socket_id id cs (handle socket_id id (chunk (some c)) r)
    ∙ handle-chunk-settled socket_id id c r

run-append : (es fs : List Event) (r : Registry) → run (es ++ fs) r ≡ run fs (run es r)
unfolding run
run-append [] fs r = refl
run-append (e ∷ es) fs r = run-append es fs (step e r)

lookup-append_fresh :
    (id : String) (o : Outcome) (s : Dict Outcome)
    → lookup id s ≡ none
    → lookup id (s ++ (id, o) ∷ []) ≡ some o
unfolding lookup
lookup-append_fresh id o [] h = rw (eq_refl id)
lookup-append_fresh id o ((j, x) ∷ s) h = ground (arith, lookup-append_fresh id o s)

end-settled :
    (socket_id id : String) (r : Registry) (head : Head) (chunks : List (List ℕ))
    → lookup id r.pending
      ≡ some (record { head = some head; chunks = chunks; socket_id = socket_id })
    → lookup id r.settled ≡ none
    → lookup id (handle socket_id id end r).settled ≡ some (resolved head (concat chunks))
unfolding handle answer settle
end-settled socket_id id r head chunks h fresh =
    rw (h, handle)
      (rw (eq_refl socket_id, answer)
        (lookup-append_fresh id (resolved head (concat chunks)) r.settled fresh))

proxy_request-pending :
    (id : String) (instance_id : Text) (edge : EdgeEntry) (r : Registry)
    → lookup instance_id r.edges ≡ some edge
    → (lookup id (proxy_request id instance_id r).1.pending
        ≡ some (record { head = none; chunks = []; socket_id = edge.socket_id }))
      × ((proxy_request id instance_id r).1.settled ≡ r.settled)
unfolding proxy_request
proxy_request-pending id instance_id edge r there =
    rw (there, proxy_request)
      (
        lookup-insert id id (record { head = none; chunks = []; socket_id = edge.socket_id })
              r.pending
            ∙ (rw (eq_refl id)),
        refl,
      )

handle-head :
    (socket_id id : String) (head : Head) (r : Registry) (p : Pending)
    → lookup id r.pending ≡ some p
    → p.socket_id ≡ socket_id
    → (lookup id (handle socket_id id (res head) r).pending ≡ some (record p { head = some head }))
      × ((handle socket_id id (res head) r).settled ≡ r.settled)
unfolding handle answer
handle-head socket_id id head r p h own =
    rw (h, handle)
      (rw ((eq_iff p.socket_id socket_id).1 own, answer)
        (lookup-insert id id (record p { head = some head }) r.pending ∙ (rw (eq_refl id)), refl))

-- A response comes back whole: once a request with a fresh id has gone to a connected edge, the
-- head, the chunks and the end from that edge's socket settle it with that head and the chunks in
-- the order in which they came.
pub run-resolved :
    (id : String) (instance_id : Text) (edge : EdgeEntry) (head : Head) (cs : List (List ℕ))
    (r : Registry)
    → lookup instance_id r.edges ≡ some edge
    → lookup id r.settled ≡ none
    → lookup id
        (run
          (requested id instance_id
              ∷ framed edge.socket_id id (res head)
              ∷ chunk_events edge.socket_id id cs
            ++ framed edge.socket_id id end ∷ [])
          r).settled
      ≡ some (resolved head (concat cs))
unfolding run step
run-resolved id instance_id edge head cs r there fresh =
    let sent : Pending = record { head = none; chunks = []; socket_id = edge.socket_id } in
    let r1 = (proxy_request id instance_id r).1 in
    let r2 = handle edge.socket_id id (res head) r1 in
    let p2 : Pending = record { head = some head; chunks = []; socket_id = edge.socket_id } in
    let at1 = proxy_request-pending id instance_id edge r there in
    let at2 = handle-head edge.socket_id id head r1 sent at1.0 refl in
    rw (run-append (chunk_events edge.socket_id id cs) (framed edge.socket_id id end ∷ []) r2) (
      end-settled edge.socket_id id (run (chunk_events edge.socket_id id cs) r2) head cs
        (handle-chunks edge.socket_id id cs r2 p2 at2.0 refl)
        (ap (lookup id) (handle-chunks-settled edge.socket_id id cs r2 ∙ at2.1 ∙ at1.1) ∙ fresh))
