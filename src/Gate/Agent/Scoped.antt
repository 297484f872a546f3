-- ===== src/Gate/Agent/Scoped.antt =====
-- What an agent's request may still address once the middleware has passed it on.
use mathlib.Core.Path.{subst}
use canvas_server.Prelude.{
  arith, refl, sym, ◌∙◌, text_eq_iff, ◌≡◌, ◌≢◌, inl, inr, Bool, true, false, ◌||◌, Option, none,
  some, List, [], ◌∷◌, or_else, is_some, Text, codes, text_eq, All, Bool-cases, Option-cases,
  some-inj, none-ne-some,
}
use canvas_server.Gate.Request.{Server, permits}
use canvas_server.Gate.Clamp.{or_root, clamp_path_to_base}
use canvas_server.Gate.Clamp.Inside.{IsClamped, clamp_path_to_base-IsClamped}
use canvas_server.Gate.Agent.Bound.{IsForBound, IsListed, permits-IsListed, is_elsewhere-IsForBound}
use canvas_server.Gate.Agent.{
  AgentBinding, Query, Body, no_body, array, scalar, one_context, many_contexts, AgentCall, passed,
  refused, reads, required_permission, clamp_query, clamp_all, clamp_body, clamp_wildcard,
  clamp_optional_query, clamp_request, path_scope, is_elsewhere, enforce_bound,
}

-- A path that is there is clamped.
abbrev pub IsScoped : Text → Option Text → Type 0
IsScoped base none = ⊥
IsScoped base (some p) = IsClamped (or_root base) p

-- The query that is passed on does not ask for the whole workspace, and its context lies under the
-- base, which only a writing request may leave out.
abbrev pub IsScopedQuery : Text → Bool → Option Query → Option Query → Type 0
IsScopedQuery base reading none none = Unit
IsScopedQuery base reading none (some q') = ⊥
IsScopedQuery base reading (some q) none = ⊥
IsScopedQuery base reading (some q) (some q') =
    (elim q'.context [ none ↦ reading ≡ false | some c ↦ IsScoped base c ])
    × (q'.scope ≢ some (codes "workspace"))
    × (q'.others ≡ q.others)

-- The contexts of the body that is passed on lie under the base; its other keys stay as they are.
abbrev pub IsScopedBody : Text → Body → Body → Type 0
IsScopedBody base no_body no_body = Unit
IsScopedBody base scalar scalar = Unit
IsScopedBody base (one_context c others) (one_context c' others') =
    IsScoped base c' × (others' ≡ others)
IsScopedBody base (many_contexts cs others) (many_contexts cs' others') =
    All (IsScoped base) cs' × (others' ≡ others)
IsScopedBody base _ _ = ⊥

abbrev pub IsScopedWildcard : Text → Option Text → Option Text → Type 0
IsScopedWildcard base none none = Unit
IsScopedWildcard base (some w) (some p) = IsClamped (or_root base) p
IsScopedWildcard base _ _ = ⊥

-- What is passed on of a request.
pub record IsScopedCall (base : Text) (r r' : AgentCall) : Type 0 where
  pub query : IsScopedQuery base (reads r.method) r.query r'.query
  pub body : IsScopedBody base r.body r'.body
  pub wildcard : IsScopedWildcard base r.wildcard r'.wildcard
  pub method : r'.method ≡ r.method
  pub id : r'.id ≡ r.id
  pub user_id : r'.user_id ≡ r.user_id

clamp_all-IsScoped :
    (base : Text) (xs ps : List (Option Text))
    → clamp_all base xs ≡ some ps
    → All (IsScoped base) ps
unfolding clamp_all
clamp_all-IsScoped base [] ps h = subst (All (IsScoped base)) (some-inj h) tt
clamp_all-IsScoped base (x ∷ xs) ps h = elim (Option-cases (clamp_path_to_base (some base) x)) [
  | inl out ↦ absurd (none-ne-some (rw (out, clamp_all) at h))
  | inr (p, inside) ↦ elim (Option-cases (clamp_all base xs)) [
    | inl out ↦ absurd (none-ne-some (rw (inside, out, clamp_all) at h))
    | inr (qs, rest) ↦
        subst (All (IsScoped base)) (some-inj (rw (inside, rest, clamp_all) at h))
          (clamp_path_to_base-IsClamped (some base) x p inside, clamp_all-IsScoped base xs qs rest)
  ]
]

clamp_body-IsScoped :
    (base : Text) (b b' : Body) → clamp_body base b ≡ some b' → IsScopedBody base b b'
unfolding clamp_body
clamp_body-IsScoped base no_body b' h = subst (IsScopedBody base no_body) (some-inj h) tt
clamp_body-IsScoped base array b' h = absurd (none-ne-some h)
clamp_body-IsScoped base scalar b' h = subst (IsScopedBody base scalar) (some-inj h) tt
clamp_body-IsScoped base (one_context x others) b' h =
    elim (Option-cases (clamp_path_to_base (some base) x)) [
      | inl out ↦ absurd (none-ne-some (rw (out, clamp_body) at h))
      | inr (p, inside) ↦
          subst (IsScopedBody base (one_context x others)) (some-inj (rw (inside, clamp_body) at h))
            (clamp_path_to_base-IsClamped (some base) x p inside, refl)
    ]
clamp_body-IsScoped base (many_contexts xs others) b' h = elim (Option-cases (clamp_all base xs)) [
  | inl out ↦ absurd (none-ne-some (rw (out, clamp_body) at h))
  | inr (ps, inside) ↦
      subst (IsScopedBody base (many_contexts xs others)) (some-inj (rw (inside, clamp_body) at h))
        (clamp_all-IsScoped base xs ps inside, refl)
]

clamp_wildcard-IsScoped :
    (base : Text) (w w' : Option Text)
    → clamp_wildcard base w ≡ some w'
    → IsScopedWildcard base w w'
unfolding clamp_wildcard
clamp_wildcard-IsScoped base none w' h = subst (IsScopedWildcard base none) (some-inj h) tt
clamp_wildcard-IsScoped base (some w) w' h =
    elim (Option-cases (clamp_path_to_base (some base) (some w))) [
      | inl out ↦ absurd (none-ne-some (rw (out, clamp_wildcard) at h))
      | inr (p, inside) ↦
          subst (IsScopedWildcard base (some w)) (some-inj (rw (inside, clamp_wildcard) at h))
            (clamp_path_to_base-IsClamped (some base) (some w) p inside)
    ]

path-ne-workspace : codes "path" ≢ codes "workspace"
path-ne-workspace e = ground (arith, (text_eq_iff (codes "path") (codes "workspace")).1 e)

false-ne-true : ◌≢◌ {A = Bool} false true
false-ne-true e = cc

no_key : (q : Query) (reading : Bool) → (is_some q.context || reading) ≡ false → q.context ≡ none
no_key q reading h = elim (Option-cases q.context) [ inl missing ↦ missing | inr (c, there) ↦ cc ]

second_false : (a b : Bool) → (a || b) ≡ false → b ≡ false
second_false a b h = ground arith

path_scope-whole : (s : Option Text) → path_scope s ≢ some (codes "workspace")
path_scope-whole none e = none-ne-some e
path_scope-whole (some s) e = elim (Bool-cases (text_eq s (codes "workspace"))) [
  | inl whole ↦ absurd (path-ne-workspace (some-inj (rw (whole) at e)))
  | inr other ↦ absurd (
      false-ne-true
        (sym other ∙ (text_eq_iff s (codes "workspace")).1 (some-inj (rw (other) at e))))
]

clamp_query-IsScoped :
    (base : Text) (reading : Bool) (q q' : Query)
    → clamp_query base reading q ≡ some q'
    → IsScopedQuery base reading (some q) (some q')
unfolding clamp_query
clamp_query-IsScoped base reading q q' h = elim (Bool-cases (is_some q.context || reading)) [
  | inr untouched ↦
      let e = some-inj (rw (untouched, clamp_query) at h) in
      subst (λ x. IsScopedQuery base reading (some q) (some x)) e
        (
          rw (no_key q reading untouched) (second_false _ _ untouched),
          path_scope-whole q.scope,
          refl,
        )
  | inl touched ↦ elim (Option-cases (clamp_path_to_base (some base) (or_else q.context none))) [
    | inl out ↦ absurd (none-ne-some (rw (touched, out, clamp_query) at h))
    | inr (p, inside) ↦
        subst (λ x. IsScopedQuery base reading (some q) (some x))
          (some-inj (rw (touched, inside, clamp_query) at h))
          (
            clamp_path_to_base-IsClamped (some base) (or_else q.context none) p inside,
            path_scope-whole q.scope,
            refl,
          )
  ]
]

clamp_optional_query-IsScoped :
    (base : Text) (reading : Bool) (q q' : Option Query)
    → clamp_optional_query base reading q ≡ some q'
    → IsScopedQuery base reading q q'
unfolding clamp_optional_query
clamp_optional_query-IsScoped base reading none q' h =
    subst (IsScopedQuery base reading none) (some-inj h) tt
clamp_optional_query-IsScoped base reading (some q) q' h =
    elim (Option-cases (clamp_query base reading q)) [
      | inl out ↦ absurd (none-ne-some (rw (out, clamp_optional_query) at h))
      | inr (x, inside) ↦
          subst (IsScopedQuery base reading (some q))
            (some-inj (rw (inside, clamp_optional_query) at h))
            (clamp_query-IsScoped base reading q x inside)
    ]

refused-ne-passed : (r : AgentCall) → refused ≢ passed r
refused-ne-passed r e = cc

passed-inj : (r s : AgentCall) → passed r ≡ passed s → r ≡ s
passed-inj r s e = cc

clamp_request-IsScopedCall :
    (base : Text) (r r' : AgentCall) → clamp_request base r ≡ passed r' → IsScopedCall base r r'
unfolding clamp_request
clamp_request-IsScopedCall base r r' h =
    elim (Option-cases (clamp_optional_query base (reads r.method) r.query)) [
      | inl out ↦ absurd (refused-ne-passed r' (rw (out, clamp_request) at h))
      | inr (q, query) ↦ elim (Option-cases (clamp_body base r.body)) [
        | inl out ↦ absurd (refused-ne-passed r' (rw (query, out, clamp_request) at h))
        | inr (b, body) ↦ elim (Option-cases (clamp_wildcard base r.wildcard)) [
          | inl out ↦ absurd (refused-ne-passed r' (rw (query, body, out, clamp_request) at h))
          | inr (w, wildcard) ↦
              subst (IsScopedCall base r)
                (passed-inj _ r' (rw (query, body, wildcard, clamp_request) at h))
                (record {
                  query = clamp_optional_query-IsScoped base (reads r.method) r.query q query;
                  body = clamp_body-IsScoped base r.body b body;
                  wildcard = clamp_wildcard-IsScoped base r.wildcard w wildcard;
                  method = refl;
                  id = refl;
                  user_id = refl;
                })
        ]
      ]
    ]

module _ (server : Server) where
  -- An agent's request that is passed on below a base that is not the root is for the workspace that
  -- the agent is bound to, if it names one, and requires a permission that the binding lists. The
  -- context of its query, the contexts of its body and the tree's wildcard lie under the base, a
  -- reading request with a query has such a context, and no query asks for the whole workspace. The
  -- method, the workspace, the user and all other keys of query and body are passed on as they are,
  -- so that `to` and `path` of a body are not held to the base.
  pub enforce_bound-IsScopedCall :
      (b : AgentBinding) (r r' : AgentCall)
      → enforce_bound server b r ≡ passed r'
      → text_eq (or_root (or_else b.base_path [])) (codes "/") ≡ false
      → IsScopedCall (or_root (or_else b.base_path [])) r r' × IsListed b r × IsForBound server b r
  unfolding enforce_bound
  enforce_bound-IsScopedCall b r r' h deep = elim (Bool-cases (is_elsewhere server b r)) [
    | inl away ↦ absurd (refused-ne-passed r' (rw (away, enforce_bound) at h))
    | inr here ↦ elim (Bool-cases (permits b.permissions (required_permission r.method))) [
      | inr denied ↦ absurd (refused-ne-passed r' (rw (here, denied, enforce_bound) at h))
      | inl allowed ↦ (
        clamp_request-IsScopedCall (or_root (or_else b.base_path [])) r r'
            (rw (here, allowed, deep, enforce_bound) at h),
        permits-IsListed b r allowed,
        is_elsewhere-IsForBound server b r here,
      )
    ]
  ]
