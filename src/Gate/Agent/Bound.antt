-- ===== src/Gate/Agent/Bound.antt =====
-- The workspace and the permission of a request that the agent's binding admits.
use mathlib.Core.List.{Memᴰ}
use canvas_server.Prelude.{
  arith, refl, sym, ◌⊎◌, ◌&&◌, not, String, ◌==◌, eq_iff, ◌≡◌, ◌≢◌, ap, inl, inr, Bool, true, false,
  Option, none, some, List, [], ◌∷◌, is_some, Bool-cases, Option-cases,
}
use canvas_server.Gate.Request.{Server, permits, has_name, non_empty, is_named}
use canvas_server.Gate.Agent.{AgentBinding, AgentCall, required_permission, addressed, is_elsewhere}

-- The request is for the workspace that the agent is bound to, if it names one.
abbrev pub IsForBound : Server → AgentBinding → AgentCall → Type 0
IsForBound server b r =
    (b.workspace_id ≡ "*")
    ⊎ (non_empty r.id ≡ none)
    ⊎ (addressed server r.user_id r.id ≡ some b.workspace_id)

-- The binding lists the permission that the method requires.
abbrev pub IsListed : AgentBinding → AgentCall → Type 0
IsListed b r =
    (ps : List String) × (b.permissions ≡ some ps) × Memᴰ (required_permission r.method) ps

false-ne-true : ◌≢◌ {A = Bool} false true
false-ne-true e = cc

has_name-Mem : (ps : List String) (name : String) → has_name ps name ≡ true → Memᴰ name ps
has_name-Mem [] name h = cc
has_name-Mem (p ∷ ps) name h = elim (Bool-cases (p == name)) [
  | inl same ↦ Memᴰ.head (sym ((eq_iff p name).0 same))
  | inr other ↦ Memᴰ.tail (has_name-Mem ps name (rw other at h))
]

pub permits-IsListed :
    (b : AgentBinding) (r : AgentCall)
    → permits b.permissions (required_permission r.method) ≡ true
    → IsListed b r
permits-IsListed b r h = elim (Option-cases b.permissions) [
  | inl missing ↦ absurd (false-ne-true (rw missing at h))
  | inr (ps, there) ↦ (ps, there, has_name-Mem ps _ (rw there at h))
]

is_named-some : (x : String) (o : Option String) → not (is_named x o) ≡ false → o ≡ some x
is_named-some x none h = absurd (false-ne-true (sym h))
is_named-some x (some y) h = ap some (sym ((eq_iff x y).0 (ground (arith, h))))

one_of_three :
    (a : Bool) (o : Option String) (c : Bool)
    → not a && is_some o && c ≡ false
    → (a ≡ true) ⊎ (o ≡ none) ⊎ (c ≡ false)
one_of_three true o c h = inl refl
one_of_three false none c h = inr (inl refl)
one_of_three false (some x) c h = inr (inr h)

pub is_elsewhere-IsForBound :
    (server : Server) (b : AgentBinding) (r : AgentCall)
    → is_elsewhere server b r ≡ false
    → IsForBound server b r
unfolding is_elsewhere
is_elsewhere-IsForBound server b r h = elim (one_of_three (b.workspace_id == "*") _ _ h) [
  | inl any_at_all ↦ inl ((eq_iff b.workspace_id "*").0 any_at_all)
  | inr rest ↦ elim rest [
    | inl unnamed ↦ inr (inl unnamed)
    | inr here ↦ inr (inr (is_named-some b.workspace_id _ here))
  ]
]
