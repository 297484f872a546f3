-- ===== src/Hooks/Dispatch/Admitted.antt =====
-- Which actions the dispatch of src/core/workspace/services/hook/index.js has run at once.
use mathlib.Core.Path.{subst}
use mathlib.Core.List.{Memᴰ}
use mathlib.Core.List.Memᴰ
use canvas_server.Prelude.{
  arith, ◌≡◌, refl, sym, ◌⊎◌, inl, inr, ◌↔◌, Bool, true, false, not, ◌&&◌, List, [], ◌∷◌, ◌++◌,
  keep, Bool-cases, if◌then◌else◌,
}
use canvas_server.Prelude.Kept.{Mem-keep, keep-Mem, keep_none}
use canvas_server.Hooks.Dispatch.{
  Action, Automation, Outcome, executed, split_held, split_approval, proposed, run_now, run_gated,
  run_rule,
}

-- Among the outcomes, the rule has the action run.
abbrev pub Executes : Automation → Action → List Outcome → Type 0
Executes r a os = (now : List Action) × Memᴰ (executed r now) os × Memᴰ a now

-- The rule may run the action at once: it cascades if the event is automated, and neither it nor
-- the action waits for an approval.
pub record IsDue (automated : Bool) (r : Automation) (a : Action) : Type 0 where
  pub cascades : automated ≡ true → r.cascade ≡ true
  pub free : r.approval ≡ false
  pub listed : Memᴰ a r.actions
  pub own : a.approval ≡ false

split_held-free :
    (later actions : List Action)
    → keep (λ (a : Action). a.approval) actions ≡ later
    → (split_held later actions).1 ≡ keep (λ (a : Action). not a.approval) actions
unfolding split_held
split_held-free [] actions e = sym (keep_none (λ (a : Action). a.approval) actions e)
split_held-free (a ∷ more) actions e = refl

-- What runs at once is what needs no approval.
split_approval-free :
    (r : Automation)
    → (split_approval r).1
      ≡ (if r.approval then [] else keep (λ (a : Action). not a.approval) r.actions)
unfolding split_approval
split_approval-free r = elim (Bool-cases r.approval) [
  | inl h ↦ rw h
  | inr h ↦ rw h (split_held-free _ r.actions refl)
]

-- What is executed is what is to run now.
Executes-run_now :
    (s r : Automation) (a : Action) (now : List Action)
    → Executes r a (run_now s now)
    → (r ≡ s) × Memᴰ a now
unfolding run_now
Executes-run_now s r a [] (ran, i, m) = elim i [ ]
Executes-run_now s r a (b ∷ now) (ran, Memᴰ.head e, m) =
    let same : ran ≡ (b ∷ now) = cc in (cc, subst (λ x. Memᴰ a x) same m)
Executes-run_now s r a (b ∷ now) (ran, Memᴰ.tail i, m) = elim i [ ]

run_now-Executes :
    (r : Automation) (a : Action) (now : List Action) → Memᴰ a now → Executes r a (run_now r now)
unfolding run_now
run_now-Executes r a [] m = elim m [ ]
run_now-Executes r a (b ∷ now) m = (b ∷ now, Memᴰ.head refl, m)

Executes-proposed :
    (s r : Automation) (a : Action) (later : List Action) (os : List Outcome)
    → Executes r a (proposed s later ++ os)
    → Executes r a os
unfolding proposed
Executes-proposed s r a [] os h = h
Executes-proposed s r a (b ∷ later) os (ran, Memᴰ.head e, m) = cc
Executes-proposed s r a (b ∷ later) os (ran, Memᴰ.tail i, m) = (ran, i, m)

pub Executes-right :
    (r : Automation) (a : Action) (xs ys : List Outcome) → Executes r a ys → Executes r a (xs ++ ys)
Executes-right r a xs ys (ran, i, m) = (ran, Memᴰ.append_right xs i, m)

pub Executes-left :
    (r : Automation) (a : Action) (xs ys : List Outcome) → Executes r a xs → Executes r a (xs ++ ys)
Executes-left r a xs ys (ran, i, m) = (ran, Memᴰ.append_left ys i, m)

pub Executes-append :
    (r : Automation) (a : Action) (xs ys : List Outcome)
    → Executes r a (xs ++ ys)
    → Executes r a xs ⊎ Executes r a ys
Executes-append r a xs ys (ran, i, m) = elim (Memᴰ.append_cases xs i) [
  | inl i' ↦ inl (ran, i', m)
  | inr i' ↦ inr (ran, i', m)
]

mem_of_else :
    {A : Type 0} {a : A} (b : Bool) (xs : List A)
    → Memᴰ a (if b then [] else xs)
    → (b ≡ false) × Memᴰ a xs
mem_of_else true xs m = elim m [ ]
mem_of_else false xs m = (refl, m)

not_iff : (b : Bool) → (not b ≡ true) ↔ (b ≡ false)
not_iff b = (λ h. ground (arith, h), λ h. ground (arith, h))

-- An action runs now if neither the rule nor the action waits for an approval.
IsDue-split :
    (automated : Bool) (s : Automation) (a : Action)
    → automated && not s.cascade ≡ false
    → Memᴰ a (split_approval s).1
    → IsDue automated s a
IsDue-split automated s a gate m =
    let (free, later) =
      mem_of_else s.approval _ (subst (λ x. Memᴰ a x) (split_approval-free s) m) in
    let (there, own) = Mem-keep (λ (b : Action). not b.approval) s.actions later in
    record {
      cascades = λ h. ground (arith, gate, h);
      free = free;
      listed = there;
      own = (not_iff a.approval).0 own;
    }

split-IsDue :
    (automated : Bool) (s : Automation) (a : Action)
    → IsDue automated s a
    → (automated && not s.cascade ≡ false) × Memᴰ a (split_approval s).1
split-IsDue automated s a due = (
  ground (arith, due.cascades),
  subst (λ x. Memᴰ a x) (sym (split_approval-free s))
      (rw (due.free) (
        keep-Mem (λ (b : Action). not b.approval) s.actions due.listed
          ((not_iff a.approval).1 due.own))),
)

Executes-run_gated :
    (g : Bool) (s r : Automation) (a : Action)
    → Executes r a (run_gated g s)
    → (r ≡ s) × (g ≡ false) × Memᴰ a (split_approval s).1
unfolding run_gated
Executes-run_gated true s r a (ran, Memᴰ.head e, m) = cc
Executes-run_gated true s r a (ran, Memᴰ.tail i, m) = elim i [ ]
Executes-run_gated false s r a h =
    let (same, m) =
      Executes-run_now s r a (split_approval s).1
        (Executes-proposed s r a (split_approval s).0 (run_now s (split_approval s).1) h) in
    (same, refl, m)

run_gated-Executes :
    (g : Bool) (r : Automation) (a : Action)
    → g ≡ false
    → Memᴰ a (split_approval r).1
    → Executes r a (run_gated g r)
unfolding run_gated
run_gated-Executes true r a h m = cc
run_gated-Executes false r a h m =
    Executes-right r a (proposed r (split_approval r).0) _ (run_now-Executes r a _ m)

pub Executes-run_rule :
    (automated : Bool) (s r : Automation) (a : Action)
    → Executes r a (run_rule automated s)
    → (r ≡ s) × IsDue automated s a
unfolding run_rule
Executes-run_rule automated s r a h =
    let (same, gate, m) = Executes-run_gated (automated && not s.cascade) s r a h in
    (same, IsDue-split automated s a gate m)

pub run_rule-Executes :
    (automated : Bool) (r : Automation) (a : Action)
    → IsDue automated r a
    → Executes r a (run_rule automated r)
unfolding run_rule
run_rule-Executes automated r a due =
    let (gate, m) = split-IsDue automated r a due in run_gated-Executes _ r a gate m
