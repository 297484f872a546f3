-- ===== src/Hooks/Dispatch.antt =====
-- Which hooks and rules an event reaches: the dispatch of
-- src/core/workspace/services/hook/index.js, with the matching of Hooks.Rules. The classification
-- of a document, with what the server looks up for it, is an argument, and so is the time. What an
-- action does, the hook files of a workspace and the log of runs are left out.
pub mod Admitted
pub mod Fired
pub mod Once
pub mod Exact
mod Tests
use canvas_server.Prelude.{
  ℕ, ◌-◌, Bool, true, false, not, ◌&&◌, ◌||◌, Option, none, some, List, [], ◌∷◌, ◌++◌, map, String,
  ◌==◌, Text, codes, text_eq, any, keep, includes, is_some, ltb, leb, nat_eq, or_else, lookup,
  insert, if◌then◌else◌, text_key,
}
use canvas_server.Workspaces.References.{join}
use canvas_server.Hooks.Rules.{Rule, Classification, Matching, match_rule}

-- An action of a rule, and what it is to do.
pub record Action : Type 0 where
  pub approval : Bool
  pub body : Text

-- A rule with its actions.
pub record Automation : Type 0 where
  pub rule : Rule
  pub cascade : Bool
  pub approval : Bool
  pub actions : List Action

-- The payload of an event. `named` is the ids that it names under keys other than `ids`.
pub record Payload : Type 0 where
  pub source : Option Text
  pub origin : Option String
  pub depth : Option ℕ
  pub batch : Bool
  pub event_id : Option Text
  pub ids : Option (List Text)
  pub named : Text
  pub document : Option Text

-- A workspace: its configured depth, zero if there is none, its rules and its documents.
pub record Workspace : Type 0 where
  pub max_depth : ℕ
  pub rules : List Automation
  pub get : Text → Option Text

pub data Outcome : Type 0 where
  skipped : Automation → Outcome
  held executed : Automation → List Action → Outcome

-- What one event, or one document of a batch, set off.
pub record Handling : Type 0 where
  pub event : String
  pub payload : Payload
  pub outcomes : List Outcome

pub data Dispatch : Type 0 where
  from_hook batch_echo duplicate unavailable too_deep : Dispatch
  dispatched : (hooks : List String) (handlings : List Handling) → Dispatch

abbrev pub Recent : Type 0
Recent = List (Text × ℕ)

-- `isAutomatedOrigin`
unfoldable pub is_automated_origin : Option String → Bool
is_automated_origin none = false
is_automated_origin (some o) = not (o == "") && not (o == "user")

-- The actions that are held, and those that run at once, if the rule itself needs no approval.
unfoldable pub split_held : List Action → List Action → List Action × List Action
split_held [] actions = ([], actions)
split_held (a ∷ more) actions = (a ∷ more, keep (λ (b : Action). not b.approval) actions)

-- `#splitApproval`
unfoldable pub split_approval : Automation → List Action × List Action
split_approval r =
    if r.approval
    then (r.actions, [])
    else split_held (keep (λ (a : Action). a.approval) r.actions) r.actions

unfoldable pub proposed : Automation → List Action → List Outcome
proposed r [] = []
proposed r (a ∷ more) = held r (a ∷ more) ∷ []

unfoldable pub run_now : Automation → List Action → List Outcome
run_now r [] = []
run_now r (a ∷ more) = executed r (a ∷ more) ∷ []

unfoldable pub run_gated : Bool → Automation → List Outcome
run_gated true r = skipped r ∷ []
run_gated false r = let (later, now) = split_approval r in proposed r later ++ run_now r now

unfoldable pub run_rule : Bool → Automation → List Outcome
run_rule automated r = run_gated (automated && not r.cascade) r

-- The ids of the payload, in one text.
unfoldable pub ids_text : Payload → Text
ids_text p = elim p.ids [ none ↦ p.named | some ids ↦ join b',' ids ]

-- `#buildDispatchKey`
unfoldable pub build_dispatch_key : String → Payload → Text → Option Text
build_dispatch_key event p workspace =
    let named = ids_text p in
    let by_ids : Option Text =
      if text_eq named []
      then none
      else some (
          workspace
          ++ codes ":"
          ++ codes event
          ++ codes ":"
          ++ named
          ++ codes ":"
          ++ or_else p.source []) in
    elim p.event_id [
      | none ↦ by_ids
      | some [] ↦ by_ids
      | some (c ∷ id) ↦ some (workspace ++ codes ":" ++ codes event ++ codes ":" ++ (c ∷ id))
    ]

-- The entries that are not older than a second.
unfoldable pub pruned : ℕ → Recent → Recent
pruned now = keep (λ (e : Text × ℕ). not (ltb 1000 (now - e.1)))

-- The test on the event's key, if it has one.
unfoldable pub duplicate_of : ℕ → Option Text → Recent → Bool × Recent
duplicate_of now none recent = (false, recent)
duplicate_of now (some key) recent =
    let kept = pruned now recent in
    if is_some (lookup key kept) then (true, kept) else (false, insert key now kept)

-- `#isDuplicateDispatch`
unfoldable pub is_duplicate_dispatch : ℕ → String → Payload → Text → Recent → Bool × Recent
is_duplicate_dispatch now event p workspace recent =
    duplicate_of now (build_dispatch_key event p workspace) recent

-- `#BATCH_FANOUT`
unfoldable pub singular_event : String → Option String
singular_event event =
    if event == "document.inserted.batch"
    then some "document.inserted"
    else if event == "document.updated.batch"
    then some "document.updated"
    else if event == "document.linked.batch"
    then some "document.linked"
    else if event == "document.unlinked.batch"
    then some "document.unlinked"
    else none

-- The payload that a document of a batch is handled with.
abbrev pub document_payload : Payload → Text → Text → Payload
document_payload p id document = record p {
  ids = none;
  named = id;
  document = some document;
  batch = true;
}

-- `#shouldRunHook`
unfoldable pub should_run_hook : String → Option (List String) → Bool
should_run_hook event none = true
should_run_hook event (some events) = includes events event || includes events "*"

unfoldable pub hooks_for : String → List (String × Option (List String)) → List String
hooks_for event hooks =
    map (λ (h : String × Option (List String)). h.0)
      (keep (λ (h : String × Option (List String)). should_run_hook event h.1) hooks)

-- A batch's singular events that are only echoed, without a document.
unfoldable pub is_batch_echo : String → Payload → Bool
is_batch_echo event p = (event == "document.inserted" || event == "document.updated") && p.batch

-- The ceiling of a workspace.
unfoldable pub depth_limit : ℕ → Workspace → ℕ
depth_limit default_max_depth w = if nat_eq w.max_depth 0 then default_max_depth else w.max_depth

module _ (m : Matching) where
  -- `#runWorkspaceRules`
  unfoldable pub run_rules : Bool → String → Classification → List Automation → List Outcome
  run_rules automated event c [] = []
  run_rules automated event c (r ∷ rs) =
      let rest = run_rules automated event c rs in
      if match_rule m r.rule event c then run_rule automated r ++ rest else rest

module _ (m : Matching) (classify : Payload → Classification) where
  unfoldable pub handle : Workspace → Bool → String → Payload → Handling
  handle w automated event p = record {
    event = event;
    payload = p;
    outcomes = run_rules m automated event (classify p) w.rules;
  }

  -- One document of a batch, if it is there, before the others.
  unfoldable pub handle_loaded :
      Workspace → Bool → String → Payload → Text → Option Text → List Handling → List Handling
  handle_loaded w automated event p id none rest = rest
  handle_loaded w automated event p id (some document) rest =
      handle w automated event (document_payload p id document) ∷ rest

  -- `#fanOutBatch`
  unfoldable pub fan_out_batch : Workspace → Bool → String → Payload → List Text → List Handling
  fan_out_batch w automated event p [] = []
  fan_out_batch w automated event p (id ∷ ids) =
      handle_loaded w automated event p id (w.get id) (fan_out_batch w automated event p ids)

  -- The handling of the documents of a batch, if the event is one.
  unfoldable pub fanned_out : Workspace → Bool → Option String → Payload → List Handling
  fanned_out w automated none p = []
  fanned_out w automated (some singular) p = fan_out_batch w automated singular p (or_else p.ids [])

  -- What is behind the checks that need no workspace.
  unfoldable pub dispatch_in :
      ℕ → List (String × Option (List String)) → Option Workspace → String → Payload → Dispatch
  dispatch_in default_max_depth hooks none event p = unavailable
  dispatch_in default_max_depth hooks (some w) event p =
      let automated = is_automated_origin p.origin in
      if leb (depth_limit default_max_depth w) (or_else p.depth 0)
      then too_deep
      else dispatched (hooks_for event hooks)
          (handle w automated event p ∷ fanned_out w automated (singular_event event) p)

  -- `dispatchEvent`
  unfoldable pub dispatch_event :
      ℕ
      → ℕ
      → List (String × Option (List String))
      → (Text → Option Workspace)
      → String
      → Payload
      → Text
      → Recent
      → Dispatch × Recent
  dispatch_event now default_max_depth hooks get_workspace event p workspace recent =
      let (is_duplicate, kept) = is_duplicate_dispatch now event p workspace recent in
      if text_eq (or_else p.source []) (codes "hook")
      then (from_hook, recent)
      else if is_batch_echo event p
      then (batch_echo, recent)
      else if is_duplicate
      then (duplicate, kept)
      else (dispatch_in default_max_depth hooks (get_workspace workspace) event p, kept)
