-- ===== src/Hooks/Dispatch/Exact.antt =====
-- Exactly which actions an event has run at once: `dispatchEvent` of
-- src/core/workspace/services/hook/index.js.
use mathlib.Core.Path.{subst}
use mathlib.Core.List.{Memᴰ}
use canvas_server.Prelude.{
  sym, arith, ℕ, ◌<◌, ◌≡◌, refl, ap, ◌∙◌, ◌↔◌, Bool, true, false, Option, none, some, List, [], ◌∷◌,
  String, Text, codes, text_eq, leb, or_else, if◌then◌else◌,
}
use canvas_server.Hooks.Rules.{Classification, Matching, match_rule}
use canvas_server.Hooks.Dispatch.{
  Action, Automation, Payload, Workspace, Handling, Dispatch, Recent, dispatched, run_rules, handle,
  fanned_out, singular_event, dispatch_in, dispatch_event, is_duplicate_dispatch,
  is_automated_origin, depth_limit, hooks_for,
}
use canvas_server.Hooks.Dispatch.Once.{
  IsNoEcho, IsFresh, IsOnRecord, is_batch_echo_iff, duplicate_of_iff, duplicate_of-record,
}
use canvas_server.Hooks.Dispatch.{duplicate_of, build_dispatch_key}
use canvas_server.Hooks.Dispatch.Admitted.{Executes, IsDue}
use canvas_server.Hooks.Dispatch.Fired.{
  IsHandled, Executes-run_rules, run_rules-Executes, handled-IsHandled, IsHandled-handled,
}

-- An event that is dispatched has passed every check.
dispatch-gates :
    (b c d : Bool) (x : Dispatch) (s t : Recent) (hooks : List String) (handlings : List Handling)
    → (if◌then◌else◌ {A = Dispatch × Recent} b
        (Dispatch.from_hook, s)
        (if c then (Dispatch.batch_echo, s) else if d then (Dispatch.duplicate, t) else (x, t))).0
      ≡ dispatched hooks handlings
    → (b ≡ false) × (c ≡ false) × (d ≡ false) × (x ≡ dispatched hooks handlings)
dispatch-gates true c d x s t hooks handlings e = cc
dispatch-gates false true d x s t hooks handlings e = cc
dispatch-gates false false true x s t hooks handlings e = cc
dispatch-gates false false false x s t hooks handlings e = (refl, refl, refl, e)

gates-dispatch :
    (b c d : Bool) (x : Dispatch) (s t : Recent)
    → b ≡ false
    → c ≡ false
    → d ≡ false
    → (if◌then◌else◌ {A = Dispatch × Recent} b
        (Dispatch.from_hook, s)
        (if c then (Dispatch.batch_echo, s) else if d then (Dispatch.duplicate, t) else (x, t)))
      ≡ (x, t)
gates-dispatch b c d x s t h h' h'' = rw (h, h', h'')

shallow-gate :
    (b : Bool) (names names' : List String) (handlings handlings' : List Handling)
    → (if b then Dispatch.too_deep else dispatched names' handlings') ≡ dispatched names handlings
    → (b ≡ false) × (handlings ≡ handlings')
shallow-gate true names names' handlings handlings' e = cc
shallow-gate false names names' handlings handlings' e = (refl, cc)

lt_of_not_leb : (x y : ℕ) → leb x y ≡ false → y < x
lt_of_not_leb x y h = ground (arith, h)

-- For an event that is handled as one, the rule has the action run at once.
abbrev pub Fires : Dispatch → String → Payload → Automation → Action → Type 0
Fires d event p r a =
    (hooks : List String) × (handlings : List Handling) × (h : Handling) × (d
      ≡ dispatched hooks handlings)
    × Memᴰ h handlings
    × (h.event ≡ event)
    × (h.payload ≡ p)
    × Executes r a h.outcomes

module _ (m : Matching) (classify : Payload → Classification) (default_max_depth : ℕ)
    (hooks : List (String × Option (List String))) where
  -- What is dispatched in a workspace.
  dispatch_in-open :
      (o : Option Workspace) (event : String) (p : Payload) (names : List String)
      (handlings : List Handling)
      → dispatch_in m classify default_max_depth hooks o event p ≡ dispatched names handlings
      → (w : Workspace) × (o ≡ some w)
        × (or_else p.depth 0 < depth_limit default_max_depth w)
        × (handlings
            ≡ handle m classify w (is_automated_origin p.origin) event p
              ∷ fanned_out m classify w (is_automated_origin p.origin) (singular_event event) p)
  unfolding dispatch_in
  dispatch_in-open none event p names handlings e = cc
  dispatch_in-open (some w) event p names handlings e =
      let (gate, same) = shallow-gate _ _ _ _ _ e in
      (w, refl, lt_of_not_leb (depth_limit default_max_depth w) (or_else p.depth 0) gate, same)

  open-dispatch_in :
      (w : Workspace) (event : String) (p : Payload)
      → or_else p.depth 0 < depth_limit default_max_depth w
      → dispatch_in m classify default_max_depth hooks (some w) event p
        ≡ dispatched (hooks_for event hooks) (
            handle m classify w (is_automated_origin p.origin) event p
            ∷ fanned_out m classify w (is_automated_origin p.origin) (singular_event event) p)
  unfolding dispatch_in
  open-dispatch_in w event p h = ground (arith, h)

-- What has to hold for an action to run at once, for an event that is handled as `event'`.
pub record MayFire (m : Matching) (classify : Payload → Classification) (default_max_depth now : ℕ)
    (get_workspace : Text → Option Workspace) (event : String) (p : Payload) (workspace : Text)
    (recent : Recent) (event' : String) (p' : Payload) (r : Automation) (a : Action) : Type 0 where
  pub not_from_hook : text_eq (or_else p.source []) (codes "hook") ≡ false
  pub no_echo : IsNoEcho event p
  pub fresh : IsFresh now (build_dispatch_key event p workspace) recent
  pub target : Workspace
  pub there : get_workspace workspace ≡ some target
  pub shallow : or_else p.depth 0 < depth_limit default_max_depth target
  pub handled : IsHandled target event p event' p'
  pub listed : Memᴰ r target.rules
  pub matches : match_rule m r.rule event' (classify p') ≡ true
  pub due : IsDue (is_automated_origin p.origin) r a

module _ (m : Matching) (classify : Payload → Classification) (default_max_depth now : ℕ)
    (hooks : List (String × Option (List String))) (get_workspace : Text → Option Workspace)
    (event : String) (p : Payload) (workspace : Text) (recent : Recent) (event' : String)
    (p' : Payload) (r : Automation) (a : Action) where
  Fires-MayFire :
      Fires
        (dispatch_event m classify now default_max_depth hooks get_workspace event p workspace
          recent).0
        event'
        p'
        r
        a
      → MayFire m classify default_max_depth now get_workspace event p workspace recent event' p' r
          a
  unfolding dispatch_event is_duplicate_dispatch handle
  Fires-MayFire (names, handlings, h, e, i, same, same', fires) =
      let (by_user, no_echo, fresh, e') = dispatch-gates _ _ _ _ _ _ names handlings e in
      let (w, there, shallow, e'') =
        dispatch_in-open m classify default_max_depth hooks (get_workspace workspace) event p names
          handlings e' in
      let (as_one, same'') =
        handled-IsHandled m classify w (is_automated_origin p.origin) event p h
          (subst (λ x. Memᴰ h x) e'' i) in
      let ran : h.outcomes
          ≡ run_rules m (is_automated_origin p.origin) event' (classify p') w.rules =
        ap (λ x. x.outcomes) same''
        ∙ ap (λ x. run_rules m (is_automated_origin p.origin) x (classify h.payload) w.rules) same
        ∙ ap (λ x. run_rules m (is_automated_origin p.origin) event' (classify x) w.rules) same' in
      let (listed, matches, due) =
        Executes-run_rules m (is_automated_origin p.origin) event' (classify p') w.rules r a
          (subst (λ os. Executes r a os) ran fires) in
      record {
        not_from_hook = by_user;
        no_echo = (is_batch_echo_iff event p).0 no_echo;
        fresh = (duplicate_of_iff now (build_dispatch_key event p workspace) recent).0 fresh;
        target = w;
        there = there;
        shallow = shallow;
        handled =
            subst (λ x. IsHandled w event p x p') same
              (subst (λ x. IsHandled w event p h.event x) same' as_one);
        listed = listed;
        matches = matches;
        due = due;
      }

  -- What the dispatch comes to if nothing stands against it.
  passed :
      (h : MayFire m classify default_max_depth now get_workspace event p workspace recent event' p'
        r a)
      → dispatch_event m classify now default_max_depth hooks get_workspace event p workspace recent
        ≡ (
          dispatch_in m classify default_max_depth hooks (get_workspace workspace) event p,
          (duplicate_of now (build_dispatch_key event p workspace) recent).1,
        )
  unfolding dispatch_event is_duplicate_dispatch
  passed h =
      gates-dispatch _ _ _ _ _ _ h.not_from_hook ((is_batch_echo_iff event p).1 h.no_echo)
        ((duplicate_of_iff now (build_dispatch_key event p workspace) recent).1 h.fresh)

  MayFire-Fires :
      MayFire m classify default_max_depth now get_workspace event p workspace recent event' p' r a
      → Fires
          (dispatch_event m classify now default_max_depth hooks get_workspace event p workspace
            recent).0
          event'
          p'
          r
          a
  unfolding handle
  MayFire-Fires h = (
    hooks_for event hooks,
    _,
    handle m classify h.target (is_automated_origin p.origin) event' p',
    ap (λ d. d.0) (passed h)
        ∙ ap (λ o. dispatch_in m classify default_max_depth hooks o event p) (h.there)
        ∙ open-dispatch_in m classify default_max_depth hooks h.target event p h.shallow,
    IsHandled-handled m classify h.target (is_automated_origin p.origin) event p event' p'
        h.handled,
    refl,
    refl,
    run_rules-Executes m (is_automated_origin p.origin) event' (classify p') h.target.rules r a
        h.listed h.matches h.due,
  )

  MayFire-IsOnRecord :
      MayFire m classify default_max_depth now get_workspace event p workspace recent event' p' r a
      → IsOnRecord now
          (build_dispatch_key event p workspace)
          (dispatch_event m classify now default_max_depth hooks get_workspace event p workspace
            recent).1
  MayFire-IsOnRecord h =
      subst (λ d. IsOnRecord now (build_dispatch_key event p workspace) d.1) (sym (passed h))
        (duplicate_of-record now (build_dispatch_key event p workspace) recent
          ((duplicate_of_iff now (build_dispatch_key event p workspace) recent).1 h.fresh))

  -- An action of a rule is run at once exactly if the event is neither caused by a hook, nor the
  -- singular event of a batch, nor on record within the last second under its key, the workspace is
  -- there, the event is not too deep in a cascade, and a rule of the workspace that matches the
  -- event itself, or a document of its batch, has that action, neither of which waits for an
  -- approval; and for an event that an automation has caused, only if the rule cascades. The event
  -- is then on record under its key, if it has one, with the time.
  pub dispatch_event-Fires :
      (Fires
          (dispatch_event m classify now default_max_depth hooks get_workspace event p workspace
            recent).0
          event'
          p'
          r
          a
        × IsOnRecord now
            (build_dispatch_key event p workspace)
            (dispatch_event m classify now default_max_depth hooks get_workspace event p workspace
              recent).1)
      ↔ MayFire m classify default_max_depth now get_workspace event p workspace recent event' p' r
          a
  dispatch_event-Fires = (λ f. Fires-MayFire f.0, λ h. (MayFire-Fires h, MayFire-IsOnRecord h))
