-- ===== src/Hooks/Dispatch/Fired.antt =====
-- From an event to the actions that run at once: the dispatch of
-- src/core/workspace/services/hook/index.js as a whole.
use mathlib.Core.Path.{subst}
use mathlib.Core.List.{Memᴰ}
use canvas_server.Prelude.{
  ◌≡◌, refl, sym, ap, ◌∙◌, ◌⊎◌, inl, inr, Bool, true, false, Option, none, some, List, [], ◌∷◌,
  ◌++◌, String, Text, or_else, if◌then◌else◌,
}
use canvas_server.Hooks.Rules.{Classification, Matching, match_rule}
use canvas_server.Hooks.Dispatch.{
  Action, Automation, Payload, Workspace, Outcome, Handling, run_rule, run_rules, handle,
  handle_loaded, fan_out_batch, fanned_out, singular_event, document_payload,
}
use canvas_server.Hooks.Dispatch.Admitted.{
  Executes, IsDue, Executes-append, Executes-left, Executes-right, Executes-run_rule,
  run_rule-Executes,
}

-- The outcomes of a rule that may match, before those of the others.
Executes-matched :
    (b automated : Bool) (s r : Automation) (a : Action) (rest : List Outcome)
    → Executes r a (if b then run_rule automated s ++ rest else rest)
    → ((r ≡ s) × (b ≡ true) × IsDue automated s a) ⊎ Executes r a rest
Executes-matched true automated s r a rest h = elim (Executes-append r a _ rest h) [
  | inl here ↦ (let (same, due) = Executes-run_rule automated s r a here in inl (same, refl, due))
  | inr later ↦ inr later
]
Executes-matched false automated s r a rest h = inr h

matched-Executes :
    (b automated : Bool) (r : Automation) (a : Action) (rest : List Outcome)
    → b ≡ true
    → IsDue automated r a
    → Executes r a (if b then run_rule automated r ++ rest else rest)
matched-Executes true automated r a rest h due =
    Executes-left r a _ rest (run_rule-Executes automated r a due)
matched-Executes false automated r a rest h due = cc

unmatched-Executes :
    (b automated : Bool) (s r : Automation) (a : Action) (rest : List Outcome)
    → Executes r a rest
    → Executes r a (if b then run_rule automated s ++ rest else rest)
unmatched-Executes true automated s r a rest h = Executes-right r a _ rest h
unmatched-Executes false automated s r a rest h = h

module _ (m : Matching) where
  pub Executes-run_rules :
      (automated : Bool) (event : String) (c : Classification) (rules : List Automation)
      (r : Automation) (a : Action)
      → Executes r a (run_rules m automated event c rules)
      → Memᴰ r rules × (match_rule m r.rule event c ≡ true) × IsDue automated r a
  unfolding run_rules
  Executes-run_rules automated event c [] r a (ran, i, h) = elim i [ ]
  Executes-run_rules automated event c (s ∷ rules) r a h =
      elim (Executes-matched (match_rule m s.rule event c) automated s r a _ h) [
        | inl (same, matches, due) ↦ (
          Memᴰ.head same,
          ap (λ x. match_rule m x.rule event c) same ∙ matches,
          subst (λ x. IsDue automated x a) (sym same) due,
        )
        | inr later ↦
            (let (there, matches, due) = Executes-run_rules automated event c rules r a later in
              (Memᴰ.tail there, matches, due))
      ]

  pub run_rules-Executes :
      (automated : Bool) (event : String) (c : Classification) (rules : List Automation)
      (r : Automation) (a : Action)
      → Memᴰ r rules
      → match_rule m r.rule event c ≡ true
      → IsDue automated r a
      → Executes r a (run_rules m automated event c rules)
  unfolding run_rules
  run_rules-Executes automated event c [] r a i h due = elim i [ ]
  run_rules-Executes automated event c (s ∷ rules) r a (Memᴰ.head e) h due =
      subst (λ x. Executes r a (run_rules m automated event c (x ∷ rules))) e
        (matched-Executes (match_rule m r.rule event c) automated r a _ h due)
  run_rules-Executes automated event c (s ∷ rules) r a (Memᴰ.tail i) h due =
      unmatched-Executes (match_rule m s.rule event c) automated s r a _
        (run_rules-Executes automated event c rules r a i h due)

-- What an event is handled as: itself, and each document of a batch.
abbrev pub IsHandled : Workspace → String → Payload → String → Payload → Type 0
IsHandled w event p event' p' =
    ((event' ≡ event) × (p' ≡ p))
    ⊎ ((id : Text) × (document : Text) × (singular_event event ≡ some event')
        × Memᴰ id (or_else p.ids [])
        × (w.get id ≡ some document)
        × (p' ≡ document_payload p id document))

module _ (m : Matching) (classify : Payload → Classification) (w : Workspace)
    (automated : Bool) where
  handle_loaded-found :
      (event : String) (p : Payload) (id : Text) (loaded : Option Text) (rest : List Handling)
      (h : Handling)
      → Memᴰ h (handle_loaded m classify w automated event p id loaded rest)
      → ((document : Text) × (loaded ≡ some document)
          × (h ≡ handle m classify w automated event (document_payload p id document)))
        ⊎ Memᴰ h rest
  unfolding handle_loaded
  handle_loaded-found event p id none rest h i = inr i
  handle_loaded-found event p id (some d) rest h (Memᴰ.head e) = inl (d, refl, e)
  handle_loaded-found event p id (some d) rest h (Memᴰ.tail i) = inr i

  handle_loaded-rest :
      (event : String) (p : Payload) (id : Text) (loaded : Option Text) (rest : List Handling)
      (h : Handling)
      → Memᴰ h rest
      → Memᴰ h (handle_loaded m classify w automated event p id loaded rest)
  unfolding handle_loaded
  handle_loaded-rest event p id none rest h i = i
  handle_loaded-rest event p id (some d) rest h i = Memᴰ.tail i

  handle_loaded-head :
      (event : String) (p : Payload) (id : Text) (loaded : Option Text) (rest : List Handling)
      (document : Text)
      → loaded ≡ some document
      → Memᴰ
          (handle m classify w automated event (document_payload p id document))
          (handle_loaded m classify w automated event p id loaded rest)
  unfolding handle_loaded
  handle_loaded-head event p id none rest document e = cc
  handle_loaded-head event p id (some d) rest document e =
      Memᴰ.head (ap (λ x. handle m classify w automated event (document_payload p id x)) cc)

  -- The documents of a batch that can be loaded, one by one.
  fan_out_batch-found :
      (event : String) (p : Payload) (ids : List Text) (h : Handling)
      → Memᴰ h (fan_out_batch m classify w automated event p ids)
      → (id : Text) × (document : Text) × Memᴰ id ids
        × (w.get id ≡ some document)
        × (h ≡ handle m classify w automated event (document_payload p id document))
  unfolding fan_out_batch
  fan_out_batch-found event p [] h i = elim i [ ]
  fan_out_batch-found event p (id ∷ ids) h i =
      elim (handle_loaded-found event p id (w.get id) _ h i) [
        | inl (document, found, e) ↦ (id, document, Memᴰ.head refl, found, e)
        | inr later ↦
            (let (other, document, there, found, e) = fan_out_batch-found event p ids h later in
              (other, document, Memᴰ.tail there, found, e))
      ]

  fan_out_batch-all :
      (event : String) (p : Payload) (ids : List Text) (id document : Text)
      → Memᴰ id ids
      → w.get id ≡ some document
      → Memᴰ
          (handle m classify w automated event (document_payload p id document))
          (fan_out_batch m classify w automated event p ids)
  unfolding fan_out_batch
  fan_out_batch-all event p [] id document i found = elim i [ ]
  fan_out_batch-all event p (x ∷ ids) id document (Memᴰ.head e) found =
      subst
        (λ y. Memᴰ (handle m classify w automated event (document_payload p id document)) (
          handle_loaded m classify w automated event p y (w.get y)
            (fan_out_batch m classify w automated event p ids)))
        e (handle_loaded-head event p id (w.get id) _ document found)
  fan_out_batch-all event p (x ∷ ids) id document (Memᴰ.tail i) found =
      handle_loaded-rest event p x (w.get x) _ _ (fan_out_batch-all event p ids id document i found)

  fanned_out-found :
      (event : String) (p : Payload) (o : Option String) (h : Handling)
      → singular_event event ≡ o
      → Memᴰ h (fanned_out m classify w automated o p)
      → IsHandled w event p h.event h.payload
        × (h ≡ handle m classify w automated h.event h.payload)
  unfolding fanned_out handle
  fanned_out-found event p none h named i = elim i [ ]
  fanned_out-found event p (some singular) h named i =
      let (id, document, there, found, e) = fan_out_batch-found singular p (or_else p.ids []) h i in
      subst
        (λ x.
          IsHandled w event p x.event x.payload
          × (x ≡ handle m classify w automated x.event x.payload))
        (sym e) (inr (id, document, named, there, found, refl), refl)

  -- What is handled, and as what.
  pub handled-IsHandled :
      (event : String) (p : Payload) (h : Handling)
      → Memᴰ h (
          handle m classify w automated event p
          ∷ fanned_out m classify w automated (singular_event event) p)
      → IsHandled w event p h.event h.payload
        × (h ≡ handle m classify w automated h.event h.payload)
  unfolding handle
  handled-IsHandled event p h (Memᴰ.head e) =
      subst
        (λ x.
          IsHandled w event p x.event x.payload
          × (x ≡ handle m classify w automated x.event x.payload))
        (sym e) (inl (refl, refl), refl)
  handled-IsHandled event p h (Memᴰ.tail i) =
      fanned_out-found event p (singular_event event) h refl i

  pub IsHandled-handled :
      (event : String) (p : Payload) (event' : String) (p' : Payload)
      → IsHandled w event p event' p'
      → Memᴰ (handle m classify w automated event' p') (
          handle m classify w automated event p
          ∷ fanned_out m classify w automated (singular_event event) p)
  unfolding fanned_out
  IsHandled-handled event p event' p' (inl (same, same')) = Memᴰ.head (rw (same, same'))
  IsHandled-handled event p event' p' (inr (id, document, named, there, found, same)) =
      Memᴰ.tail
        (rw (named, same) (fan_out_batch-all event' p (or_else p.ids []) id document there found))
