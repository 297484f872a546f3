-- ===== src/Hooks/Rules/Explained.antt =====
-- The explanation of a rule against the matching that fires it.
use canvas_server.Prelude.{
  ◌≡◌, refl, ap, ◌∙◌, inl, inr, Bool, true, false, ◌&&◌, not, Option, none, some, List, [], ◌∷◌,
  ◌++◌, map, all, arith, String, includes, or_else, if◌then◌else◌, Option-cases,
}
use canvas_server.Hooks.Rules.{
  When, Rule, Classification, Matching, checks_of, reported, all_hold, empty_when, listed,
  explain_rule, match_rule,
}

abbrev pub is_nil : List String → Bool
is_nil [] = true
is_nil (x ∷ xs) = false

abbrev hold : List (String × Bool) → Bool
hold cs = all (λ chk. chk.1) cs

hold-append : (xs ys : List (String × Bool)) → hold (xs ++ ys) ≡ (hold xs && hold ys)
hold-append [] ys = refl
hold-append (x ∷ xs) ys = ground (arith, hold-append xs ys)

hold-reported : (cs : List (String × Option Bool)) → hold (reported cs) ≡ all_hold cs
unfolding reported all_hold
hold-reported [] = refl
hold-reported ((key, none) ∷ rest) = hold-reported rest
hold-reported ((key, some true) ∷ rest) = hold-reported rest
hold-reported ((key, some false) ∷ rest) = refl

hold-unknown : (keys : List String) → hold (map (λ key. (key, false)) keys) ≡ is_nil keys
hold-unknown [] = refl
hold-unknown (k ∷ keys) = refl

no_when : (e : Bool) → (e && false) ≡ ((if not e then false else false) && true)
no_when true = refl
no_when false = refl

some_when :
    (e i h n : Bool)
    → (e && (i && (h && n))) ≡ ((if not e then false else if not i then false else h) && n)
some_when e i h n = ground arith

module _ (m : Matching) where
  hold-listed :
      (c : Classification) (event : String) (w : When)
      → hold (listed m c event w)
        ≡ (includes w.event event && (all_hold (checks_of m c w) && is_nil w.unknown))
  hold-listed c event w =
      ap (λ b. includes w.event event && b)
        (hold-append (reported (checks_of m c w)) (map (λ key. (key, false)) w.unknown)
          ∙ ap (λ b. b && hold (map (λ key. (key, false)) w.unknown))
              (hold-reported (checks_of m c w))
          ∙ ap (λ b. all_hold (checks_of m c w) && b) (hold-unknown w.unknown))

  -- The explanation of a rule says that it matches exactly if the rule fires and its `when` has no
  -- key that the engine does not know.
  pub explain_rule-match_rule :
      (rule : Rule) (event : String) (c : Classification)
      → (explain_rule m rule event c).matched
        ≡ (match_rule m rule event c && is_nil (or_else rule.when empty_when).unknown)
  unfolding explain_rule match_rule
  explain_rule-match_rule rule event c = elim (Option-cases rule.when) [
    | inl nothing ↦ rw (nothing, explain_rule, match_rule) (no_when rule.enabled)
    | inr (w, given) ↦
        rw (given, explain_rule, match_rule, hold-listed c event w)
          (some_when rule.enabled (includes w.event event) (all_hold (checks_of m c w))
            (is_nil w.unknown))
  ]
