-- ===== src/Hooks/Pending/Found.antt =====
-- The line test of `get` in src/core/workspace/services/hook/pending-actions.js lets the id's own records
-- through, if JSON writes the id as it is.
use mathlib.Core.Path.{subst}
use mathlib.Core.List.{append_assoc}
use canvas_server.Prelude.{
  arith, ℕ, ◌≡◌, refl, sym, ap, ◌∙◌, inl, inr, Bool, true, false, ◌||◌, ◌&&◌, [], ◌∷◌, ◌++◌, Text,
  codes, text_eq, text_eq_iff, nat_eq_refl, starts_with, has_text, All, Bool-cases,
}
use canvas_server.Hooks.Pending.Json.{
  is_high, is_low, is_unescaped, escaped, escaped_unit, quoted, starts_low,
}
use canvas_server.Hooks.Pending.{Proposal, line, is_of}

-- A text that JSON writes as it is: with no quote, backslash, control character or surrogate.
abbrev pub IsUnescaped : Text → Type 0
IsUnescaped = All (λ c. is_unescaped c ≡ true)

alone :
    (c : ℕ) (after low : Bool)
    → is_unescaped c ≡ true
    → (is_high c && low || is_low c && after) ≡ false
unfolding is_unescaped
alone c after low h = ground (arith, h)

escaped_of_plain : (s : Text) (after : Bool) → IsUnescaped s → escaped after s ≡ s
unfolding escaped escaped_unit
escaped_of_plain [] after h = refl
escaped_of_plain (c ∷ s) after (p, h) =
    rw (alone c after (starts_low s) p, p, escaped_of_plain s (is_high c) h) refl

starts_with-append : (s t : Text) → starts_with s (s ++ t) ≡ true
starts_with-append [] t = refl
starts_with-append (c ∷ s) t = rw (nat_eq_refl c) (starts_with-append s t)

has_text_of_start : (s t : Text) → starts_with s t ≡ true → has_text s t ≡ true
has_text_of_start s [] h = h
has_text_of_start s (c ∷ t) h = rw h

has_text-append : (s a t : Text) → has_text s (a ++ s ++ t) ≡ true
has_text-append s [] t = has_text_of_start s (s ++ t) (starts_with-append s t)
has_text-append s (c ∷ a) t = rw (has_text-append s a t) (ground arith)

module _ (other_fields : Proposal → Text) where
  line_of_plain :
      (p : Proposal)
      → IsUnescaped p.action_id
      → line other_fields p ≡ codes "{\"actionId\":\"" ++ p.action_id ++ (b'"' ∷ other_fields p)
  unfolding line quoted
  line_of_plain p h = rw (escaped_of_plain p.action_id false h) (
      ap (λ t. codes "{\"actionId\":\"" ++ t)
        (append_assoc p.action_id (b'"' ∷ []) (other_fields p)))

  own_line :
      (p : Proposal) → IsUnescaped p.action_id → has_text p.action_id (line other_fields p) ≡ true
  own_line p h =
      ap (has_text p.action_id) (line_of_plain p h)
      ∙ has_text-append p.action_id (codes "{\"actionId\":\"") (b'"' ∷ other_fields p)

  -- For such an id the line test changes nothing.
  pub is_of_plain :
      (id : Text) (p : Proposal) → IsUnescaped id → is_of other_fields id p ≡ text_eq p.action_id id
  unfolding is_of
  is_of_plain id p h = elim (Bool-cases (text_eq p.action_id id)) [
    | inl own ↦
        let same : p.action_id ≡ id = (text_eq_iff p.action_id id).0 own in
        let mine : has_text id (line other_fields p) ≡ true =
          sym (ap (λ x. has_text x (line other_fields p)) same)
          ∙ own_line p (subst IsUnescaped (sym same) h) in
        rw (own, mine) refl
    | inr other ↦ rw other (ground arith)
  ]
