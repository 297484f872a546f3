-- ===== src/Access/Groups/Laws.antt =====
-- When two group names denote one group.
use mathlib.Core.Path.{subst}
use canvas_server.Prelude.{
  ℕ, ◌≡◌, ◌≢◌, refl, sym, ap, ◌∙◌, inl, inr, true, false, ◌||◌, Option, some, List, [], ◌∷◌, ◌++◌,
  arith, Text, codes, text_eq_iff, nat_eq, any, All, is_space, trim, trim_start, trim_idem, Casing,
  folded, trim-cases,
}
use canvas_server.Access.Groups.{
  until_comma, first_rdn, value_of, aliases_of, among, group_aliases, group_matches,
}

any-among_nil : (ys : List Text) → any (λ y. among [] y) ys ≡ false
any-among_nil [] = refl
any-among_nil (y ∷ ys) = any-among_nil ys

any-among_cons :
    (x : Text) (xs ys : List Text)
    → any (λ y. among (x ∷ xs) y) ys ≡ (among ys x || any (λ y. among xs y) ys)
any-among_cons x xs [] = refl
any-among_cons x xs (y ∷ ys) =
    ground (arith, text_eq_iff x y, text_eq_iff y x, any-among_cons x xs ys)

any-among_comm : (xs ys : List Text) → any (λ x. among ys x) xs ≡ any (λ y. among xs y) ys
any-among_comm [] ys = sym (any-among_nil ys)
any-among_comm (x ∷ xs) ys = ground (arith, any-among_comm xs ys, any-among_cons x xs ys)

until_comma-append :
    (v rest : Text) → All (λ c. nat_eq c b',' ≡ false) v → until_comma (v ++ b',' ∷ rest) ≡ v
unfolding until_comma
until_comma-append [] rest h = refl
until_comma-append (c ∷ v) rest (p, h) = rw p (ap (λ t. c ∷ t) (until_comma-append v rest h))

among_second : (x y : Text) (ys : List Text) → among (x ∷ y ∷ ys) y ≡ true
among_second x y ys = ground (arith, text_eq_iff y y)

cons-ne-nil : (c : ℕ) (v : Text) → c ∷ v ≢ []
cons-ne-nil c v h = cc

head-eq : (c d : ℕ) (v t : Text) → c ∷ v ≡ d ∷ t → c ≡ d
head-eq c d v t h = cc

-- The DN `cn=<v>,<rest>`.
abbrev pub dn_of : Text → Text → Text
dn_of v rest = codes "cn=" ++ v ++ b',' ∷ rest

trim_start-solid : (c : ℕ) (s : Text) → is_space c ≡ false → trim_start (c ∷ s) ≡ c ∷ s
trim_start-solid c s h = rw h

first_rdn-dn_of :
    (c : ℕ) (v rest : Text)
    → is_space c ≡ false
    → All (λ d. nat_eq d b',' ≡ false) (c ∷ v)
    → trim (c ∷ v) ≡ c ∷ v
    → first_rdn (dn_of (c ∷ v) rest) ≡ some (c ∷ v)
unfolding first_rdn
first_rdn-dn_of c v rest solid h whole =
    ap (λ t. value_of (is_space c) (until_comma t)) (trim_start-solid c (v ++ b',' ∷ rest) solid)
    ∙ ap (value_of (is_space c)) (until_comma-append (c ∷ v) rest h)
    ∙ ap some whole

among-aliases_of : (c : ℕ) (s : Text) → among (aliases_of (c ∷ s)) (c ∷ s) ≡ true
unfolding aliases_of
among-aliases_of c s = ground (arith, text_eq_iff (c ∷ s) (c ∷ s))

any-among_common :
    (xs ys : List Text) (x : Text)
    → among xs x ≡ true
    → among ys x ≡ true
    → any (λ z. among ys z) xs ≡ true
any-among_common [] ys x h k = cc
any-among_common (z ∷ xs) ys x h k = ground (arith, text_eq_iff z x, any-among_common xs ys x)

module _ (u : Casing) where
  trim_of_folded : (s : Text) → folded u s ≡ s → trim s ≡ s
  trim_of_folded s h = ap trim (sym h) ∙ u.trim-lower (trim s) ∙ ap u.lower (trim_idem s) ∙ h

  starts_solid : (c : ℕ) (v : Text) → trim (c ∷ v) ≡ c ∷ v → is_space c ≡ false
  starts_solid c v h = elim (trim-cases (c ∷ v)) [
    | inl blank ↦ absurd (cons-ne-nil c v (sym h ∙ blank))
    | inr (d, t, starts, solid) ↦ rw (head-eq c d v t (sym h ∙ starts)) solid
  ]

  -- Granting a group by name and asking for it by name are symmetric: which side is the granted
  -- name makes no difference.
  pub group_matches_comm : (a b : Option Text) → group_matches u a b ≡ group_matches u b a
  unfolding group_matches
  group_matches_comm a b = any-among_comm (group_aliases u a) (group_aliases u b)

  -- A grant to a DN `cn=<v>,...` reaches the users whose group is the bare name v, in any case and
  -- with any space around it, where v is not blank and holds no comma and the DN and v are given
  -- trimmed and in lower case.
  pub group_matches-dn_of :
      (v rest name : Text)
      → v ≢ []
      → All (λ d. nat_eq d b',' ≡ false) v
      → folded u v ≡ v
      → folded u (dn_of v rest) ≡ dn_of v rest
      → folded u name ≡ v
      → group_matches u (some (dn_of v rest)) (some name) ≡ true
  unfolding group_matches group_aliases
  group_matches-dn_of [] rest name ne h hv hd hn = absurd (ne refl)
  group_matches-dn_of (c ∷ v) rest name ne h hv hd hn =
      let whole : trim (c ∷ v) ≡ c ∷ v = trim_of_folded (c ∷ v) hv in
      let rdn = first_rdn-dn_of c v rest (starts_solid c v whole) h whole in
      let second : among (aliases_of (dn_of (c ∷ v) rest)) (c ∷ v) ≡ true =
        rw (rdn, aliases_of) (among_second (dn_of (c ∷ v) rest) (c ∷ v) []) in
      any-among_common (group_aliases u (some (dn_of (c ∷ v) rest))) (group_aliases u (some name))
        (c ∷ v) (subst (λ t. among (aliases_of t) (c ∷ v) ≡ true) (sym hd) second)
        (subst (λ t. among (aliases_of t) (c ∷ v) ≡ true) (sym hn) (among-aliases_of c v))
