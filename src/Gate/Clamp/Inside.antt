-- ===== src/Gate/Clamp/Inside.antt =====
-- Where the paths lie that `clampPathToBase` of src/transports/middleware/agent-acl.js returns.
use mathlib.Core.Path.{subst}
use canvas_server.Prelude.{
  ℕ, ◌≡◌, ◌≢◌, refl, sym, ap, ◌∙◌, ◌⊎◌, inl, inr, Bool, true, false, ◌||◌, Option, none, some, List,
  [], ◌∷◌, ◌++◌, arith, nat_eq, Text, codes, text_eq, text_eq_iff, or_else, split, starts_with,
  trim, if◌then◌else◌, All, All-reverse, Bool-cases, some-inj, none-ne-some,
}
use canvas_server.Gate.Clamp.{
  drop_last, resolved, rooted, or_root, ends_with_slash, normalize, escapes, drop_slash, cleaned,
  within, with_root, clamp_filled, clamp_path_to_base,
}

-- A segment that stands in a path for itself.
abbrev pub IsPlain : Text → Type 0
IsPlain s = (s ≢ []) × (s ≢ codes ".") × (s ≢ codes "..") × All (λ c. nat_eq c b'/' ≡ false) s

abbrev IsSlashFree : Text → Type 0
IsSlashFree s = All (λ c. nat_eq c b'/' ≡ false) s

split-ne-nil : (s : Text) → split b'/' s ≢ []
split-ne-nil [] e = cc
split-ne-nil (c ∷ s) e = cons-ne-nil (split b'/' s) e
  where
    cons-ne-nil :
        (ws : List Text)
        → (elim ws [
          | [] ↦ (c ∷ []) ∷ []
          | w ∷ vs ↦ if nat_eq c b'/' then [] ∷ w ∷ vs else (c ∷ w) ∷ vs
        ])
          ≢ []
    cons-ne-nil [] h = cc
    cons-ne-nil (w ∷ vs) h = ground arith

cons-split :
    (c : ℕ) (ws : List Text)
    → ws ≢ []
    → All IsSlashFree ws
    → All IsSlashFree (elim ws [
      | [] ↦ (c ∷ []) ∷ []
      | w ∷ vs ↦ if nat_eq c b'/' then [] ∷ w ∷ vs else (c ∷ w) ∷ vs
    ])
cons-split c [] ne h = absurd (ne refl)
cons-split c (w ∷ vs) ne (p, h) = elim (Bool-cases (nat_eq c b'/')) [
  | inl slash ↦ rw slash (tt, (p, h))
  | inr letter ↦ rw letter ((letter, p), h)
]

split-IsSlashFree : (s : Text) → All IsSlashFree (split b'/' s)
split-IsSlashFree [] = (tt, tt)
split-IsSlashFree (c ∷ s) = cons-split c (split b'/' s) (split-ne-nil s) (split-IsSlashFree s)

ne_of_false : (s t : Text) → text_eq s t ≡ false → s ≢ t
ne_of_false s t h e = ground (arith, text_eq_iff s t)

both_false : (a b : Bool) → (a || b) ≡ false → (a ≡ false) × (b ≡ false)
both_false a b h = ground arith

drop_last-All : (P : Text → Type 0) (done : List Text) → All P done → All P (drop_last done)
drop_last-All P [] h = h
drop_last-All P (s ∷ done) (p, h) = h

resolved-IsPlain :
    (done rest : List Text)
    → All IsPlain done
    → All IsSlashFree rest
    → All IsPlain (resolved done rest)
unfolding resolved
resolved-IsPlain done [] h k = All-reverse IsPlain done h
resolved-IsPlain done (s ∷ rest) h (p, k) =
    elim (Bool-cases (text_eq s [] || text_eq s (codes "."))) [
      | inl skipped ↦ rw skipped (resolved-IsPlain done rest h k)
      | inr named ↦ rw named (elim (Bool-cases (text_eq s (codes ".."))) [
        | inl up ↦ rw up (resolved-IsPlain (drop_last done) rest (drop_last-All IsPlain done h) k)
        | inr down ↦ rw down (
            resolved-IsPlain (s ∷ done) rest
              (
                (
                  ne_of_false s [] (both_false _ _ named).0,
                  ne_of_false s (codes ".") (both_false _ _ named).1,
                  ne_of_false s (codes "..") down,
                  p,
                ),
                h,
              )
              k)
      ])
    ]

drop_slash-append : (t : Text) → drop_slash (t ++ b'/' ∷ []) ≡ t
drop_slash-append [] = refl
drop_slash-append (c ∷ []) = refl
drop_slash-append (c ∷ d ∷ t) = ap (λ x. c ∷ x) (drop_slash-append (d ∷ t))

drop_slash_solid : (t : Text) → ends_with_slash t ≡ false → drop_slash t ≡ t
drop_slash_solid [] h = refl
drop_slash_solid (c ∷ []) h = rw h
drop_slash_solid (c ∷ d ∷ t) h = ap (λ x. c ∷ x) (drop_slash_solid (d ∷ t) h)

ends_with_slash-append :
    (s : Text) (d : ℕ) (t : Text) → ends_with_slash (s ++ d ∷ t) ≡ ends_with_slash (d ∷ t)
ends_with_slash-append [] d t = refl
ends_with_slash-append (c ∷ []) d t = refl
ends_with_slash-append (c ∷ e ∷ s) d t = ends_with_slash-append (e ∷ s) d t

ends_with_slash-solid : (c : ℕ) (s : Text) → IsSlashFree (c ∷ s) → ends_with_slash (c ∷ s) ≡ false
ends_with_slash-solid c [] (p, h) = p
ends_with_slash-solid c (d ∷ s) (p, h) = ends_with_slash-solid d s h

append-nil : (s : Text) → s ++ [] ≡ s
append-nil [] = refl
append-nil (c ∷ s) = ap (λ t. c ∷ t) (append-nil s)

ends_with_slash-rooted :
    (s : Text) (rest : List Text)
    → All IsPlain (s ∷ rest)
    → ends_with_slash (rooted (s ∷ rest)) ≡ false
unfolding rooted
ends_with_slash-rooted [] rest ((ne, d, e, p), h) = absurd (ne refl)
ends_with_slash-rooted (c ∷ s) [] ((ne, dot, dots, free), h) =
    rw (append-nil s) (ends_with_slash-solid c s free)
ends_with_slash-rooted (c ∷ s) (t ∷ rest) (p, h) =
    ends_with_slash-append (c ∷ s) b'/' (t ++ rooted rest) ∙ ends_with_slash-rooted t rest h

not_root :
    (s : Text) (rest : List Text) (t : Text)
    → s ≢ []
    → text_eq (rooted (s ∷ rest) ++ t) (b'/' ∷ []) ≡ false
unfolding rooted
not_root [] rest t ne = absurd (ne refl)
not_root (c ∷ s) rest t ne = refl

solid_root :
    (s : Text) (rest : List Text) → s ≢ [] → text_eq (rooted (s ∷ rest)) (b'/' ∷ []) ≡ false
unfolding rooted
solid_root [] rest ne = absurd (ne refl)
solid_root (c ∷ s) rest ne = refl

either_true : (a b : Bool) → (a || b) ≡ true → (a ≡ true) ⊎ (b ≡ true)
either_true true b h = inl refl
either_true false b h = inr h

cleaned_of :
    (slash : Bool) (segments : List Text)
    → All IsPlain segments
    → cleaned (
        if slash
        then or_root (rooted segments ++ (if text_eq (rooted segments) [] then [] else b'/' ∷ []))
        else or_root (rooted segments))
      ≡ or_root (rooted segments)
unfolding rooted
cleaned_of true [] h = refl
cleaned_of false [] h = refl
cleaned_of true (s ∷ rest) (p, h) =
    rw (not_root s rest (b'/' ∷ []) p.0) (drop_slash-append (rooted (s ∷ rest)))
cleaned_of false (s ∷ rest) (p, h) =
    rw (solid_root s rest p.0)
      (drop_slash_solid (rooted (s ∷ rest)) (ends_with_slash-rooted s rest (p, h)))

cleaned-normalize :
    (path : Text) → cleaned (normalize path) ≡ or_root (rooted (resolved [] (split b'/' path)))
unfolding normalize
cleaned-normalize path =
    cleaned_of (ends_with_slash path) (resolved [] (split b'/' path))
      (resolved-IsPlain [] (split b'/' path) tt (split-IsSlashFree path))

-- Where a clamped path lies.
abbrev pub IsInside : Text → Text → Type 0
IsInside base p = (base ≡ b'/' ∷ []) ⊎ (p ≡ base) ⊎ (starts_with (base ++ b'/' ∷ []) p ≡ true)

-- A clamped path is the base itself or is made of plain segments: none is empty, "." or "..".
abbrev pub IsClamped : Text → Text → Type 0
IsClamped base p =
    IsInside base p
    × ((p ≡ base)
        ⊎ ((segments : List Text) × All IsPlain segments × (p ≡ or_root (rooted segments))))

within-IsInside :
    (base clean p : Text)
    → within base clean ≡ some p
    → IsInside base p × ((p ≡ base) ⊎ (p ≡ clean))
unfolding within
within-IsInside base clean p h = elim (Bool-cases (text_eq base (b'/' ∷ []))) [
  | inl root ↦ (inl ((text_eq_iff base _).0 root), inr (sym (some-inj (rw (root, within) at h))))
  | inr deep ↦ elim (Bool-cases (text_eq clean (b'/' ∷ []))) [
    | inl all_of_it ↦
        let e : p ≡ base = sym (some-inj (rw (deep, all_of_it, within) at h)) in
        (inr (inl e), inl e)
    | inr part ↦ elim (Bool-cases (text_eq clean base || starts_with (base ++ b'/' ∷ []) clean)) [
      | inr outside ↦ absurd (none-ne-some (rw (deep, part, outside, within) at h))
      | inl inside ↦
          let e : clean ≡ p = some-inj (rw (deep, part, inside, within) at h) in
          (
            inr (elim (either_true _ _ inside) [
              | inl same ↦ inl (sym e ∙ (text_eq_iff clean base).0 same)
              | inr under ↦ inr (subst (λ x. starts_with (base ++ b'/' ∷ []) x ≡ true) e under)
            ]),
            inr (sym e),
          )
    ]
  ]
]

whole : (base p : Text) → base ≡ p → IsClamped base p
whole base p e = (inr (inl (sym e)), inl (sym e))

clamp_filled-IsClamped : (base raw p : Text) → clamp_filled base raw ≡ some p → IsClamped base p
unfolding clamp_filled
clamp_filled-IsClamped base raw p h = elim (Bool-cases (escapes (normalize (with_root raw)))) [
  | inl out ↦ absurd (none-ne-some (rw (out, clamp_filled) at h))
  | inr safe ↦
      let found : within base (cleaned (normalize (with_root raw))) ≡ some p =
        rw (safe, clamp_filled) at h in
      let (inside, which) = within-IsInside base (cleaned (normalize (with_root raw))) p found in
      (
        inside,
        elim which [
          | inl e ↦ inl e
          | inr e ↦ inr (
            resolved [] (split b'/' (with_root raw)),
            resolved-IsPlain [] (split b'/' (with_root raw)) tt (split-IsSlashFree (with_root raw)),
            e ∙ cleaned-normalize (with_root raw),
          )
        ],
      )
]

-- A path that passes the clamp lies under the agent's base, segment for segment: it is the base, or
-- continues it after a slash, unless the base is the root; and but for the base itself it consists
-- of plain segments, so that nothing in it leads out again.
pub clamp_path_to_base-IsClamped :
    (base requested : Option Text) (p : Text)
    → clamp_path_to_base base requested ≡ some p
    → IsClamped (or_root (or_else base [])) p
unfolding clamp_path_to_base
clamp_path_to_base-IsClamped base none p h = whole (or_root (or_else base [])) p (some-inj h)
clamp_path_to_base-IsClamped base (some requested) p h =
    elim (Bool-cases (text_eq (trim requested) [])) [
      | inl blank ↦
          whole (or_root (or_else base [])) p (some-inj (rw (blank, clamp_path_to_base) at h))
      | inr filled ↦
          clamp_filled-IsClamped (or_root (or_else base [])) (trim requested) p
            (rw (filled, clamp_path_to_base) at h)
    ]
