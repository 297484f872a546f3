-- ===== src/Hooks/Keys/Inside.antt =====
-- Storage keys of src/core/workspace/services/hook/key-utils.js stay inside the backend's root.
use mathlib.Core.Path.{subst}
use mathlib.Core.List.{Memᴰ}
use mathlib.Core.List.Memᴰ
use canvas_server.Prelude.{
  arith, ℕ, ◌≡◌, ◌≢◌, ◌↔◌, refl, inl, inr, true, false, not, Option, none, some, List, [], ◌∷◌,
  Text, codes, text_eq, text_eq_iff, nat_eq, split, All, Bool-cases, sym, ◌∙◌, ap,
}
use canvas_server.Prelude.Kept.{Mem-keep, keep-Mem, All-Mem}
use canvas_server.Workspaces.References.{join}
use canvas_server.Workspaces.References.RoundTrip.{Lacks, split-cons, split-append, split_of_plain}
use canvas_server.Hooks.Keys.{
  is_dropped, segments_of, key_segments, join_key, slashed, slashed_text,
}

-- A plain segment of a path, on any system: a name.
pub record IsSegment (s : Text) : Type 0 where
  pub filled : s ≢ []
  pub not_here : s ≢ codes "."
  pub not_above : s ≢ codes ".."
  pub no_slash : Lacks b'/' s
  pub no_backslash : Lacks b'\\' s

-- The text between two separators of one of the parts.
abbrev pub IsIn : Text → List (Option Text) → Type 0
IsIn s parts = (part : Text) × Memᴰ (some part) parts × Memᴰ s (split b'/' (slashed_text part))

split-Lacks : (s : Text) → All (Lacks b'/') (split b'/' s)
split-Lacks [] = (tt, tt)
split-Lacks (c ∷ s) =
    let (w, ws, e) = split-cons s in
    let ih : All (Lacks b'/') (w ∷ ws) = subst (All (Lacks b'/')) e (split-Lacks s) in
    elim (Bool-cases (nat_eq c b'/')) [
      | inl slash ↦ rw e (rw slash (tt, ih))
      | inr other ↦ rw e (rw other ((other, ih.0), ih.1))
    ]

slashed-no_backslash : (c : ℕ) → nat_eq (slashed c) b'\\' ≡ false
slashed-no_backslash c = ground arith

-- No backslash is left in what is split.
split-slashed : (s : Text) → All (Lacks b'\\') (split b'/' (slashed_text s))
split-slashed [] = (tt, tt)
split-slashed (c ∷ s) =
    let (w, ws, e) = split-cons (slashed_text s) in
    let ih : All (Lacks b'\\') (w ∷ ws) = subst (All (Lacks b'\\')) e (split-slashed s) in
    elim (Bool-cases (nat_eq (slashed c) b'/')) [
      | inl slash ↦ rw e (rw slash (tt, ih))
      | inr other ↦ rw e (rw other ((slashed-no_backslash c, ih.0), ih.1))
    ]

kept-names : (s : Text) → not (is_dropped s) ≡ true → (s ≢ []) × (s ≢ codes ".") × (s ≢ codes "..")
kept-names s h = (
  λ e. ground (arith, h, (text_eq_iff s []).1 e),
  λ e. ground (arith, h, (text_eq_iff s (codes ".")).1 e),
  λ e. ground (arith, h, (text_eq_iff s (codes "..")).1 e),
)

not_same : (s t : Text) → s ≢ t → text_eq s t ≡ false
not_same s t h = elim (Bool-cases (text_eq s t)) [
  | inl same ↦ absurd (h ((text_eq_iff s t).0 same))
  | inr other ↦ other
]

names-kept : (s : Text) → IsSegment s → not (is_dropped s) ≡ true
names-kept s p =
    rw
      (
        not_same s [] p.filled,
        not_same s (codes ".") p.not_here,
        not_same s (codes "..") p.not_above,
      )
      refl

-- The segments of a key are the plain ones of its parts.
segments-plain :
    (s part : Text)
    → Memᴰ s (segments_of part)
    → IsSegment s × Memᴰ s (split b'/' (slashed_text part))
segments-plain s part m =
    let (there, kept) = Mem-keep (λ w. not (is_dropped w)) (split b'/' (slashed_text part)) m in
    let (filled, not_here, not_above) = kept-names s kept in
    (
      record {
        filled = filled;
        not_here = not_here;
        not_above = not_above;
        no_slash = All-Mem (Lacks b'/') _ (split-Lacks (slashed_text part)) there;
        no_backslash = All-Mem (Lacks b'\\') _ (split-slashed part) there;
      },
      there,
    )

key_segments-plain :
    (s : Text) (parts : List (Option Text))
    → Memᴰ s (key_segments parts)
    → IsSegment s × IsIn s parts
unfolding key_segments
key_segments-plain s [] m = elim m [ ]
key_segments-plain s (none ∷ parts) m =
    let (plain, (part, i, there)) = key_segments-plain s parts m in
    (plain, (part, Memᴰ.tail i, there))
key_segments-plain s (some part ∷ parts) m = elim (Memᴰ.append_cases (segments_of part) m) [
  | inl here ↦
      let (plain, there) = segments-plain s part here in (plain, (part, Memᴰ.head refl, there))
  | inr later ↦
      let (plain, (other, i, there)) = key_segments-plain s parts later in
      (plain, (other, Memᴰ.tail i, there))
]

plain-key_segments :
    (s part : Text) (parts : List (Option Text))
    → IsSegment s
    → Memᴰ (some part) parts
    → Memᴰ s (split b'/' (slashed_text part))
    → Memᴰ s (key_segments parts)
unfolding key_segments
plain-key_segments s part [] p i there = elim i [ ]
plain-key_segments s part (none ∷ parts) p (Memᴰ.head e) there = cc
plain-key_segments s part (none ∷ parts) p (Memᴰ.tail i) there =
    plain-key_segments s part parts p i there
plain-key_segments s part (some other ∷ parts) p (Memᴰ.head e) there =
    let same : part ≡ other = cc in
    Memᴰ.append_left (key_segments parts) (
      subst (λ x. Memᴰ s (segments_of x)) same
        (keep-Mem (λ w. not (is_dropped w)) (split b'/' (slashed_text part)) there
          (names-kept s p)))
plain-key_segments s part (some other ∷ parts) p (Memᴰ.tail i) there =
    Memᴰ.append_right (segments_of other) (plain-key_segments s part parts p i there)

-- Joined segments without a slash split into the same segments.
split-join :
    (w : Text) (ws : List Text)
    → All (Lacks b'/') (w ∷ ws)
    → split b'/' (join b'/' (w ∷ ws)) ≡ w ∷ ws
unfolding join
split-join w [] (p, h) = split_of_plain w p
split-join w (v ∷ ws) (p, h) =
    split-append w (join b'/' (v ∷ ws)) p ∙ ap (λ r. w ∷ r) (split-join v ws h)

without_slashes : (ws : List Text) → ((s : Text) → Memᴰ s ws → IsSegment s) → All (Lacks b'/') ws
without_slashes [] h = tt
without_slashes (w ∷ ws) h =
    ((h w (Memᴰ.head refl)).no_slash, without_slashes ws (λ s m. h s (Memᴰ.tail m)))

abbrev head_of : List Text → Text
head_of [] = []
head_of (w ∷ ws) = w

-- The segments that are joined are read back from the key, if there are any.
joined :
    (ws : List Text)
    → ((s : Text) → Memᴰ s ws → IsSegment s)
    → (s : Text) → ((join b'/' ws ≢ []) × Memᴰ s (split b'/' (join b'/' ws))) ↔ Memᴰ s ws
unfolding join
joined [] h s = (λ m. absurd (m.0 refl), λ m. elim m [ ])
joined (w ∷ ws) h s =
    let back = split-join w ws (without_slashes (w ∷ ws) h) in
    (
      λ m. subst (λ x. Memᴰ s x) back m.1,
      λ m. (
        λ e. (h w (Memᴰ.head refl)).filled (ap (λ x. head_of x) (sym back ∙ ap (split b'/') e)),
        subst (λ x. Memᴰ s x) (sym back) m,
      ),
    )

-- The segments of a key, split at its slashes, are exactly the plain segments of its parts: the
-- texts between their slashes and backslashes that are not empty, `.` or `..`. So a key cannot
-- name anything outside the root of the backend, and loses no name; and a key that is empty has no
-- segment.
pub join_key-IsSegment :
    (parts : List (Option Text)) (s : Text)
    → ((join_key parts ≢ []) × Memᴰ s (split b'/' (join_key parts))) ↔ (IsSegment s × IsIn s parts)
unfolding join_key
join_key-IsSegment parts s =
    let same = joined (key_segments parts) (λ x m. (key_segments-plain x parts m).0) s in
    (
      λ m. key_segments-plain s parts (same.0 m),
      λ p. same.1 (plain-key_segments s p.1.0 parts p.0 p.1.1 p.1.2),
    )
