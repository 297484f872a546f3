-- ===== src/Edge/Registry/Exports.antt =====
-- Whose edges a user reaches by `findByExport` of src/edge/registry.js.
use mathlib.Core.List.{Memᴰ}
use mathlib.Core.Path.{subst}
use canvas_server.Prelude.{
  ◌≡◌, refl, sym, ap, Option, inl, inr, Bool, true, false, none, ◌||◌, ◌&&◌, ◌⊎◌, eq_iff, some,
  List, [], ◌∷◌, String, ◌==◌, Text, find, Bool-cases, Option-cases, some-inj, none-ne-some,
}
use canvas_server.Edge.Registry.{
  Export, EdgeEntry, Registry, is_user, exports_of, matches, find_export, find_by_export,
}

-- The export that was found is one of an edge that the user announced, and is the one asked for.
pub record IsOwnExport (type identifier user : String) (edges : List (Text × EdgeEntry))
    (hit : Text × Export) : Type 0 where
  pub edge : EdgeEntry
  pub connected : Memᴰ (hit.0, edge) edges
  pub owned : edge.user_id ≡ some user
  pub exported : Memᴰ hit.1 (exports_of edge)
  pub typed : hit.1.type ≡ type
  pub asked : (hit.1.id ≡ identifier) ⊎ (hit.1.name ≡ identifier)

find-Memᴰ :
    (t : Export → Bool) (es : List Export) (e : Export)
    → find t es ≡ some e
    → Memᴰ e es × (t e ≡ true)
find-Memᴰ t [] e h = cc
find-Memᴰ t (x ∷ es) e h = elim (Bool-cases (t x)) [
  | inl hit ↦
      let same : x ≡ e = some-inj (rw hit at h) in
      (Memᴰ.head (sym same), subst (λ y. t y ≡ true) same hit)
  | inr miss ↦ let (m, k) = find-Memᴰ t es e (rw miss at h) in (Memᴰ.tail m, k)
]

is_user-some : (o : Option String) (user : String) → is_user o user ≡ true → o ≡ some user
is_user-some none user h = cc
is_user-some (some x) user h = ap some ((eq_iff x user).0 h)

all_of : (a b c : Bool) → (a && (b || c)) ≡ true → (a ≡ true) × ((b ≡ true) ⊎ (c ≡ true))
all_of true true c h = (refl, inl refl)
all_of true false c h = (refl, inr h)
all_of false b c h = cc

matches-fields :
    (type identifier : String) (e : Export)
    → matches type identifier e ≡ true
    → (e.type ≡ type) × ((e.id ≡ identifier) ⊎ (e.name ≡ identifier))
matches-fields type identifier e h =
    let (typed, asked) = all_of (e.type == type) (e.id == identifier) (e.name == identifier) h in
    (
      (eq_iff e.type type).0 typed,
      elim asked [
        | inl by_id ↦ inl ((eq_iff e.id identifier).0 by_id)
        | inr by_name ↦ inr ((eq_iff e.name identifier).0 by_name)
      ],
    )

module _ (type identifier user : String) where
  later_edge :
      (x : Text × EdgeEntry) (edges : List (Text × EdgeEntry)) (hit : Text × Export)
      → IsOwnExport type identifier user edges hit
      → IsOwnExport type identifier user (x ∷ edges) hit
  later_edge x edges hit o = record {
    edge = o.edge;
    connected = Memᴰ.tail o.connected;
    owned = o.owned;
    exported = o.exported;
    typed = o.typed;
    asked = o.asked;
  }

  find_export-IsOwnExport :
      (edges : List (Text × EdgeEntry)) (hit : Text × Export)
      → find_export type identifier user edges ≡ some hit
      → IsOwnExport type identifier user edges hit
  unfolding find_export
  find_export-IsOwnExport [] hit h = absurd (none-ne-some h)
  find_export-IsOwnExport ((i, edge) ∷ rest) hit h = elim (Bool-cases (is_user edge.user_id user)) [
    | inr foreign ↦
        later_edge (i, edge) rest hit
          (find_export-IsOwnExport rest hit (rw (foreign, find_export) at h))
    | inl own ↦ elim (Option-cases (find (matches type identifier) (exports_of edge))) [
      | inl nothing ↦
          later_edge (i, edge) rest hit
            (find_export-IsOwnExport rest hit (rw (own, nothing, find_export) at h))
      | inr (e, there) ↦
          let (m, asked) = find-Memᴰ (matches type identifier) (exports_of edge) e there in
          subst (IsOwnExport type identifier user ((i, edge) ∷ rest))
            (some-inj (rw (own, there, find_export) at h))
            (record {
              edge = edge;
              connected = Memᴰ.head refl;
              owned = is_user-some edge.user_id user own;
              exported = m;
              typed = (matches-fields type identifier e asked).0;
              asked = (matches-fields type identifier e asked).1;
            })
    ]
  ]

  -- A user reaches only edges of his own: an export that is found belongs to an edge that is
  -- connected and was announced by that user, and has the type and the id or name asked for.
  pub find_by_export-IsOwnExport :
      (r : Registry) (hit : Text × Export)
      → find_by_export type identifier user r ≡ some hit
      → IsOwnExport type identifier user r.edges hit
  unfolding find_by_export
  find_by_export-IsOwnExport r hit h = elim (Bool-cases (identifier == "" || user == "")) [
    | inl blank ↦ absurd (none-ne-some (rw (blank, find_by_export) at h))
    | inr given ↦ find_export-IsOwnExport r.edges hit (rw (given, find_by_export) at h)
  ]
