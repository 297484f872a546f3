-- ===== src/Workspaces/Registry/Refined.antt =====
-- Creation, removal and transfer in src/core/workspace/index.js against a directory of workspaces.
use mathlib.Core.Path.{subst}
use canvas_server.Prelude.{
  ◌≡◌, ◌≢◌, refl, inl, inr, false, Option, none, some, [], arith, Text, text_eq, text_eq_iff,
  lookup, text_key, Bool-cases, Option-cases, sym, ◌∙◌, ap, ℕ,
}
use canvas_server.Workspaces.Indexes.Defs.{
  Entry, Manager, truthy, host_of, is_remote, name_key, key_of, entry_key, entry_at, find_in_index,
}
use canvas_server.Workspaces.Indexes.Consistent.{Has, IsConsistent, dropped}
use canvas_server.Workspaces.Indexes.Dropped.{IsConsistent-dropped, names-dropped, ids-dropped}
use canvas_server.Workspaces.Indexes.Found.{find_in_index-same, find_in_index-some}
use canvas_server.Workspaces.Imports.{existing_of}
use canvas_server.Workspaces.Guarded.{World}
use canvas_server.Workspaces.Registry.{
  Error, Result, refused, done, unloaded, handed_over, transferred, transfer_guard, transfer_after,
  transfer_entry, transfer_workspace_ownership,
}
use canvas_server.Workspaces.Registry.Moves.{
  constructed, moved, moved-IsProper, if_none, free_of_truthy, unloaded-IsConsistent,
  transfer_guard-none, refused-ne-done, done-inj,
}
use canvas_server.Workspaces.Registry.Views.{
  Directory, view, assign, view-Has, view-added, view-dropped,
}

-- Two directories with the same answers.
abbrev pub Same : Directory → Directory → Type 0
Same d k = (j : Text) → d j ≡ k j

-- A transfer in the directory: the entry of the id moves to the new owner, and nothing else
-- changes; a transfer that is refused changes nothing.
abbrev pub Transfers : Text → Text → Directory → Result × Manager → Type 0
Transfers id v d r =
    ((x : Error) → r.0 ≡ refused x → Same (view r.1) d)
    × ((f : Entry)
        → r.0 ≡ done f
        → (u : Text) × (e : Entry) × (d id ≡ some (u, e))
          × (f.name ≡ e.name)
          × Same (view r.1) (assign id (some (v, f)) d))

refused-Transfers :
    (id v : Text) (d : Directory) (m : Manager) (x : Error)
    → Same (view m) d
    → Transfers id v d (refused x, m)
refused-Transfers id v d m x same = (λ y e. same, λ f e. absurd (refused-ne-done e))

done-Transfers :
    (id v u : Text) (d : Directory) (m : Manager) (e f : Entry)
    → d id ≡ some (u, e)
    → f.name ≡ e.name
    → Same (view m) (assign id (some (v, f)) d)
    → Transfers id v d (done f, m)
done-Transfers id v u d m e f old name same = (
  λ x h. absurd (refused-ne-done (sym h)),
  λ g h.
      subst
        (λ g.
          (u : Text) × (e : Entry) × (d id ≡ some (u, e))
          × (g.name ≡ e.name)
          × Same (view m) (assign id (some (v, g)) d))
        (done-inj h) (u, e, old, name, same),
)

view-unloaded : (id : Text) (m : Manager) → Same (view (unloaded id m)) (view m)
unfolding unloaded existing_of entry_at
view-unloaded id m j = refl

assign_twice :
    (d : Directory) (id : Text) (x y : Option (Text × Entry))
    → Same (assign id x (assign id y d)) (assign id x d)
assign_twice d id x y j = elim (Bool-cases (text_eq id j)) [ inl s ↦ rw s refl | inr o ↦ rw o refl ]

assign-Same :
    (d k : Directory) (id : Text) (x : Option (Text × Entry))
    → Same d k
    → Same (assign id x d) (assign id x k)
assign-Same d k id x same j = elim (Bool-cases (text_eq id j)) [
  | inl s ↦ rw s refl
  | inr o ↦ rw o (same j)
]

handed_over-assign :
    (m : Manager) (c : IsConsistent m) (e : Entry) (h : Has e.owner e.id e m) (v : Text) (now : ℕ)
    (near : is_remote e ≡ false)
    (free : truthy (lookup (name_key v e.name (host_of e.host)) m.names) ≡ none) (filled : v ≢ [])
    → Same
        (view (handed_over e (moved m c e h v now near free filled) m))
        (assign e.id (some (v, moved m c e h v now near free filled)) (view m))
handed_over-assign m c e h v now near free filled j =
    let f = moved m c e h v now near free filled in
    view-added (dropped e.owner e m) v f (IsConsistent-dropped m e.owner e c h)
      (moved-IsProper m c e h v now near free filled)
      (ids-dropped m c e.owner e h e.id ∙ rw ((text_eq_iff e.id e.id).1 refl) refl)
      (names-dropped m c e.owner e h (entry_key v f)
        ∙ if_none _ _ (free_of_truthy m (entry_key v f) c free))
      j
    ∙ assign-Same (view (dropped e.owner e m)) (assign e.id none (view m)) e.id _
        (view-dropped m e c h) j
    ∙ assign_twice (view m) e.id _ none j

transferred-Transfers :
    (m : Manager) (v : Text) (now : ℕ) (e : Entry) (o : Option Text)
    → IsConsistent m
    → Has e.owner e.id e m
    → v ≢ []
    → is_remote e ≡ false
    → truthy (lookup (name_key v e.name (host_of e.host)) m.names) ≡ none
    → ((r : Text) → o ≡ some r → r ≡ key_of v (host_of e.host) e.name)
    → Transfers e.id v (view m) (transferred v (host_of e.host) now e o m)
transferred-Transfers m v now e none c h filled near free is =
    refused-Transfers e.id v (view m) m Error.reference_refused (λ j. refl)
transferred-Transfers m v now e (some r) c h filled near free is =
    subst (λ r. Transfers e.id v (view m) (transferred v (host_of e.host) now e (some r) m))
      (sym (is r refl))
      (done-Transfers e.id v e.owner (view m) _ e _ (view-Has m c e.owner e.id e h) refl
        (handed_over-assign m c e h v now near free filled))

kept-Transfers :
    (m : Manager) (e : Entry) (v : Text)
    → IsConsistent m
    → Has e.owner e.id e m
    → e.owner ≡ v
    → Transfers e.id v (view m) (done e, m)
kept-Transfers m e v c h mine =
    done-Transfers e.id v e.owner (view m) m e e (view-Has m c e.owner e.id e h) refl (λ j.
      elim (Bool-cases (text_eq e.id j)) [
        | inl s ↦ rw s (
            ap (view m) (sym ((text_eq_iff e.id j).0 s))
            ∙ view-Has m c e.owner e.id e h
            ∙ ap (λ u. some (u, e)) mine)
        | inr o ↦ rw o refl
      ])

transfer_after-Transfers :
    (m : Manager) (v : Text) (now : ℕ) (e : Entry) (o : Option Error)
    → IsConsistent m
    → Has e.owner e.id e m
    → v ≢ []
    → (o ≡ none
        → (is_remote e ≡ false)
          × (truthy (lookup (name_key v e.name (host_of e.host)) m.names) ≡ none))
    → Transfers e.id v (view m) (transfer_after v now e m o)
unfolding unloaded existing_of entry_at
transfer_after-Transfers m v now e (some x) c h filled passed =
    refused-Transfers e.id v (view m) m x (λ j. refl)
transfer_after-Transfers m v now e none c h filled passed =
    transferred-Transfers (unloaded e.id m) v now e _ (unloaded-IsConsistent e.id m c) h filled
      (passed refl).0 (passed refl).1 (λ r made. constructed v e.name (host_of e.host) r made)

transfer_entry-Transfers :
    (m : Manager) (v : Text) (now : ℕ) (e : Entry)
    → IsConsistent m
    → Has e.owner e.id e m
    → Transfers e.id v (view m) (transfer_entry v now e m)
unfolding transfer_entry
transfer_entry-Transfers m v now e c h = elim (Bool-cases (text_eq v [])) [
  | inl empty ↦
      rw (empty, transfer_entry)
        (refused-Transfers e.id v (view m) m Error.new_owner_required (λ j. refl))
  | inr filled ↦ elim (Bool-cases (text_eq e.owner v)) [
    | inl same ↦
        rw (filled, same, transfer_entry)
          (kept-Transfers m e v c h ((text_eq_iff e.owner v).0 same))
    | inr other ↦
        rw (filled, other, transfer_entry)
          (transfer_after-Transfers m v now e (transfer_guard v e m) c h
            (λ x. ground (arith, text_eq_iff v [], filled, x)) (transfer_guard-none v e m))
  ]
]

-- On consistent indexes a transfer of ownership refines its specification on the directory that
-- gives each id its owner and entry. If it returns an entry, the id that was asked for had an
-- entry of the same name, has the returned one with the new owner now, and every other id has what
-- it had; if it is refused, every id has what it had.
pub transfer_workspace_ownership-Transfers :
    (w : World) (m : Manager) (id v : Text) (now : ℕ)
    → IsConsistent m
    → Transfers id v (view m) (transfer_workspace_ownership w id v now m)
unfolding transfer_workspace_ownership
transfer_workspace_ownership-Transfers w m id v now c =
    elim (Option-cases (find_in_index w.order id m).0) [
      | inl absent ↦
          let pair : find_in_index w.order id m ≡ (none, m) =
            λ i. (absent i, find_in_index-same w.order m id c i) in
          rw pair (refused-Transfers id v (view m) m Error.workspace_not_found (λ j. refl))
      | inr (e, there) ↦
          let pair : find_in_index w.order id m ≡ (some e, m) =
            λ i. (there i, find_in_index-same w.order m id c i) in
          let (h, same) = find_in_index-some w.order m id e c there in
          rw pair (
            subst (λ j. Transfers j v (view m) (transfer_entry v now e m)) same
              (transfer_entry-Transfers m v now e c h))
    ]
