-- ===== src/Workspaces/Registry/Moves.antt =====
-- New owners of workspaces in src/core/workspace/index.js.
use mathlib.Core.Path.{subst}
use mathlib.Core.List.{append_assoc, append-nil}
use canvas_server.Prelude.{
  ◌≡◌, ◌≢◌, refl, inl, inr, Bool, true, false, ◌||◌, Option, none, some, List, [], ◌∷◌, ◌++◌, arith,
  Text, text_eq, text_eq_iff, is_some, if◌then◌else◌, lookup, remove, text_key, Bool-cases,
  Option-cases, some-inj, none-ne-some, sym, ◌∙◌, ap, ℕ,
}
use canvas_server.Workspaces.References.{construct_workspace_reference}
use canvas_server.Workspaces.References.RoundTrip.{Lacks, cut_at-none}
use canvas_server.Workspaces.Indexes.Defs.{
  Entry, Credentials, RemoteRef, Loaded, Manager, truthy, host_of, key_of, is_remote, name_key,
  entry_key, entry_at, find_in_index,
}
use canvas_server.Workspaces.Indexes.Consistent.{
  Has, IsProper, IsConsistent, Has-unique, added-new, dropped,
}
use canvas_server.Workspaces.Indexes.Added.{IsConsistent-added}
use canvas_server.Workspaces.Indexes.Dropped.{IsConsistent-dropped, names-dropped, ids-dropped}
use canvas_server.Workspaces.Indexes.Found.{
  find_in_index-same, find_in_index-some, truthy_of_filled,
}
use canvas_server.Workspaces.Guarded.{World}
use canvas_server.Workspaces.Registry.{
  Error, workspace_not_found, new_owner_required, reference_refused, Result, refused, done,
  unloaded, handed_over, transferred, transfer_guard, transfer_entry, transfer_workspace_ownership,
}

-- Credentials, remote references and instances have no part in consistency.
pub IsConsistent-beside :
    (m : Manager) (a : List (Text × List (Text × Credentials))) (b : List (Text × RemoteRef))
    (l : List (Text × Loaded))
    → IsConsistent m
    → IsConsistent (record m { remote_indexes = a; remote_refs = b; loaded = l })
unfolding entry_at
IsConsistent-beside m a b l c = record {
  proper = c.proper;
  named = c.named;
  placed = c.placed;
  referable = c.referable;
  names_back = c.names_back;
  ids_back = c.ids_back;
  references_back = c.references_back;
}

pub name_key_of_plain :
    (user name host : Text) → Lacks b'@' name → name_key user name host ≡ key_of user host name
unfolding name_key
name_key_of_plain user name host h = rw (cut_at-none name h) refl

pub truthy-key_of : (v h n : Text) → truthy (some (key_of v h n)) ≡ some (key_of v h n)
truthy-key_of [] h n = refl
truthy-key_of (c ∷ v) h n = refl

-- In consistent tables a name key leads to no id or to one that is not empty.
pub free_of_truthy :
    (m : Manager) (k : Text)
    → IsConsistent m
    → truthy (lookup k m.names) ≡ none
    → lookup k m.names ≡ none
free_of_truthy m k c free = elim (Option-cases (lookup k m.names)) [
  | inl absent ↦ absent
  | inr (id, there) ↦
      let (u, e, h, same) = c.names_back k id there in
      elim (none-ne-some
        (sym free ∙ ap truthy there ∙ truthy_of_filled id (c.proper u id e h).has_id)) [ ]
]

pub if_none : {A : Type 0} (b : Bool) (x : Option A) → x ≡ none → (if b then none else x) ≡ none
if_none true x e = refl
if_none false x e = e

module _ (m : Manager) (c : IsConsistent m) (e : Entry) (h : Has e.owner e.id e m) (v : Text)
    (now : ℕ) (near : is_remote e ≡ false)
    (free : truthy (lookup (name_key v e.name (host_of e.host)) m.names) ≡ none)
    (filled : v ≢ []) where
  abbrev pub moved : Entry
  moved = record e {
    owner = v;
    reference = some (key_of v (host_of e.host) e.name);
    updated_at = now;
  }

  pub moved-IsProper : IsProper v e.id moved
  moved-IsProper =
      let p = c.proper e.owner e.id e h in
      record {
        keyed = refl;
        owned = refl;
        has_id = p.has_id;
        has_owner = filled;
        has_name = p.has_name;
        referred = λ r is.
            some-inj (sym is ∙ truthy-key_of v (host_of e.host) e.name)
            ∙ sym (name_key_of_plain v e.name (host_of e.host) (p.plain near));
        plain = λ x. p.plain near;
      }

  handed_over-IsConsistent : IsConsistent (handed_over e moved m)
  handed_over-IsConsistent =
      IsConsistent-added (dropped e.owner e m) v moved (IsConsistent-dropped m e.owner e c h)
        moved-IsProper (ids-dropped m c e.owner e h e.id ∙ rw ((text_eq_iff e.id e.id).1 refl) refl)
        (names-dropped m c e.owner e h (entry_key v moved)
          ∙ if_none _ _ (free_of_truthy m (entry_key v moved) c free))

pub constructed :
    (v name host : Text) (r : Text)
    → construct_workspace_reference v name host [] ≡ some r
    → r ≡ key_of v host name
unfolding construct_workspace_reference
constructed v name host r h = elim (Bool-cases (text_eq v [] || text_eq name [])) [
  | inl bad ↦ elim (none-ne-some (rw (bad, construct_workspace_reference) at h)) [ ]
  | inr ok ↦
      sym (some-inj (rw (ok, construct_workspace_reference) at h))
      ∙ append_assoc v (b'@' ∷ host) (b':' ∷ (name ++ []))
      ∙ ap (λ n. v ++ (b'@' ∷ (host ++ (b':' ∷ n)))) (append-nil name)
]

pub unloaded-IsConsistent :
    (id : Text) (m : Manager) → IsConsistent m → IsConsistent (unloaded id m)
unfolding unloaded
unloaded-IsConsistent id m c =
    IsConsistent-beside m m.remote_indexes m.remote_refs (remove id m.loaded) c

pub refused-ne-done : {x : Error} {f : Entry} → refused x ≢ done f
refused-ne-done e = cc

pub done-inj : {f g : Entry} → done f ≡ done g → f ≡ g
done-inj e = cc

-- What a transfer promises: the tables stay consistent, and an entry that is returned is the only
-- one under its id, and stands with the new owner.
abbrev pub IsMoved : Text → Text → Result × Manager → Type 0
IsMoved id v r =
    IsConsistent r.1
    × ((f : Entry)
        → r.0 ≡ done f
        → (f.id ≡ id)
          × (f.owner ≡ v)
          × Has v id f r.1
          × ((u : Text) (g : Entry) → Has u id g r.1 → u ≡ v))

refused_moves :
    (id v : Text) (m : Manager) (x : Error) → IsConsistent m → IsMoved id v (refused x, m)
refused_moves id v m x c = (c, λ f e. absurd (refused-ne-done e))

done_moves :
    (id v : Text) (m : Manager) (f : Entry)
    → IsConsistent m
    → f.id ≡ id
    → f.owner ≡ v
    → Has v id f m
    → IsMoved id v (done f, m)
done_moves id v m f c same_id same_owner h = (
  c,
  λ g e.
      subst
        (λ g.
          (g.id ≡ id)
          × (g.owner ≡ v)
          × Has v id g m
          × ((u : Text) (k : Entry) → Has u id k m → u ≡ v))
        (done-inj e) (same_id, same_owner, h, λ u k hk. (Has-unique m c u v id id k f hk h refl).0),
)

guards_passed :
    (a b : Bool) (o : Option Text) (x y z : Error)
    → (if a then some x else if b then some y else if is_some o then some z else none) ≡ none
    → (b ≡ false) × (o ≡ none)
guards_passed true b o x y z h = absurd (none-ne-some (sym h))
guards_passed false true o x y z h = absurd (none-ne-some (sym h))
guards_passed false false none x y z h = (refl, refl)
guards_passed false false (some k) x y z h = absurd (none-ne-some (sym h))

pub transfer_guard-none :
    (v : Text) (e : Entry) (m : Manager)
    → transfer_guard v e m ≡ none
    → (is_remote e ≡ false) × (truthy (lookup (name_key v e.name (host_of e.host)) m.names) ≡ none)
unfolding transfer_guard
transfer_guard-none v e m h = guards_passed e.is_universe (is_remote e) _ _ _ _ h

transferred-IsMoved :
    (m : Manager) (v : Text) (now : ℕ) (e : Entry) (o : Option Text)
    → IsConsistent m
    → Has e.owner e.id e m
    → v ≢ []
    → is_remote e ≡ false
    → truthy (lookup (name_key v e.name (host_of e.host)) m.names) ≡ none
    → ((r : Text) → o ≡ some r → r ≡ key_of v (host_of e.host) e.name)
    → IsMoved e.id v (transferred v (host_of e.host) now e o m)
transferred-IsMoved m v now e none c h filled near free is =
    refused_moves e.id v m reference_refused c
transferred-IsMoved m v now e (some r) c h filled near free is =
    subst (λ r. IsMoved e.id v (transferred v (host_of e.host) now e (some r) m)) (sym (is r refl))
      (done_moves e.id v _ _ (handed_over-IsConsistent m c e h v now near free filled) refl refl
        (added-new (dropped e.owner e m) v _))

transfer_entry-IsMoved :
    (m : Manager) (v : Text) (now : ℕ) (e : Entry)
    → IsConsistent m
    → Has e.owner e.id e m
    → IsMoved e.id v (transfer_entry v now e m)
unfolding transfer_entry unloaded entry_at
transfer_entry-IsMoved m v now e c h = elim (Bool-cases (text_eq v [])) [
  | inl empty ↦ rw (empty, transfer_entry) (refused_moves e.id v m new_owner_required c)
  | inr filled ↦ elim (Bool-cases (text_eq e.owner v)) [
    | inl same ↦
        rw (filled, same, transfer_entry)
          (let o = (text_eq_iff e.owner v).0 same in
            done_moves e.id v m e c refl o (subst (λ u. Has u e.id e m) o h))
    | inr other ↦
        rw (filled, other, transfer_entry)
          (elim (Option-cases (transfer_guard v e m)) [
            | inr (x, stopped) ↦ rw stopped (refused_moves e.id v m x c)
            | inl passed ↦
                let (near, free) = transfer_guard-none v e m passed in
                rw passed (
                  transferred-IsMoved (unloaded e.id m) v now e _ (unloaded-IsConsistent e.id m c) h
                    (λ x. ground (arith, text_eq_iff v [], filled, x)) near free
                    (λ r made. constructed v e.name (host_of e.host) r made))
          ])
  ]
]

-- A transfer of ownership on consistent indexes leaves them consistent, whether it succeeds or
-- fails. One that returns an entry returns it under the id that was asked for, with the new owner
-- as its owner, stored with him and with nobody else.
pub transfer_workspace_ownership-IsMoved :
    (w : World) (m : Manager) (id v : Text) (now : ℕ)
    → IsConsistent m
    → IsMoved id v (transfer_workspace_ownership w id v now m)
unfolding transfer_workspace_ownership
transfer_workspace_ownership-IsMoved w m id v now c =
    elim (Option-cases (find_in_index w.order id m).0) [
      | inl absent ↦
          let pair : find_in_index w.order id m ≡ (none, m) =
            λ i. (absent i, find_in_index-same w.order m id c i) in
          rw pair (refused_moves id v m workspace_not_found c)
      | inr (e, there) ↦
          let pair : find_in_index w.order id m ≡ (some e, m) =
            λ i. (there i, find_in_index-same w.order m id c i) in
          let (h, same) = find_in_index-some w.order m id e c there in
          rw pair (
            subst (λ j. IsMoved j v (transfer_entry v now e m)) same
              (transfer_entry-IsMoved m v now e c h))
    ]
