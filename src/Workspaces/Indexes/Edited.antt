-- ===== src/Workspaces/Indexes/Edited.antt =====
-- Entries of src/core/workspace/index.js whose ACL is mirrored into the index.
use mathlib.Core.Path.{subst}
use canvas_server.Prelude.{
  ◌≡◌, ◌⊎◌, refl, inl, inr, ◌&&◌, Option, some, arith, Text, text_eq, text_eq_iff, lookup, text_key,
  Bool-cases, some-inj, sym, ◌∙◌, ap, ℕ,
}
use canvas_server.Access.Resolve.{Acl}
use canvas_server.Workspaces.Indexes.Defs.{Entry, Manager, truthy, entry_key, entry_at, set_entry}
use canvas_server.Workspaces.Indexes.Puts.{entry_at-set_entry}
use canvas_server.Workspaces.Indexes.Consistent.{Has, IsProper, IsConsistent}

abbrev pub edited : Entry → Option Acl → ℕ → Entry
edited e acl at = record e { acl = acl; updated_at = at }

module _ (m : Manager) (c : IsConsistent m) (u id : Text) (e : Entry) (h : Has u id e m)
    (acl : Option Acl) (at : ℕ) where
  abbrev after : Manager
  after = set_entry u id (edited e acl at) m

  pub edited-new : Has u id (edited e acl at) after
  edited-new =
      entry_at-set_entry u u id id (edited e acl at) m
      ∙ (rw ((text_eq_iff u u).1 refl, (text_eq_iff id id).1 refl) refl)

  edited-cases :
      (v j : Text) (f : Entry)
      → Has v j f after
      → ((u ≡ v) × (id ≡ j) × (edited e acl at ≡ f)) ⊎ Has v j f m
  edited-cases v j f k =
      ground
        (arith, text_eq_iff u v, text_eq_iff id j, entry_at-set_entry u v id j (edited e acl at) m)

  -- An entry that was stored still is, up to the ACL and the time.
  edited-old :
      (v j : Text) (f : Entry)
      → Has v j f m
      → (g : Entry) × Has v j g after
        × (entry_key v g ≡ entry_key v f)
        × (g.reference ≡ f.reference)
  edited-old v j f k = elim (Bool-cases (text_eq u v && text_eq id j)) [
    | inl same ↦
        let x : u ≡ v = ground (arith, text_eq_iff u v, same) in
        let y : id ≡ j = ground (arith, text_eq_iff id j, same) in
        let z : e ≡ f = some-inj (sym h ∙ (λ i. entry_at (x i) (y i) m) ∙ k) in
        (
          edited e acl at,
          entry_at-set_entry u v id j (edited e acl at) m ∙ rw same refl,
          (λ i. entry_key v (z i)),
          ap (λ g. g.reference) z,
        )
    | inr other ↦ (f, entry_at-set_entry u v id j (edited e acl at) m ∙ rw other k, refl, refl)
  ]

  IsProper-edited : IsProper u id (edited e acl at)
  IsProper-edited =
      let p = c.proper u id e h in
      record {
        keyed = p.keyed;
        owned = p.owned;
        has_id = p.has_id;
        has_owner = p.has_owner;
        has_name = p.has_name;
        referred = p.referred;
        plain = p.plain;
      }

  -- Tables that the edit leaves alone.
  pub IsConsistent-edited : IsConsistent after
  unfolding set_entry
  IsConsistent-edited = record {
    proper = λ v j f k. elim (edited-cases v j f k) [
      | inl (x, y, z) ↦
          subst (λ v. IsProper v j f) x
            (subst (λ j. IsProper u j f) y (subst (IsProper u id) z IsProper-edited))
      | inr old ↦ c.proper v j f old
    ];
    named = λ v j f k. elim (edited-cases v j f k) [
      | inl (x, y, z) ↦
          (λ i. lookup (entry_key (sym x i) (sym z i)) m.names) ∙ c.named u id e h ∙ ap some y
      | inr old ↦ c.named v j f old
    ];
    placed = λ v j f k. elim (edited-cases v j f k) [
      | inl (x, y, z) ↦ (λ i. lookup (sym y i) m.ids) ∙ c.placed u id e h ∙ ap some x
      | inr old ↦ c.placed v j f old
    ];
    referable = λ v j r f k is. elim (edited-cases v j f k) [
      | inl (x, y, z) ↦ c.referable u id r e h (ap (λ g. truthy g.reference) z ∙ is) ∙ ap some y
      | inr old ↦ c.referable v j r f old is
    ];
    names_back = λ k j found.
        let (v, f, has, key) = c.names_back k j found in
        let (g, now, same, ref) = edited-old v j f has in (v, g, now, same ∙ key);
    ids_back = λ j v found.
        let (f, has) = c.ids_back j v found in
        let (g, now, same, ref) = edited-old v j f has in (g, now);
    references_back = λ r j found.
        let (v, f, has, is) = c.references_back r j found in
        let (g, now, same, ref) = edited-old v j f has in (v, g, now, ap truthy ref ∙ is);
  }
