-- ===== src/Workspaces/Indexes/Puts.antt =====
-- What one entry of a user's index reads after another one of src/core/workspace/index.js is written.
use canvas_server.Prelude.{
  ◌≡◌, refl, inl, inr, ◌&&◌, none, some, Text, text_eq, text_eq_iff, if◌then◌else◌, insert, remove,
  text_key, lookup-insert, lookup-remove, Bool-cases,
}
use canvas_server.Workspaces.Indexes.Defs.{
  Entry, Manager, user_index, entry_at, set_entry, delete_entry,
}

pub entry_at-set_entry :
    (u v id j : Text) (e : Entry) (m : Manager)
    → entry_at v j (set_entry u id e m)
      ≡ (if text_eq u v && text_eq id j then some e else entry_at v j m)
unfolding entry_at set_entry
entry_at-set_entry u v id j e m = elim (Bool-cases (text_eq u v)) [
  | inl eq ↦
      rw (lookup-insert u v (insert id e (user_index u m)) m.indexes)
        (rw eq (rw (lookup-insert id j e (user_index u m)) (rw ((text_eq_iff u v).0 eq) refl)))
  | inr ne ↦ rw (lookup-insert u v (insert id e (user_index u m)) m.indexes) (rw ne refl)
]

pub entry_at-delete_entry :
    (u v id j : Text) (m : Manager)
    → entry_at v j (delete_entry u id m)
      ≡ (if text_eq u v && text_eq id j then none else entry_at v j m)
unfolding entry_at delete_entry
entry_at-delete_entry u v id j m = elim (Bool-cases (text_eq u v)) [
  | inl eq ↦
      rw (lookup-insert u v (remove id (user_index u m)) m.indexes)
        (rw eq (rw (lookup-remove id j (user_index u m)) (rw ((text_eq_iff u v).0 eq) refl)))
  | inr ne ↦ rw (lookup-insert u v (remove id (user_index u m)) m.indexes) (rw ne refl)
]
