-- ===== src/Workspaces/Indexes/Walked.antt =====
-- The walk over all indexes in src/core/workspace/index.js.
use mathlib.Core.List.{Memᴰ}
use mathlib.Core.List.Memᴰ.{append_left, append_right}
use canvas_server.Prelude.{
  ◌≡◌, refl, inl, inr, some, List, [], ◌∷◌, arith, Text, text_eq, text_eq_iff, lookup, text_key,
  Bool-cases, none-ne-some, Option-cases, sym, ap, All, All-append,
}
use canvas_server.Workspaces.Indexes.Defs.{
  Entry, Manager, user_index, entry_at, entries_of, all_entries,
}
use canvas_server.Workspaces.Indexes.Consistent.{Has}

-- The pair of a user and an entry is stored.
abbrev pub IsStored : Manager → Text × Entry → Type 0
IsStored m s = (id : Text) × Has s.0 id s.1 m

entries_of-IsStored :
    (m : Manager) (user : Text) (walk : List (Text × Entry))
    → All (IsStored m) (entries_of user (user_index user m) walk)
unfolding entries_of entry_at
entries_of-IsStored m user [] = tt
entries_of-IsStored m user ((id, e) ∷ walk) = elim (Option-cases (lookup id (user_index user m))) [
  | inl none_there ↦ rw (none_there, All, entries_of) (entries_of-IsStored m user walk)
  | inr (f, there) ↦ rw (there, All, entries_of) ((id, there), entries_of-IsStored m user walk)
]

-- Everything that is walked over is stored.
pub all_entries-IsStored :
    (order : List Text) (m : Manager) → All (IsStored m) (all_entries order m)
unfolding all_entries
all_entries-IsStored [] m = tt
all_entries-IsStored (user ∷ order) m =
    All-append _ _ _ (entries_of-IsStored m user (user_index user m)) (all_entries-IsStored order m)

lookup-key :
    (id : Text) (e : Entry) (store : List (Text × Entry))
    → lookup id store ≡ some e
    → (f : Entry) × Memᴰ (id, f) store
unfolding lookup
lookup-key id e [] h = elim (none-ne-some h) [ ]
lookup-key id e ((j, f) ∷ store) h = elim (Bool-cases (text_eq j id)) [
  | inl eq ↦ (f, Memᴰ.head (ap (λ k. (k, f)) (sym ((text_eq_iff j id).0 eq))))
  | inr ne ↦
      let (g, in_rest) = lookup-key id e store (ground (arith, h, ne)) in (g, Memᴰ.tail in_rest)
]

entries_of-Memᴰ :
    (user id : Text) (e f : Entry) (store walk : List (Text × Entry))
    → lookup id store ≡ some e
    → Memᴰ (id, f) walk
    → Memᴰ (user, e) (entries_of user store walk)
unfolding entries_of
entries_of-Memᴰ user id e f store [] h m = elim m [ ]
entries_of-Memᴰ user id e f store ((j, g) ∷ walk) h (Memᴰ.head same) =
    rw (sym (ap (λ p. p.0) same)) (rw (h, entries_of) (Memᴰ.head refl))
entries_of-Memᴰ user id e f store ((j, g) ∷ walk) h (Memᴰ.tail m) =
    elim (Option-cases (lookup j store)) [
      | inl absent ↦ rw (absent, entries_of) (entries_of-Memᴰ user id e f store walk h m)
      | inr (k, there) ↦
          rw (there, entries_of) (Memᴰ.tail (entries_of-Memᴰ user id e f store walk h m))
    ]

-- Everything that is stored for a user of the order is walked over.
pub all_entries-Memᴰ :
    (order : List Text) (m : Manager) (user id : Text) (e : Entry)
    → Memᴰ user order
    → Has user id e m
    → Memᴰ (user, e) (all_entries order m)
unfolding all_entries entry_at
all_entries-Memᴰ [] m user id e known h = elim known [ ]
all_entries-Memᴰ (v ∷ order) m user id e (Memᴰ.head same) h =
    let (f, key) = lookup-key id e (user_index user m) h in
    rw (sym same)
      (append_left _ (entries_of-Memᴰ user id e f (user_index user m) (user_index user m) h key))
all_entries-Memᴰ (v ∷ order) m user id e (Memᴰ.tail known) h =
    append_right _ (all_entries-Memᴰ order m user id e known h)
