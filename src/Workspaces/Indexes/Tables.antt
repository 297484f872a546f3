-- ===== src/Workspaces/Indexes/Tables.antt =====
-- Lookup tables of src/core/workspace/index.js that are filled with bindings.
use mathlib.Core.List.{Memᴰ}
use canvas_server.Prelude.{
  ◌≡◌, refl, inl, inr, none, some, List, [], ◌∷◌, arith, Text, text_eq, text_eq_iff, lookup, insert,
  text_key, lookup-insert, Bool-cases, none-ne-some, Option-cases, sym, ◌∙◌, ap, All,
}

-- A table, and what is written into it.
abbrev pub Table : Type 0
Table = List (Text × Text)

abbrev pub insert_all : Table → Table → Table
insert_all [] a = a
insert_all ((k, v) ∷ bs) a = insert_all bs (insert k v a)

-- Every binding is one of the table `t`.
abbrev pub Agrees : Table → Text × Text → Type 0
Agrees t b = lookup b.0 t ≡ some b.1

insert_all_sound :
    (t bs a : Table)
    → All (Agrees t) bs
    → ((k v : Text) → lookup k a ≡ some v → lookup k t ≡ some v)
    → (k v : Text) → lookup k (insert_all bs a) ≡ some v
    → lookup k t ≡ some v
insert_all_sound t [] a h from k v found = from k v found
insert_all_sound t ((j, w) ∷ bs) a (p, h) from k v found =
    insert_all_sound t bs (insert j w a) h
      (λ k v q. elim (Bool-cases (text_eq j k)) [
        | inl eq ↦ ground (arith, lookup-insert j k w a, text_eq_iff j k, q, p)
        | inr ne ↦ from k v (ground (arith, lookup-insert j k w a, ne, q))
      ])
      k v found

insert_all-keeps :
    (t bs a : Table) (k v : Text)
    → All (Agrees t) bs
    → lookup k t ≡ some v
    → lookup k a ≡ some v
    → lookup k (insert_all bs a) ≡ some v
insert_all-keeps t [] a k v h q now = now
insert_all-keeps t ((j, w) ∷ bs) a k v (p, h) q now =
    insert_all-keeps t bs (insert j w a) k v h q
      (ground (arith, lookup-insert j k w a, text_eq_iff j k, p, q, now))

insert_all_complete :
    (t bs a : Table) (k v : Text)
    → All (Agrees t) bs
    → lookup k t ≡ some v
    → Memᴰ (k, v) bs
    → lookup k (insert_all bs a) ≡ some v
insert_all_complete t [] a k v h q m = elim m [ ]
insert_all_complete t ((j, w) ∷ bs) a k v (p, h) q (Memᴰ.head same) =
    insert_all-keeps t bs (insert j w a) k v h q (
      ground
        (arith, lookup-insert j k w a, text_eq_iff j k, ap (λ b. b.0) same, ap (λ b. b.1) same))
insert_all_complete t ((j, w) ∷ bs) a k v (p, h) q (Memᴰ.tail m) =
    insert_all_complete t bs (insert j w a) k v h q m

lookup-nil : (k : Text) → lookup {V = Text} k [] ≡ none
unfolding lookup
lookup-nil k = refl

-- A table that is filled with bindings of `t`, none of them missing, reads as `t`.
pub insert_all-same :
    (t bs : Table) (k : Text)
    → All (Agrees t) bs
    → ((v : Text) → lookup k t ≡ some v → Memᴰ (k, v) bs)
    → lookup k (insert_all bs []) ≡ lookup k t
insert_all-same t bs k h all_there = elim (Option-cases (lookup k t)) [
  | inr (v, q) ↦ insert_all_complete t bs [] k v h q (all_there v q) ∙ sym q
  | inl absent ↦ elim (Option-cases (lookup k (insert_all bs []))) [
    | inl gone ↦ gone ∙ sym absent
    | inr (v, q) ↦
        elim (none-ne-some (
          sym absent
          ∙ insert_all_sound t bs [] h (λ i w r. elim (none-ne-some (sym (lookup-nil i) ∙ r)) [ ]) k
              v q)) [ ]
  ]
]
