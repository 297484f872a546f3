-- ===== src/Workspaces/Imports/Named.antt =====
-- Names and ids of workspaces that come in from the disk in src/core/workspace/index.js.
use mathlib.Core.Path.{subst}
use mathlib.Core.List.{append_cancel_left}
use canvas_server.Prelude.{
  ◌≡◌, ◌≢◌, refl, inl, inr, Bool, true, false, Option, none, some, [], ◌∷◌, arith, Text, text_eq,
  text_eq_iff, suc, length, zero, ltb, ◌/◌, ◌&&◌, All-append, lookup, remove, text_key, Bool-cases,
  Option-cases, some-inj, none-ne-some, sym, ◌∙◌, ap, ℕ, Casing, lookup-insert, lookup-remove,
}
use canvas_server.Workspaces.Indexes.Defs.{
  Origin, Entry, Manager, truthy, host_of, key_of, name_key, entry_key, entry_at, set_entry,
  add_to_indexes, remove_from_indexes,
}
use canvas_server.Workspaces.Indexes.Consistent.{Has, IsConsistent}
use canvas_server.Workspaces.References.RoundTrip.{Lacks}
use canvas_server.Workspaces.Names.{sanitize_workspace_name}
use canvas_server.Workspaces.Registry.Created.{sanitize_workspace_name-IsSlug, IsSlug-Lacks}
use canvas_server.Workspaces.Registry.Moves.{name_key_of_plain}
use canvas_server.Workspaces.Suffix.{first_free, candidate, digits, decimal}
use canvas_server.Workspaces.Suffix.Ends.{first_free-ends, candidate-inj}
use canvas_server.Workspaces.Imports.{
  layout_changes, is_same_path, is_gone, registered, Disk, Config, Incoming, out_of_rounds,
  collided, existing_of, is_taken, base_name, free_name, with_reference, with_name, incoming_of,
  index_workspace_from_disk,
}

pub key_of-inj : (v h n k : Text) → key_of v h n ≡ key_of v h k → n ≡ k
key_of-inj v h n k e =
    let a = append_cancel_left v _ _ e in
    let b = append_cancel_left (b'@' ∷ h) (b':' ∷ n) (b':' ∷ k) a in
    append_cancel_left (b':' ∷ []) n k b

is_taken-held :
    (user_id host id : Text) (m : Manager) (name : Text)
    → is_taken user_id host id m name ≡ true
    → lookup (key_of user_id host name) m.names ≢ none
unfolding is_taken
is_taken-held user_id host id m name h gone = absurd (ground (arith, (rw (gone, is_taken) at h)))

-- The name loop of a registration ends, with a name whose key leads to no id or to the id that is
-- registered.
pub free_name-ends :
    (u : Casing) (user_id host id name : Text) (m : Manager)
    → (free : Text) × (free_name u user_id host id name m ≡ some free)
      × (is_taken user_id host id m free ≡ false)
unfolding free_name
free_name-ends u user_id host id name m =
    first_free-ends (is_taken user_id host id m) (base_name u name)
      (λ n. key_of user_id host (candidate (base_name u name) n)) m.names
      (λ n h. is_taken-held user_id host id m _ h)
      (λ n k p q e. candidate-inj (base_name u name) n k p q (key_of-inj user_id host _ _ e))

with_reference-ends :
    (d : Disk) (cfg : Config) (user_id name : Text) (i : Incoming) (origin : Origin) (now : ℕ)
    (m : Manager) (o : Option Text)
    → (with_reference d cfg user_id name i origin now m o).0 ≢ out_of_rounds
with_reference-ends d cfg user_id name i origin now m none = λ e. cc
with_reference-ends d cfg user_id name i origin now m (some r) = λ e. cc

-- Registering a directory ends, whatever the state and the config are: its name loop finds a name
-- before its rounds are used up.
pub index_workspace_from_disk-ends :
    (u : Casing) (d : Disk) (cfg : Config) (user_id uuid : Text) (origin : Origin) (now : ℕ)
    (m : Manager)
    → (index_workspace_from_disk u d cfg user_id origin uuid now m).0 ≢ out_of_rounds
unfolding index_workspace_from_disk
index_workspace_from_disk-ends u d cfg user_id uuid origin now m =
    let r = incoming_of d cfg user_id uuid m in
    let (name, found, free) = free_name-ends u user_id (host_of cfg.host) r.0.id cfg.name r.1 in
    subst (λ o. (with_name d cfg user_id r.0 origin now r.1 o).0 ≢ out_of_rounds) (sym found)
      (with_reference-ends d cfg user_id name r.0 origin now r.1 _)

first_free-candidate :
    (taken : Text → Bool) (base : Text) (f n : ℕ) (name : Text)
    → first_free taken base f n ≡ some name
    → (k : ℕ) × (name ≡ candidate base k)
unfolding first_free
first_free-candidate taken base zero n name h = absurd (none-ne-some h)
first_free-candidate taken base (suc f) n name h = elim (Bool-cases (taken (candidate base n))) [
  | inl on ↦ first_free-candidate taken base f (suc n) name (rw (on, first_free) at h)
  | inr off ↦ (n, sym (some-inj (rw (off, first_free) at h)))
]

digits-Lacks : (fuel n : ℕ) → Lacks b'@' (digits fuel n)
unfolding digits
digits-Lacks zero n = tt
digits-Lacks (suc fuel) n = elim (Bool-cases (ltb n 10)) [
  | inl small ↦ rw (small, digits) (ground arith, tt)
  | inr big ↦
      rw (big, digits)
        (All-append _ (digits fuel (n / 10)) _ (digits-Lacks fuel (n / 10)) (ground arith, tt))
]

candidate-Lacks : (base : Text) (n : ℕ) → Lacks b'@' base → Lacks b'@' (candidate base n)
unfolding candidate decimal
candidate-Lacks base n h = elim (Bool-cases (ltb n 2)) [
  | inl bare ↦ rw (bare, candidate) h
  | inr more ↦ rw (more, candidate) (All-append _ base _ h (refl, digits-Lacks (suc n) n))
]

truthy-some : (t s : Text) → truthy (some t) ≡ some s → t ≡ s
truthy-some [] s h = absurd (none-ne-some h)
truthy-some (c ∷ t) s h = some-inj h

base_name-Lacks : (u : Casing) (name : Text) → Lacks b'@' (base_name u name)
base_name-Lacks u name = elim (Option-cases (truthy (some (sanitize_workspace_name u name)))) [
  | inl empty ↦ rw empty (refl, (refl, (refl, (refl, (refl, (refl, (refl, (refl, (refl, tt)))))))))
  | inr (s, full) ↦ rw full (
      subst (Lacks b'@') (truthy-some _ s full)
        (IsSlug-Lacks _ (sanitize_workspace_name-IsSlug u name)))
]

and_left : (a b : Bool) → a && b ≡ true → a ≡ true
and_left a b h = ground (arith, h)

free_name-Lacks :
    (u : Casing) (user_id host id name free : Text) (m : Manager)
    → free_name u user_id host id name m ≡ some free
    → Lacks b'@' free
unfolding free_name
free_name-Lacks u user_id host id name free m h =
    let (n, is) =
      first_free-candidate (is_taken user_id host id m) (base_name u name) (suc (length m.names)) 1
        free h in
    subst (Lacks b'@') (sym is) (candidate-Lacks (base_name u name) n (base_name-Lacks u name))

module _ (m : Manager) (c : IsConsistent m) (user_id : Text) where
  replaced-keeps :
      (id : Text) (e : Entry) (k j : Text)
      → Has user_id id e m
      → lookup k m.names ≡ some j
      → j ≢ id
      → lookup k (remove (name_key user_id e.name (host_of e.host)) m.names) ≡ some j
  replaced-keeps id e k j has h other = elim (Bool-cases (text_eq (entry_key user_id e) k)) [
    | inl eq ↦ absurd (
        other (
          some-inj (
            sym h
            ∙ ap (λ x. lookup x m.names) (sym ((text_eq_iff (entry_key user_id e) k).0 eq))
            ∙ c.named user_id id e has)))
    | inr ne ↦ lookup-remove (entry_key user_id e) k m.names ∙ rw ne h
  ]

  -- The collision takes no name from another id.
  collided-keeps :
      (d : Disk) (id uuid : Text) (changed : Bool) (o : Option (Text × Entry)) (k j : Text)
      → ((owner : Text) (e : Entry) → o ≡ some (owner, e) → Has owner id e m)
      → lookup k m.names ≡ some j
      → j ≢ (collided d user_id id uuid changed o m).0.id
      → lookup k (collided d user_id id uuid changed o m).1.names ≡ some j
  unfolding collided remove_from_indexes
  collided-keeps d id uuid changed none k j has h other = h
  collided-keeps d id uuid changed (some (owner, e)) k j has h other =
      elim (Bool-cases (text_eq owner user_id && is_same_path d (truthy e.root_path))) [
        | inl same ↦ rw (same, collided) h
        | inr moved ↦ elim (Bool-cases (text_eq owner user_id && is_gone d (truthy e.root_path))) [
          | inr alive ↦ rw (moved, alive, collided) h
          | inl gone ↦
              let taken : (collided d user_id id uuid changed (some (owner, e)) m).0.id ≡ id =
                rw (moved, gone, collided) refl in
              rw (moved, gone, collided)
                (replaced-keeps id e k j
                  (subst (λ v. Has v id e m) ((text_eq_iff owner user_id).0 (and_left _ _ gone))
                    (has owner e refl))
                  h (λ x. other (x ∙ sym taken)))
        ]
      ]

taken_by :
    (user_id host id : Text) (m : Manager) (name j : Text)
    → is_taken user_id host id m name ≡ false
    → lookup (key_of user_id host name) m.names ≡ some j
    → j ≢ []
    → j ≢ id
    → ⊥
unfolding is_taken
taken_by user_id host id m name [] free held filled other = filled refl
taken_by user_id host id m name (x ∷ j) free held filled other =
    ground (arith, (rw (held, is_taken) at free), text_eq_iff (x ∷ j) id, other)

-- A registration under a name that is free takes no name from another id.
registered-keeps :
    (d : Disk) (cfg : Config) (user_id name : Text) (i : Incoming) (origin : Origin) (now : ℕ)
    (m : Manager) (r k j : Text)
    → is_taken user_id (host_of cfg.host) i.id m name ≡ false
    → Lacks b'@' name
    → lookup k m.names ≡ some j
    → j ≢ []
    → j ≢ i.id
    → lookup k (registered d cfg user_id name i origin now m r).1.names ≡ some j
unfolding add_to_indexes set_entry
registered-keeps d cfg user_id name i origin now m r k j free plain h filled other =
    let key = name_key user_id name (host_of cfg.host) in
    lookup-insert key k i.id m.names ∙ elim (Bool-cases (text_eq key k)) [
      | inl eq ↦ absurd (
          taken_by user_id (host_of cfg.host) i.id m name j free
            (ap (λ x. lookup x m.names)
                (sym (name_key_of_plain user_id name (host_of cfg.host) plain)
                  ∙ (text_eq_iff key k).0 eq)
              ∙ h)
            filled other)
      | inr ne ↦ rw ne h
    ]

with_reference-keeps :
    (d : Disk) (cfg : Config) (user_id name : Text) (i : Incoming) (origin : Origin) (now : ℕ)
    (m : Manager) (o : Option Text) (k j : Text)
    → is_taken user_id (host_of cfg.host) i.id m name ≡ false
    → Lacks b'@' name
    → lookup k m.names ≡ some j
    → j ≢ []
    → j ≢ i.id
    → lookup k (with_reference d cfg user_id name i origin now m o).1.names ≡ some j
with_reference-keeps d cfg user_id name i origin now m none k j free plain h filled other = h
with_reference-keeps d cfg user_id name i origin now m (some r) k j free plain h filled other =
    registered-keeps d cfg user_id name i origin now m r k j free plain h filled other

existing_of-Has :
    (m : Manager) (id owner : Text) (e : Entry)
    → existing_of id m ≡ some (owner, e)
    → Has owner id e m
unfolding existing_of
existing_of-Has m id owner e h = elim (Option-cases (truthy (lookup id m.ids))) [
  | inl absent ↦ absurd (none-ne-some (rw (absent, existing_of) at h))
  | inr (o, there) ↦ elim (Option-cases (entry_at o id m)) [
    | inl gone ↦ absurd (none-ne-some (rw (there, gone, existing_of) at h))
    | inr (f, stored) ↦
        let same = some-inj (rw (there, stored, existing_of) at h) in
        subst (λ p. Has p.0 id p.1 m) same stored
  ]
]

-- Registering a directory on consistent indexes takes no name from another workspace: a name key
-- that led to an id leads to it afterwards, unless it is the id that is registered.
pub index_workspace_from_disk-keeps :
    (u : Casing) (d : Disk) (cfg : Config) (user_id uuid : Text) (origin : Origin) (now : ℕ)
    (m : Manager) (k j : Text)
    → IsConsistent m
    → lookup k m.names ≡ some j
    → j ≢ (incoming_of d cfg user_id uuid m).0.id
    → lookup k (index_workspace_from_disk u d cfg user_id origin uuid now m).1.names ≡ some j
unfolding index_workspace_from_disk incoming_of
index_workspace_from_disk-keeps u d cfg user_id uuid origin now m k j c h other =
    let r = incoming_of d cfg user_id uuid m in
    let (name, found, free) = free_name-ends u user_id (host_of cfg.host) r.0.id cfg.name r.1 in
    let kept =
      collided-keeps m c user_id d cfg.id uuid (layout_changes cfg.layout d.inferred)
        (existing_of cfg.id m) k j (λ o e x. existing_of-Has m cfg.id o e x) h other in
    let (v, e, has, key) = c.names_back k j h in
    subst (λ o. lookup k (with_name d cfg user_id r.0 origin now r.1 o).1.names ≡ some j)
      (sym found)
      (with_reference-keeps d cfg user_id name r.0 origin now r.1 _ k j free
        (free_name-Lacks u user_id (host_of cfg.host) r.0.id cfg.name name r.1 found) kept
        (c.proper v j e has).has_id other)
