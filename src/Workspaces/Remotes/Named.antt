-- ===== src/Workspaces/Remotes/Named.antt =====
-- Names of workspaces on other servers in src/core/workspace/index.js.
use mathlib.Core.Path.{subst}
use canvas_server.Prelude.{
  ◌≡◌, ◌≢◌, refl, inl, inr, true, false, Option, none, some, [], ◌∷◌, arith, Text, lookup, text_key,
  sym, ◌∙◌, or_else, text_eq, Bool-cases, codes, ltb, ℕ, Casing,
}
use canvas_server.Workspaces.References.RoundTrip.{Lacks, cut_at-append}
use canvas_server.Workspaces.Indexes.Defs.{Entry, Manager, truthy, key_of, name_key}
use canvas_server.Workspaces.Suffix.{candidate}
use canvas_server.Workspaces.Suffix.Ends.{first_free-ends, candidate-inj}
use canvas_server.Workspaces.Imports.{base_name}
use canvas_server.Workspaces.Imports.Named.{key_of-inj}
use canvas_server.Workspaces.Remotes.{
  at_host, is_held, remote_name, Descriptor, out_of_rounds, new_remote, placed_remote,
  add_remote_workspace, normalized_url,
}

name_key-at_host :
    (user_id host name : Text)
    → Lacks b'@' host
    → name ≢ []
    → name_key user_id (at_host host name) host ≡ key_of user_id host name
unfolding name_key
name_key-at_host user_id host [] h filled = absurd (filled refl)
name_key-at_host user_id host (c ∷ name) h filled = rw (cut_at-append (c ∷ name) host h) refl

or_else-filled : (t d : Text) → d ≢ [] → or_else (truthy (some t)) d ≢ []
or_else-filled [] d h = h
or_else-filled (c ∷ t) d h = λ e. cc

cons-ne-nil : {c : ℕ} {s : Text} → c ∷ s ≢ []
cons-ne-nil e = cc

candidate-filled : (base : Text) (n : ℕ) → base ≢ [] → candidate base n ≢ []
unfolding candidate
candidate-filled [] n h e = h refl
candidate-filled (c ∷ base) n h e = elim (Bool-cases (ltb n 2)) [
  | inl bare ↦ cons-ne-nil (rw (bare, candidate) at e)
  | inr more ↦ cons-ne-nil (rw (more, candidate) at e)
]

base_name-filled : (u : Casing) (name : Text) → base_name u name ≢ []
base_name-filled u name = or_else-filled _ (codes "workspace") (λ e. cc)

is_held-lookup :
    (user_id host : Text) (m : Manager) (name : Text)
    → is_held user_id host m name ≡ true
    → lookup (name_key user_id (at_host host name) host) m.names ≢ none
unfolding is_held
is_held-lookup user_id host m name h gone = absurd (ground (arith, (rw (gone, is_held) at h)))

-- The loop that names a remote workspace ends, with a name that is not held yet, if the label of
-- the host holds no `@`.
pub remote_name-ends :
    (u : Casing) (user_id host : Text) (name : Option Text) (m : Manager)
    → Lacks b'@' host
    → (free : Text) × (remote_name u user_id host name m ≡ some free)
      × (is_held user_id host m free ≡ false)
unfolding remote_name
remote_name-ends u user_id host name m plain =
    let base = base_name u (or_else name []) in
    let key = λ (n : ℕ). name_key user_id (at_host host (candidate base n)) host in
    let same = λ (n : ℕ).
      name_key-at_host user_id host (candidate base n) plain
        (candidate-filled base n (base_name-filled u _)) in
    first_free-ends (is_held user_id host m) base key m.names
      (λ n h. is_held-lookup user_id host m (candidate base n) h)
      (λ n k p q e.
        candidate-inj base n k p q (key_of-inj user_id host _ _ (sym (same n) ∙ e ∙ same k)))

placed_remote-ends :
    (u : Casing) (user_id url host uuid : Text) (d : Descriptor) (now : ℕ) (m : Manager)
    (o : Option Entry)
    → Lacks b'@' host
    → (placed_remote u user_id url host uuid d now m o).0 ≢ out_of_rounds
placed_remote-ends u user_id url host uuid d now m (some e) plain = λ x. cc
placed_remote-ends u user_id url host uuid d now m none plain =
    let (free, found, open_name) = remote_name-ends u user_id host d.workspace_name m plain in
    subst (λ o. (new_remote user_id url host uuid d now m o).0 ≢ out_of_rounds) (sym found)
      (λ x. cc)

-- Registering a remote workspace ends, whatever names are held, if the label of the host holds no
-- `@`.
pub add_remote_workspace-ends :
    (u : Casing) (host_label : Text → Text) (user_id uuid : Text) (d : Descriptor) (now : ℕ)
    (m : Manager)
    → ((url : Text) → Lacks b'@' (host_label url))
    → (add_remote_workspace u host_label user_id d uuid now m).0 ≢ out_of_rounds
unfolding add_remote_workspace
add_remote_workspace-ends u host_label user_id uuid d now m plain =
    elim (Bool-cases (text_eq d.url [])) [
      | inl a ↦ rw (a, add_remote_workspace) (λ x. cc)
      | inr a ↦ elim (Bool-cases (text_eq d.token [])) [
        | inl b ↦ rw (a, b, add_remote_workspace) (λ x. cc)
        | inr b ↦ elim (Bool-cases (text_eq d.workspace_id [])) [
          | inl c ↦ rw (a, b, c, add_remote_workspace) (λ x. cc)
          | inr c ↦
              rw (a, b, c, add_remote_workspace)
                (placed_remote-ends u user_id (normalized_url d.url)
                  (host_label (normalized_url d.url)) uuid d now m _ (plain (normalized_url d.url)))
        ]
      ]
    ]
