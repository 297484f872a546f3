-- ===== src/Access/Permissions/Canonical.antt =====
-- The shape of what `normalizePermissions` of src/core/workspace/lib/access.js returns.
use canvas_server.Prelude.{
  ◌≡◌, refl, Bool, true, false, ◌&&◌, ◌||◌, not, some, List, [], ◌∷◌, ◌++◌, arith, map,
  if◌then◌else◌, Casing, folded, ◌∙◌,
}
use canvas_server.Access.Permissions.{
  Permission, read, write, admin, word, same_permission, holds, Spec, several, entries, drop_same,
  unique, place, sorted, widened, parsed, normalize_permissions,
}

-- The three flags as the list that `normalizePermissions` returns.
abbrev pub from_flags : Bool → Bool → Bool → List Permission
from_flags r w a =
    (if r then read ∷ [] else [])
    ++ (if w then write ∷ [] else [])
    ++ (if a then admin ∷ [] else [])

abbrev pub flags : List Permission → List Permission
flags ps = from_flags (holds ps read) (holds ps write) (holds ps admin)

abbrev is_unique : List Permission → Bool
is_unique [] = true
is_unique (p ∷ ps) = not (holds ps p) && is_unique ps

holds-drop_same :
    (p q : Permission) (ps : List Permission)
    → holds (drop_same p ps) q ≡ holds ps q && not (same_permission p q)
holds-drop_same p q [] = refl
holds-drop_same p q (x ∷ ps) = ground (arith, holds-drop_same p q ps)

is_unique-drop_same :
    (p : Permission) (ps : List Permission)
    → is_unique ps ≡ true
    → is_unique (drop_same p ps) ≡ true
is_unique-drop_same p [] h = refl
is_unique-drop_same p (x ∷ ps) h = ground (arith, holds-drop_same p x ps, is_unique-drop_same p ps)

is_unique-unique : (ps : List Permission) → is_unique (unique ps) ≡ true
is_unique-unique [] = refl
is_unique-unique (p ∷ ps) = ground (
  arith,
  holds-drop_same p p (unique ps),
  is_unique-unique ps,
  is_unique-drop_same p (unique ps) (is_unique-unique ps),
)

holds-unique : (ps : List Permission) (q : Permission) → holds (unique ps) q ≡ holds ps q
holds-unique [] q = refl
holds-unique (p ∷ ps) q = ground (arith, holds-drop_same p q (unique ps), holds-unique ps q)

place-from_flags :
    (p : Permission) (r w a : Bool)
    → holds (from_flags r w a) p ≡ false
    → place p (from_flags r w a) ≡ flags (p ∷ from_flags r w a)
place-from_flags p r w a h = ground arith

sorted-eq-flags : (ps : List Permission) → is_unique ps ≡ true → sorted ps ≡ flags ps
sorted-eq-flags [] h = refl
sorted-eq-flags (p ∷ ps) h = ground (arith, sorted-eq-flags ps)

pub sorted-unique : (ps : List Permission) → sorted (unique ps) ≡ flags ps
sorted-unique ps =
    rw (sorted-eq-flags (unique ps) (is_unique-unique ps))
      (rw (holds-unique ps read, holds-unique ps write, holds-unique ps admin))

holds-append :
    (ps qs : List Permission) (q : Permission) → holds (ps ++ qs) q ≡ (holds ps q || holds qs q)
holds-append [] qs q = refl
holds-append (p ∷ ps) qs q = ground (arith, holds-append ps qs q)

-- `widened` closes the flags upwards.
holds-widened :
    (ps : List Permission)
    → flags (widened ps)
      ≡ from_flags
          (holds ps read || holds ps write || holds ps admin)
          (holds ps write || holds ps admin)
          (holds ps admin)
holds-widened ps = ground (
  arith,
  holds-append ps (read ∷ write ∷ []) read,
  holds-append ps (read ∷ write ∷ []) write,
  holds-append ps (read ∷ write ∷ []) admin,
  holds-append ps (read ∷ []) read,
  holds-append ps (read ∷ []) write,
  holds-append ps (read ∷ []) admin,
  holds-append (ps ++ read ∷ write ∷ []) (read ∷ []) read,
  holds-append (ps ++ read ∷ write ∷ []) (read ∷ []) write,
  holds-append (ps ++ read ∷ write ∷ []) (read ∷ []) admin,
)

module _ (u : Casing) where
  -- Whatever is stored, the normal form is one of `[]`, `[read]`, `[read, write]` and
  -- `[read, write, admin]`, in that order and with nothing twice: it goes up to the strongest
  -- permission among the entries that are permissions once trimmed and lower-cased.
  pub normalize_permissions-canonical :
      (spec : Spec)
      → normalize_permissions u spec ≡ (
          if holds (parsed u (entries spec)) admin
          then read ∷ write ∷ admin ∷ []
          else if holds (parsed u (entries spec)) write
          then read ∷ write ∷ []
          else if holds (parsed u (entries spec)) read
          then read ∷ []
          else [])
  unfolding normalize_permissions
  normalize_permissions-canonical spec =
      sorted-unique (widened (parsed u (entries spec)))
      ∙ holds-widened (parsed u (entries spec))
      ∙ (ground arith)

  folded-word : (p : Permission) → folded u (word p) ≡ word p
  folded-word read = u.lower_of_plain (word read) (ground arith)
  folded-word write = u.lower_of_plain (word write) (ground arith)
  folded-word admin = u.lower_of_plain (word admin) (ground arith)

  parsed-words : (ps : List Permission) → parsed u (map (λ p. some (word p)) ps) ≡ ps
  unfolding parsed
  parsed-words [] = refl
  parsed-words (read ∷ ps) = ground (arith, folded-word read, parsed-words ps)
  parsed-words (write ∷ ps) = ground (arith, folded-word write, parsed-words ps)
  parsed-words (admin ∷ ps) = ground (arith, folded-word admin, parsed-words ps)

  -- What a stored normal form reads back as.
  pub stored : List Permission → Spec
  stored ps = several (map (λ p. some (word p)) ps)

  -- A normal form that is written to a grant is read back unchanged.
  pub normalize_permissions-stored :
      (spec : Spec)
      → normalize_permissions u (stored (normalize_permissions u spec))
        ≡ normalize_permissions u spec
  unfolding stored
  normalize_permissions-stored spec =
      rw (normalize_permissions-canonical (stored (normalize_permissions u spec))) (
        rw (parsed-words (normalize_permissions u spec))
          (rw (normalize_permissions-canonical spec) (ground arith)))
