-- ===== src/Workspaces/References/RoundTrip.antt =====
-- References of src/core/workspace/index.js, constructed and parsed again.
use mathlib.Core.List.{append-nil}
use canvas_server.Prelude.{
  ℕ, ◌≡◌, refl, ◌≢◌, inl, inr, true, false, not, none, some, List, [], ◌∷◌, ◌++◌, arith, Text,
  text_eq, nat_eq, split, is_space, trim_of_solid, All, All-append, ap, ◌∙◌, Bool-cases,
}
use mathlib.Core.Path.{subst}
use canvas_server.Context.Url.{cut_at}
use canvas_server.Workspaces.References.{
  default_host, cut_first, join, optional_path, parse_workspace_reference,
  construct_workspace_reference,
}

-- A text with no `c` in it.
abbrev pub Lacks : ℕ → Text → Type 0
Lacks c = All (λ d. nat_eq d c ≡ false)

cut_first-append :
    (sep : ℕ) (w rest : Text)
    → Lacks sep w
    → nat_eq sep sep ≡ true
    → cut_first sep (w ++ sep ∷ rest) ≡ some (w, rest)
unfolding cut_first
cut_first-append sep [] rest h e = ground (arith, e)
cut_first-append sep (c ∷ w) rest (p, h) e = rw (cut_first-append sep w rest h e) (rw p)

pub cut_at-none : (host : Text) → Lacks b'@' host → cut_at host ≡ none
unfolding cut_at
cut_at-none [] h = refl
cut_at-none (c ∷ host) (p, h) = rw (cut_at-none host h) (rw p)

pub cut_at-append : (w host : Text) → Lacks b'@' host → cut_at (w ++ b'@' ∷ host) ≡ some (w, host)
unfolding cut_at
cut_at-append [] host h = rw (cut_at-none host h)
cut_at-append (c ∷ w) host h = rw (cut_at-append w host h)

pub split-cons : (s : Text) → (w : Text) × (ws : List Text) × (split b'/' s ≡ w ∷ ws)
split-cons [] = ([], [], refl)
split-cons (c ∷ s) =
    let (w, ws, e) = split-cons s in
    elim (Bool-cases (nat_eq c b'/')) [
      | inl slash ↦ ([], w ∷ ws, rw e (rw slash))
      | inr other ↦ (c ∷ w, ws, rw e (rw other))
    ]

join-cons : (c : ℕ) (w : Text) (ws : List Text) → join b'/' ((c ∷ w) ∷ ws) ≡ c ∷ join b'/' (w ∷ ws)
unfolding join
join-cons c w [] = refl
join-cons c w (v ∷ ws) = refl

-- Splitting and joining on a slash gives the text back.
join-split : (s : Text) → join b'/' (split b'/' s) ≡ s
unfolding join
join-split [] = refl
join-split (c ∷ s) =
    let (w, ws, e) = split-cons s in
    let ih : join b'/' (w ∷ ws) ≡ s = subst (λ t. join b'/' t ≡ s) e (join-split s) in
    elim (Bool-cases (nat_eq c b'/')) [
      | inl slash ↦ rw e (rw slash (ground (arith, ih, slash)))
      | inr other ↦ rw e (rw other (join-cons c w ws ∙ ap (λ t. c ∷ t) ih))
    ]

pub split-append :
    (s rest : Text) → Lacks b'/' s → split b'/' (s ++ b'/' ∷ rest) ≡ s ∷ split b'/' rest
split-append [] rest h = let (w, ws, e) = split-cons rest in rw e
split-append (c ∷ s) rest (p, h) = rw (split-append s rest h) (rw p)

pub split_of_plain : (s : Text) → Lacks b'/' s → split b'/' s ≡ s ∷ []
split_of_plain [] h = refl
split_of_plain (c ∷ s) (p, h) = rw (split_of_plain s h) (rw p)

-- A path of a reference is empty or begins with a slash.
abbrev pub IsPath : Text → Type 0
IsPath [] = Unit
IsPath (c ∷ p) = c ≡ b'/'

abbrev pub IsSolid : Text → Type 0
IsSolid = All (λ c. is_space c ≡ false)

optional_path-split : (p : Text) → optional_path (split b'/' p) ≡ b'/' ∷ p
unfolding optional_path
optional_path-split p =
    let (w, ws, e) = split-cons p in
    rw e (ap (λ t. b'/' ∷ t) (subst (λ t. join b'/' t ≡ p) e (join-split p)))

-- The slug and the path come apart where they were joined.
split_of_resource :
    (s p : Text)
    → Lacks b'/' s
    → IsPath p
    → (parts : List Text) × (split b'/' (s ++ p) ≡ s ∷ parts) × (optional_path parts ≡ p)
unfolding optional_path
split_of_resource s [] h path = ([], rw append-nil (split_of_plain s h), refl)
split_of_resource s (c ∷ p) h path =
    (split b'/' p, rw path (split-append s p h), rw path (optional_path-split p))

parse-around :
    (c d h : ℕ) (user slug host path : Text)
    → IsSolid (c ∷ user)
    → IsSolid (d ∷ slug)
    → IsSolid (h ∷ host)
    → Lacks b':' (c ∷ user)
    → Lacks b':' (h ∷ host)
    → Lacks b'@' (h ∷ host)
    → Lacks b'/' (d ∷ slug)
    → IsPath path
    → parse_workspace_reference (((c ∷ user) ++ b'@' ∷ h ∷ host) ++ (b':' ∷ ((d ∷ slug) ++ path)))
      ≡ some (record {
        user_identifier = c ∷ user;
        host = h ∷ host;
        workspace_slug = d ∷ slug;
        path = path;
        full = ((c ∷ user) ++ b'@' ∷ h ∷ host) ++ (b':' ∷ ((d ∷ slug) ++ path));
        is_local = text_eq (h ∷ host) default_host;
        is_remote = not (text_eq (h ∷ host) default_host);
      })
unfolding parse_workspace_reference
parse-around c d h user slug host path su ss sh cu ch ah fs ip =
    let (parts, cuts, joins) = split_of_resource (d ∷ slug) path fs ip in
    rw
      (cut_first-append b':' ((c ∷ user) ++ b'@' ∷ h ∷ host) ((d ∷ slug) ++ path)
        (All-append _ (c ∷ user) (b'@' ∷ h ∷ host) cu (refl, ch)) refl)
      (rw (cut_at-append (c ∷ user) (h ∷ host) ah) (
        rw (trim_of_solid (c ∷ user) su, trim_of_solid (h ∷ host) sh)
          (rw (cuts, joins, trim_of_solid (d ∷ slug) ss) refl)))

-- A reference that is constructed of a user, a slug, a host and a path parses to these parts, if
-- the user, the host and the slug are not empty and hold no white space, the user and the host
-- hold no colon, the host no `@` and the slug no slash, and the path is empty or begins with a
-- slash.
pub parse_workspace_reference-construct_workspace_reference :
    (user slug host path : Text)
    → user ≢ []
    → slug ≢ []
    → host ≢ []
    → IsSolid user
    → IsSolid slug
    → IsSolid host
    → Lacks b':' user
    → Lacks b':' host
    → Lacks b'@' host
    → Lacks b'/' slug
    → IsPath path
    → (full : Text) × (construct_workspace_reference user slug host path ≡ some full)
      × (parse_workspace_reference full
          ≡ some (record {
            user_identifier = user;
            host = host;
            workspace_slug = slug;
            path = path;
            full = full;
            is_local = text_eq host default_host;
            is_remote = not (text_eq host default_host);
          }))
unfolding construct_workspace_reference
parse_workspace_reference-construct_workspace_reference [] slug host path nu ns nh su ss sh cu ch ah
      fs ip =
    elim (nu refl) [ ]
parse_workspace_reference-construct_workspace_reference (c ∷ user) [] host path nu ns nh su ss sh cu
      ch ah fs ip =
    elim (ns refl) [ ]
parse_workspace_reference-construct_workspace_reference (c ∷ user) (d ∷ slug) [] path nu ns nh su ss
      sh cu ch ah fs ip =
    elim (nh refl) [ ]
parse_workspace_reference-construct_workspace_reference (c ∷ user) (d ∷ slug) (h ∷ host) path nu ns
      nh su ss sh cu ch ah fs ip =
    (
      ((c ∷ user) ++ b'@' ∷ h ∷ host) ++ (b':' ∷ ((d ∷ slug) ++ path)),
      refl,
      parse-around c d h user slug host path su ss sh cu ch ah fs ip,
    )
