-- ===== src/Workspaces/References.antt =====
-- The workspace reference utilities at the top of src/core/workspace/index.js.
pub mod RoundTrip
use canvas_server.Prelude.{
  ℕ, Bool, not, ◌||◌, Option, none, some, List, [], ◌∷◌, ◌++◌, Text, codes, text_eq, nat_eq, split,
  trim, if◌then◌else◌,
}
use canvas_server.Context.Url.{cut_at}

-- `WORKSPACE_DEFAULT_HOST`
abbrev pub default_host : Text
default_host = codes "canvas.local"

pub record SimpleIdentifier : Type 0 where
  pub user_identifier : Text
  pub workspace_identifier : Text
  pub full : Text

pub record Reference : Type 0 where
  pub user_identifier : Text
  pub host : Text
  pub workspace_slug : Text
  pub path : Text
  pub full : Text
  pub is_local : Bool
  pub is_remote : Bool

-- The two parts of an identifier, none of them empty.
simple_parts : Text → List Text → Option SimpleIdentifier
simple_parts full ((c ∷ s) ∷ (d ∷ t) ∷ []) =
    some
      (record { user_identifier = trim (c ∷ s); workspace_identifier = trim (d ∷ t); full = full })
simple_parts full _ = none

-- `parseSimpleWorkspaceIdentifier`: a text with no slash has one part
unfoldable pub parse_simple_workspace_identifier : Text → Option SimpleIdentifier
unfolding simple_parts
parse_simple_workspace_identifier identifier = simple_parts identifier (split b'/' identifier)

-- What stands before and after the first `sep`.
unfoldable pub cut_first : ℕ → Text → Option (Text × Text)
cut_first sep [] = none
cut_first sep (c ∷ s) = elim (cut_first sep s) [
  | none ↦ if nat_eq c sep then some ([], s) else none
  | some (w, rest) ↦ if nat_eq c sep then some ([], s) else some (c ∷ w, rest)
]

-- `parts.join(sep)`
unfoldable pub join : ℕ → List Text → Text
join sep [] = []
join sep (w ∷ []) = w
join sep (w ∷ v ∷ ws) = w ++ sep ∷ join sep (v ∷ ws)

-- `parts.length > 0 ? '/' + parts.join('/') : ''`
unfoldable pub optional_path : List Text → Text
unfolding join
optional_path [] = []
optional_path (w ∷ ws) = b'/' ∷ join b'/' (w ∷ ws)

abbrev reference_of : Text → Text → Text → List Text → Option Reference
reference_of full user host [] = none
reference_of full user host (slug ∷ parts) = some (record {
  user_identifier = user;
  host = host;
  workspace_slug = trim slug;
  path = optional_path parts;
  full = full;
  is_local = text_eq host default_host;
  is_remote = not (text_eq host default_host);
})

-- The user and the host, and then the slug and the path of the resource.
abbrev checked_reference : Text → Text → Text → Text → Option Reference
checked_reference full user host resource =
    if text_eq user [] || text_eq host []
    then none
    else reference_of full user host (split b'/' resource)

-- What stands around the last `@`, none of it empty.
abbrev around_at : Text → Text → Option (Text × Text) → Option Reference
around_at full resource none = none
around_at full resource (some ([], host)) = none
around_at full resource (some (c ∷ user, [])) = none
around_at full resource (some (c ∷ user, d ∷ host)) =
    checked_reference full (trim (c ∷ user)) (trim (d ∷ host)) resource

abbrev around_colon : Text → Option (Text × Text) → Option Reference
around_colon full none = none
around_colon full (some (user_host, [])) = none
around_colon full (some (user_host, c ∷ resource)) =
    around_at full (c ∷ resource) (cut_at user_host)

unfoldable pub parse_workspace_reference : Text → Option Reference
parse_workspace_reference reference = around_colon reference (cut_first b':' reference)

-- `constructWorkspaceReference`: none is the error
unfoldable pub construct_workspace_reference : Text → Text → Text → Text → Option Text
construct_workspace_reference user slug host path =
    if text_eq user [] || text_eq slug []
    then none
    else some ((user ++ b'@' ∷ host) ++ (b':' ∷ (slug ++ path)))
