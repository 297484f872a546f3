-- ===== src/Workspaces/Tests.antt =====
-- The workspace manager of src/core/workspace/index.js on small states.
use canvas_server.Prelude.{
  ℕ, ◌≡◌, ◌≢◌, ◌⊎◌, refl, inr, true, false, not, Option, none, some, [], ◌∷◌, ◌<◌, ◌+◌, Text, codes,
  text_eq, arith, ascii_casing, lookup, insert, text_key, string_key, none-ne-some, if◌then◌else◌,
  sym, ◌∙◌, any, is_space, nat_eq,
}
use mathlib.Core.List.{Memᴰ}
use canvas_server.Access.Permissions.{read, write, normalize_permissions, parsed, single}
use canvas_server.Access.Resolve.{Acl, Token, Principal}
use canvas_server.Access.Members.{user, Member, Options, requested, new_grant, grant, entry_of}
use canvas_server.Access.Tokens.{has_expired, token_key}
use canvas_server.Gate.Request.{Call, returned}
use canvas_server.Workspaces.References.{
  default_host, parse_workspace_reference, construct_workspace_reference,
}
use canvas_server.Workspaces.References.RoundTrip.{
  IsSolid, Lacks, parse_workspace_reference-construct_workspace_reference,
}
use canvas_server.Workspaces.Indexes.Defs.{
  Entry, Manager, Loaded, local, entry_at, name_key, entries_of, set_entry, add_to_indexes,
  rebuild_indexes, all_entries,
}
use canvas_server.Workspaces.Indexes.Consistent.{Has, IsConsistent}
use canvas_server.Workspaces.Indexes.Rebuilt.{rebuild_indexes-same}
use canvas_server.Workspaces.Guarded.{
  World, Rights, failed, access_denied, guarded, get_cached, get_workspace_or_throw,
  resolve_workspace_access,
}
use canvas_server.Workspaces.Guarded.Checked.{allowed, IsAdmitted, get_workspace_or_throw-exact}
use canvas_server.Workspaces.Registry.{
  new_entry, Place, Result, done, refused, name_exists, create_workspace, remove_workspace,
  transfer_workspace_ownership,
}
use canvas_server.Context.Url.{cut_at}
use canvas_server.Workspaces.Names.{sanitize_workspace_name, resolve_own_workspace_id, addressed}
use canvas_server.Workspaces.Registry.Created.{IsCreated, create_workspace-IsCreated}
use canvas_server.Workspaces.Registry.Moves.{IsMoved, transfer_workspace_ownership-IsMoved}
use canvas_server.Workspaces.Registry.Moves.{IsConsistent-beside}
use canvas_server.Workspaces.Sharing.{Refusal, granted_as, grant_workspace_member}
use canvas_server.Workspaces.Sharing.Admitted.{grant_workspace_member-admits}
use canvas_server.Workspaces.Imports.{
  Disk, Config, full, out_of_rounds, incoming_of, collided, existing_of, index_workspace_from_disk,
}
use canvas_server.Workspaces.Imports.Named.{
  index_workspace_from_disk-ends, index_workspace_from_disk-keeps,
}
use canvas_server.Workspaces.ShareTokens.{
  ShareToken, ShareCache, cache_ttl, share_token_of, scan_tokens, resolve_workspace_share_token,
}
use canvas_server.Workspaces.ShareTokens.Fresh.{IsHeld, resolve_workspace_share_token-unexpired}
use canvas_server.Workspaces.Registry.Views.{view}
use canvas_server.Workspaces.Registry.Refined.{Transfers, transfer_workspace_ownership-Transfers}
use canvas_server.Workspaces.Registry.Removed.{IsRemoval, remove_workspace-IsRemoval}

solid : (t : Text) → any is_space t ≡ false → IsSolid t
solid [] h = tt
solid (c ∷ t) h = ground (arith, solid t (ground (arith, h)), h)

lacks : (c : ℕ) (t : Text) → any (λ d. nat_eq d c) t ≡ false → Lacks c t
lacks c [] h = tt
lacks c (d ∷ t) h = ground (arith, lacks c t (ground (arith, h)), h)

abbrev alice : Text
alice = codes "alice"

abbrev bob : Text
bob = codes "bob"

abbrev known : Text → Option Principal
known u =
    if text_eq u bob
    then some (record { email = some (codes "bob@x.org"); groups = none })
    else none

abbrev world : World
world = record {
  casing = ascii_casing;
  order = alice ∷ bob ∷ [];
  read_config = λ path. some (returned none);
  principal_for = known;
  principal_sync = known;
  instantiate = λ e. returned (record {
    id = e.id;
    owner = e.owner;
    acl = returned e.acl;
    is_remote = false;
    is_universe = e.is_universe;
  });
  remote_instance = λ e k. record {
    id = e.id;
    owner = e.owner;
    acl = returned none;
    is_remote = true;
    is_universe = false;
  };
}

abbrev nothing : Manager
nothing = record {
  indexes = [];
  remote_indexes = [];
  names = [];
  ids = [];
  references = [];
  remote_refs = [];
  loaded = [];
}

nothing-empty : (u id : Text) (e : Entry) → Has u id e nothing → ⊥
unfolding entry_at lookup
nothing-empty u id e h = none-ne-some h

nothing-IsConsistent : IsConsistent nothing
unfolding lookup
nothing-IsConsistent = record {
  proper = λ u id e h. absurd (nothing-empty u id e h);
  named = λ u id e h. absurd (nothing-empty u id e h);
  placed = λ u id e h. absurd (nothing-empty u id e h);
  referable = λ u id r e h is. absurd (nothing-empty u id e h);
  names_back = λ k id h. absurd (none-ne-some h);
  ids_back = λ id u h. absurd (none-ne-some h);
  references_back = λ r id h. absurd (none-ne-some h);
}

abbrev place : Place
place = record {
  root_path = codes "/home/alice/Workspaces/Notes";
  config_path = codes "/home/alice/Workspaces/Notes/workspace.json";
  origin = local;
}

abbrev plain_options : canvas_server.Workspaces.Registry.Options
plain_options = record { host = none; label = none; is_universe = false; acl = none }

-- The state once alice has created a workspace.
abbrev notes : Manager
notes =
    (create_workspace world (codes "Notes!") alice plain_options (codes "w1") (some place) 7
      nothing).1

create_workspace-IsCreated_example : IsCreated world alice default_host (codes "w1") (
    create_workspace world (codes "Notes!") alice plain_options (codes "w1") (some place) 7 nothing)
unfolding lookup
create_workspace-IsCreated_example =
    create_workspace-IsCreated world nothing (codes "Notes!") alice (codes "w1") plain_options
      (some place) 7 nothing-IsConsistent (λ e. cc) refl

notes-IsConsistent : IsConsistent notes
notes-IsConsistent = create_workspace-IsCreated_example.0

abbrev notes_entry : Entry
notes_entry =
    new_entry (codes "w1") alice (codes "notes") default_host plain_options place
      (codes "alice@canvas.local:notes") 7

notes-Has : Has alice (codes "w1") notes_entry notes
unfolding create_workspace sanitize_workspace_name resolve_own_workspace_id addressed cut_at lookup
    insert construct_workspace_reference new_entry set_entry add_to_indexes name_key entry_at
notes-Has = refl

notes-ids :
    (id : Text) → lookup id notes.ids ≡ (if text_eq (codes "w1") id then some alice else none)
unfolding create_workspace sanitize_workspace_name resolve_own_workspace_id addressed cut_at lookup
    insert construct_workspace_reference new_entry set_entry add_to_indexes
notes-ids id = refl

notes-user : (u id : Text) (e : Entry) → Has u id e notes → alice ≡ u
notes-user u id e h = ground (arith, notes-ids id, notes-IsConsistent.placed u id e h)

notes-loaded : (id : Text) → lookup id notes.loaded ≡ none
unfolding create_workspace sanitize_workspace_name resolve_own_workspace_id addressed cut_at lookup
    insert construct_workspace_reference new_entry set_entry add_to_indexes
notes-loaded id = refl

rebuild_indexes-same_example :
    (lookup (codes "alice@canvas.local:notes") (rebuild_indexes (alice ∷ bob ∷ []) notes).names
      ≡ lookup (codes "alice@canvas.local:notes") notes.names)
    × (lookup (codes "alice@canvas.local:notes") (rebuild_indexes (alice ∷ bob ∷ []) notes).ids
        ≡ lookup (codes "alice@canvas.local:notes") notes.ids)
    × (lookup
          (codes "alice@canvas.local:notes")
          (rebuild_indexes (alice ∷ bob ∷ []) notes).references
        ≡ lookup (codes "alice@canvas.local:notes") notes.references)
rebuild_indexes-same_example =
    rebuild_indexes-same (alice ∷ bob ∷ []) notes notes-IsConsistent
      (λ u id e h. Memᴰ.head (sym (notes-user u id e h))) (codes "alice@canvas.local:notes")

get_workspace_or_throw-exact_example :
    ((allowed world alice notes_entry bob read notes ≡ true)
      × IsAdmitted (get_workspace_or_throw world (codes "w1") bob (some read) notes).0)
    ⊎ ((allowed world alice notes_entry bob read notes ≡ false)
        × (get_workspace_or_throw world (codes "w1") bob (some read) notes
            ≡ (failed access_denied, notes)))
get_workspace_or_throw-exact_example =
    get_workspace_or_throw-exact world notes alice (codes "w1") bob notes_entry read
      notes-IsConsistent (λ id ws h. absurd (none-ne-some (sym (notes-loaded id) ∙ h))) (λ e. cc)
      notes-Has

transfer_workspace_ownership-IsMoved_example :
    IsMoved (codes "w1") bob (transfer_workspace_ownership world (codes "w1") bob 8 notes)
transfer_workspace_ownership-IsMoved_example =
    transfer_workspace_ownership-IsMoved world notes (codes "w1") bob 8 notes-IsConsistent

remove_workspace-IsRemoval_example :
    IsRemoval alice notes (remove_workspace world (codes "notes") alice notes)
remove_workspace-IsRemoval_example =
    remove_workspace-IsRemoval world notes (codes "notes") alice notes-IsConsistent

parse_workspace_reference-construct_workspace_reference_example :
    (full : Text) × (construct_workspace_reference alice (codes "notes") default_host (codes "/a/b")
      ≡ some full)
    × (parse_workspace_reference full
        ≡ some (record {
          user_identifier = alice;
          host = default_host;
          workspace_slug = codes "notes";
          path = codes "/a/b";
          full = full;
          is_local = text_eq default_host default_host;
          is_remote = not (text_eq default_host default_host);
        }))
parse_workspace_reference-construct_workspace_reference_example =
    parse_workspace_reference-construct_workspace_reference alice (codes "notes") default_host
      (codes "/a/b") (λ e. cc) (λ e. cc) (λ e. cc) (solid alice refl) (solid (codes "notes") refl)
      (solid default_host refl) (lacks b':' alice refl) (lacks b':' default_host refl)
      (lacks b'@' default_host refl) (lacks b'/' (codes "notes") refl) refl

abbrev notes_instance : Loaded
notes_instance = record {
  id = codes "w1";
  owner = alice;
  acl = returned none;
  is_remote = false;
  is_universe = false;
}

-- The workspace of alice is in memory.
abbrev running : Manager
running = record notes { loaded = insert (codes "w1") notes_instance [] }

running-IsConsistent : IsConsistent running
running-IsConsistent =
    IsConsistent-beside notes notes.remote_indexes notes.remote_refs
      (insert (codes "w1") notes_instance []) notes-IsConsistent

running-Has : Has alice (codes "w1") notes_entry running
unfolding entry_at
running-Has = notes-Has

abbrev grant_options : Options
grant_options = record {
  permissions = some (single (some (codes "write")));
  description = none;
  granted_by = none;
}

abbrev bob_member : Member
bob_member = record {
  kind = user;
  principal = codes "bob@x.org";
  permissions = read ∷ write ∷ [];
  grant = new_grant ascii_casing "now" (read ∷ write ∷ []) (granted_as alice grant_options) none;
}

abbrev share_run : (Refusal ⊎ Member) × Manager
share_run =
    grant_workspace_member world "now" 9 (codes "w1") alice user (codes " Bob@x.org") grant_options
      running

share_run-inr : share_run ≡ (inr bob_member, share_run.1)
unfolding grant_workspace_member get_workspace_or_throw get_cached guarded lookup insert grant
    normalize_permissions parsed new_grant entry_of
share_run-inr = refl

grant_workspace_member-admits_example :
    (r : Rights) × ((resolve_workspace_access world (codes "w1") bob share_run.1).0 ≡ some r)
    × (r.permissions ≡ normalize_permissions ascii_casing (requested grant_options.permissions))
unfolding lookup insert new_entry
grant_workspace_member-admits_example =
    grant_workspace_member-admits world "now" 9 notes_instance notes_entry (codes " Bob@x.org")
      (codes "bob@x.org") grant_options none none running share_run.1 bob_member bob
      running-IsConsistent refl running-Has refl refl refl tt (λ e. cc) (λ e. cc) refl refl
      share_run-inr

abbrev disk : Disk
disk = record {
  resolve = λ p. p;
  exists = λ p. true;
  dir = codes "/srv/copy";
  config_path = codes "/srv/copy/workspace.json";
  inferred = full;
}

-- A copy of the directory of alice's workspace, with its id and its name.
abbrev copied : Config
copied = record {
  id = codes "w1";
  name = codes "notes";
  label = codes "Notes";
  owner = some alice;
  host = none;
  reference = some (codes "alice@canvas.local:notes");
  layout = some full;
  is_universe = false;
  root_path = some (codes "/home/alice/Workspaces/Notes");
  config_path = some (codes "/home/alice/Workspaces/Notes/workspace.json");
  acl = none;
  updated_at = 5;
}

index_workspace_from_disk-ends_example :
    (index_workspace_from_disk ascii_casing disk copied alice local (codes "w2") 9 notes).0
    ≢ out_of_rounds
index_workspace_from_disk-ends_example =
    index_workspace_from_disk-ends ascii_casing disk copied alice (codes "w2") local 9 notes

incoming-id : (incoming_of disk copied alice (codes "w2") notes).0.id ≡ codes "w2"
unfolding incoming_of collided existing_of create_workspace sanitize_workspace_name
    resolve_own_workspace_id addressed cut_at lookup insert construct_workspace_reference new_entry
    set_entry add_to_indexes name_key entry_at
incoming-id = refl

notes-named : lookup (codes "alice@canvas.local:notes") notes.names ≡ some (codes "w1")
unfolding create_workspace sanitize_workspace_name resolve_own_workspace_id addressed cut_at lookup
    insert construct_workspace_reference new_entry set_entry add_to_indexes name_key
notes-named = refl

w1-ne-w2 : codes "w1" ≢ codes "w2"
w1-ne-w2 e = ground (arith, e)

index_workspace_from_disk-keeps_example :
    lookup
      (codes "alice@canvas.local:notes")
      (index_workspace_from_disk ascii_casing disk copied alice local (codes "w2") 9 notes).1.names
    ≡ some (codes "w1")
index_workspace_from_disk-keeps_example =
    index_workspace_from_disk-keeps ascii_casing disk copied alice (codes "w2") local 9 notes
      (codes "alice@canvas.local:notes") (codes "w1") notes-IsConsistent notes-named
      (λ e. w1-ne-w2 (e ∙ incoming-id))

abbrev token : Token
token = record {
  id = "t";
  name = "Workspace token";
  description = "";
  permissions = none;
  created_at = 1;
  expires_at = some 100;
}

abbrev share_acl : Acl
share_acl = record { tokens = some (("sha256:canvas", token) ∷ []); users = none; groups = none }

abbrev sharing : Manager
sharing = record notes {
  loaded = insert (codes "w1") (record notes_instance { acl = returned (some share_acl) }) [];
}

abbrev resolved_token : ShareToken
resolved_token = share_token_of notes_entry token

abbrev token_run : Call (Option ShareToken) × ShareCache
token_run = resolve_workspace_share_token world (λ t. t) 50 "canvas" [] sharing

token_run-some : token_run.0 ≡ returned (some resolved_token)
unfolding resolve_workspace_share_token scan_tokens all_entries entries_of create_workspace
    sanitize_workspace_name resolve_own_workspace_id addressed cut_at lookup insert
    construct_workspace_reference new_entry set_entry add_to_indexes name_key entry_at
token_run-some = refl

resolve_workspace_share_token-unexpired_example :
    (has_expired 50 resolved_token.token.expires_at ≡ false)
    × (((at : ℕ) × (lookup {V = ShareToken × ℕ} (token_key (λ t. t) "canvas") []
            ≡ some (resolved_token, at))
          × (50 < at + cache_ttl))
        ⊎ IsHeld world 50
            (token_key (λ t. t) "canvas")
            sharing
            (all_entries world.order sharing)
            resolved_token)
resolve_workspace_share_token-unexpired_example =
    resolve_workspace_share_token-unexpired world (λ t. t) 50 "canvas" [] sharing resolved_token
      token_run-some

transfer_workspace_ownership-Transfers_example :
    Transfers
      (codes "w1")
      bob
      (view notes)
      (transfer_workspace_ownership world (codes "w1") bob 8 notes)
transfer_workspace_ownership-Transfers_example =
    transfer_workspace_ownership-Transfers world notes (codes "w1") bob 8 notes-IsConsistent
