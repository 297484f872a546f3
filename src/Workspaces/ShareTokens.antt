-- ===== src/Workspaces/ShareTokens.antt =====
-- `resolveWorkspaceShareToken` of src/core/workspace/index.js. The digest is the parameter `sha256`, times are numbers of
-- milliseconds.
pub mod Fresh
use canvas_server.Prelude.{
  ℕ, Bool, true, false, ◌+◌, ltb, Option, none, some, List, [], ◌∷◌, String, ◌==◌, Text, or_else,
  if◌then◌else◌, lookup, insert, text_key, string_key,
}
use canvas_server.Access.Resolve.{Acl, Token}
use canvas_server.Access.Tokens.{tokens_of, has_expired, token_key}
use canvas_server.Gate.Request.{Call, thrown, returned}
use canvas_server.Workspaces.Indexes.Defs.{Entry, Loaded, Manager, truthy, all_entries}
use canvas_server.Workspaces.Guarded.{World}

-- What a share token resolves to.
pub record ShareToken : Type 0 where
  pub workspace_id : Text
  pub workspace_name : Text
  pub owner : Text
  pub permissions : List String
  pub token : Token

-- `#shareTokenCache`, with the time of each resolution.
abbrev pub ShareCache : Type 0
ShareCache = List (String × (ShareToken × ℕ))

-- `#SHARE_TOKEN_CACHE_TTL_MS`
abbrev pub cache_ttl : ℕ
cache_ttl = 10000

-- The ACL of a config file that can be read.
abbrev pub file_acl : Option (Call (Option Acl)) → Option Acl
file_acl none = none
file_acl (some thrown) = none
file_acl (some (returned acl)) = acl

abbrev pub config_acl : World → Option Text → Option Acl
config_acl w none = none
config_acl w (some path) = file_acl (w.read_config path)

abbrev pub acl_or_file : World → Entry → Option Acl → Option Acl
acl_or_file w e (some acl) = some acl
acl_or_file w e none = config_acl w (truthy e.config_path)

-- The ACL of an entry: the getter of an instance in memory may throw.
abbrev pub entry_acl : World → Entry → Option Loaded → Call (Option Acl)
entry_acl w e none = returned (acl_or_file w e none)
entry_acl w e (some ws) = elim ws.acl [
  | thrown ↦ thrown
  | returned acl ↦ returned (acl_or_file w e acl)
]

abbrev pub share_token_of : Entry → Token → ShareToken
share_token_of e token = record {
  workspace_id = e.id;
  workspace_name = e.name;
  owner = e.owner;
  permissions = or_else token.permissions ("read" ∷ []);
  token = token;
}

-- The answer of the first entry that has the token.
abbrev pub answer : ℕ → Entry → Token → Option ShareToken
answer now e token =
    if has_expired now token.expires_at then none else some (share_token_of e token)

abbrev pub or_later :
    ℕ → String → Entry → Call (Option ShareToken) → Call (Option Acl) → Call (Option ShareToken)
or_later now key e later thrown = thrown
or_later now key e later (returned acl) = elim (lookup key (tokens_of acl)) [
  | none ↦ later
  | some token ↦ returned (answer now e token)
]

-- The loop over all entries.
unfoldable pub scan_tokens :
    World → ℕ → String → Manager → List (Text × Entry) → Call (Option ShareToken)
scan_tokens w now key m [] = returned none
scan_tokens w now key m ((owner, e) ∷ rest) =
    or_later now key e (scan_tokens w now key m rest) (entry_acl w e (lookup e.id m.loaded))

abbrev pub remembered :
    String → ℕ → ShareCache → Call (Option ShareToken) → Call (Option ShareToken) × ShareCache
remembered key now cache thrown = (thrown, cache)
remembered key now cache (returned none) = (returned none, cache)
remembered key now cache (returned (some r)) = (returned (some r), insert key (r, now) cache)

-- A hit in the cache that is young enough.
abbrev pub young : ℕ → Option (ShareToken × ℕ) → Option ShareToken
young now none = none
young now (some (r, at)) = if ltb now (at + cache_ttl) then some r else none

-- `resolveWorkspaceShareToken`, with the cache that it leaves
unfoldable pub resolve_workspace_share_token :
    World
    → (String → String)
    → ℕ
    → String
    → ShareCache
    → Manager
    → Call (Option ShareToken) × ShareCache
resolve_workspace_share_token w sha256 now value cache m =
    let key = token_key sha256 value in
    if value == "" then (returned none, cache) else elim (young now (lookup key cache)) [
      | some r ↦ (returned (if has_expired now r.token.expires_at then none else some r), cache)
      | none ↦ remembered key now cache (scan_tokens w now key m (all_entries w.order m))
    ]
