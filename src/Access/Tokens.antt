-- ===== src/Access/Tokens.antt =====
-- src/core/workspace/lib/WorkspaceTokens.js. A time is a number of milliseconds, with 0 for a date
-- that is falsy. The SHA-256 digest in hex is the parameter `sha256`; what `crypto.randomBytes` and
-- `uuidv4` return are arguments, since each is fresh at a call.
pub mod Verify
use canvas_server.Prelude.{
  ℕ, Bool, true, false, ◌&&◌, not, nat_eq, Option, none, some, List, [], ◌∷◌, map, String, ◌==◌,
  or_else, ltb, Dict, lookup, insert, remove, string_key, if◌then◌else◌,
}
use Prim.Native.String.{◌++◌}
use canvas_server.Access.Resolve.{Token, Acl}
use canvas_server.Access.Members.{either}

pub record TokenOptions : Type 0 where
  pub name : Option String
  pub description : Option String
  pub permissions : Option (List String)
  pub expires_at : Option ℕ

-- `configStore.get('acl') || { tokens: {} }`
abbrev pub acl_or_empty : Option Acl → Acl
acl_or_empty none = record { tokens = some []; users = none; groups = none }
acl_or_empty (some acl) = acl

-- `acl.tokens || {}`
abbrev pub tokens_of : Option Acl → Dict Token
tokens_of store = or_else (acl_or_empty store).tokens []

abbrev date_or_null : Option ℕ → Option ℕ
date_or_null none = none
date_or_null (some t) = if nat_eq t 0 then none else some t

-- `a || b` with a default text
abbrev text_or : Option String → String → String
text_or a b = or_else (either a (some b)) b

-- The token that `create` writes.
abbrev pub new_token : String → ℕ → TokenOptions → Token
new_token id now o = record {
  id = id;
  name = text_or o.name "Workspace token";
  description = text_or o.description "";
  permissions = some (or_else o.permissions ("read" ∷ "write" ∷ []));
  created_at = now;
  expires_at = date_or_null o.expires_at;
}

-- `token.expiresAt && new Date(token.expiresAt) < new Date()`
abbrev pub has_expired : ℕ → Option ℕ → Bool
has_expired now none = false
has_expired now (some t) = not (nat_eq t 0) && ltb t now

module _ (sha256 : String → String) where
  -- `sha256:${hash}` of the value
  abbrev pub token_key : String → String
  token_key value = "sha256:" ++ sha256 value

  -- `create`: the token, its value, its key, and the `acl` that is set
  unfoldable pub create :
      String → String → ℕ → TokenOptions → Option Acl → (Token × String × String) × Acl
  create id random now o store =
      let value = "canvas-workspace-" ++ random in
      let token = new_token id now o in
      (
        (token, value, token_key value),
        record (acl_or_empty store) {
          tokens = some (insert (token_key value) token (tokens_of store));
        },
      )

  -- `list`: each token with its key
  unfoldable pub list_tokens : Option Acl → List (Token × String)
  list_tokens store = map (λ e. (e.1, e.0)) (tokens_of store)

  -- `delete`, by the key; the Boolean says whether there was such a token
  unfoldable pub delete_token : String → Option Acl → Option Acl × Bool
  delete_token key store = elim (lookup key (tokens_of store)) [
    | none ↦ (store, false)
    | some token ↦
        (some (record (acl_or_empty store) { tokens = some (remove key (tokens_of store)) }), true)
  ]

  -- `verify`; the caller adds the workspace's id to the token that is returned
  unfoldable pub verify : ℕ → String → Option Acl → Option Token
  verify now value store =
      if value == "" then none else elim (lookup (token_key value) (tokens_of store)) [
        | none ↦ none
        | some token ↦ if has_expired now token.expires_at then none else some token
      ]
