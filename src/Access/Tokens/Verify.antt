-- ===== src/Access/Tokens/Verify.antt =====
-- Which values a workspace's tokens accept, after `create` and after `delete`.
use canvas_server.Prelude.{
  ℕ, ◌≡◌, inl, inr, Option, none, some, arith, String, ◌==◌, lookup, string_key, lookup-insert,
  lookup-remove, if◌then◌else◌, Bool-cases, Option-cases, eq_iff,
}
use Prim.Native.String.{◌++◌}
use canvas_server.Access.Resolve.{Acl}
use canvas_server.Access.Tokens.{
  TokenOptions, tokens_of, new_token, has_expired, token_key, create, delete_token, verify,
}

module _ (sha256 : String → String) where
  -- After `create`, `verify` accepts a value with the digest of the created one until the new
  -- token's own expiry, and any other value as before; the empty value is refused.
  pub verify-create :
      (id random : String) (now later : ℕ) (o : TokenOptions) (store : Option Acl) (value : String)
      → let made = create sha256 id random now o store in
        verify sha256 later value (some made.1) ≡ (
          if value == ""
          then none
          else if made.0.2 == token_key sha256 value
          then (if has_expired later made.0.0.expires_at then none else some made.0.0)
          else verify sha256 later value store)
  unfolding create verify
  verify-create id random now later o store value =
      let key = token_key sha256 ("canvas-workspace-" ++ random) in
      rw (lookup-insert key (token_key sha256 value) (new_token id now o) (tokens_of store))
        (elim (Bool-cases (value == "")) [
          | inl blank ↦ rw blank
          | inr filled ↦ rw filled (elim (Bool-cases (key == token_key sha256 value)) [
            | inl hit ↦ rw hit
            | inr miss ↦ rw miss
          ])
        ])

  -- Whether or not there was such a token, after `delete` no value with that key is accepted, and
  -- every other value is accepted as before.
  pub verify-delete_token :
      (key : String) (now : ℕ) (store : Option Acl) (value : String)
      → verify sha256 now value (delete_token sha256 key store).0
        ≡ (if key == token_key sha256 value then none else verify sha256 now value store)
  unfolding delete_token verify
  verify-delete_token key now store value = elim (Option-cases (lookup key (tokens_of store))) [
    | inl nothing ↦
        rw (nothing, delete_token)
          (elim (Bool-cases (key == token_key sha256 value)) [
            | inl hit ↦
                rw (hit, ← (eq_iff key (token_key sha256 value)).0 hit, nothing, verify)
                  (ground arith)
            | inr miss ↦ rw miss
          ])
    | inr (t, found) ↦
        rw (found, delete_token, lookup-remove key (token_key sha256 value) (tokens_of store))
          (ground arith)
  ]
