-- ===== src/Workspaces/ShareTokens/Fresh.antt =====
-- Share tokens that src/core/workspace/index.js resolves.
use mathlib.Core.Path.{subst}
use mathlib.Core.List.{Memᴰ}
use canvas_server.Prelude.{
  ◌≡◌, ◌≢◌, ◌⊎◌, refl, inl, inr, ℕ, false, Option, none, some, List, [], ◌∷◌, String, ◌==◌, arith,
  Text, ltb, ◌+◌, ◌<◌, lookup, string_key, text_key, Bool-cases, Option-cases, some-inj,
  none-ne-some, sym, ◌∙◌, ap,
}
use canvas_server.Access.Resolve.{Acl}
use canvas_server.Access.Tokens.{tokens_of, has_expired, token_key}
use canvas_server.Gate.Request.{Call, thrown, returned}
use canvas_server.Workspaces.Indexes.Defs.{Entry, Manager, all_entries}
use canvas_server.Workspaces.Guarded.{World}
use canvas_server.Workspaces.Guarded.Checked.{Call-cases}
use canvas_server.Workspaces.ShareTokens.{
  ShareToken, ShareCache, cache_ttl, entry_acl, share_token_of, or_later, scan_tokens, remembered,
  young, resolve_workspace_share_token,
}

returned-inj : {A : Type 0} {a b : A} → returned a ≡ returned b → a ≡ b
returned-inj e = cc

thrown-ne-returned : {A : Type 0} {a : A} → thrown ≢ returned a
thrown-ne-returned e = cc

-- The answer is the token of a walked entry's ACL, and has not expired.
pub record IsHeld (w : World) (now : ℕ) (key : String) (m : Manager) (es : List (Text × Entry))
    (r : ShareToken) : Type 0 where
  pub owner : Text
  pub entry : Entry
  pub walked : Memᴰ (owner, entry) es
  pub acl : Option Acl
  pub read_as : entry_acl w entry (lookup entry.id m.loaded) ≡ returned acl
  pub listed : lookup key (tokens_of acl) ≡ some r.token
  pub same : r ≡ share_token_of entry r.token
  pub unexpired : has_expired now r.token.expires_at ≡ false

scan_tokens-IsHeld :
    (w : World) (now : ℕ) (key : String) (m : Manager) (es : List (Text × Entry)) (r : ShareToken)
    → scan_tokens w now key m es ≡ returned (some r)
    → IsHeld w now key m es r
unfolding scan_tokens
scan_tokens-IsHeld w now key m [] r h = absurd (none-ne-some (returned-inj h))
scan_tokens-IsHeld w now key m ((o, e) ∷ es) r h =
    elim (Call-cases (entry_acl w e (lookup e.id m.loaded))) [
      | inl broken ↦ absurd (thrown-ne-returned (rw (broken, scan_tokens) at h))
      | inr (acl, reads) ↦ elim (Option-cases (lookup key (tokens_of acl))) [
        | inl absent ↦
            let k =
              scan_tokens-IsHeld w now key m es r
                (rw (reads, absent, scan_tokens, or_later) at h) in
            record {
              owner = k.owner;
              entry = k.entry;
              walked = Memᴰ.tail k.walked;
              acl = k.acl;
              read_as = k.read_as;
              listed = k.listed;
              same = k.same;
              unexpired = k.unexpired;
            }
        | inr (token, there) ↦ elim (Bool-cases (has_expired now token.expires_at)) [
          | inl late ↦
              absurd
                (none-ne-some (returned-inj (rw (reads, there, late, scan_tokens, or_later) at h)))
          | inr early ↦
              let is : share_token_of e token ≡ r =
                some-inj (returned-inj (rw (reads, there, early, scan_tokens, or_later) at h)) in
              subst (IsHeld w now key m ((o, e) ∷ es)) is (record {
                owner = o;
                entry = e;
                walked = Memᴰ.head refl;
                acl = acl;
                read_as = reads;
                listed = there;
                same = refl;
                unexpired = early;
              })
        ]
      ]
    ]

young-some :
    (now : ℕ) (o : Option (ShareToken × ℕ)) (r : ShareToken)
    → young now o ≡ some r
    → (at : ℕ) × (o ≡ some (r, at)) × (now < at + cache_ttl)
young-some now none r h = absurd (none-ne-some h)
young-some now (some (s, at)) r h = elim (Bool-cases (ltb now (at + cache_ttl))) [
  | inl fresh ↦
      (at, ap (λ x. some (x, at)) (some-inj (rw (fresh, young) at h)), ground (arith, fresh))
  | inr old ↦ absurd (none-ne-some (rw (old, young) at h))
]

remembered-result :
    (key : String) (now : ℕ) (cache : ShareCache) (o : Call (Option ShareToken))
    → (remembered key now cache o).0 ≡ o
remembered-result key now cache thrown = refl
remembered-result key now cache (returned none) = refl
remembered-result key now cache (returned (some r)) = refl

-- A share token resolves to something only while it has not expired, also from the cache. What it
-- resolves to was resolved less than ten seconds ago, or is the token that the ACL of some entry
-- holds under the digest of the value, with that entry's workspace and owner.
pub resolve_workspace_share_token-unexpired :
    (w : World) (sha256 : String → String) (now : ℕ) (value : String) (cache : ShareCache)
    (m : Manager) (r : ShareToken)
    → (resolve_workspace_share_token w sha256 now value cache m).0 ≡ returned (some r)
    → (has_expired now r.token.expires_at ≡ false)
      × (((at : ℕ) × (lookup (token_key sha256 value) cache ≡ some (r, at))
            × (now < at + cache_ttl))
          ⊎ IsHeld w now (token_key sha256 value) m (all_entries w.order m) r)
unfolding resolve_workspace_share_token
resolve_workspace_share_token-unexpired w sha256 now value cache m r h =
    let key = token_key sha256 value in
    elim (Bool-cases (value == "")) [
      | inl empty ↦
          absurd (none-ne-some (returned-inj (rw (empty, resolve_workspace_share_token) at h)))
      | inr given ↦ elim (Option-cases (young now (lookup key cache))) [
        | inr (s, hit) ↦
            let (at, there, fresh) = young-some now (lookup key cache) s hit in
            elim (Bool-cases (has_expired now s.token.expires_at)) [
              | inl late ↦ absurd (
                  none-ne-some
                    (returned-inj (rw (given, hit, late, resolve_workspace_share_token) at h)))
              | inr early ↦
                  let is : s ≡ r =
                    some-inj
                      (returned-inj (rw (given, hit, early, resolve_workspace_share_token) at h)) in
                  (
                    subst (λ x. has_expired now x.token.expires_at ≡ false) is early,
                    inl (at, subst (λ x. lookup key cache ≡ some (x, at)) is there, fresh),
                  )
            ]
        | inl miss ↦
            let scanned : scan_tokens w now key m (all_entries w.order m) ≡ returned (some r) =
              sym (remembered-result key now cache _)
              ∙ (rw (given, miss, resolve_workspace_share_token) at h) in
            let held = scan_tokens-IsHeld w now key m (all_entries w.order m) r scanned in
            (held.unexpired, inr held)
      ]
    ]
