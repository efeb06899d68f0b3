-- ===== src/Storage/Store/Auth/Tokens.antt =====
-- rhosus/registry/storage/storage_auth.go: tokens are stored, listed and revoked.
use rhosus.Base.{
  Bytes, String, string_key, same, none, some, List, ◌≡◌, ◌↔◌, ◌⊎◌, inl, inr, if◌then◌else◌, arith,
  refl, sym, ◌∙◌, In, Option-cases, none_ne_some,
}
use rhosus.Storage.Types.{Err, Token}
use rhosus.Storage.Tables.{IsTable, IsComplete, tokens_schema}
use rhosus.Storage.Tables.Insert.{IsFresh, first-insert}
use rhosus.Storage.Store.{
  Env, Storage, delete_entries, put_entry, then_put, store_token_in_memory, entry_type_token,
}
use rhosus.Storage.Store.Auth.{store_token, get_token, list_tokens, revoke_token}

module _ {env : Env} (laws : IsTable env.tokens tokens_schema (λ t. t.id)) where
  -- The list of the tokens.
  pub list_tokens_lem :
      (s : Storage env)
      → laws.IsIndexed s.tokens
      → (ts : List Token) × (list_tokens s ≡ inr ts)
        × ((t : Token) → In t ts ↔ (laws.row t.id s.tokens ≡ some t))
  unfolding list_tokens
  list_tokens_lem s indexed = laws.get_all_lem "id" _ s.tokens refl indexed

  -- A token that is revoked is no longer in memory, and other tokens are as they were.
  pub revoke_token-row :
      (t : Token) (s : Storage env) (i : String)
      → laws.row i (revoke_token t s).1.tokens ≡ (if same t.id i then none else laws.row i s.tokens)
  unfolding revoke_token delete_entries
  revoke_token-row t s i = elim (Option-cases (env.tokens.delete t s.tokens).0) [
    | inl ok ↦ rw (ok, revoke_token, delete_entries) (laws.row-delete t s.tokens i)
    | inr (err, e) ↦ elim (Option-cases (laws.row t.id s.tokens)) [
      | inl missing ↦ rw (e, revoke_token) (ground (arith, missing, string_key.same_iff t.id i))
      | inr (g, there) ↦
          let ok = laws.delete_ok t s.tokens (ground (arith, there)) in
          elim (none_ne_some (sym ok ∙ e)) [ ]
    ]
  ]

  put_entry-tokens :
      (type key : String) (v : Err ⊎ Bytes) (s : Storage env)
      → (put_entry type key v s).1.tokens ≡ s.tokens
  unfolding put_entry
  put_entry-tokens type key (inl e) s = refl
  put_entry-tokens type key (inr v) s = refl

  store_token_in_memory-ok :
      (t : Token) (s : Storage env)
      → IsComplete tokens_schema t
      → store_token_in_memory t s ≡ (none, record s { tokens = (env.tokens.insert t s.tokens).1 })
  unfolding store_token_in_memory
  store_token_in_memory-ok t s complete =
      rw (laws.insert_ok t s.tokens complete, store_token_in_memory) refl

  -- The table of tokens after a store, whatever the backend answers.
  pub store_token-tokens :
      (t : Token) (s : Storage env)
      → IsComplete tokens_schema t
      → (store_token t s).1.tokens ≡ (env.tokens.insert t s.tokens).1
  unfolding store_token then_put
  store_token-tokens t s complete =
      rw (store_token, store_token_in_memory-ok t s complete)
        (put_entry-tokens entry_type_token t.id (env.token_codec.marshal t) _)

  -- A token that is stored, and whose accessor no other token has, is found.
  pub store_token-get_token :
      (t : Token) (s : Storage env)
      → laws.IsIndexed s.tokens
      → IsComplete tokens_schema t
      → IsFresh laws t s.tokens
      → get_token t.id (store_token t s).1 ≡ inr (some t)
  unfolding get_token
  store_token-get_token t s indexed complete fresh =
      rw (store_token-tokens t s complete, get_token)
        (first-insert laws "id" _ t s.tokens refl refl indexed complete fresh)
