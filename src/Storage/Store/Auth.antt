-- ===== src/Storage/Store/Auth.antt =====
-- rhosus/registry/storage/storage_auth.go and storage_policy.go
pub mod Tokens
use rhosus.Base.{String, Option, none, some, List, [], ◌∷◌, ◌⊎◌, inl, inr}
use rhosus.Storage.Types.{Err, wrapped, Role, Token, Policy}
use rhosus.Storage.Store.{
  Env, Storage, put_entry, then_put, delete_entries, wrap_error, store_role_in_memory,
  store_token_in_memory, store_policy_in_memory, entry_type_role, entry_type_token,
  entry_type_policy,
}

module _ {env : Env} where
  -- `StoreRole`
  pub store_role : Role → Storage env → Option Err × Storage env
  unfolding store_role_in_memory put_entry
  store_role r s =
      let (err, s') = store_role_in_memory r s in
      let stored = put_entry entry_type_role r.id (wrap_error (env.role_codec.marshal r)) s' in
      elim err [ some e ↦ (some (wrapped e), s') | none ↦ stored ]

  -- `GetRole`
  unfoldable pub get_role : String → Storage env → Err ⊎ Option Role
  get_role name s = env.roles.first "name" name s.roles

  -- `GetRoleByID`
  pub get_role_by_id : String → Storage env → Err ⊎ Option Role
  get_role_by_id id s = env.roles.first "id" id s.roles

  -- `DeleteRole`
  pub delete_role : Role → Storage env → Option Err × Storage env
  unfolding delete_entries
  delete_role r s =
      let (err, rows) = env.roles.delete r s.roles in
      let ended = delete_entries entry_type_role (r.id ∷ []) (record s { roles = rows }) in
      elim err [ some e ↦ (some e, s) | none ↦ ended ]

  -- `StoreToken`
  unfoldable pub store_token : Token → Storage env → Option Err × Storage env
  unfolding store_token_in_memory then_put
  store_token t s =
      then_put entry_type_token t.id (env.token_codec.marshal t) (store_token_in_memory t s)

  -- `GetToken`
  pub get_token : String → Storage env → Err ⊎ Option Token
  get_token accessor s = env.tokens.first "id" accessor s.tokens

  -- `GetAllRoleTokens`
  pub get_all_role_tokens : String → Storage env → Err ⊎ List Token
  get_all_role_tokens role_id s = env.tokens.get "role_id" role_id s.tokens

  -- `ListTokens`
  pub list_tokens : Storage env → Err ⊎ List Token
  list_tokens s = env.tokens.get_all "id" s.tokens

  -- `RevokeToken`
  pub revoke_token : Token → Storage env → Option Err × Storage env
  unfolding delete_entries
  revoke_token t s =
      let (err, rows) = env.tokens.delete t s.tokens in
      let ended = delete_entries entry_type_token (t.id ∷ []) (record s { tokens = rows }) in
      elim err [ some e ↦ (some e, s) | none ↦ ended ]

  -- `StorePolicy`
  unfoldable pub store_policy : Policy → Storage env → Option Err × Storage env
  unfolding store_policy_in_memory put_entry
  store_policy p s =
      let (err, s') = store_policy_in_memory p s in
      let stored =
        put_entry entry_type_policy p.name (wrap_error (env.policy_codec.marshal p)) s' in
      elim err [ some e ↦ (some (wrapped e), s') | none ↦ stored ]

  -- `GetPolicy`
  pub get_policy : String → Storage env → Err ⊎ Option Policy
  get_policy name s = env.policies.first "name" name s.policies

  -- `ListPolicies`
  pub list_policies : Storage env → Err ⊎ List Policy
  list_policies s = env.policies.get_all "name" s.policies

  -- `DeletePolicy`
  pub delete_policy : Policy → Storage env → Option Err × Storage env
  unfolding delete_entries
  delete_policy p s =
      let (err, rows) = env.policies.delete p s.policies in
      let ended = delete_entries entry_type_policy (p.name ∷ []) (record s { policies = rows }) in
      elim err [ some e ↦ (some e, s) | none ↦ ended ]
