-- ===== src/Storage/Load.antt =====
-- `loadFromBackend` of rhosus/registry/storage/storage.go: at the start each entry of the backend is
-- put into its table. An entry that cannot be decoded or inserted is passed by.
pub mod Later
pub mod Restart
use rhosus.Base.{String, Option, none, some, List, [], ◌∷◌, inl, inr}
use rhosus.Storage.Types.{Err}
use rhosus.Storage.Store.{
  Entry, Codec, Env, Storage, store_file_in_memory, store_block_in_memory, store_role_in_memory,
  store_token_in_memory, store_policy_in_memory, entry_type_file, entry_type_block, entry_type_role,
  entry_type_token, entry_type_policy,
}

module _ {env : Env} where
  -- One of the five loops.
  pub load_entries :
      {A : Type 0}
      → Codec A
      → (A → Storage env → Option Err × Storage env)
      → List Entry
      → Storage env
      → Storage env
  load_entries codec store [] s = s
  load_entries codec store (e ∷ es) s = elim (codec.unmarshal e.value) [
    | inl _ ↦ load_entries codec store es s
    | inr a ↦ load_entries codec store es (store a s).1
  ]

  -- List, and the loop over what it answers.
  pub load_type :
      {A : Type 0}
      → String
      → Codec A
      → (A → Storage env → Option Err × Storage env)
      → Storage env
      → Option Err × Storage env
  unfolding load_entries
  load_type type codec store s =
      let (listed, b) = env.backend.list type s.backend in
      elim listed [
        | inl e ↦ (some e, record s { backend = b })
        | inr es ↦ (none, load_entries codec store es (record s { backend = b }))
      ]

  infixl 5 ◌and_then◌
  -- The second step, unless the first ends with an error.
  pub ◌and_then◌ :
      Option Err × Storage env → (Storage env → Option Err × Storage env) → Option Err × Storage env
  (some e, s) and_then next = (some e, s)
  (none, s) and_then next = next s

  pub load_from_backend : Storage env → Option Err × Storage env
  unfolding load_type ◌and_then◌
  load_from_backend s =
      load_type entry_type_file env.file_codec store_file_in_memory s
      and_then load_type entry_type_block env.block_codec store_block_in_memory
      and_then load_type entry_type_role env.role_codec store_role_in_memory
      and_then load_type entry_type_token env.token_codec store_token_in_memory
      and_then load_type entry_type_policy env.policy_codec store_policy_in_memory
