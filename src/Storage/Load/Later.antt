-- ===== src/Storage/Load/Later.antt =====
-- `loadFromBackend` of rhosus/registry/storage/storage.go leaves the table of files once it has loaded them.
use rhosus.Base.{
  String, string_key, Option, none, some, List, [], ◌∷◌, ◌≡◌, inl, inr, refl, ◌∙◌, Sum-cases,
}
use rhosus.Storage.Types.{Err}
use rhosus.Storage.Store.{
  Entry, Codec, Env, Storage, store_file_in_memory, store_block_in_memory, store_role_in_memory,
  store_token_in_memory, store_policy_in_memory, entry_type_file, entry_type_block, entry_type_role,
  entry_type_token, entry_type_policy,
}
use rhosus.Storage.Store.Apart.{
  store_block_in_memory-files, store_role_in_memory-files, store_token_in_memory-files,
  store_policy_in_memory-files,
}
use rhosus.Storage.Load.{load_entries, load_type, ◌and_then◌, load_from_backend}

module _ {env : Env} where
  load_entries-files :
      {A : Type 0} (codec : Codec A) (store : A → Storage env → Option Err × Storage env)
      (es : List Entry) (s : Storage env)
      → ((a : A) (s : Storage env) → (store a s).1.files ≡ s.files)
      → (load_entries codec store es s).files ≡ s.files
  unfolding load_entries
  load_entries-files codec store [] s leaves = refl
  load_entries-files codec store (e ∷ es) s leaves = elim (Sum-cases (codec.unmarshal e.value)) [
    | inl (err, e') ↦ rw (e', load_entries) (load_entries-files codec store es s leaves)
    | inr (a, e') ↦
        rw (e', load_entries) (load_entries-files codec store es (store a s).1 leaves ∙ leaves a s)
  ]

  load_type-files :
      {A : Type 0} (type : String) (codec : Codec A)
      (store : A → Storage env → Option Err × Storage env) (s : Storage env)
      → ((a : A) (s : Storage env) → (store a s).1.files ≡ s.files)
      → (load_type type codec store s).1.files ≡ s.files
  unfolding load_type
  load_type-files type codec store s leaves = elim (Sum-cases (env.backend.list type s.backend).0) [
    | inl (err, e') ↦ rw (e', load_type) refl
    | inr (es, e') ↦ rw (e', load_type) (load_entries-files codec store es _ leaves)
  ]

  and_then-files :
      (p : Option Err × Storage env) (next : Storage env → Option Err × Storage env)
      → ((s : Storage env) → (next s).1.files ≡ s.files)
      → (p and_then next).1.files ≡ p.1.files
  unfolding ◌and_then◌
  and_then-files (some e, s) next leaves = refl
  and_then-files (none, s) next leaves = leaves s

  -- After the files, a start leaves their table.
  pub load_from_backend-files :
      (s : Storage env)
      → (load_from_backend s).1.files
        ≡ (load_type entry_type_file env.file_codec store_file_in_memory s).1.files
  unfolding load_from_backend
  load_from_backend-files s =
      let p = load_type entry_type_file env.file_codec store_file_in_memory s in
      let blocks = load_type entry_type_block env.block_codec store_block_in_memory in
      let roles = load_type entry_type_role env.role_codec store_role_in_memory in
      let tokens = load_type entry_type_token env.token_codec store_token_in_memory in
      let policies = load_type entry_type_policy env.policy_codec store_policy_in_memory in
      and_then-files (p and_then blocks and_then roles and_then tokens) policies (λ s.
        load_type-files entry_type_policy env.policy_codec store_policy_in_memory s
          store_policy_in_memory-files)
      ∙ and_then-files (p and_then blocks and_then roles) tokens (λ s.
        load_type-files entry_type_token env.token_codec store_token_in_memory s
          store_token_in_memory-files)
      ∙ and_then-files (p and_then blocks) roles (λ s.
        load_type-files entry_type_role env.role_codec store_role_in_memory s
          store_role_in_memory-files)
      ∙ and_then-files p blocks (λ s.
        load_type-files entry_type_block env.block_codec store_block_in_memory s
          store_block_in_memory-files)
