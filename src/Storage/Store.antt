-- ===== src/Storage/Store.antt =====
-- rhosus/registry/storage/storage_files.go, storage_auth.go and storage_policy.go: each operation
-- writes the table in one transaction, and then the backend. An aborted transaction leaves the table.
pub mod Auth
pub mod Blocks
pub mod Files
pub mod Removal
pub mod Apart
use rhosus.Base.{
  ℕ, String, Bytes, Bool, Option, none, some, List, [], ◌∷◌, map, ◌⊎◌, inl, inr, sort_by,
  if◌then◌else◌,
}
use rhosus.Storage.Types.{Err, wrapped, FileInfo, BlockInfo, Role, Token, Policy}
use rhosus.Storage.Tables.{Table}

-- backend.go
pub record Entry : Type 0 where
  pub key : String
  pub value : Bytes

-- The methods of Backend. `list` may create the bucket.
pub record Backend : Type 1 where
  pub State : Type 0
  pub put : String → List Entry → State → Option Err × State
  pub get : String → List String → State → (Err ⊎ List Entry) × State
  pub delete : String → List String → State → Option Err × State
  pub list : String → State → (Err ⊎ List Entry) × State

-- The generated Marshal and Unmarshal of a message.
pub record Codec (A : Type 0) : Type 0 where
  pub marshal : A → Err ⊎ Bytes
  pub unmarshal : Bytes → Err ⊎ A

pub record Env : Type 1 where
  pub files : Table FileInfo
  pub blocks : Table BlockInfo
  pub roles : Table Role
  pub tokens : Table Token
  pub policies : Table Policy
  pub backend : Backend
  pub file_codec : Codec FileInfo
  pub block_codec : Codec BlockInfo
  pub role_codec : Codec Role
  pub token_codec : Codec Token
  pub policy_codec : Codec Policy

pub record Storage (env : Env) : Type 0 where
  pub files : env.files.State
  pub blocks : env.blocks.State
  pub roles : env.roles.State
  pub tokens : env.tokens.State
  pub policies : env.policies.State
  pub backend : env.backend.State

abbrev pub entry_type_file : String
entry_type_file = "file"

abbrev pub entry_type_block : String
entry_type_block = "block"

abbrev pub entry_type_role : String
entry_type_role = "role"

abbrev pub entry_type_token : String
entry_type_token = "token"

abbrev pub entry_type_policy : String
entry_type_policy = "policy"

-- The error of the encoding, wrapped.
unfoldable pub wrap_error : Err ⊎ Bytes → Err ⊎ Bytes
wrap_error (inl e) = inl (wrapped e)
wrap_error (inr v) = inr v

-- The entries of blocks for the backend, without those that cannot be encoded.
pub block_entries : Codec BlockInfo → List BlockInfo → List Entry
block_entries codec [] = []
block_entries codec (b ∷ bs) =
    let rest = block_entries codec bs in
    elim (codec.marshal b) [ inl e ↦ rest | inr v ↦ record { key = b.id; value = v } ∷ rest ]

module _ (t : Table BlockInfo) where
  -- The inserts of one transaction of `PutBlocks`; the first error ends it.
  pub insert_blocks : List BlockInfo → t.State → Option Err × t.State
  insert_blocks [] s = (none, s)
  insert_blocks (b ∷ bs) s =
      let (err, s') = t.insert b s in
      let rest = insert_blocks bs s' in elim err [ some e ↦ (some e, s') | none ↦ rest ]

  -- The deletions of one transaction; the first error ends it.
  pub delete_each : List BlockInfo → t.State → Option Err × t.State
  delete_each [] s = (none, s)
  delete_each (b ∷ bs) s =
      let (err, s') = t.delete b s in
      let rest = delete_each bs s' in elim err [ some e ↦ (some e, s') | none ↦ rest ]

module _ {env : Env} where
  -- The last step of a store: the encoded message goes to the backend under a key.
  unfoldable pub put_entry : String → String → Err ⊎ Bytes → Storage env → Option Err × Storage env
  put_entry type key (inl e) s = (some e, s)
  put_entry type key (inr value) s =
      let (err, b) = env.backend.put type (record { key = key; value = value } ∷ []) s.backend in
      (err, record s { backend = b })

  -- A store: the row in memory, and unless that fails the message in the backend.
  unfoldable pub then_put :
      String → String → Err ⊎ Bytes → Option Err × Storage env → Option Err × Storage env
  unfolding put_entry
  then_put type key value (some e, s) = (some e, s)
  then_put type key value (none, s) = put_entry type key value s

  -- The last step of a removal.
  pub delete_entries : String → List String → Storage env → Option Err × Storage env
  delete_entries type keys s =
      let (err, b) = env.backend.delete type keys s.backend in (err, record s { backend = b })

  -- A second removal, unless the first fails.
  pub then_delete : String → List String → Option Err × Storage env → Option Err × Storage env
  unfolding delete_entries
  then_delete type keys (some e, s) = (some e, s)
  then_delete type keys (none, s) = delete_entries type keys s

  -- `storeFileInMemory`
  pub store_file_in_memory : FileInfo → Storage env → Option Err × Storage env
  store_file_in_memory f s =
      let (err, t) = env.files.insert f s.files in
      elim err [ some e ↦ (some e, s) | none ↦ (none, record s { files = t }) ]

  -- `StoreFile`
  pub store_file : FileInfo → Storage env → Option Err × Storage env
  unfolding store_file_in_memory then_put
  store_file f s =
      then_put entry_type_file f.path (env.file_codec.marshal f) (store_file_in_memory f s)

  -- `GetFile`
  pub get_file : String → Storage env → Err ⊎ Option FileInfo
  get_file id s = env.files.first "id" id s.files

  -- `GetFileByPath`
  unfoldable pub get_file_by_path : String → Storage env → Err ⊎ Option FileInfo
  get_file_by_path path s = env.files.first "path" path s.files

  -- `GetFilesByParentId`
  pub get_files_by_parent_id : String → Storage env → Err ⊎ List FileInfo
  get_files_by_parent_id id s = env.files.get "parent_id" id s.files

  -- `GetAllFiles`, which answers nothing on an error.
  pub get_all_files : Storage env → List FileInfo
  get_all_files s = elim (env.files.get_all "id" s.files) [ inl e ↦ [] | inr fs ↦ fs ]

  -- `PutBlocks`
  pub put_blocks : List BlockInfo → Storage env → Option Err × Storage env
  unfolding insert_blocks block_entries
  put_blocks bs s =
      let (err, t) = insert_blocks env.blocks bs s.blocks in
      let (put_err, b) =
        env.backend.put entry_type_block (block_entries env.block_codec bs) s.backend in
      elim err [ some e ↦ (some e, s) | none ↦ (put_err, record s { blocks = t; backend = b }) ]

  -- `storeBlockInMemory`
  pub store_block_in_memory : BlockInfo → Storage env → Option Err × Storage env
  store_block_in_memory b s =
      let (err, t) = env.blocks.insert b s.blocks in
      elim err [ some e ↦ (some e, s) | none ↦ (none, record s { blocks = t }) ]

  -- `GetBlocks`
  unfoldable pub get_blocks : String → Storage env → Err ⊎ List BlockInfo
  get_blocks file_id s = elim (env.blocks.get "file_id" file_id s.blocks) [
    | inl e ↦ inl e
    | inr bs ↦ inr (sort_by (λ b. b.index) bs)
  ]

  -- `DeleteFileWithBlocks`. Its loop passes the blocks that are there when it starts.
  pub delete_file_with_blocks : FileInfo → Storage env → Option Err × Storage env
  unfolding delete_each delete_entries then_delete
  delete_file_with_blocks f s = elim (env.blocks.get "file_id" f.id s.blocks) [
    | inl e ↦ (some e, s)
    | inr bs ↦
        let (err, blocks) = delete_each env.blocks bs s.blocks in
        let (file_err, files) = env.files.delete f s.files in
        let committed = record s { blocks = blocks; files = files } in
        let ended =
          then_delete entry_type_block (map (λ b. b.id) bs)
            (delete_entries entry_type_file (f.path ∷ []) committed) in
        elim err [
          | some e ↦ (some e, s)
          | none ↦ elim file_err [ some e ↦ (some e, s) | none ↦ ended ]
        ]
  ]

  -- `DeleteFile`
  pub delete_file : FileInfo → Storage env → Option Err × Storage env
  unfolding delete_entries
  delete_file f s =
      let (err, t) = env.files.delete f s.files in
      let ended = delete_entries entry_type_file (f.path ∷ []) (record s { files = t }) in
      elim err [ some e ↦ (some e, s) | none ↦ ended ]

  -- `DeleteBlocks`
  pub delete_blocks : List BlockInfo → Storage env → Option Err × Storage env
  unfolding delete_each delete_entries
  delete_blocks bs s =
      let (err, t) = delete_each env.blocks bs s.blocks in
      let ended = delete_entries entry_type_block (map (λ b. b.id) bs) (record s { blocks = t }) in
      elim err [ some e ↦ (some e, s) | none ↦ ended ]

  -- `storeRoleInMemory`
  pub store_role_in_memory : Role → Storage env → Option Err × Storage env
  store_role_in_memory r s =
      let (err, t) = env.roles.insert r s.roles in
      elim err [ some e ↦ (some e, s) | none ↦ (none, record s { roles = t }) ]

  -- `storeTokenInMemory`
  unfoldable pub store_token_in_memory : Token → Storage env → Option Err × Storage env
  store_token_in_memory t s =
      let (err, ts) = env.tokens.insert t s.tokens in
      elim err [ some e ↦ (some e, s) | none ↦ (none, record s { tokens = ts }) ]

  -- `storePolicyInMemory`
  pub store_policy_in_memory : Policy → Storage env → Option Err × Storage env
  store_policy_in_memory p s =
      let (err, t) = env.policies.insert p s.policies in
      elim err [ some e ↦ (some e, s) | none ↦ (none, record s { policies = t }) ]
