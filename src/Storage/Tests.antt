-- ===== src/Storage/Tests.antt =====
-- A storage with tables in memory, and the storage's theorems at it.
use rhosus.Base.{
  ℕ, String, none, some, [], ◌∷◌, ◌≡◌, ◌≢◌, ◌⊎◌, inl, inr, refl, arith, same, string_key, false,
  sym, ◌∙◌,
}
use rhosus.Storage.Types.{library, FileInfo, dir_type, file_type, BlockInfo}
use rhosus.Storage.Tables.{
  IsTable, files_schema, blocks_schema, roles_schema, tokens_schema, policies_schema,
}
use rhosus.Storage.Tables.Memory.{memory_table, memory_table-IsTable}
use rhosus.Storage.Store.{Codec, Env, Storage, get_file_by_path, delete_file_with_blocks}
use rhosus.Storage.Store.Removal.{delete_file_with_blocks_atomic, IsRemoved}
use rhosus.Storage.Load.{load_from_backend}
use rhosus.Storage.Load.Restart.{load_from_backend-get_file_by_path}

-- Two texts that the test tells apart.
pub differ : (a b : String) → same a b ≡ false → a ≢ b
differ a b e p = ground (arith, string_key.same_iff a b)

-- A codec that encodes everything alike, and decodes nothing.
abbrev pub no_codec : {A : Type 0} → Codec A
no_codec = record { marshal = λ a. inr []; unmarshal = λ b. inl (library 8) }

abbrev pub memory_env : Env
memory_env = record {
  files = memory_table (λ f. f.id) files_schema;
  blocks = memory_table (λ b. b.id) blocks_schema;
  roles = memory_table (λ r. r.id) roles_schema;
  tokens = memory_table (λ t. t.id) tokens_schema;
  policies = memory_table (λ p. p.id) policies_schema;
  backend = record {
    State = Unit;
    put = λ type es s. (none, s);
    get = λ type keys s. (inr [], s);
    delete = λ type keys s. (none, s);
    list = λ type s. (inr [], s);
  };
  file_codec = no_codec;
  block_codec = no_codec;
  role_codec = no_codec;
  token_codec = no_codec;
  policy_codec = no_codec;
}

abbrev pub a_dir : FileInfo
a_dir = record {
  id = "d";
  parent_id = "root";
  type = dir_type;
  name = "docs";
  path = "docs";
  file_size = 0;
  permission = 0;
  replication = 0;
}

abbrev pub a_file : FileInfo
a_file = record {
  id = "f";
  parent_id = "d";
  type = file_type;
  name = "a";
  path = "docs/a";
  file_size = 5;
  permission = 0;
  replication = 1;
}

abbrev pub a_storage : Storage memory_env
a_storage = record {
  files = a_dir ∷ [];
  blocks = [];
  roles = [];
  tokens = [];
  policies = [];
  backend = tt;
}

abbrev pub files_laws : IsTable memory_env.files files_schema (λ f. f.id)
files_laws = memory_table-IsTable (λ f. f.id) files_schema

abbrev pub blocks_laws : IsTable memory_env.blocks blocks_schema (λ b. b.id)
blocks_laws = memory_table-IsTable (λ b. b.id) blocks_schema

abbrev pub a_block : String → ℕ → String → BlockInfo
a_block id index file_id = record { id = id; index = index; file_id = file_id; placements = [] }

-- Two blocks of the file, the later one first, and one of another file.
abbrev pub with_blocks : Storage memory_env
with_blocks = record a_storage {
  files = a_file ∷ a_dir ∷ [];
  blocks = a_block "b1" 1 "f" ∷ a_block "c0" 0 "g" ∷ a_block "b0" 0 "f" ∷ [];
}

delete_file_with_blocks_atomic_example :
    (((delete_file_with_blocks a_file with_blocks).0 ≢ none)
      × ((delete_file_with_blocks a_file with_blocks).1.blocks ≡ with_blocks.blocks)
      × ((delete_file_with_blocks a_file with_blocks).1.files ≡ with_blocks.files))
    ⊎ IsRemoved blocks_laws files_laws a_file with_blocks
        (delete_file_with_blocks a_file with_blocks).1
delete_file_with_blocks_atomic_example =
    delete_file_with_blocks_atomic blocks_laws files_laws a_file with_blocks
      (refl, (refl, (refl, tt))) (refl, (refl, tt))

-- A backend that lists one entry of each type, and a codec that decodes it to the file.
abbrev restart_env : Env
restart_env = record memory_env {
  backend = record {
    State = Unit;
    put = λ type es s. (none, s);
    get = λ type keys s. (inr [], s);
    delete = λ type keys s. (none, s);
    list = λ type s. (inr (record { key = "docs/a"; value = [] } ∷ []), s);
  };
  file_codec = record { marshal = λ f. inr []; unmarshal = λ b. inr a_file };
}

abbrev nothing : Storage restart_env
nothing = record { files = []; blocks = []; roles = []; tokens = []; policies = []; backend = tt }

load_from_backend-get_file_by_path_example :
    get_file_by_path "docs/a" (load_from_backend nothing).1 ≡ inr (some a_file)
load_from_backend-get_file_by_path_example =
    load_from_backend-get_file_by_path {env = restart_env} files_laws
      (record { key = "docs/a"; value = [] } ∷ []) (a_file ∷ []) nothing a_file refl (refl, tt)
      ((differ "f" "" refl, (differ "docs/a" "" refl, (differ "d" "" refl, tt))), tt)
      (λ f g a b e. elim a [
        | inl fe ↦ elim b [ inl ge ↦ fe ∙ sym ge | inr n ↦ elim n [ ] ]
        | inr n ↦ elim n [ ]
      ])
      tt (λ i. refl) (inl refl)
