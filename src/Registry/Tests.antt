-- ===== src/Registry/Tests.antt =====
-- A registry with its storage and its cluster in memory, and the registry's theorems at it.
mod Uploads
mod Requests
mod Discovery
use rhosus.Base.{
  ◌↔◌, ◌≢◌, In, ℕ, String, true, false, none, some, List, [], ◌∷◌, ◌++◌, ◌≡◌, ◌⊎◌, inl, inr, refl,
  sym, ap, ◌∙◌, arith, IsSortedBy, sort_by, insert, lookup, map, length, same, if◌then◌else◌,
  string_key,
}
use Prim.Native.Nat.{min}
use mathlib.Core.List.{Perm}
use rhosus.Storage.Types.{FileInfo, BlockInfo}
use rhosus.Storage.Store.{Codec, get_file_by_path, get_blocks, wrap_error, put_entry}
use rhosus.Storage.Store.Auth.{store_policy, store_token}
use rhosus.Storage.Tables.Memory.{find_row-In}
use rhosus.Storage.Tests.{
  memory_env, a_dir, a_file, a_block, with_blocks, files_laws, no_codec, differ,
}
use rhosus.Cluster.Types.{Entry}
use rhosus.Cluster.Types
use rhosus.Cluster.Tests.{memory, a_leader}
use rhosus.Cluster.Buffer.{write_batch}
use rhosus.Cluster.Node.{Cluster, write_to_buffer}
use rhosus.Cluster.Write.{next_entry, write_entry, submit, write_pipeline, write_to_peers}
use rhosus.Cluster.Write.Leader.{committed, committed-IsBehind, write_entry_ok}
use rhosus.Cluster.Entries.{EntryCodecs, Timing, write_encoded, write_create_policy_entry}
use rhosus.Cluster.Entries.Written.{IsWritten}
use rhosus.Registry.Types.{Registry, Node, FsBlock, PlacementInfo, RegistryErr, ok}
use rhosus.Registry.Files.{success}
use rhosus.Registry.Paths.{trim, trim_left, trim_right}
use rhosus.Registry.Access.{
  ApiPolicy, new_policy, new_token, handle_create_policy, handle_create_token,
}
use rhosus.Registry.Replay.{handle_entries_from_leader, apply_entry}
use rhosus.Registry.Replay.Mirror.{
  stop, step, creates_policy, creates_token, handle_entries_from_leader-mirrors,
}
use rhosus.Registry.Remove.{add_request, kill_children, handle_remove_file_or_path}
use rhosus.Registry.Remove.Children.{IsTree, kill_children-idle}
use rhosus.Registry.Remove.Diverges.{handle_remove_file_or_path-diverges}
use rhosus.Registry.Placing.{
  first_placements, with_index, stored_indices, fetch_blocks, get_file_handler,
}
use rhosus.Registry.Placing.Answered.{asked, answers_of, IsDistinct, get_file_handler-answers}
use rhosus.Registry.Nodes.{with_metrics, second, get_nodes_with_least_blocks}
use rhosus.Registry.Nodes.Least.{get_nodes_with_least_blocks-least}

abbrev pub a_node : String → ℕ → Node
a_node id used = record {
  info_id = id;
  blocks_used = some used;
  ping_retries = 0;
  unavailable = false;
}

abbrev pub a_registry : Registry memory_env memory
a_registry = record {
  storage = with_blocks;
  cluster = a_leader;
  nodes = ("n1", a_node "n1" 7) ∷ ("n2", a_node "n2" 3) ∷ ("n3", a_node "n3" 5) ∷ [];
}

abbrev pub now : Timing
now = record { ready = true; now = 9 }

abbrev a_request : ApiPolicy
a_request = record { name = "readers"; paths = [] }

-- A codec that decodes everything to one message.
abbrev to : {A : Type 0} → A → Codec A
to a = record { marshal = λ m. inr []; unmarshal = λ b. inr a }

abbrev pub codecs : EntryCodecs
codecs = record {
  assign_file = no_codec;
  delete_file = to (record { node_id = "a"; file = a_dir });
  assign_blocks = no_codec;
  delete_blocks = to (record { node_id = "a"; blocks = [] });
  create_policy = to (record { node_id = "a"; policy = new_policy "p" a_request });
  delete_policy = no_codec;
  create_token = to (record { node_id = "a"; token = new_token 9 "t" ("readers" ∷ []) });
  revoke_token = no_codec;
}

abbrev an_entry : Types.EntryType → Entry
an_entry type = record { index = 4; term = 2; type = type; payload = []; timestamp = 9 }

-- With nodes of 7, 3 and 5 used blocks.
get_nodes_with_least_blocks-least_example :
    (chosen rest : List (ℕ × Node)) × (get_nodes_with_least_blocks 2 a_registry.nodes
      ≡ some (second chosen))
    × (length chosen ≡ min 2 (length a_registry.nodes))
    × Perm (chosen ++ rest) ((7, a_node "n1" 7) ∷ (3, a_node "n2" 3) ∷ (5, a_node "n3" 5) ∷ [])
    × IsSortedBy (λ (p : ℕ × Node). p.0) (chosen ++ rest)
unfolding with_metrics
get_nodes_with_least_blocks-least_example =
    get_nodes_with_least_blocks-least 2 a_registry.nodes
      ((7, a_node "n1" 7) ∷ (3, a_node "n2" 3) ∷ (5, a_node "n3" 5) ∷ [])
      (refl, refl, (refl, refl, (refl, refl, tt)))

abbrev rank : String → ℕ
rank i = if same i "f" then 1 else 2

rank-IsTree : IsTree files_laws rank with_blocks
rank-IsTree c p c_there p_there parent =
    let id_of = λ (f : FileInfo). f.id in
    let parent_of = λ (f : FileInfo). f.parent_id in
    elim (find_row-In id_of c.id with_blocks.files c c_there) [
      | inl ce ↦ elim (find_row-In id_of p.id with_blocks.files p p_there) [
        | inl pe ↦ elim (differ "d" "f" refl (sym (ap parent_of ce) ∙ parent ∙ ap id_of pe)) [ ]
        | inr m ↦ elim m [
          | inl pe ↦ (ap (λ (f : FileInfo). f.type) pe, rw (ce, pe) (omega arith))
          | inr n ↦ elim n [ ]
        ]
      ]
      | inr k ↦ elim k [
        | inr n ↦ elim n [ ]
        | inl ce ↦ elim (find_row-In id_of p.id with_blocks.files p p_there) [
          | inl pe ↦
              elim (differ "root" "f" refl (sym (ap parent_of ce) ∙ parent ∙ ap id_of pe)) [ ]
          | inr m ↦ elim m [
            | inl pe ↦
                elim (differ "root" "d" refl (sym (ap parent_of ce) ∙ parent ∙ ap id_of pe)) [ ]
            | inr n ↦ elim n [ ]
          ]
        ]
      ]
    ]

kill_children-idle_example :
    kill_children 3 a_registry.nodes a_dir with_blocks ≡ (ok tt, with_blocks)
kill_children-idle_example =
    kill_children-idle files_laws rank 3 a_registry.nodes a_dir with_blocks (refl, (refl, tt))
      rank-IsTree refl (omega arith)

-- The cluster after the entry of the directory, and after the one of its blocks.
abbrev file_written : Cluster memory
file_written = committed (next_entry Types.delete_file [] 9 a_leader) a_leader

abbrev blocks_written : Cluster memory
blocks_written = committed (next_entry Types.delete_blocks [] 9 file_written) file_written

handle_remove_file_or_path-diverges_example :
    (handle_remove_file_or_path 3 codecs now now "/docs" a_registry
      ≡ (ok success, record a_registry { cluster = blocks_written }))
    × (files_laws.row "d" (apply_entry codecs (an_entry Types.delete_file) with_blocks).files
        ≡ none)
unfolding get_file_by_path get_blocks trim trim_left trim_right sort_by next_entry
handle_remove_file_or_path-diverges_example =
    handle_remove_file_or_path-diverges files_laws rank 3 codecs now now "/docs" a_dir [] a_registry
      (an_entry Types.delete_file) (an_entry Types.delete_blocks) file_written blocks_written
      (refl, (refl, tt)) rank-IsTree refl refl refl refl (omega arith) refl
      (record { encoded = refl; decodes = refl }) refl
      (write_entry_ok Types.delete_file [] 9 a_leader true refl refl refl (omega arith) (tt, tt))
      (write_entry_ok Types.delete_blocks [] 9 file_written true refl refl refl (omega arith)
        (committed-IsBehind Types.delete_file [] 9 a_leader))

abbrev entries : List Entry
entries = an_entry Types.create_policy ∷ an_entry Types.create_token ∷ []

abbrev with_policy : Registry memory_env memory
with_policy = (handle_create_policy codecs now "p" a_request a_registry).1

abbrev with_token : Registry memory_env memory
with_token = (handle_create_token codecs now "t" ("readers" ∷ []) with_policy).1

handle_entries_from_leader-mirrors_example :
    IsWritten a_leader entries with_token.cluster
    × (handle_entries_from_leader codecs entries with_blocks ≡ with_token.storage)
unfolding handle_create_policy store_policy store_token write_create_policy_entry write_encoded
    write_entry wrap_error put_entry submit write_pipeline write_to_peers write_to_buffer
    write_batch
handle_entries_from_leader-mirrors_example =
    handle_entries_from_leader-mirrors codecs a_registry with_token entries (
      step a_registry with_policy with_token (an_entry Types.create_policy)
        (an_entry Types.create_token ∷ [])
        (creates_policy now "p" a_request a_registry (an_entry Types.create_policy) refl refl
          (record { encoded = refl; decodes = refl }))
        (step with_policy with_token with_token (an_entry Types.create_token) []
          (creates_token now "t" ("readers" ∷ []) with_policy (an_entry Types.create_token) refl
            refl (record { encoded = refl; decodes = refl }))
          (stop with_token)))

abbrev pub placed_block : String → ℕ → String → BlockInfo
placed_block id index node = record (a_block id index "f") {
  placements = record { node_id = node; partition_id = "q" } ∷ [];
}

-- The file has two blocks, on two nodes.
abbrev a_placed : Registry memory_env memory
a_placed = record a_registry {
  storage = record with_blocks {
    blocks = placed_block "b1" 1 "n2" ∷ placed_block "b0" 0 "n1" ∷ [];
  };
}

abbrev fs_block : String → FsBlock
fs_block id = record { id = id; index = 0; len = 1; bytes = 7 ∷ [] }

abbrev pub answer : String → List PlacementInfo → RegistryErr ⊎ List FsBlock
answer node is = inr (map (λ (i : PlacementInfo). fs_block i.block_id) is)

abbrev two_blocks : List BlockInfo
two_blocks = placed_block "b0" 0 "n1" ∷ placed_block "b1" 1 "n2" ∷ []

get_file_handler-answers_example :
    (ns : List String) × (sent : List FsBlock) × (get_file_handler answer "docs/a" a_placed
      ≡ ok sent)
    × IsSortedBy (λ b. b.index) sent
    × IsDistinct ns
    × ((n : String) → In n ns ↔ (asked n two_blocks ≢ []))
    × Perm sent (answers_of answer a_placed.nodes two_blocks ns)
unfolding get_file_by_path get_blocks sort_by
get_file_handler-answers_example =
    get_file_handler-answers answer "docs/a" a_placed a_file two_blocks refl refl
      (λ e. ground (arith, e), (λ e. ground (arith, e), tt))
