-- ===== src/Registry/Tests/Uploads.antt =====
-- The theorems on uploads at contents of one byte and of one, two and three chunks.
use rhosus.Base.{
  ℕ, ◌+◌, ◌-◌, ◌≡◌, refl, inr, String, Bytes, true, none, some, List, [], ◌∷◌, ◌++◌, length, drop,
  replicate, length-append, length-replicate, arith, ◌⊎◌, map, ◌∙◌, ap₂,
}
use rhosus.Storage.Store.{get_file_by_path}
use rhosus.Storage.Tests.{memory_env, a_file}
use rhosus.Cluster.Tests.{memory, a_leader}
use rhosus.Cluster.Write.{write_entry, submit, write_to_peers}
use rhosus.Cluster.Entries.{write_assign_blocks_entry}
use rhosus.Registry.Types.{Registry, RegistryErr, ok, after_write, FsBlock, PlacementInfo}
use rhosus.Registry.Paths.{trim}
use rhosus.Registry.Nodes.{get_nodes_with_least_blocks}
use rhosus.Registry.Placing.{transport_and_register_blocks}
use rhosus.Registry.Uploads.{
  round, run, perform_all, start, data_to_transfer, upload_block_size, handle_put_file, conflict,
}
use rhosus.Registry.Uploads.Chunks.{in_order, upload_blocks, joined, perform_all-in_order}
use rhosus.Registry.Uploads.Races.{chunk_two, perform_all_unwaited, perform_all_reused}
use rhosus.Registry.Uploads.Stored.{handle_put_file_conflict}
use rhosus.Registry.Tests.{a_registry, a_node, codecs, now}

-- A content of sevens and then eights.
content : ℕ → ℕ → Bytes
content n k = replicate n 7 ++ replicate k 8

length-content : (n k : ℕ) → length (content n k) ≡ n + k
unfolding content
length-content n k =
    length-append (replicate n 7) (replicate k 8)
    ∙ ap₂ ◌+◌ (length-replicate n 7) (length-replicate k 8)

abbrev new_id : ℕ → String
new_id i = "b"

perform_all-in_order_example :
    ((perform_all new_id (in_order 2) (start (content 2097152 2097153))).ended ≡ true)
    × (data_to_transfer (perform_all new_id (in_order 2) (start (content 2097152 2097153)))
        ≡ upload_blocks new_id 2 0 (content 2097152 2097153))
    × (joined (data_to_transfer (perform_all new_id (in_order 2) (start (content 2097152 2097153))))
        ≡ content 2097152 2097153)
    × ((perform_all new_id (in_order 2) (start (content 2097152 2097153))).total
        ≡ length (content 2097152 2097153))
perform_all-in_order_example =
    perform_all-in_order new_id 2 (content 2097152 2097153)
      (omega (arith, length-content 2097152 2097153))
      (omega (arith, length-content 2097152 2097153))

perform_all_unwaited_example :
    ((perform_all new_id (round none ∷ round none ∷ []) (start (content 2097152 1))).ended ≡ true)
    × (joined (
          data_to_transfer
            (perform_all new_id (round none ∷ round none ∷ []) (start (content 2097152 1))))
        ≡ drop upload_block_size (content 2097152 1))
    × ((perform_all new_id (round none ∷ round none ∷ []) (start (content 2097152 1))).total
        ≡ length (content 2097152 1) - upload_block_size)
perform_all_unwaited_example =
    perform_all_unwaited new_id (content 2097152 1) (omega (arith, length-content 2097152 1))
      (omega (arith, length-content 2097152 1))

perform_all_reused_example :
    ((perform_all new_id
        (round none ∷ run 0 ∷ round (some 0) ∷ run 0 ∷ round none ∷ [])
        (start (content 2097152 2097153))).ended
      ≡ true)
    × (joined (
          data_to_transfer (
            perform_all new_id
              (round none ∷ run 0 ∷ round (some 0) ∷ run 0 ∷ round none ∷ [])
              (start (content 2097152 2097153))))
        ≡ chunk_two (content 2097152 2097153)
          ++ (chunk_two (content 2097152 2097153)
              ++ drop upload_block_size (drop upload_block_size (content 2097152 2097153))))
perform_all_reused_example =
    perform_all_reused new_id (content 2097152 2097153)
      (omega (arith, length-content 2097152 2097153))
      (omega (arith, length-content 2097152 2097153))

-- A registry with one node, which takes every block, and no peers.
abbrev alone : Registry memory_env memory
alone = record a_registry {
  cluster = record a_leader { peers = [] };
  nodes = ("n1", a_node "n1" 7) ∷ [];
}

abbrev place : String → List FsBlock → RegistryErr ⊎ List PlacementInfo
place node bs = inr (map (λ (b : FsBlock). record { block_id = b.id; partition_id = "q" }) bs)

abbrev after_transport : List FsBlock → Registry memory_env memory
after_transport bs = (transport_and_register_blocks place codecs now "u" bs 2 alone).1

transported :
    (bs : List FsBlock)
    → transport_and_register_blocks place codecs now "u" bs 2 alone ≡ (ok tt, after_transport bs)
unfolding transport_and_register_blocks get_nodes_with_least_blocks write_assign_blocks_entry
    write_entry submit write_to_peers after_write
transported bs = refl

-- The blocks of an upload of one byte.
abbrev small_upload : List FsBlock
small_upload = data_to_transfer (perform_all new_id (round none ∷ []) (start (7 ∷ [])))

handle_put_file_conflict_example :
    handle_put_file place codecs now now new_id (round none ∷ []) [] "u" "/docs/a" (7 ∷ []) alone
    ≡ (ok conflict, after_transport small_upload)
unfolding get_file_by_path trim perform_all start
handle_put_file_conflict_example =
    handle_put_file_conflict place codecs now now new_id (round none ∷ []) [] "u" "/docs/a" (7 ∷ [])
      a_file alone (after_transport small_upload) refl (transported small_upload) refl
