-- ===== src/Registry/Placing.antt =====
-- rhosus/registry/files.go and util.go: the blocks of a file are sent to the data nodes and fetched
-- from them. The answers of the nodes are arguments, and so is the order in which they come.
pub mod Fetch
pub mod Answered
use rhosus.Base.{
  ℕ, zero, suc, ◌<◌, String, string_key, Bool, true, false, Option, none, some, List, [], ◌∷◌, ◌++◌,
  map, Dict, lookup, insert, ◌⊎◌, inl, inr, length, ltb, sort_by, if◌then◌else◌,
}
use rhosus.Storage.Types.{FileInfo, BlockInfo, Placement, Err}
use rhosus.Storage.Store.{Env, Storage, get_file_by_path, put_blocks}
use rhosus.Storage.Store
use rhosus.Cluster.Types
use rhosus.Cluster.Entries.{EntryCodecs, Timing, write_assign_blocks_entry}
use rhosus.Registry.Types.{
  Registry, Node, PlacementInfo, FsBlock, RegistryErr, Result, ok, failed, waiting, panicked,
  storage_err, no_such_file_or_directory, after_write,
}
use rhosus.Registry.Nodes.{Nodes, get_nodes_with_least_blocks, assign_blocks, get_blocks}
use rhosus.Registry.Remove.{ByNode, add_request}

-- `blockSeq` and `bMap`: an index by block.
pub index_map : List (String × ℕ) → Dict String ℕ → Dict String ℕ
index_map [] m = m
index_map ((a, i) ∷ is) m = index_map is (insert a i m)

-- A missing key reads as zero.
pub index_of : Dict String ℕ → String → ℕ
index_of m a = elim (lookup a m) [ none ↦ 0 | some i ↦ i ]

-- Which nodes get the blocks: all of them, or the first one alone when there are too few. none is the
-- panic when there is no node at all.
pub choose_nodes : ℕ → List Node → Option (List Node)
choose_nodes factor [] = if ltb 0 factor then none else some []
choose_nodes factor (n ∷ ns) = if ltb (length (n ∷ ns)) factor then some (n ∷ []) else some (n ∷ ns)

abbrev pub known_placements : Option (List Placement) → List Placement
known_placements none = []
known_placements (some ps) = ps

-- The placements that one node answered, added to `assignResult`.
pub add_placements :
    String → List PlacementInfo → Dict String (List Placement) → Dict String (List Placement)
add_placements node [] m = m
add_placements node (i ∷ is) m =
    let p : Placement = record { node_id = node; partition_id = i.partition_id } in
    add_placements node is (insert i.block_id (known_placements (lookup i.block_id m) ++ p ∷ []) m)

-- The nodes' answers, collected; a node that fails adds nothing.
pub assign_to :
    (String → List FsBlock → RegistryErr ⊎ List PlacementInfo)
    → Nodes
    → List FsBlock
    → List Node
    → Dict String (List Placement)
    → Dict String (List Placement)
unfolding add_placements
assign_to call nodes bs [] m = m
assign_to call nodes bs (n ∷ ns) m = elim (assign_blocks call n.info_id bs nodes) [
  | inl e ↦ assign_to call nodes bs ns m
  | inr is ↦ assign_to call nodes bs ns (add_placements n.info_id is m)
]

-- `bInfos`
pub block_infos : String → Dict String ℕ → Dict String (List Placement) → List BlockInfo
unfolding index_of
block_infos file_id seq [] = []
block_infos file_id seq ((a, ps) ∷ m) =
    record { id = a; index = index_of seq a; file_id = file_id; placements = ps }
    ∷ block_infos file_id seq m

-- `TransportAndRegisterBlocks`. An error of the storage is only logged.
unfoldable pub transport_and_register_blocks :
    {senv : Env} {cenv : Types.Env}
    → (String → List FsBlock → RegistryErr ⊎ List PlacementInfo)
    → EntryCodecs
    → Timing
    → String
    → List FsBlock
    → ℕ
    → Registry senv cenv
    → Result Unit × Registry senv cenv
unfolding index_map choose_nodes assign_to block_infos
transport_and_register_blocks call codecs at_time file_id bs factor r =
    elim (get_nodes_with_least_blocks factor r.nodes) [
      | none ↦ (panicked, r)
      | some ns ↦ elim (choose_nodes factor ns) [
        | none ↦ (panicked, r)
        | some chosen ↦
            let infos =
              block_infos file_id (index_map (map (λ (b : FsBlock). (b.id, b.index)) bs) [])
                (assign_to call r.nodes bs chosen []) in
            let (err, s) = put_blocks infos r.storage in
            let (outcome, c) = write_assign_blocks_entry codecs at_time infos r.cluster in
            (after_write tt outcome, record r { storage = s; cluster = c })
      ]
    ]

-- The indices that the storage has for the blocks of a file.
unfoldable pub stored_indices : List BlockInfo → Dict String ℕ
unfolding index_map
stored_indices blocks = index_map (map (λ (b : BlockInfo). (b.id, b.index)) blocks) []

-- A block with the index that the storage has for it.
unfoldable pub with_index : Dict String ℕ → FsBlock → FsBlock
unfolding index_of
with_index m b = record b { index = index_of m b.id }

-- `fillAndSortBlocks`
pub fill_and_sort_blocks : List BlockInfo → List FsBlock → List FsBlock
unfolding index_of stored_indices with_index
fill_and_sort_blocks blocks d_blocks =
    let m = stored_indices blocks in sort_by (λ b. index_of m b.id) (map (with_index m) d_blocks)

-- The requests by node: each block from its first placement, and none is the panic on a block without.
unfoldable pub first_placements : List BlockInfo → ByNode → Option ByNode
first_placements [] m = some m
first_placements (b ∷ bs) m = elim b.placements [
  | [] ↦ none
  | p ∷ _ ↦
      first_placements bs
        (add_request p.node_id (record { block_id = b.id; partition_id = p.partition_id }) m)
]

-- The blocks that the nodes answer, one node after the other (the code appends without a lock); a node
-- that fails adds nothing.
unfoldable pub fetch_blocks :
    (String → List PlacementInfo → RegistryErr ⊎ List FsBlock) → Nodes → ByNode → List FsBlock
fetch_blocks call nodes [] = []
fetch_blocks call nodes ((id, is) ∷ m) = elim (get_blocks call id is nodes) [
  | inl e ↦ fetch_blocks call nodes m
  | inr bs ↦ bs ++ fetch_blocks call nodes m
]

-- `GetFileHandler`: what it hands to `transport`, in order.
pub get_file_handler :
    {senv : Env} {cenv : Types.Env}
    → (String → List PlacementInfo → RegistryErr ⊎ List FsBlock)
    → String
    → Registry senv cenv
    → Result (List FsBlock)
unfolding first_placements fetch_blocks fill_and_sort_blocks
get_file_handler call path r = elim (get_file_by_path path r.storage) [
  | inl e ↦ failed (storage_err e)
  | inr found ↦ elim found [
    | none ↦ failed no_such_file_or_directory
    | some f ↦ elim (Store.get_blocks f.id r.storage) [
      | inl e ↦ failed (storage_err e)
      | inr bs ↦ elim (first_placements bs []) [
        | none ↦ panicked
        | some m ↦ ok (fill_and_sort_blocks bs (fetch_blocks call r.nodes m))
      ]
    ]
  ]
]
