-- ===== src/Data/Manager.antt =====
-- rhosus/node/data/data.go and partitions.go: the map of partitions and the manager over it. Locks
-- are not modelled, and the disk's usage is left to the profiler.
pub mod Contents
pub mod Placement
pub mod Restarted
use rhosus.Base.{
  ℕ, suc, ◌+◌, ◌%◌, ◌==◌, Bytes, bytes_key, Bool, true, false, not, ◌&&◌, ◌⊎◌, inl, inr, Option,
  none, some, List, [], ◌∷◌, ◌++◌, length, get_elem?, Dict, lookup, insert, if◌then◌else◌,
}
use rhosus.Data.Files.{IoErr, Files}
use rhosus.Data.IdxFile.{Err, io, shut_down, not_found, partition_blocks_count}
use rhosus.Data.Partition
use rhosus.Data.Partition.{Partition, BlockPlacementInfo, Block, is_available, get_used_blocks}

-- What the operating system and the generator of identifiers give to `createPartition`: an error, or
-- an identifier with the two files, preallocated.
abbrev pub Created : Files → Type 0
Created fs = IoErr ⊎ (Bytes × fs.File × fs.File)

pub record Manager (fs : Files) : Type 0 where
  pub parts : Dict Bytes (Partition fs)
  pub shutdown : Bool

-- The channels of the partitions' sinks.
abbrev pub Sinks : Type 0
Sinks = Dict Bytes (List Block)

-- What waits in a channel.
pub queue : Option (List Block) → List Block
queue none = []
queue (some q) = q

-- `s.blocks <- block`
pub send_to : Bytes → Block → Sinks → Sinks
unfolding queue
send_to part block sinks = insert part (queue (lookup part sinks) ++ block ∷ []) sinks

-- The loop of `WriteBlocks` from the block numbered `i` on: round and round over the partitions.
-- `taken i` says that the sink takes the block in time. `none` is the panic on no partitions.
pub place :
    (ℕ → Bool) → List Bytes → ℕ → List Block → Sinks → Option (List BlockPlacementInfo × Sinks)
unfolding send_to
place taken ids i [] sinks = some ([], sinks)
place taken ids i (block ∷ blocks) sinks = elim (get_elem? ids (i % length ids)) [
  | none ↦ none
  | some part ↦
      if taken i
      then elim (place taken ids (suc i) blocks (send_to part block sinks)) [
        | none ↦ none
        | some (placement, sinks') ↦
            some (record { block_id = block.id; partition_id = part } ∷ placement, sinks')
      ]
      else place taken ids (suc i) blocks sinks
]

module _ {fs : Files} where
  -- `GetNotFullPartitions`, as their identifiers.
  pub get_not_full_partitions : Dict Bytes (Partition fs) → List Bytes
  get_not_full_partitions [] = []
  get_not_full_partitions ((a, p) ∷ parts) =
      let rest = get_not_full_partitions parts in if is_available 1 p then p.id ∷ rest else rest

  -- `newPartition`
  unfoldable pub new_partition : Bytes → fs.File → fs.File → Partition fs
  new_partition a file idx = record {
    file = file;
    idx_file = idx;
    blocks_map = [];
    id = a;
    full = false;
    closed = false;
  }

  -- `createPartition`. An error of `newPartition` itself is not modelled.
  unfoldable pub create_partition :
      Created fs → Dict Bytes (Partition fs) → (Err ⊎ Bytes) × Dict Bytes (Partition fs)
  unfolding new_partition
  create_partition (inl e) parts = (inl (io e), parts)
  create_partition (inr (a, file, idx)) parts = (inr a, insert a (new_partition a file idx) parts)

  -- `getPartition`
  pub get_partition : Bytes → Dict Bytes (Partition fs) → Err ⊎ Partition fs
  get_partition a parts = elim (lookup a parts) [ none ↦ inl not_found | some p ↦ inr p ]

  -- The partitions that `WriteBlocks` may use: those that are not full, or else a new one.
  pub open_partitions :
      Created fs → Dict Bytes (Partition fs) → (Err ⊎ List Bytes) × Dict Bytes (Partition fs)
  unfolding get_not_full_partitions create_partition
  open_partitions created parts = elim (get_not_full_partitions parts) [
    | [] ↦ elim (create_partition created parts).0 [
      | inl e ↦ (inl e, parts)
      | inr a ↦ (inr (a ∷ []), (create_partition created parts).1)
    ]
    | a ∷ ids ↦ (inr (a ∷ ids), parts)
  ]

  -- `WriteBlocks`
  pub write_blocks :
      Created fs
      → (ℕ → Bool)
      → List Block
      → Sinks
      → Manager fs
      → Option ((Err ⊎ List BlockPlacementInfo) × Sinks × Manager fs)
  unfolding open_partitions place
  write_blocks created taken blocks sinks m =
      let (ids, parts) = open_partitions created m.parts in
      if m.shutdown then some (inl shut_down, sinks, m) else elim ids [
        | inl e ↦ some (inl e, sinks, m)
        | inr ids ↦ elim (place taken ids 0 blocks sinks) [
          | none ↦ none
          | some (placement, sinks') ↦ some (inr placement, sinks', record m { parts = parts })
        ]
      ]

  -- The loop of `RemoveBlocks`, which the first error ends.
  pub remove_from :
      List BlockPlacementInfo → Dict Bytes (Partition fs) → Option Err × Dict Bytes (Partition fs)
  unfolding get_partition
  remove_from [] parts = (none, parts)
  remove_from (block ∷ blocks) parts = elim (get_partition block.partition_id parts) [
    | inl e ↦ (some e, parts)
    | inr p ↦
        let (err, p') = Partition.remove_blocks (block ∷ []) p in
        let parts' = insert block.partition_id p' parts in
        elim err [ some e ↦ (some e, parts') | none ↦ remove_from blocks parts' ]
  ]

  -- `RemoveBlocks`
  pub remove_blocks : List BlockPlacementInfo → Manager fs → Option Err × Manager fs
  unfolding remove_from
  remove_blocks blocks m =
      let (err, parts) = remove_from blocks m.parts in
      if m.shutdown then (some shut_down, m) else (err, record m { parts = parts })

  -- `ReadBlock`. A nil block, which could not be read, is `none`.
  pub read_block : BlockPlacementInfo → Manager fs → Err ⊎ Option Block
  unfolding get_partition
  read_block block m =
      if m.shutdown then inl shut_down else elim (get_partition block.partition_id m.parts) [
        | inl e ↦ inl e
        | inr p ↦ elim (Partition.read_blocks (block ∷ []) p) [
          | inl e ↦ inl e
          | inr bs ↦ inr (lookup block.block_id bs)
        ]
      ]

  -- `getUsedBlocksCount`
  unfoldable pub get_used_blocks_count : Dict Bytes (Partition fs) → ℕ
  get_used_blocks_count [] = 0
  get_used_blocks_count ((a, p) ∷ parts) = get_used_blocks p + get_used_blocks_count parts

  -- `GetBlocksCount`
  pub get_blocks_count : Manager fs → ℕ
  unfolding get_used_blocks_count
  get_blocks_count m = if m.shutdown then 0 else get_used_blocks_count m.parts

  -- `GetPartitionsCount`
  pub get_partitions_count : Manager fs → ℕ
  get_partitions_count m = if m.shutdown then 0 else length m.parts

  -- `PartitionsMap.Shutdown`, which passes by an error.
  pub close_all : Dict Bytes (Partition fs) → Dict Bytes (Partition fs)
  close_all [] = []
  close_all ((a, p) ∷ parts) = (a, (Partition.close p).1) ∷ close_all parts

  -- `Manager.Shutdown`
  pub shut : Manager fs → Manager fs
  unfolding close_all
  shut m = if m.shutdown then m else record { parts = close_all m.parts; shutdown = true }
