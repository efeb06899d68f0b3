-- ===== src/Data/Partition.antt =====
-- rhosus/node/data/partition.go: a partition, one file of 512 slots for blocks with its file of
-- headers. Locks are not modelled: an operation is one step.
pub mod Slots
pub mod Slotted
pub mod Stored
pub mod Written
pub mod Reads
pub mod Unknown
pub mod Mirrored
pub mod Loading
pub mod Rewritten
use rhosus.Base.{
  ℕ, zero, suc, ◌+◌, ◌-◌, ◌*◌, ◌/◌, ◌<◌, Bytes, bytes_key, nat_key, Bool, true, false, not, ◌&&◌,
  ◌||◌, ◌⊎◌, inl, inr, Option, none, some, List, [], ◌∷◌, length, Dict, lookup, insert, delete,
  ◌==◌, leb, ltb, if◌then◌else◌,
}
use rhosus.Data.Files.{IoErr, Files}
use rhosus.Data.IdxFile
use rhosus.Data.IdxFile.{
  IdxBlock, Err, io, corrupt_write, partition_closed, default_block_size, partition_blocks_count,
  idx_block_size, idx_file_size, no_block,
}

-- transport_pb.BlockPlacementInfo
pub record BlockPlacementInfo : Type 0 where
  pub block_id : Bytes
  pub partition_id : Bytes

-- What a read fills of fs_pb.Block; the other fields are zero.
pub record Block : Type 0 where
  pub id : Bytes
  pub len : ℕ
  pub bytes : Bytes

pub record Partition (fs : Files) : Type 0 where
  pub file : fs.File
  pub idx_file : fs.File
  pub blocks_map : Dict Bytes IdxBlock
  pub id : Bytes
  pub full : Bool
  pub closed : Bool

-- `isBlockAllocated`
pub is_block_allocated : ℕ → Dict Bytes IdxBlock → Bool
is_block_allocated n [] = false
is_block_allocated n ((a, el) ∷ m) = el.offset / idx_block_size == n || is_block_allocated n m

-- The scan of `WriteBlocks` over the `k` slots from `n` on; a full partition leaves it at 0.
pub scan_slots : ℕ → ℕ → Dict Bytes IdxBlock → ℕ
scan_slots zero n m = 0
scan_slots (suc k) n m =
    let rest = scan_slots k (suc n) m in if not (is_block_allocated n m) then n else rest

pub free_slot : Dict Bytes IdxBlock → ℕ
unfolding scan_slots
free_slot m = scan_slots partition_blocks_count 0 m

-- `p.blocksMap[id]`
pub header_of : Bytes → Dict Bytes IdxBlock → IdxBlock
header_of a m = elim (lookup a m) [ none ↦ no_block | some b ↦ b ]

-- The loop of `RemoveBlocks`: the slots to erase, and the map without the blocks.
pub forget_blocks : List BlockPlacementInfo → Dict Bytes IdxBlock → List ℕ × Dict Bytes IdxBlock
unfolding header_of
forget_blocks [] m = ([], m)
forget_blocks (block ∷ blocks) m =
    let (slots, m') = forget_blocks blocks (delete block.block_id m) in
    ((header_of block.block_id m).offset / idx_block_size ∷ slots, m')

-- The headers of `new`, over those that are there.
pub insert_all : Dict Bytes IdxBlock → Dict Bytes IdxBlock → Dict Bytes IdxBlock
insert_all [] m = m
insert_all ((a, b) ∷ new) m = insert_all new (insert b.id b m)

module _ {fs : Files} where
  -- `getAvailableBlocks`. The map never holds more than the partition's blocks.
  unfoldable pub get_available_blocks : Partition fs → ℕ
  get_available_blocks p = partition_blocks_count - length p.blocks_map

  -- `IsAvailable`, with `isAvailable`
  pub is_available : ℕ → Partition fs → Bool
  unfolding get_available_blocks
  is_available blocks p = not p.closed && (not p.full && leb blocks (get_available_blocks p))

  -- `GetUsedBlocks`
  unfoldable pub get_used_blocks : Partition fs → ℕ
  get_used_blocks p = if p.closed then 0 else length p.blocks_map

  -- `writeBlockContents`
  pub write_block_contents : ℕ → Bytes → Partition fs → ℕ × Option IoErr × Partition fs
  write_block_contents block bytes p =
      let (n, err, f) = fs.write_at bytes (block * default_block_size) p.file in
      let (sync_err, f') = fs.sync f in
      elim err [
        | some e ↦ (0, some e, record p { file = f })
        | none ↦ (n, sync_err, record p { file = f' })
      ]

  -- The header of a block in the partition's map, which may now be full.
  pub add_header : ℕ → Bytes → Bytes → Partition fs → IdxBlock × Partition fs
  add_header slot a bytes p =
      let b : IdxBlock = record { id = a; size = length bytes; offset = slot * idx_block_size } in
      let m = insert a b p.blocks_map in
      (
        b,
        record p {
          blocks_map = m;
          full = if leb partition_blocks_count (length m) then true else p.full;
        },
      )

  -- The loop of `WriteBlocks` over the blocks: the errors by block, and the headers by slot.
  pub write_contents :
      Dict Bytes Bytes
      → Dict Bytes Err
      → Dict ℕ IdxBlock
      → Partition fs
      → Dict Bytes Err × Dict ℕ IdxBlock × Partition fs
  unfolding add_header write_block_contents
  write_contents [] errs idxs p = (errs, idxs, p)
  write_contents ((a, bytes) ∷ blocks) errs idxs p =
      let slot = free_slot p.blocks_map in
      let (n, err, p') = write_block_contents slot bytes p in
      let (b, p'') = add_header slot a bytes p' in
      let failed : Err → Dict Bytes Err × Dict ℕ IdxBlock × Partition fs =
        λ e. write_contents blocks (insert a e errs) idxs p' in
      let written = write_contents blocks errs (insert slot b idxs) p'' in
      elim err [
        | some e ↦ failed (io e)
        | none ↦ if length bytes == n then written else failed corrupt_write
      ]

  -- `WriteBlocks`
  pub write_blocks : Dict Bytes Bytes → Partition fs → Option Err × Dict Bytes Err × Partition fs
  unfolding write_contents
  write_blocks blocks p =
      let (errs, idxs, p') = write_contents blocks [] [] p in
      let (err, idx) = IdxFile.write fs idxs p'.idx_file in
      if p.closed then (some partition_closed, [], p) else (err, errs, record p' { idx_file = idx })

  -- `RemoveBlocks`
  pub remove_blocks : List BlockPlacementInfo → Partition fs → Option Err × Partition fs
  unfolding forget_blocks
  remove_blocks blocks p =
      let (slots, m) = forget_blocks blocks p.blocks_map in
      let still_full = if ltb (length m) partition_blocks_count then false else p.full in
      if p.closed then (some partition_closed, p) else (
        none,
        record p {
          blocks_map = m;
          full = still_full;
          idx_file = IdxFile.erase fs slots p.idx_file;
        },
      )

  -- `readBlockContents`
  pub read_block_contents : ℕ → ℕ → Partition fs → IoErr ⊎ Bytes
  read_block_contents slot size p =
      let (bytes, err) = fs.read_at size (slot * default_block_size) p.file in
      elim err [ some e ↦ inl e | none ↦ inr bytes ]

  -- The loop of `ReadBlocks`, which passes by a block that cannot be read.
  pub collect_blocks : List BlockPlacementInfo → Partition fs → Dict Bytes Block → Dict Bytes Block
  unfolding header_of read_block_contents
  collect_blocks [] p result = result
  collect_blocks (block ∷ blocks) p result =
      let a = block.block_id in
      let header = header_of a p.blocks_map in
      elim (read_block_contents (header.offset / idx_block_size) header.size p) [
        | inl e ↦ collect_blocks blocks p result
        | inr bytes ↦
            collect_blocks blocks p
              (insert a (record { id = a; len = header.size; bytes = bytes }) result)
      ]

  -- `ReadBlocks`
  pub read_blocks : List BlockPlacementInfo → Partition fs → Err ⊎ Dict Bytes Block
  unfolding collect_blocks
  read_blocks blocks p = if p.closed then inl partition_closed else inr (collect_blocks blocks p [])

  -- `loadHeader`: the data file is read, for its length only. `none` is a panic, or no fuel.
  pub load_header : ℕ → Partition fs → Option (Option Err × Partition fs)
  unfolding insert_all
  load_header fuel p =
      let (n, err, f) = fs.read idx_file_size p.file in
      let p' = record p { file = f } in
      elim err [
        | some e ↦ some (some (io e), p')
        | none ↦
            if n == idx_file_size
            then elim (IdxFile.load fs fuel p.idx_file) [
              | none ↦ none
              | some m ↦ some (none, record p' { blocks_map = insert_all m p.blocks_map })
            ]
            else some (some corrupt_write, p')
      ]

  -- `Close`
  pub close : Partition fs → Option Err × Partition fs
  close p = if p.closed then (some partition_closed, p) else (
    elim (fs.close p.file) [ none ↦ none | some e ↦ some (io e) ],
    record p { closed = true },
  )
