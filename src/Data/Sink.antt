-- ===== src/Data/Sink.antt =====
-- rhosus/node/data/partition.go: the sink of a partition, which writes the blocks that wait in its
-- channel at each tick of its timer.
pub mod Flush
use rhosus.Base.{
  ℕ, zero, suc, Bytes, bytes_key, Bool, not, ◌&&◌, none, some, List, [], ◌∷◌, length, Dict, insert,
  leb, if◌then◌else◌,
}
use rhosus.Data.Files.{Files}
use rhosus.Data.IdxFile.{Err}
use rhosus.Data.Partition.{Partition, Block, get_available_blocks, write_blocks}

-- The channel emptied into a map: of two blocks with one identifier the later stays.
pub drain : List Block → Dict Bytes Bytes → Dict Bytes Bytes
drain [] blocks = blocks
drain (b ∷ q) blocks = drain q (insert b.id b.bytes blocks)

-- The first `count` blocks of the map, and those that are left in it.
pub take_blocks : ℕ → Dict Bytes Bytes → Dict Bytes Bytes × Dict Bytes Bytes
take_blocks zero blocks = ([], blocks)
take_blocks (suc k) [] = ([], [])
take_blocks (suc k) ((a, v) ∷ blocks) =
    let (smaller, left) = take_blocks k blocks in ((a, v) ∷ smaller, left)

module _ {fs : Files} where
  -- `isAvailable`
  pub has_room : ℕ → Partition fs → Bool
  unfolding get_available_blocks
  has_room blocks p = not p.full && leb blocks (get_available_blocks p)

  -- `Sync`
  pub sync : Partition fs → Partition fs
  sync p = record p { file = (fs.sync p.file).1 }

  -- The write of a batch, and the sync after one without an error.
  pub write_and_sync : Dict Bytes Bytes → Partition fs → Partition fs
  unfolding sync
  write_and_sync blocks p =
      let (err, errs, p') = write_blocks blocks p in elim err [ some e ↦ p' | none ↦ sync p' ]

  -- The writes of a tick, with `blocks` from the channel: the blocks that are abandoned, and the
  -- partition.
  pub flush_blocks : Dict Bytes Bytes → Partition fs → Dict Bytes Bytes × Partition fs
  unfolding take_blocks has_room write_and_sync
  flush_blocks [] p = ([], p)
  flush_blocks (b ∷ bs) p =
      let (smaller, left) = take_blocks (get_available_blocks p) (b ∷ bs) in
      if has_room (length (b ∷ bs)) p
      then ([], write_and_sync (b ∷ bs) p)
      else (left, write_and_sync smaller p)

  -- A tick of `run`
  pub flush : List Block → Partition fs → Dict Bytes Bytes × Partition fs
  unfolding drain flush_blocks
  flush q p = flush_blocks (drain q []) p
