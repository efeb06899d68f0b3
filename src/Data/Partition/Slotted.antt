-- ===== src/Data/Partition/Slotted.antt =====
-- The headers of a partition: each block at a slot of its own.
use rhosus.Base.{
  ℕ, ◌*◌, ◌/◌, ◌≤◌, ◌<◌, ◌≡◌, Bytes, bytes_key, bytes_eq_iff, some, length, Dict, lookup, insert,
  lookup-insert, delete, lookup-delete, arith,
}
use rhosus.Data.IdxFile.{IdxBlock, partition_blocks_count, default_block_size}
use rhosus.Data.Partition.{free_slot}
use rhosus.Data.Partition.Slots.{free_slot_lem, is_block_allocated-lookup}

-- Slots are below 512, no block is larger than its slot, and no two blocks share one.
pub record IsSlotted (m : Dict Bytes IdxBlock) : Type 0 where
  pub slot_lt :
      (a : Bytes) (b : IdxBlock) → lookup a m ≡ some b → b.offset / 44 < partition_blocks_count
  pub size_le : (a : Bytes) (b : IdxBlock) → lookup a m ≡ some b → b.size ≤ default_block_size
  pub apart :
      (a c : Bytes) (x y : IdxBlock)
      → lookup a m ≡ some x
      → lookup c m ≡ some y
      → x.offset / 44 ≡ y.offset / 44
      → a ≡ c

abbrev pub at_slot : ℕ → Bytes → ℕ → IdxBlock
at_slot slot a size = record { id = a; size = size; offset = slot * 44 }

pub insert-IsSlotted :
    (a : Bytes) (size : ℕ) (m : Dict Bytes IdxBlock)
    → IsSlotted m
    → length m < partition_blocks_count
    → size ≤ default_block_size
    → IsSlotted (insert a (at_slot (free_slot m) a size) m)
insert-IsSlotted a size m ok room small = record {
  slot_lt = λ c b e. ground (
    arith,
    free_slot_lem m room,
    lookup-insert a c (at_slot (free_slot m) a size) m,
    ok.slot_lt c b,
  );
  size_le =
      λ c b e. ground (arith, lookup-insert a c (at_slot (free_slot m) a size) m, ok.size_le c b);
  apart = λ c d x y e f h. ground (
    arith,
    free_slot_lem m room,
    lookup-insert a c (at_slot (free_slot m) a size) m,
    lookup-insert a d (at_slot (free_slot m) a size) m,
    bytes_eq_iff a c,
    bytes_eq_iff a d,
    is_block_allocated-lookup (free_slot m) c x m,
    is_block_allocated-lookup (free_slot m) d y m,
    ok.apart c d x y,
  );
}

pub delete-IsSlotted : (a : Bytes) (m : Dict Bytes IdxBlock) → IsSlotted m → IsSlotted (delete a m)
delete-IsSlotted a m ok = record {
  slot_lt = λ c b e. ground (arith, lookup-delete a c m, ok.slot_lt c b);
  size_le = λ c b e. ground (arith, lookup-delete a c m, ok.size_le c b);
  apart =
      λ c d x y e f h. ground (arith, lookup-delete a c m, lookup-delete a d m, ok.apart c d x y);
}
