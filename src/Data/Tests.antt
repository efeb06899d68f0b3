-- ===== src/Data/Tests.antt =====
-- A disk in memory, and a partition on it that the tests of the node's store share.
pub mod Blocks
pub mod Headers
pub mod Managers
pub mod Restarts
pub mod Directories
pub mod Services
use rhosus.Base.{
  ℕ, ◌+◌, ◌-◌, ◌*◌, ◌≡◌, refl, Bytes, bytes_key, bytes_eq_iff, ◌/◌, ◌<◌, ◌≤◌, Bool, false, ◌&&◌,
  none, some, [], ◌∷◌, length, lookup, leb, ltb, if◌then◌else◌, arith, replicate,
}
use rhosus.Data.Files.{Files, IsDisk, eof, other, slice, byte_or_zero}
use rhosus.Data.IdxFile.{IdxBlock, partition_blocks_count, default_block_size}
use rhosus.Data.Partition.{Partition}
use rhosus.Data.Partition.Slotted.{IsSlotted}
use rhosus.Data.Partition.Stored.{IsSound}

pub record Memory : Type 0 where
  pub size : ℕ
  pub byte : ℕ → ℕ

abbrev pub memory : Files
memory = record {
  File = Memory;
  write_at = λ b off f.
      if leb (off + length b) f.size
      then (
        length b,
        none,
        record f {
          byte = λ p.
              if leb off p && ltb p (off + length b) then byte_or_zero b (p - off) else f.byte p;
        },
      )
      else (0, some (other 28), f);
  read_at = λ n off f. if leb (off + n) f.size then (slice f.byte off n, none) else ([], some eof);
  read = λ n f. (n, none, f);
  sync = λ f. (none, f);
  close = λ f. none;
}

abbrev pub memory-IsDisk : IsDisk memory
memory-IsDisk = record {
  size = λ f. f.size;
  byte = λ f. f.byte;
  write_ok = λ b off f fits. ground arith;
  size-write = λ b off f fits. ground arith;
  byte-write = λ b off p f fits. ground arith;
  read_ok = λ n off f fits. ground arith;
  read_eof = λ n off f out. ground arith;
  sync_ok = λ f. refl;
}

abbrev pub id_a : Bytes
id_a = replicate 36 97

abbrev pub id_b : Bytes
id_b = replicate 36 98

-- One block, at slot 3.
abbrev pub part : Partition memory
part = record {
  file = record { size = 1073741824; byte = λ p. p };
  idx_file = record { size = 22528; byte = λ p. 0 };
  blocks_map = (id_a, record { id = id_a; size = 4; offset = 132 }) ∷ [];
  id = [];
  full = false;
  closed = false;
}

singleton-IsSlotted :
    (a : Bytes) (b : IdxBlock)
    → b.offset / 44 < partition_blocks_count
    → b.size ≤ default_block_size
    → IsSlotted ((a, b) ∷ [])
unfolding lookup
singleton-IsSlotted a b lt le = record {
  slot_lt = λ c x e. ground arith;
  size_le = λ c x e. ground arith;
  apart = λ c d x y e f h. ground (arith, bytes_eq_iff a c, bytes_eq_iff a d);
}

pub part-IsSound : IsSound memory-IsDisk part
part-IsSound = record {
  slotted = singleton-IsSlotted id_a _ (omega arith) (omega arith);
  preallocated = omega arith;
}
