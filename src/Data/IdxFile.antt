-- ===== src/Data/IdxFile.antt =====
-- rhosus/node/data/idx_file.go and util.go: the headers of a partition's blocks on disk, 44 bytes
-- for each of the 512 slots, with the identifier of the block and its size.
pub mod Codec
pub mod Written
pub mod Restart
pub mod Erased
pub mod Mirror
pub mod Headers
pub mod Loaded
use rhosus.Base.{
  ℕ, zero, suc, ◌+◌, ◌*◌, ◌/◌, ◌%◌, ◌^◌, Bytes, bytes_key, Bool, true, false, ◌&&◌, Option, none,
  some, List, [], ◌∷◌, ◌++◌, length, take, drop, Dict, insert, ◌==◌, if◌then◌else◌,
}
use rhosus.Data.Files.{IoErr, eof, other, Files}

-- Sizes are 2 << 20 and 1 << 30 bytes.
abbrev pub default_block_size : ℕ
default_block_size = 2 * 2 ^ 20

abbrev pub default_partition_size : ℕ
default_partition_size = 2 ^ 30

abbrev pub partition_blocks_count : ℕ
partition_blocks_count = default_partition_size / default_block_size

abbrev pub idx_block_size : ℕ
idx_block_size = 44

abbrev pub idx_file_size : ℕ
idx_file_size = partition_blocks_count * idx_block_size

-- An identifier is the text of a UUID, as bytes. Size and offset are uint64.
pub record IdxBlock : Type 0 where
  pub id : Bytes
  pub size : ℕ
  pub offset : ℕ

pub data Err : Type 0 where
  corrupt_write partition_closed corrupt_idx_write shut_down not_found : Err
  io : IoErr → Err

-- binary.BigEndian for a uint64.
unfoldable pub put_uint64 : ℕ → Bytes
put_uint64 x =
    x / 2 ^ 56 % 256
    ∷ x / 2 ^ 48 % 256
    ∷ x / 2 ^ 40 % 256
    ∷ x / 2 ^ 32 % 256
    ∷ x / 2 ^ 24 % 256
    ∷ x / 2 ^ 16 % 256
    ∷ x / 2 ^ 8 % 256
    ∷ x % 256
    ∷ []

-- It reads the first eight bytes, and panics on fewer.
pub get_uint64 : Bytes → Option ℕ
get_uint64 (a ∷ b ∷ c ∷ d ∷ e ∷ f ∷ g ∷ h ∷ rest) =
    some
      (a * 2 ^ 56 + b * 2 ^ 48 + c * 2 ^ 40 + d * 2 ^ 32 + e * 2 ^ 24 + f * 2 ^ 16 + g * 2 ^ 8 + h)
get_uint64 _ = none

-- `Marshal`; the buffer that it writes to takes every write.
unfoldable pub marshal : IdxBlock → Bytes
marshal b = b.id ++ put_uint64 b.size

-- `Unmarshal`, on at least 36 bytes; `none` is the panic on fewer than 44. The offset is not set.
pub unmarshal : Bytes → IdxBlock → Option IdxBlock
unmarshal bytes b = elim (get_uint64 (drop 36 bytes)) [
  | none ↦ none
  | some n ↦ some (record b { id = take 36 bytes; size = n })
]

-- `isBytesAllZeros`
unfoldable pub is_bytes_all_zeros : Bytes → Bool
is_bytes_all_zeros [] = true
is_bytes_all_zeros (v ∷ vs) = v == 0 && is_bytes_all_zeros vs

abbrev pub no_block : IdxBlock
no_block = record { id = []; size = 0; offset = 0 }

-- What `Load` does with the bytes of one slot; `none` is a panic.
add_slot : Bytes → ℕ → Dict Bytes IdxBlock → Option (Dict Bytes IdxBlock)
add_slot bytes offset blocks =
    if is_bytes_all_zeros bytes then some blocks else elim (unmarshal bytes no_block) [
      | none ↦ none
      | some b ↦ some (insert b.id (record b { offset = offset }) blocks)
    ]

module _ (fs : Files) where
  -- The loop of `Load`, with fuel for its rounds: it ends at the end of the file, and passes by a
  -- slot that cannot be read. `none` is a panic, or no fuel.
  load_from : ℕ → ℕ → fs.File → Dict Bytes IdxBlock → Option (Dict Bytes IdxBlock)
  load_from zero offset f blocks = none
  load_from (suc k) offset f blocks =
      let (bytes, err) = fs.read_at idx_block_size offset f in
      let skip = load_from k (offset + idx_block_size) f blocks in
      elim err [
        | some e ↦ elim e [ eof ↦ some blocks | other _ ↦ skip ]
        | none ↦ elim (add_slot bytes offset blocks) [
          | none ↦ none
          | some blocks' ↦ load_from k (offset + idx_block_size) f blocks'
        ]
      ]

  -- `Load`
  pub load : ℕ → fs.File → Option (Dict Bytes IdxBlock)
  unfolding load_from
  load fuel f = load_from fuel 0 f []

  pub sync_result : fs.File → Option Err × fs.File
  sync_result f =
      let (err, f') = fs.sync f in elim err [ none ↦ (none, f') | some e ↦ (some (io e), f') ]

  -- `Write`: each header at its slot, then a sync.
  pub write : List (ℕ × IdxBlock) → fs.File → Option Err × fs.File
  unfolding sync_result
  write [] f = sync_result f
  write ((n, b) ∷ bs) f =
      let bytes = marshal b in
      let (count, err, f') = fs.write_at bytes (n * idx_block_size) f in
      let rest = write bs f' in
      elim err [
        | some e ↦ (some (io e), f')
        | none ↦ if count == length bytes then rest else (some corrupt_idx_write, f')
      ]

  -- One zero byte at each of `k` positions; the flag says that a write failed.
  pub erase_bytes : ℕ → ℕ → fs.File → Bool × fs.File
  erase_bytes zero pos f = (false, f)
  erase_bytes (suc k) pos f =
      let (count, err, f') = fs.write_at (0 ∷ []) pos f in
      let rest = erase_bytes k (suc pos) f' in elim err [ some e ↦ (true, f') | none ↦ rest ]

  -- `Erase`. A failed write ends it, after a sync whose error nobody sees.
  pub erase : List ℕ → fs.File → fs.File
  unfolding erase_bytes
  erase [] f = (fs.sync f).1
  erase (n ∷ ns) f =
      let (failed, f') = erase_bytes idx_block_size (n * idx_block_size) f in
      let rest = erase ns f' in if failed then (fs.sync f').1 else rest
