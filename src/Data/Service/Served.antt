-- ===== src/Data/Service/Served.antt =====
-- What a node answers, in terms of the contents that it holds.
use rhosus.Base.{
  ℕ, suc, ◌+◌, ◌*◌, ◌/◌, ◌^◌, ◌≤◌, ◌<◌, length, Dict, ◌≡◌, refl, inl, inr, Bytes, bytes_key, false,
  Option, none, some, List, [], ◌∷◌, lookup, All, arith, Option-cases,
}
use rhosus.Data.Files.{Files, IsDisk}
use rhosus.Data.IdxFile.{Err, not_found, partition_blocks_count, default_block_size}
use rhosus.Data.Partition.{Partition, BlockPlacementInfo, Block, get_used_blocks}
use rhosus.Data.Partition.Stored.{stored}
use rhosus.Data.Partition.Reads.{block_of}
use rhosus.Data.Manager.{Manager, get_used_blocks_count}
use rhosus.Data.Manager.Contents.{AreOpen, content, read_block-content}
use rhosus.Data.Service.{get_blocks, get_free_blocks_count}

module _ {fs : Files} (disk : IsDisk fs) where
  -- The blocks up to the first of an unknown partition, and whether there is none.
  pub served : List BlockPlacementInfo → Manager fs → List (Option Block) × Option Err
  unfolding content
  served [] m = ([], none)
  served (i ∷ is) m =
      let (rest, err) = served is m in
      elim (lookup i.partition_id m.parts) [
        | none ↦ ([], some not_found)
        | some p ↦ (some (block_of i.block_id (stored disk p i.block_id)) ∷ rest, err)
      ]

  -- On a disk that does not fail, with sound and open partitions and sends that succeed, a node that
  -- is up answers a request for blocks with the content of each in the order of the request, up to
  -- the first block of an unknown partition, at which it ends with an error.
  pub get_blocks-served :
      (send : ℕ → Option Err) (i : ℕ) (is : List BlockPlacementInfo) (m : Manager fs)
      → AreOpen disk m.parts
      → m.shutdown ≡ false
      → ((j : ℕ) → send j ≡ none)
      → get_blocks send i is m ≡ served is m
  unfolding get_blocks served
  get_blocks-served send i [] m ok up sends = refl
  get_blocks-served send i (b ∷ is) m ok up sends =
      let rest = get_blocks-served send (suc i) is m ok up sends in
      let read = read_block-content disk b m ok up in
      elim (Option-cases (lookup b.partition_id m.parts)) [
        | inl e ↦ ground (arith, e, read, rest, sends i)
        | inr (p, e) ↦ ground (arith, e, read, rest, sends i)
      ]

-- No partition has more blocks than slots.
abbrev pub AreSmall : {fs : Files} → Dict Bytes (Partition fs) → Type 0
AreSmall parts = All (λ x. length x.1.blocks_map ≤ partition_blocks_count) parts

used-le :
    {fs : Files} (parts : Dict Bytes (Partition fs))
    → AreSmall parts
    → get_used_blocks_count parts ≤ partition_blocks_count * length parts
unfolding get_used_blocks_count get_used_blocks
used-le [] small = omega arith
used-le ((a, p) ∷ parts) small = ground (arith, used-le parts small.1)

-- Where no partition has more than 512 blocks, the count of free blocks of a node that is up does not
-- wrap below zero: it is the blocks that the free space of the disk holds, and the free slots of the
-- partitions, as long as these are below 2 ^ 64.
pub get_free_blocks_count_bounds :
    {fs : Files} (free : ℕ) (m : Manager fs)
    → m.shutdown ≡ false
    → AreSmall m.parts
    → free / default_block_size + partition_blocks_count * length m.parts < 2 ^ 64
    → get_free_blocks_count free m + get_used_blocks_count m.parts
      ≡ free / default_block_size + partition_blocks_count * length m.parts
unfolding get_free_blocks_count
get_free_blocks_count_bounds free m up small bounded = ground (arith, used-le m.parts small)
