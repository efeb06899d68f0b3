-- ===== src/Data/Partition/Unknown.antt =====
-- `RemoveBlocks` for a block that the partition does not have.
use rhosus.Base.{
  ℕ, ◌≤◌, ◌≡◌, bytes_key, false, none, [], ◌∷◌, lookup, ltb, if◌then◌else◌, arith, ◌∙◌, ap,
}
use rhosus.Data.Files.{Files, IsDisk}
use rhosus.Data.IdxFile.{idx_file_size, erase}
use rhosus.Data.IdxFile.Erased.{erase_lem}
use rhosus.Data.Partition.{Partition, BlockPlacementInfo, forget_blocks, header_of, remove_blocks}

module _ {fs : Files} (disk : IsDisk fs) where
  erased_at :
      (i : BlockPlacementInfo) (p : Partition fs)
      → lookup i.block_id p.blocks_map ≡ none
      → p.closed ≡ false
      → (remove_blocks (i ∷ []) p).1.idx_file ≡ erase fs (0 ∷ []) p.idx_file
  unfolding remove_blocks forget_blocks header_of
  erased_at i p unknown opened = ground arith

  -- On a disk that does not fail, the removal of a block that an open partition does not have sets
  -- the header of slot 0 to zeros, whatever block is there, and leaves the rest of the headers.
  pub remove_blocks_unknown :
      (i : BlockPlacementInfo) (p : Partition fs)
      → lookup i.block_id p.blocks_map ≡ none
      → p.closed ≡ false
      → idx_file_size ≤ disk.size p.idx_file
      → (q : ℕ)
      → disk.byte (remove_blocks (i ∷ []) p).1.idx_file q
        ≡ (if ltb q 44 then 0 else disk.byte p.idx_file q)
  remove_blocks_unknown i p unknown opened fits q =
      ap (λ f. disk.byte f q) (erased_at i p unknown opened)
      ∙ erase_lem disk (0 ∷ []) p.idx_file fits (omega arith, tt) q
      ∙ ground arith
