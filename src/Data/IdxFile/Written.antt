-- ===== src/Data/IdxFile/Written.antt =====
-- Headers written to a disk that does not fail.
use rhosus.Base.{ℕ, ◌+◌, ◌*◌, ◌≤◌, ◌<◌, ◌≡◌, List, [], ◌∷◌, length, All, none, arith}
use rhosus.Data.Files.{Files, IsDisk}
use rhosus.Data.IdxFile
use rhosus.Data.IdxFile.{
  IdxBlock, marshal, idx_block_size, idx_file_size, partition_blocks_count, sync_result,
}
use rhosus.Data.IdxFile.Codec.{length-marshal}

-- A header that fits its slot, at one of the slots.
abbrev pub IsHeader : ℕ × IdxBlock → Type 0
IsHeader x = (x.0 < partition_blocks_count) × (length x.1.id ≡ 36)

module _ {fs : Files} (disk : IsDisk fs) where
  pub write_lem :
      (bs : List (ℕ × IdxBlock)) (f : fs.File)
      → idx_file_size ≤ disk.size f
      → All IsHeader bs
      → ((IdxFile.write fs bs f).0 ≡ none) × (disk.size (IdxFile.write fs bs f).1 ≡ disk.size f)
  unfolding IdxFile.write sync_result
  write_lem [] f fits h = ground (arith, disk.sync_ok f)
  write_lem ((n, b) ∷ bs) f fits h =
      let len = length-marshal b h.0.1 in
      let room : n * idx_block_size + length (marshal b) ≤ disk.size f = omega arith in
      let ok = disk.write_ok (marshal b) (n * idx_block_size) f room in
      let same_size = disk.size-write (marshal b) (n * idx_block_size) f room in
      let rest =
        write_lem bs (fs.write_at (marshal b) (n * idx_block_size) f).2 (omega arith) h.1 in
      ground (arith, ok, same_size, rest)
