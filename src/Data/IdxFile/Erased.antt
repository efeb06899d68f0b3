-- ===== src/Data/IdxFile/Erased.antt =====
-- `Erase` on a disk that does not fail.
use rhosus.Base.{
  ℕ, zero, suc, ◌+◌, ◌*◌, ◌≤◌, ◌<◌, ◌≡◌, refl, Bool, false, ◌&&◌, ◌||◌, List, [], ◌∷◌, All, leb,
  ltb, if◌then◌else◌, arith,
}
use rhosus.Data.Files.{Files, IsDisk}
use rhosus.Data.IdxFile.{erase_bytes, erase, idx_file_size, partition_blocks_count}

-- A position in one of the slots.
abbrev pub in_slots : ℕ → List ℕ → Bool
in_slots q [] = false
in_slots q (n ∷ ns) = leb (n * 44) q && ltb q (n * 44 + 44) || in_slots q ns

module _ {fs : Files} (disk : IsDisk fs) where
  pub erase_bytes_lem :
      (k pos : ℕ) (f : fs.File)
      → pos + k ≤ disk.size f
      → ((erase_bytes fs k pos f).0 ≡ false)
        × (disk.size (erase_bytes fs k pos f).1 ≡ disk.size f)
        × ((q : ℕ)
            → disk.byte (erase_bytes fs k pos f).1 q
              ≡ (if leb pos q && ltb q (pos + k) then 0 else disk.byte f q))
  unfolding erase_bytes
  erase_bytes_lem zero pos f fits = (refl, refl, λ q. ground arith)
  erase_bytes_lem (suc k) pos f fits =
      let f' = (fs.write_at (0 ∷ []) pos f).2 in
      let ok = disk.write_ok (0 ∷ []) pos f (omega arith) in
      let same_size = disk.size-write (0 ∷ []) pos f (omega arith) in
      let rest = erase_bytes_lem k (suc pos) f' (omega arith) in
      (
        ground (arith, ok, rest.0),
        ground (arith, ok, same_size, rest.1),
        λ q. ground (arith, ok, rest.2 q, disk.byte-write (0 ∷ []) pos q f (omega arith)),
      )

  -- On a disk that does not fail, an erasure of slots below 512 of a file of 512 slots sets exactly
  -- the bytes of these slots to zero.
  pub erase_lem :
      (ns : List ℕ) (f : fs.File)
      → idx_file_size ≤ disk.size f
      → All (λ n. n < partition_blocks_count) ns
      → (q : ℕ) → disk.byte (erase fs ns f) q ≡ (if in_slots q ns then 0 else disk.byte f q)
  unfolding erase
  erase_lem [] f fits lt q = ground (arith, disk.sync_ok f)
  erase_lem (n ∷ ns) f fits lt q =
      let one = erase_bytes_lem 44 (n * 44) f (omega (arith, lt.0)) in
      let rest = erase_lem ns (erase_bytes fs 44 (n * 44) f).1 (omega (arith, one.1)) lt.1 q in
      ground (arith, one.0, one.2 q, rest)
