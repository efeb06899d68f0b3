-- ===== src/Data/IdxFile/Headers.antt =====
-- The slots of a file of headers after `Write` and `Erase`, on a disk that does not fail.
use rhosus.Base.{
  ℕ, ◌+◌, ◌*◌, ◌≤◌, ◌<◌, ◌≡◌, refl, inl, inr, Bytes, nat_key, bytes_key, Bool, false, ◌||◌, Option,
  none, some, List, [], ◌∷◌, length, Dict, lookup, HasUniqueKeys, All, ◌==◌, ==_iff, if◌then◌else◌,
  arith, ap, ◌∙◌, subst, Bool-cases,
}
use rhosus.Data.Files.{Files, IsDisk, slice}
use rhosus.Data.Files.Slices.{slice_ext, slice-write_self, slice-write_apart}
use rhosus.Data.IdxFile
use rhosus.Data.IdxFile.{
  IdxBlock, marshal, erase_bytes, erase, sync_result, idx_file_size, idx_block_size,
  partition_blocks_count,
}
use rhosus.Data.IdxFile.Codec.{length-marshal}
use rhosus.Data.IdxFile.Written.{IsHeader}
use rhosus.Data.IdxFile.Erased.{erase_bytes_lem}
use rhosus.Data.IdxFile.Mirror.{IsMirror, IsMirror-Mirrors, with_slot, zeros}
use rhosus.Data.IdxFile.Restart.{Mirrors}

-- What a slot holds after a write of headers.
abbrev pub header_or : Option IdxBlock → Bytes → Bytes
header_or none bytes = bytes
header_or (some b) bytes = marshal b

abbrev pub erased : ℕ → List ℕ → Bool
erased j [] = false
erased j (n ∷ ns) = n == j || erased j ns

module _ {fs : Files} (disk : IsDisk fs) where
  pub slots : fs.File → ℕ → Bytes
  slots f n = slice (disk.byte f) (n * 44) 44

  -- A header at its slot.
  slots-write_at :
      (n j : ℕ) (b : IdxBlock) (f : fs.File)
      → idx_file_size ≤ disk.size f
      → IsHeader (n, b)
      → slots (fs.write_at (marshal b) (n * 44) f).2 j ≡ with_slot n (marshal b) (slots f) j
  unfolding slots
  slots-write_at n j b f fits h =
      let len = length-marshal b h.1 in
      let room : n * 44 + length (marshal b) ≤ disk.size f = omega (arith, h.0) in
      elim (Bool-cases (n == j)) [
        | inl own ↦ rw own (
            subst (λ k. slots (fs.write_at (marshal b) (n * 44) f).2 k ≡ marshal b)
              ((==_iff n j).0 own)
              (subst
                (λ k.
                  slice (disk.byte (fs.write_at (marshal b) (n * 44) f).2) (n * 44) k ≡ marshal b)
                len (slice-write_self disk (marshal b) (n * 44) f room)))
        | inr other ↦ rw other (
            slice-write_apart disk (marshal b) (n * 44) (j * 44) 44 f room
              (ground (arith, ==_iff n j)))
      ]

  write_∷ :
      (n : ℕ) (b : IdxBlock) (bs : List (ℕ × IdxBlock)) (f : fs.File)
      → idx_file_size ≤ disk.size f
      → IsHeader (n, b)
      → (IdxFile.write fs ((n, b) ∷ bs) f).1
        ≡ (IdxFile.write fs bs (fs.write_at (marshal b) (n * 44) f).2).1
  unfolding IdxFile.write
  write_∷ n b bs f fits h =
      let len = length-marshal b h.1 in
      let ok = disk.write_ok (marshal b) (n * 44) f (omega (arith, h.0)) in ground (arith, ok)

  header_or-with_slot :
      (n j : ℕ) (b : IdxBlock) (bs : Dict ℕ IdxBlock) (at : ℕ → Bytes)
      → lookup n bs ≡ none
      → header_or (lookup j bs) (with_slot n (marshal b) at j)
        ≡ header_or (if n == j then some b else lookup j bs) (at j)
  header_or-with_slot n j b bs at fresh = elim (Bool-cases (n == j)) [
    | inl own ↦ rw own (
        ap (λ o. header_or o (marshal b))
          (subst (λ k. lookup k bs ≡ none) ((==_iff n j).0 own) fresh))
    | inr other ↦ rw other refl
  ]

  -- The slots of the headers that are written hold these, and each other slot is as before.
  pub slots-write :
      (bs : Dict ℕ IdxBlock) (f : fs.File) (j : ℕ)
      → idx_file_size ≤ disk.size f
      → All IsHeader bs
      → HasUniqueKeys bs
      → slots (IdxFile.write fs bs f).1 j ≡ header_or (lookup j bs) (slots f j)
  unfolding lookup IdxFile.write sync_result
  slots-write [] f j fits h unique = ap (λ g. slots g j) (ground (arith, disk.sync_ok f))
  slots-write ((n, b) ∷ bs) f j fits h unique =
      let len = length-marshal b h.0.1 in
      let room : n * 44 + length (marshal b) ≤ disk.size f = omega (arith, h.0.0) in
      let f' = (fs.write_at (marshal b) (n * 44) f).2 in
      ap (λ g. slots g j) (write_∷ n b bs f fits h.0)
      ∙ slots-write bs f' j (omega (arith, disk.size-write (marshal b) (n * 44) f room)) h.1
          unique.1
      ∙ ap (header_or (lookup j bs)) (slots-write_at n j b f fits h.0)
      ∙ header_or-with_slot n j b bs (slots f) unique.0

  slots-erase_bytes :
      (n j : ℕ) (f : fs.File)
      → idx_file_size ≤ disk.size f
      → n < partition_blocks_count
      → slots (erase_bytes fs 44 (n * 44) f).1 j ≡ with_slot n zeros (slots f) j
  unfolding slots
  slots-erase_bytes n j f fits lt =
      let one = erase_bytes_lem disk 44 (n * 44) f (omega arith) in
      elim (Bool-cases (n == j)) [
        | inl own ↦ rw own (
            slice_ext (disk.byte (erase_bytes fs 44 (n * 44) f).1) (λ _. 0) (j * 44) 44
              (λ q lo hi. ground (arith, one.2 q, ==_iff n j)))
        | inr other ↦ rw other (
            slice_ext (disk.byte (erase_bytes fs 44 (n * 44) f).1) (disk.byte f) (j * 44) 44
              (λ q lo hi. ground (arith, one.2 q, ==_iff n j)))
      ]

  -- The slots that are erased hold zeros, and each other slot is as before.
  pub slots-erase :
      (ns : List ℕ) (f : fs.File) (j : ℕ)
      → idx_file_size ≤ disk.size f
      → All (λ n. n < partition_blocks_count) ns
      → slots (erase fs ns f) j ≡ (if erased j ns then zeros else slots f j)
  unfolding erase
  slots-erase [] f j fits lt = ap (λ g. slots g j) (ground (arith, disk.sync_ok f))
  slots-erase (n ∷ ns) f j fits lt =
      let one = erase_bytes_lem disk 44 (n * 44) f (omega (arith, lt.0)) in
      let rest = slots-erase ns (erase_bytes fs 44 (n * 44) f).1 j (omega (arith, one.1)) lt.1 in
      ground (arith, one.0, rest, slots-erase_bytes n j f fits lt.0)

  pub slots-Mirrors :
      (n : ℕ) (m : Dict Bytes IdxBlock) (f : fs.File)
      → IsMirror (slots f) m
      → n < partition_blocks_count
      → Mirrors (disk.byte f) m n
  unfolding slots
  slots-Mirrors n m f ok lt = IsMirror-Mirrors (disk.byte f) m n ok lt

  pub slots_lem : (n : ℕ) (f : fs.File) → slots f n ≡ slice (disk.byte f) (n * 44) 44
  unfolding slots
  slots_lem n f = refl

  pub slots_ext :
      (f g : fs.File) → ((q : ℕ) → disk.byte f q ≡ disk.byte g q) → (n : ℕ) → slots f n ≡ slots g n
  unfolding slots
  slots_ext f g e n = slice_ext (disk.byte f) (disk.byte g) (n * 44) 44 (λ q lo hi. e q)
