-- ===== src/Data/Manager/Restarted.antt =====
-- A restart of the node: a fresh partition on the files of another loads its headers.
use mathlib.Core.Option
use mathlib.Core.Option.{Option}
use rhosus.Base.{
  ℕ, ◌+◌, ◌≤◌, ◌≡◌, refl, Bytes, bytes_key, false, none, some, [], length, Dict, lookup,
  HasUniqueKeys, All, arith, ap, sym, ◌∙◌,
}
use rhosus.Data.Files.{Files, IsDisk}
use rhosus.Data.Files.Slices.{slice_ext}
use rhosus.Data.IdxFile
use rhosus.Data.IdxFile.{
  IdxBlock, Err, idx_file_size, partition_blocks_count, default_partition_size,
}
use rhosus.Data.IdxFile.Restart.{load-mirrored}
use rhosus.Data.IdxFile.Mirror.{IsMirror-ext, IsMirror-lookup}
use rhosus.Data.IdxFile.Headers.{slots, slots-Mirrors, slots_ext}
use rhosus.Data.IdxFile.Loaded.{load-HasUniqueKeys}
use rhosus.Data.Partition.{Partition, insert_all, load_header, write_blocks}
use rhosus.Data.Partition.Loading.{
  lookup-insert_all, first_of-none, insert_all-HasUniqueKeys, IsReadable, load_header_loaded,
}
use rhosus.Data.Manager.{new_partition}
use rhosus.Data.Partition.Slotted.{IsSlotted}
use rhosus.Data.Partition.Stored.{IsSound, stored, stored_eq, at_header}
use rhosus.Data.Partition.Written.{IsBlock, write_blocks-stored, or_else}
use rhosus.Data.Partition.Mirrored.{
  IsMirrored, IsTold, AreNew, write_blocks-IsMirrored, size-write_blocks_idx_file,
}

lookup-IsSlotted :
    (m r : Dict Bytes IdxBlock)
    → ((c : Bytes) → lookup c r ≡ lookup c m)
    → IsSlotted m
    → IsSlotted r
lookup-IsSlotted m r e ok = record {
  slot_lt = λ a b h. ok.slot_lt a b (sym (e a) ∙ h);
  size_le = λ a b h. ok.size_le a b (sym (e a) ∙ h);
  apart = λ a c x y h k. ok.apart a c x y (sym (e a) ∙ h) (sym (e c) ∙ k);
}

module _ {fs : Files} (disk : IsDisk fs) where
  map-at_header :
      (f g : fs.File) (o : Option IdxBlock)
      → ((q : ℕ) → disk.byte f q ≡ disk.byte g q)
      → Option.map (at_header disk f) o ≡ Option.map (at_header disk g) o
  map-at_header f g none e = refl
  map-at_header f g (some b) e =
      ap some (slice_ext (disk.byte f) (disk.byte g) _ b.size (λ q lo hi. e q))

  -- The map that is loaded is the map whose headers are on disk.
  loaded_map :
      (p : Partition fs)
      → IsSlotted p.blocks_map
      → disk.size p.idx_file ≡ idx_file_size
      → IsMirrored disk p
      → (m : Dict Bytes IdxBlock) × (IdxFile.load fs 513 p.idx_file ≡ some m)
        × ((c : Bytes) → lookup c (insert_all m []) ≡ lookup c p.blocks_map)
  unfolding lookup
  loaded_map p slotted fits mirrored =
      let (m, loaded, eq) =
        load-mirrored disk p.idx_file p.blocks_map mirrored.storable slotted.slot_lt slotted.apart
          (λ n lt. slots-Mirrors disk n p.blocks_map p.idx_file mirrored lt) fits in
      let all = λ (c : Bytes).
        lookup-insert_all c m [] (load-HasUniqueKeys fs 513 p.idx_file m loaded)
          (λ a b e. (mirrored.storable a b (sym (eq a) ∙ e)).own_id) in
      (m, loaded, λ c. all c ∙ first_of-none (lookup c m) ∙ eq c)

  IsMirrored-loaded :
      (p r : Partition fs) (m : Dict Bytes IdxBlock)
      → HasUniqueKeys (insert_all m [])
      → ((c : Bytes) → lookup c (insert_all m []) ≡ lookup c p.blocks_map)
      → IsMirrored disk p
      → IsMirrored disk (record r { idx_file = p.idx_file; blocks_map = insert_all m [] })
  IsMirrored-loaded p r m unique eq ok =
      IsMirror-lookup (slots disk p.idx_file) p.blocks_map (insert_all m []) unique eq ok

  -- A file with the same bytes, opened anew.
  abbrev pub IsCopy : fs.File → fs.File → Type 0
  IsCopy f g = (disk.size f ≡ disk.size g) × ((q : ℕ) → disk.byte f q ≡ disk.byte g q)

  reload :
      (a : Bytes) (p : Partition fs)
      → IsSound disk p
      → disk.size p.idx_file ≡ idx_file_size
      → IsReadable disk p.file
      → IsMirrored disk p
      → (r : Partition fs) × (load_header 513 (new_partition a p.file p.idx_file) ≡ some (none, r))
        × (r.closed ≡ false)
        × IsSound disk r
        × IsMirrored disk r
        × ((c : Bytes) → stored disk r c ≡ stored disk p c)
  unfolding new_partition
  reload a p ok fits readable mirrored =
      let (m, loaded, eq) = loaded_map p ok.slotted fits mirrored in
      let f = (fs.read idx_file_size p.file).2 in
      let r : Partition fs = record (new_partition a p.file p.idx_file) {
        file = f;
        blocks_map = insert_all m [];
      } in
      (
        r,
        load_header_loaded disk m (new_partition a p.file p.idx_file) readable loaded,
        refl,
        record {
          slotted = lookup-IsSlotted p.blocks_map (insert_all m []) eq ok.slotted;
          preallocated = omega (arith, readable.same_size, ok.preallocated);
        },
        IsMirrored-loaded p r m (insert_all-HasUniqueKeys m [] tt) eq mirrored,
        λ c.
            let o = lookup c p.blocks_map in
            stored_eq disk c o r (eq c)
            ∙ map-at_header f p.file o readable.same_bytes
            ∙ sym (stored_eq disk c o p refl),
      )

  -- A restart loses nothing: where the slots of an index file of 512 slots hold the headers of a
  -- sound partition's blocks and zeros elsewhere, a new partition on files with the same bytes, the
  -- first of which can be read, loads within 513 rounds, without an error or a panic. It is open and
  -- sound, it has the same blocks with the same contents, and its index file holds their headers.
  pub load_header-stored :
      (a : Bytes) (f g : fs.File) (p : Partition fs)
      → IsSound disk p
      → disk.size p.idx_file ≡ idx_file_size
      → IsMirrored disk p
      → IsCopy f p.file
      → IsCopy g p.idx_file
      → IsReadable disk f
      → (r : Partition fs) × (load_header 513 (new_partition a f g) ≡ some (none, r))
        × (r.closed ≡ false)
        × IsSound disk r
        × IsMirrored disk r
        × ((c : Bytes) → stored disk r c ≡ stored disk p c)
  load_header-stored a f g p ok fits mirrored same_file same_idx readable =
      let p' : Partition fs = record p { file = f; idx_file = g } in
      let sound : IsSound disk p' = record {
        slotted = ok.slotted;
        preallocated = omega (arith, same_file.0, ok.preallocated);
      } in
      let headers : IsMirrored disk p' =
        IsMirror-ext _ _ p.blocks_map (slots_ext disk g p.idx_file same_idx.1) mirrored in
      let (r, loaded, opened, sound_r, headers_r, contents) =
        reload a p' sound (same_idx.0 ∙ fits) readable headers in
      (
        r,
        loaded,
        opened,
        sound_r,
        headers_r,
        λ c.
            let o = lookup c p.blocks_map in
            contents c
            ∙ stored_eq disk c o p' refl
            ∙ map-at_header f p.file o same_file.1
            ∙ sym (stored_eq disk c o p refl),
      )

  -- What `WriteBlocks` has stored is there after a restart: a sound and open partition, whose index
  -- file of 512 slots holds its blocks' headers and zeros elsewhere, is given a batch of new blocks
  -- that has room, each with an identifier of 36 bytes that are not all zero and a content of at most
  -- 2 MB. A new partition on files with the bytes of its two files, the first of which can be read,
  -- then loads without an error, and has the contents of the batch and of each block from before.
  pub load_header-write_blocks :
      (a : Bytes) (f g : fs.File) (blocks : Dict Bytes Bytes) (p : Partition fs)
      → IsSound disk p
      → disk.size p.idx_file ≡ idx_file_size
      → p.closed ≡ false
      → length p.blocks_map + length blocks ≤ partition_blocks_count
      → All IsBlock blocks
      → All IsTold blocks
      → HasUniqueKeys blocks
      → AreNew blocks p.blocks_map
      → IsMirrored disk p
      → IsCopy f (write_blocks blocks p).2.file
      → IsCopy g (write_blocks blocks p).2.idx_file
      → IsReadable disk f
      → (r : Partition fs) × (load_header 513 (new_partition a f g) ≡ some (none, r))
        × IsSound disk r
        × ((c : Bytes) → stored disk r c ≡ or_else (lookup c blocks) (stored disk p c))
  load_header-write_blocks a f g blocks p ok fits opened room small told unique new mirrored
        same_file same_idx readable =
      let idx_fits : idx_file_size ≤ disk.size p.idx_file = omega arith in
      let kept = size-write_blocks_idx_file disk blocks p ok idx_fits opened room small unique in
      let w = write_blocks-stored disk blocks p ok idx_fits opened room small unique in
      let m =
        write_blocks-IsMirrored disk blocks p ok idx_fits opened room small told unique new
          mirrored in
      let (r, loaded, still_open, sound, headers, same_contents) =
        load_header-stored a f g (write_blocks blocks p).2 w.2 (kept ∙ fits) m same_file same_idx
          readable in
      (r, loaded, sound, λ c. same_contents c ∙ w.4 c)
