-- ===== src/Data/Partition/Mirrored.antt =====
-- The headers on disk follow the partition's map through `WriteBlocks` and `RemoveBlocks`.
use rhosus.Base.{
  ℕ, ◌+◌, ◌/◌, ◌≤◌, ◌<◌, ◌≡◌, refl, inl, inr, Bytes, bytes_key, bytes_eq_iff, nat_key, false, ◌&&◌,
  none, some, List, [], ◌∷◌, ◌++◌, length, Dict, lookup, insert, lookup-insert, HasUniqueKeys,
  insert-HasUniqueKeys, delete, All, ◌==◌, if◌then◌else◌, arith, ap, sym, ◌∙◌, subst, Bool-cases,
}
use rhosus.Data.Files.{Files, IsDisk}
use rhosus.Data.IdxFile.{
  IdxBlock, Err, marshal, put_uint64, is_bytes_all_zeros, erase, idx_file_size,
  partition_blocks_count,
}
use rhosus.Data.IdxFile.Written.{write_lem}
use rhosus.Data.IdxFile.Restart.{IsStorable}
use rhosus.Data.IdxFile.Mirror.{
  IsMirror, IsMirror-ext, with_slot, zeros, insert-IsMirror, delete-IsMirror,
}
use rhosus.Data.IdxFile.Headers.{slots, header_or, slots-write, slots-erase, erased}
use rhosus.Data.Partition.{
  Partition, BlockPlacementInfo, header_of, forget_blocks, free_slot, write_contents, write_blocks,
  remove_blocks,
}
use rhosus.Data.Partition.Slots.{free_slot_lem, is_block_allocated-lookup}
use rhosus.Data.Partition.Slotted.{IsSlotted, at_slot, delete-IsSlotted}
use rhosus.Data.Partition.Stored.{
  IsSound, with_block, with_block-IsSound, with_block_rest, write_contents-∷,
}
use rhosus.Data.Partition.Written.{IsBlock, write_contents_lem, write_blocks-opened}

is_bytes_all_zeros-append :
    (a b : Bytes) → is_bytes_all_zeros (a ++ b) ≡ is_bytes_all_zeros a && is_bytes_all_zeros b
unfolding is_bytes_all_zeros
is_bytes_all_zeros-append [] b = refl
is_bytes_all_zeros-append (x ∷ a) b = ground (arith, is_bytes_all_zeros-append a b)

-- A block whose header can be told from an empty slot.
abbrev pub IsTold : Bytes × Bytes → Type 0
IsTold x = is_bytes_all_zeros x.0 ≡ false

-- None of the blocks is in the map.
abbrev pub AreNew : Dict Bytes Bytes → Dict Bytes IdxBlock → Type 0
AreNew blocks m = (a v : Bytes) → lookup a blocks ≡ some v → lookup a m ≡ none

at_slot-IsStorable :
    (slot : ℕ) (a bytes : Bytes)
    → IsBlock (a, bytes)
    → IsTold (a, bytes)
    → IsStorable a (at_slot slot a (length bytes))
unfolding marshal
at_slot-IsStorable slot a bytes ok told = record {
  own_id = refl;
  id_length = ok.0;
  size_lt = omega (arith, ok.1);
  nonzero = ground (arith, is_bytes_all_zeros-append a (put_uint64 (length bytes)), told);
}

module _ {fs : Files} (disk : IsDisk fs) where
  -- The slots of the index file hold the headers of the partition's blocks, and zeros elsewhere.
  abbrev pub IsMirrored : Partition fs → Type 0
  IsMirrored p = IsMirror (slots disk p.idx_file) p.blocks_map

  -- What the slots will hold once the headers are written.
  abbrev Pending : (ℕ → Bytes) → Dict ℕ IdxBlock → Dict Bytes IdxBlock → Type 0
  Pending at idxs m = IsMirror (λ j. header_or (lookup j idxs) (at j)) m

  insert-header_or :
      (slot j : ℕ) (b : IdxBlock) (idxs : Dict ℕ IdxBlock) (at : ℕ → Bytes)
      → header_or (lookup j (insert slot b idxs)) (at j)
        ≡ with_slot slot (marshal b) (λ k. header_or (lookup k idxs) (at k)) j
  insert-header_or slot j b idxs at =
      ap (λ o. header_or o (at j)) (lookup-insert slot j b idxs)
      ∙ elim (Bool-cases (slot == j)) [ inl own ↦ rw own refl | inr other ↦ rw other refl ]

  with_block-Pending :
      (a bytes : Bytes) (at : ℕ → Bytes) (idxs : Dict ℕ IdxBlock) (p : Partition fs)
      → length p.blocks_map < partition_blocks_count
      → IsBlock (a, bytes)
      → IsTold (a, bytes)
      → lookup a p.blocks_map ≡ none
      → Pending at idxs p.blocks_map
      → Pending at
          (insert (free_slot p.blocks_map) (at_slot (free_slot p.blocks_map) a (length bytes)) idxs)
          (with_block disk a bytes p).blocks_map
  unfolding with_block
  with_block-Pending a bytes at idxs p room ok told fresh pending =
      let slot = free_slot p.blocks_map in
      let header = at_slot slot a (length bytes) in
      let free = free_slot_lem p.blocks_map room in
      IsMirror-ext _ _ _ (λ j. insert-header_or slot j header idxs at)
        (insert-IsMirror a header slot _ p.blocks_map pending fresh
          (at_slot-IsStorable slot a bytes ok told) refl
          (λ c x e. is_block_allocated-lookup slot c x p.blocks_map free.0 e))

  with_block-AreNew :
      (a bytes : Bytes) (blocks : Dict Bytes Bytes) (p : Partition fs)
      → lookup a blocks ≡ none
      → AreNew ((a, bytes) ∷ blocks) p.blocks_map
      → (lookup a p.blocks_map ≡ none) × AreNew blocks (with_block disk a bytes p).blocks_map
  unfolding lookup with_block
  with_block-AreNew a bytes blocks p single new = (
    new a bytes (ground (arith, bytes_eq_iff a a)),
    λ c v e. ground (
      arith,
      new c v,
      bytes_eq_iff a c,
      single,
      lookup-insert a c (at_slot (free_slot p.blocks_map) a (length bytes)) p.blocks_map,
    ),
  )

  write_contents-Pending :
      (blocks : Dict Bytes Bytes) (errs : Dict Bytes Err) (at : ℕ → Bytes) (idxs : Dict ℕ IdxBlock)
      (p : Partition fs)
      → IsSound disk p
      → length p.blocks_map + length blocks ≤ partition_blocks_count
      → All IsBlock blocks
      → All IsTold blocks
      → HasUniqueKeys blocks
      → AreNew blocks p.blocks_map
      → HasUniqueKeys idxs
      → Pending at idxs p.blocks_map
      → HasUniqueKeys (write_contents blocks errs idxs p).1
        × Pending at
            (write_contents blocks errs idxs p).1
            (write_contents blocks errs idxs p).2.blocks_map
  unfolding write_contents
  write_contents-Pending [] errs at idxs p ok room small told unique new own pending =
      (own, pending)
  write_contents-Pending ((a, bytes) ∷ blocks) errs at idxs p ok room small told unique new own
        pending =
      let slot = free_slot p.blocks_map in
      let header = at_slot slot a (length bytes) in
      let p' = with_block disk a bytes p in
      let other = with_block_rest disk a bytes p in
      let sound = with_block-IsSound disk a bytes p ok (omega arith) small.0.1 in
      let (fresh, news) = with_block-AreNew a bytes blocks p unique.0 new in
      let rest =
        write_contents-Pending blocks errs at (insert slot header idxs) p' sound
          (omega (arith, other.2)) small.1 told.1 unique.1 news
          (insert-HasUniqueKeys slot header idxs own)
          (with_block-Pending a bytes at idxs p (omega arith) small.0 told.0 fresh pending) in
      subst (λ r. HasUniqueKeys r.1 × Pending at r.1 r.2.blocks_map)
        (sym (write_contents-∷ disk a bytes blocks errs idxs p ok (omega arith) small.0.1)) rest

  -- On a disk that does not fail, a batch of new blocks leaves each header in a slot of its own: on a
  -- sound and open partition with a preallocated index file, whose slots hold the headers of its
  -- blocks and zeros elsewhere, the slots do so after `WriteBlocks` too. The batch has room, each
  -- block has an identifier of 36 bytes that are not all zero and a content of at most 2 MB, and the
  -- partition has none of them.
  pub write_blocks-IsMirrored :
      (blocks : Dict Bytes Bytes) (p : Partition fs)
      → IsSound disk p
      → idx_file_size ≤ disk.size p.idx_file
      → p.closed ≡ false
      → length p.blocks_map + length blocks ≤ partition_blocks_count
      → All IsBlock blocks
      → All IsTold blocks
      → HasUniqueKeys blocks
      → AreNew blocks p.blocks_map
      → IsMirrored p
      → IsMirrored (write_blocks blocks p).2
  unfolding lookup
  write_blocks-IsMirrored blocks p ok idx_fits opened room small told unique new mirrored =
      let out = write_contents blocks [] [] p in
      let r = write_contents_lem disk blocks [] [] p ok room small unique tt in
      let fits = subst (λ f. idx_file_size ≤ disk.size f) (sym r.same_idx) idx_fits in
      let (own, pending) =
        write_contents-Pending blocks [] (slots disk p.idx_file) [] p ok room small told unique new
          tt (IsMirror-ext _ _ _ (λ j. refl) mirrored) in
      subst IsMirrored (sym (ap (λ o. o.2) (write_blocks-opened disk blocks p opened))) (
        IsMirror-ext _ _ _
          (λ j.
            slots-write disk out.1 out.2.idx_file j fits r.headers own
            ∙ ap (λ f. header_or (lookup j out.1) (slots disk f j)) r.same_idx)
          pending)

  pub size-write_blocks_idx_file :
      (blocks : Dict Bytes Bytes) (p : Partition fs)
      → IsSound disk p
      → idx_file_size ≤ disk.size p.idx_file
      → p.closed ≡ false
      → length p.blocks_map + length blocks ≤ partition_blocks_count
      → All IsBlock blocks
      → HasUniqueKeys blocks
      → disk.size (write_blocks blocks p).2.idx_file ≡ disk.size p.idx_file
  size-write_blocks_idx_file blocks p ok idx_fits opened room small unique =
      let out = write_contents blocks [] [] p in
      let r = write_contents_lem disk blocks [] [] p ok room small unique tt in
      let fits = subst (λ f. idx_file_size ≤ disk.size f) (sym r.same_idx) idx_fits in
      ap (λ o. disk.size o.2.idx_file) (write_blocks-opened disk blocks p opened)
      ∙ (write_lem disk out.1 out.2.idx_file fits r.headers).1
      ∙ ap disk.size r.same_idx

-- Blocks of the map, no block twice.
abbrev pub AreKnown : List BlockPlacementInfo → Dict Bytes IdxBlock → Type 0
AreKnown [] m = Unit
AreKnown (i ∷ is) m =
    ((b : IdxBlock) × (lookup i.block_id m ≡ some b)) × AreKnown is (delete i.block_id m)

header_of_known :
    (a : Bytes) (b : IdxBlock) (m : Dict Bytes IdxBlock) → lookup a m ≡ some b → header_of a m ≡ b
unfolding header_of
header_of_known a b m e = rw (header_of, e) refl

forget_blocks-IsMirror :
    (is : List BlockPlacementInfo) (at : ℕ → Bytes) (m : Dict Bytes IdxBlock)
    → IsMirror at m
    → IsSlotted m
    → AreKnown is m
    → All (λ n. n < partition_blocks_count) (forget_blocks is m).0
      × IsMirror
          (λ j. if erased j (forget_blocks is m).0 then zeros else at j)
          (forget_blocks is m).1
unfolding forget_blocks
forget_blocks-IsMirror [] at m ok slotted known = (tt, ok)
forget_blocks-IsMirror (i ∷ is) at m ok slotted known =
    let a = i.block_id in
    let (b, e) = known.0 in
    let slot : (header_of a m).offset / 44 ≡ b.offset / 44 =
      ap (λ x. x.offset / 44) (header_of_known a b m e) in
    let one = delete-IsMirror a b at m ok e (λ c x f h. slotted.apart a c b x e f (sym h)) in
    let rest =
      forget_blocks-IsMirror is (with_slot (b.offset / 44) zeros at) (delete a m) one
        (delete-IsSlotted a m slotted) known.1 in
    (
      (omega (arith, slot, slotted.slot_lt a b e), rest.0),
      IsMirror-ext _ _ _ (λ j. rw slot (ground arith)) rest.1,
    )

module _ {fs : Files} (disk : IsDisk fs) where
  remove_blocks-idx :
      (is : List BlockPlacementInfo) (p : Partition fs)
      → p.closed ≡ false
      → ((remove_blocks is p).1.idx_file ≡ erase fs (forget_blocks is p.blocks_map).0 p.idx_file)
        × ((remove_blocks is p).1.blocks_map ≡ (forget_blocks is p.blocks_map).1)
  unfolding remove_blocks
  remove_blocks-idx is p opened = ground arith

  -- On a disk that does not fail, `RemoveBlocks` of blocks that a sound and open partition has, no
  -- block twice, erases their headers and no other: if the slots of its preallocated index file hold
  -- the headers of its blocks and zeros elsewhere, they do so afterwards.
  pub remove_blocks-IsMirrored :
      (is : List BlockPlacementInfo) (p : Partition fs)
      → IsSound disk p
      → idx_file_size ≤ disk.size p.idx_file
      → p.closed ≡ false
      → AreKnown is p.blocks_map
      → IsMirrored disk p
      → IsMirrored disk (remove_blocks is p).1
  remove_blocks-IsMirrored is p ok idx_fits opened known mirrored =
      let (idx, m) = remove_blocks-idx is p opened in
      let (lt, kept) =
        forget_blocks-IsMirror is (slots disk p.idx_file) p.blocks_map mirrored ok.slotted known in
      rw (idx, m)
        (IsMirror-ext _ _ _
          (λ j. slots-erase disk (forget_blocks is p.blocks_map).0 p.idx_file j idx_fits lt) kept)
