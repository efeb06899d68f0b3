-- ===== src/Data/Partition/Rewritten.antt =====
-- `WriteBlocks` of a block that the partition has already.
use rhosus.Base.{
  ◌/◌, ◌≤◌, ◌<◌, ◌≡◌, refl, inl, inr, Bytes, bytes_key, bytes_eq_iff, nat_key, false, some, [], ◌∷◌,
  length, lookup, insert, lookup-insert, ◌==◌, ==_iff, arith, sym, ◌∙◌, Bool-cases,
}
use rhosus.Data.Files.{Files, IsDisk}
use rhosus.Data.IdxFile.{IdxBlock, marshal, idx_file_size, partition_blocks_count}
use rhosus.Data.IdxFile.Mirror.{IsVacant}
use rhosus.Data.IdxFile.Headers.{slots, header_or, slots-write}
use rhosus.Data.Partition.{Partition, free_slot, write_contents, write_blocks}
use rhosus.Data.Partition.Slots.{free_slot_lem, is_block_allocated-lookup}
use rhosus.Data.Partition.Slotted.{at_slot}
use rhosus.Data.Partition.Stored.{IsSound, with_block, write_contents-∷}
use rhosus.Data.Partition.Written.{IsBlock, write_blocks-opened}
use rhosus.Data.Partition.Mirrored.{IsMirrored}

module _ {fs : Files} (disk : IsDisk fs) where
  write_contents-singleton :
      (a bytes : Bytes) (p : Partition fs)
      → IsSound disk p
      → length p.blocks_map < partition_blocks_count
      → IsBlock (a, bytes)
      → write_contents ((a, bytes) ∷ []) [] [] p ≡ (
        [],
        (free_slot p.blocks_map, at_slot (free_slot p.blocks_map) a (length bytes)) ∷ [],
        with_block disk a bytes p,
      )
  unfolding write_contents insert
  write_contents-singleton a bytes p ok room small =
      write_contents-∷ disk a bytes [] [] [] p ok room small.1

  -- A block that is written a second time leaves its first header behind. On a disk that does not
  -- fail, let a sound and open partition with room for one more block have the block already, and its
  -- preallocated index file hold the headers of its blocks and zeros elsewhere; and let the block have
  -- an identifier of 36 bytes and a content of at most 2 MB. After `WriteBlocks` the slot of the block's old header still holds it, and no block of the partition is at that slot.
  pub write_blocks_rewritten :
      (a bytes : Bytes) (b : IdxBlock) (p : Partition fs)
      → IsSound disk p
      → idx_file_size ≤ disk.size p.idx_file
      → p.closed ≡ false
      → length p.blocks_map < partition_blocks_count
      → IsBlock (a, bytes)
      → lookup a p.blocks_map ≡ some b
      → IsMirrored disk p
      → (slots disk (write_blocks ((a, bytes) ∷ []) p).2.idx_file (b.offset / 44) ≡ marshal b)
        × IsVacant (b.offset / 44) (write_blocks ((a, bytes) ∷ []) p).2.blocks_map
  unfolding lookup with_block
  write_blocks_rewritten a bytes b p ok idx_fits opened room small there mirrored =
      let slot = free_slot p.blocks_map in
      let header = at_slot slot a (length bytes) in
      let free = free_slot_lem p.blocks_map room in
      let apart = is_block_allocated-lookup slot a b p.blocks_map free.0 there in
      let out = write_contents-singleton a bytes p ok room small in
      let idx =
        slots-write disk ((slot, header) ∷ []) p.idx_file (b.offset / 44) idx_fits
          ((free.1, small.0), tt) (refl, tt) in
      let elsewhere : header_or (lookup (b.offset / 44) ((slot, header) ∷ []))
            (slots disk p.idx_file (b.offset / 44))
          ≡ slots disk p.idx_file (b.offset / 44) =
        elim (Bool-cases (slot == b.offset / 44)) [
          | inl e ↦ absurd (apart (sym ((==_iff slot (b.offset / 44)).0 e)))
          | inr other ↦ rw other refl
        ] in
      rw (write_blocks-opened disk ((a, bytes) ∷ []) p opened, out)
        (
          idx ∙ elsewhere ∙ mirrored.header a b there,
          λ c x e. ground (
            arith,
            lookup-insert a c header p.blocks_map,
            bytes_eq_iff a c,
            ok.slotted.apart c a x b,
            apart,
            free.0,
          ),
        )
