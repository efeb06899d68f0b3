-- ===== src/Data/Partition/Stored.antt =====
-- A partition on a disk that does not fail, seen as a store of the blocks' contents.
use mathlib.Core.Option
use mathlib.Core.Option.{Option}
use rhosus.Base.{
  ℕ, suc, ◌+◌, ◌*◌, ◌/◌, ◌≤◌, ◌<◌, ◌≡◌, ◌≢◌, refl, Bytes, bytes_key, nat_key, Bool, true, false,
  none, some, ◌∷◌, length, Dict, same, lookup, insert, lookup-insert, arith, if◌then◌else◌, ap, ◌∙◌,
  length-insert-le,
}
use rhosus.Data.Files.{Files, IsDisk, slice}
use rhosus.Data.Files.Slices.{slice-write_self, slice-write_apart}
use rhosus.Data.IdxFile.{
  IdxBlock, Err, default_block_size, default_partition_size, partition_blocks_count,
}
use rhosus.Data.Partition.{Partition, free_slot, add_header, write_block_contents, write_contents}
use rhosus.Data.Partition.Slots.{free_slot_lem, is_block_allocated-lookup}
use rhosus.Data.Partition.Slotted.{IsSlotted, at_slot, insert-IsSlotted}

map-if :
    (f g : IdxBlock → Bytes) (b : IdxBlock) (x : Bytes) (t : Bool) (o : Option IdxBlock)
    → f b ≡ x
    → ((c : IdxBlock) → o ≡ some c → f c ≡ g c)
    → Option.map f (if t then some b else o) ≡ (if t then some x else Option.map g o)
map-if f g b x true o e h = ap some e
map-if f g b x false none e h = refl
map-if f g b x false (some c) e h = ap some (h c refl)

module _ {fs : Files} (disk : IsDisk fs) where
  -- The bytes at the slot that a header names.
  abbrev pub at_header : fs.File → IdxBlock → Bytes
  at_header f b = slice (disk.byte f) (b.offset / 44 * 2097152) b.size

  -- The contents of a block: the abstract view of a partition.
  pub stored : Partition fs → Bytes → Option Bytes
  stored p a = Option.map (at_header p.file) (lookup a p.blocks_map)

  pub stored_eq :
      (c : Bytes) (o : Option IdxBlock) (p : Partition fs)
      → lookup c p.blocks_map ≡ o
      → stored p c ≡ Option.map (at_header p.file) o
  unfolding stored
  stored_eq c o p e = ap (Option.map (at_header p.file)) e

  pub stored-idx_file :
      (c : Bytes) (f : fs.File) (p : Partition fs)
      → stored (record p { idx_file = f }) c ≡ stored p c
  unfolding stored
  stored-idx_file c f p = refl

  -- A sound partition: its blocks are at slots of their own, and its file is preallocated.
  pub record IsSound (p : Partition fs) : Type 0 where
    pub slotted : IsSlotted p.blocks_map
    pub preallocated : default_partition_size ≤ disk.size p.file

  -- The partition with one more block.
  unfoldable pub with_block : Bytes → Bytes → Partition fs → Partition fs
  unfolding add_header
  with_block a bytes p =
      let slot = free_slot p.blocks_map in
      (add_header slot a bytes
        (record p { file = (fs.write_at bytes (slot * default_block_size) p.file).2 })).1

  pub with_block_rest :
      (a bytes : Bytes) (p : Partition fs)
      → ((with_block a bytes p).closed ≡ p.closed)
        × ((with_block a bytes p).idx_file ≡ p.idx_file)
        × (length (with_block a bytes p).blocks_map ≤ suc (length p.blocks_map))
  unfolding with_block add_header
  with_block_rest a bytes p = (
    refl,
    refl,
    length-insert-le a (at_slot (free_slot p.blocks_map) a (length bytes)) p.blocks_map,
  )

  with_block-fits :
      (bytes : Bytes) (p : Partition fs)
      → IsSound p
      → length p.blocks_map < partition_blocks_count
      → length bytes ≤ default_block_size
      → free_slot p.blocks_map * default_block_size + length bytes ≤ disk.size p.file
  with_block-fits bytes p ok room small =
      omega (arith, free_slot_lem p.blocks_map room, ok.preallocated)

  pub with_block-IsSound :
      (a bytes : Bytes) (p : Partition fs)
      → IsSound p
      → length p.blocks_map < partition_blocks_count
      → length bytes ≤ default_block_size
      → IsSound (with_block a bytes p)
  unfolding with_block add_header
  with_block-IsSound a bytes p ok room small = record {
    slotted = insert-IsSlotted a (length bytes) p.blocks_map ok.slotted room small;
    preallocated = omega (
      arith,
      disk.size-write bytes (free_slot p.blocks_map * default_block_size) p.file
          (with_block-fits bytes p ok room small),
      ok.preallocated,
    );
  }

  -- The bytes of a block stay where they are when another slot is written.
  at_header-apart :
      (slot : ℕ) (bytes : Bytes) (b : IdxBlock) (f : fs.File)
      → slot * default_block_size + length bytes ≤ disk.size f
      → length bytes ≤ default_block_size
      → b.size ≤ default_block_size
      → b.offset / 44 ≢ slot
      → at_header (fs.write_at bytes (slot * default_block_size) f).2 b ≡ at_header f b
  at_header-apart slot bytes b f fits small small_b ne =
      slice-write_apart disk bytes (slot * default_block_size) (b.offset / 44 * 2097152) b.size f
        fits (ground arith)

  pub stored-with_block :
      (a bytes c : Bytes) (p : Partition fs)
      → IsSound p
      → length p.blocks_map < partition_blocks_count
      → length bytes ≤ default_block_size
      → stored (with_block a bytes p) c ≡ (if same a c then some bytes else stored p c)
  unfolding with_block add_header stored
  stored-with_block a bytes c p ok room small =
      let slot = free_slot p.blocks_map in
      let header = at_slot slot a (length bytes) in
      let f = (fs.write_at bytes (slot * default_block_size) p.file).2 in
      let fits = with_block-fits bytes p ok room small in
      let free = free_slot_lem p.blocks_map room in
      let slot_eq : slot * 44 / 44 ≡ slot = omega arith in
      ap (Option.map (at_header f)) (lookup-insert a c header p.blocks_map)
      ∙ map-if (at_header f) (at_header p.file) header bytes (same a c) (lookup c p.blocks_map)
          (ap (λ s. slice (disk.byte f) (s * 2097152) (length bytes)) slot_eq
            ∙ slice-write_self disk bytes (slot * default_block_size) p.file fits)
          (λ b e.
            at_header-apart slot bytes b p.file fits small (ok.slotted.size_le c b e)
              (is_block_allocated-lookup slot c b p.blocks_map free.0 e))

  -- Where the disk takes a block, the loop goes on with the block stored.
  pub write_contents-∷ :
      (a bytes : Bytes) (blocks : Dict Bytes Bytes) (errs : Dict Bytes Err) (idxs : Dict ℕ IdxBlock)
      (p : Partition fs)
      → IsSound p
      → length p.blocks_map < partition_blocks_count
      → length bytes ≤ default_block_size
      → write_contents ((a, bytes) ∷ blocks) errs idxs p
        ≡ write_contents blocks errs
            (insert
              (free_slot p.blocks_map)
              (at_slot (free_slot p.blocks_map) a (length bytes))
              idxs)
            (with_block a bytes p)
  unfolding write_contents with_block add_header write_block_contents
  write_contents-∷ a bytes blocks errs idxs p ok room small =
      let slot = free_slot p.blocks_map in
      let fits = with_block-fits bytes p ok room small in
      let written = disk.write_ok bytes (slot * default_block_size) p.file fits in
      let synced = disk.sync_ok (fs.write_at bytes (slot * default_block_size) p.file).2 in
      ground (arith, written, synced)
