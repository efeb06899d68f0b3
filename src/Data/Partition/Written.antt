-- ===== src/Data/Partition/Written.antt =====
-- `WriteBlocks` and `ReadBlocks` as operations on a store of the blocks' contents.
use mathlib.Core.Option.{Option}
use rhosus.Base.{
  ℕ, ◌+◌, ◌≤◌, ◌≡◌, refl, Bytes, bytes_key, bytes_eq_iff, All-insert, subst, nat_key, false, none,
  some, [], ◌∷◌, length, HasUniqueKeys, Dict, lookup, arith, All, sym, ◌∙◌,
}
use rhosus.Data.Files.{Files, IsDisk}
use rhosus.Data.IdxFile.{IdxBlock, Err, default_block_size, partition_blocks_count, idx_file_size}
use rhosus.Data.IdxFile
use rhosus.Data.IdxFile.Written.{IsHeader, write_lem}
use rhosus.Data.Partition.{Partition, free_slot, write_contents, write_blocks}
use rhosus.Data.Partition.Slots.{free_slot_lem}
use rhosus.Data.Partition.Slotted.{at_slot}
use rhosus.Data.Partition.Stored.{
  stored, IsSound, with_block, stored-with_block, with_block-IsSound, with_block_rest,
  write_contents-∷, stored-idx_file,
}

-- A block that can be written: an identifier of 36 bytes, and a content of at most 2 MB.
abbrev pub IsBlock : Bytes × Bytes → Type 0
IsBlock x = (length x.0 ≡ 36) × (length x.1 ≤ default_block_size)

-- The first value, or else the second.
abbrev pub or_else : Option Bytes → Option Bytes → Option Bytes
or_else none o = o
or_else (some v) o = some v

module _ {fs : Files} (disk : IsDisk fs) where
  -- What the loop makes of a partition: each of the blocks stored, and the others as before.
  pub record Stores (r : Dict Bytes Err × Dict ℕ IdxBlock × Partition fs)
      (blocks : Dict Bytes Bytes) (errs : Dict Bytes Err) (p : Partition fs) : Type 0 where
    pub no_errors : r.0 ≡ errs
    pub headers : All IsHeader r.1
    pub sound : IsSound disk r.2
    pub still_open : r.2.closed ≡ p.closed
    pub same_idx : r.2.idx_file ≡ p.idx_file
    pub contents : (c : Bytes) → stored disk r.2 c ≡ or_else (lookup c blocks) (stored disk p c)

  -- The loop stores every block, and reports no error.
  pub write_contents_lem :
      (blocks : Dict Bytes Bytes) (errs : Dict Bytes Err) (idxs : Dict ℕ IdxBlock)
      (p : Partition fs)
      → IsSound disk p
      → length p.blocks_map + length blocks ≤ partition_blocks_count
      → All IsBlock blocks
      → HasUniqueKeys blocks
      → All IsHeader idxs
      → Stores (write_contents blocks errs idxs p) blocks errs p
  unfolding write_contents lookup
  write_contents_lem [] errs idxs p ok room small unique hs = record {
    no_errors = refl;
    headers = hs;
    sound = ok;
    still_open = refl;
    same_idx = refl;
    contents = λ c. refl;
  }
  write_contents_lem ((a, bytes) ∷ blocks) errs idxs p ok room small unique hs =
      let slot = free_slot p.blocks_map in
      let free = free_slot_lem p.blocks_map (omega arith) in
      let header = at_slot slot a (length bytes) in
      let p' = with_block disk a bytes p in
      let other = with_block_rest disk a bytes p in
      let idxs' = All-insert IsHeader slot header idxs (free.1, small.0.0) hs in
      let sound = with_block-IsSound disk a bytes p ok (omega arith) small.0.1 in
      let rest = write_contents_lem blocks errs _ p' sound (omega arith) small.1 unique.1 idxs' in
      let one = λ (c : Bytes). stored-with_block disk a bytes c p ok (omega arith) small.0.1 in
      let step = write_contents-∷ disk a bytes blocks errs idxs p ok (omega arith) small.0.1 in
      subst (λ r. Stores r ((a, bytes) ∷ blocks) errs p) (sym step)
        (record {
          no_errors = rest.no_errors;
          headers = rest.headers;
          sound = rest.sound;
          still_open = rest.still_open ∙ other.0;
          same_idx = rest.same_idx ∙ other.1;
          contents = λ c. ground (arith, rest.contents c, one c, bytes_eq_iff a c, unique.0);
        })

  pub write_blocks-opened :
      (blocks : Dict Bytes Bytes) (p : Partition fs)
      → p.closed ≡ false
      → write_blocks blocks p ≡ (
        (IdxFile.write fs
            (write_contents blocks [] [] p).1
            (write_contents blocks [] [] p).2.idx_file).0,
        (write_contents blocks [] [] p).0,
        record (write_contents blocks [] [] p).2 {
          idx_file =
              (IdxFile.write fs
                (write_contents blocks [] [] p).1
                (write_contents blocks [] [] p).2.idx_file).1;
        },
      )
  unfolding write_blocks
  write_blocks-opened blocks p opened = ground arith

  -- On a disk that does not fail, a sound and open partition with a preallocated index file and
  -- room for a batch of blocks, each with an identifier of 36 bytes and a content of at most 2 MB,
  -- stores every one without an error. Each other block keeps its content, the blocks keep slots of
  -- their own, and the partition is open.
  pub write_blocks-stored :
      (blocks : Dict Bytes Bytes) (p : Partition fs)
      → IsSound disk p
      → idx_file_size ≤ disk.size p.idx_file
      → p.closed ≡ false
      → length p.blocks_map + length blocks ≤ partition_blocks_count
      → All IsBlock blocks
      → HasUniqueKeys blocks
      → ((write_blocks blocks p).0 ≡ none)
        × ((write_blocks blocks p).1 ≡ [])
        × IsSound disk (write_blocks blocks p).2
        × ((write_blocks blocks p).2.closed ≡ false)
        × ((c : Bytes)
            → stored disk (write_blocks blocks p).2 c ≡ or_else (lookup c blocks) (stored disk p c))
  unfolding write_blocks
  write_blocks-stored blocks p ok idx_fits opened room small unique =
      let r = write_contents_lem blocks [] [] p ok room small unique tt in
      let fits = subst (λ f. idx_file_size ≤ disk.size f) (sym r.same_idx) idx_fits in
      let idxs = (write_contents blocks [] [] p).1 in
      let p' = (write_contents blocks [] [] p).2 in
      let synced = write_lem disk idxs p'.idx_file fits r.headers in
      subst
        (λ o.
          (o.0 ≡ none)
          × (o.1 ≡ [])
          × IsSound disk o.2
          × (o.2.closed ≡ false)
          × ((c : Bytes) → stored disk o.2 c ≡ or_else (lookup c blocks) (stored disk p c)))
        (sym (write_blocks-opened blocks p opened))
        (
          synced.0,
          r.no_errors,
          record { slotted = r.sound.slotted; preallocated = r.sound.preallocated },
          r.still_open ∙ opened,
          λ c. stored-idx_file disk c _ p' ∙ r.contents c,
        )
