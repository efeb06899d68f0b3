-- ===== src/Data/IdxFile/Loaded.antt =====
-- `Load` gives a map with one entry to a key.
use rhosus.Base.{
  ℕ, zero, suc, ◌+◌, ◌≡◌, inl, inr, Bytes, bytes_key, some, [], Dict, HasUniqueKeys,
  insert-HasUniqueKeys, arith, Option-cases,
}
use rhosus.Data.Files.{Files}
use rhosus.Data.IdxFile.{IdxBlock, add_slot, load_from, load, unmarshal, no_block}

add_slot-HasUniqueKeys :
    (bytes : Bytes) (offset : ℕ) (blocks r : Dict Bytes IdxBlock)
    → HasUniqueKeys blocks
    → add_slot bytes offset blocks ≡ some r
    → HasUniqueKeys r
unfolding add_slot
add_slot-HasUniqueKeys bytes offset blocks r unique e =
    elim (Option-cases (unmarshal bytes no_block)) [
      | inl panic ↦ ground (arith, panic)
      | inr (b, read) ↦ ground (
        arith,
        read,
        unique,
        insert-HasUniqueKeys b.id (record b { offset = offset }) blocks unique,
      )
    ]

module _ (fs : Files) where
  load_from-HasUniqueKeys :
      (k offset : ℕ) (f : fs.File) (blocks r : Dict Bytes IdxBlock)
      → HasUniqueKeys blocks
      → load_from fs k offset f blocks ≡ some r
      → HasUniqueKeys r
  unfolding load_from
  load_from-HasUniqueKeys zero offset f blocks r unique e = ground arith
  load_from-HasUniqueKeys (suc k) offset f blocks r unique e =
      let skip = load_from-HasUniqueKeys k (offset + 44) f blocks r unique in
      elim (Option-cases (add_slot (fs.read_at 44 offset f).0 offset blocks)) [
        | inl panic ↦ ground (arith, panic, skip)
        | inr (next, added) ↦ ground (
          arith,
          added,
          skip,
          load_from-HasUniqueKeys k (offset + 44) f next r
              (add_slot-HasUniqueKeys (fs.read_at 44 offset f).0 offset blocks next unique added),
        )
      ]

  pub load-HasUniqueKeys :
      (k : ℕ) (f : fs.File) (r : Dict Bytes IdxBlock) → load fs k f ≡ some r → HasUniqueKeys r
  unfolding load
  load-HasUniqueKeys k f r e = load_from-HasUniqueKeys k 0 f [] r tt e
