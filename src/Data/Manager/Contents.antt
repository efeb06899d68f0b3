-- ===== src/Data/Manager/Contents.antt =====
-- The manager as a store of contents by partition and block.
use rhosus.Base.{
  ◌≡◌, ◌≢◌, refl, inl, inr, Bytes, bytes_key, bytes_eq_iff, Bool, false, ◌&&◌, ◌||◌, Option, none,
  some, List, [], ◌∷◌, Dict, same, lookup, insert, lookup-insert, lookup-insert-cases, All, arith,
  if◌then◌else◌, sym, subst, Option-cases,
}
use rhosus.Data.Files.{Files, IsDisk}
use rhosus.Data.IdxFile.{not_found}
use rhosus.Data.Partition
use rhosus.Data.Partition.{Partition, BlockPlacementInfo, Block}
use rhosus.Data.Partition.Stored.{stored, IsSound}
use rhosus.Data.Partition.Reads.{block_of, read_blocks-stored, remove_blocks-stored}
use rhosus.Data.Manager.{Manager, get_partition, remove_from, remove_blocks, read_block}

-- The removal of the block `c` from the partition `part` is asked for.
abbrev pub names : Bytes → Bytes → List BlockPlacementInfo → Bool
names part c [] = false
names part c (i ∷ is) = same i.partition_id part && same i.block_id c || names part c is

module _ {fs : Files} (disk : IsDisk fs) where
  -- The abstract view: a block's content by its partition and its identifier.
  unfoldable pub content : Dict Bytes (Partition fs) → Bytes → Bytes → Option Bytes
  content parts part c = elim (lookup part parts) [ none ↦ none | some p ↦ stored disk p c ]

  -- Each partition is sound and open.
  abbrev pub AreOpen : Dict Bytes (Partition fs) → Type 0
  AreOpen parts =
      (part : Bytes) (p : Partition fs)
      → lookup part parts ≡ some p
      → IsSound disk p × (p.closed ≡ false)

  abbrev pub IsKnown : Dict Bytes (Partition fs) → BlockPlacementInfo → Type 0
  IsKnown parts i = lookup i.partition_id parts ≢ none

  -- On a disk that does not fail, with sound and open partitions, a manager that is up reads a block
  -- of a known partition with its content, empty if the block is unknown, and answers that a
  -- partition is not found if it is unknown.
  pub read_block-content :
      (i : BlockPlacementInfo) (m : Manager fs)
      → AreOpen m.parts
      → m.shutdown ≡ false
      → read_block i m ≡ elim (lookup i.partition_id m.parts) [
        | none ↦ inl not_found
        | some p ↦ inr (some (block_of i.block_id (stored disk p i.block_id)))
      ]
  unfolding read_block get_partition
  read_block-content i m ok up = elim (Option-cases (lookup i.partition_id m.parts)) [
    | inl e ↦ ground (arith, e)
    | inr (p, e) ↦
        let (sound, opened) = ok i.partition_id p e in
        let (result, read, all) = read_blocks-stored disk (i ∷ []) p sound opened in
        ground (arith, e, read, all i.block_id, bytes_eq_iff i.block_id i.block_id)
  ]

  -- The map after the removal of one block from the partition `p`.
  removed :
      BlockPlacementInfo → Partition fs → Dict Bytes (Partition fs) → Dict Bytes (Partition fs)
  removed i p parts = insert i.partition_id (Partition.remove_blocks (i ∷ []) p).1 parts

  remove_from-∷ :
      (i : BlockPlacementInfo) (is : List BlockPlacementInfo) (p : Partition fs)
      (parts : Dict Bytes (Partition fs))
      → AreOpen parts
      → lookup i.partition_id parts ≡ some p
      → remove_from (i ∷ is) parts ≡ remove_from is (removed i p parts)
  unfolding remove_from get_partition removed
  remove_from-∷ i is p parts ok e =
      let (sound, opened) = ok i.partition_id p e in
      ground (arith, e, (remove_blocks-stored disk (i ∷ []) p sound opened).0)

  removed-AreOpen :
      (i : BlockPlacementInfo) (p : Partition fs) (parts : Dict Bytes (Partition fs))
      → AreOpen parts
      → lookup i.partition_id parts ≡ some p
      → AreOpen (removed i p parts)
  unfolding removed
  removed-AreOpen i p parts ok e part q at_q =
      let (sound, opened) = ok i.partition_id p e in
      let (_, sound', opened', _) = remove_blocks-stored disk (i ∷ []) p sound opened in
      elim (lookup-insert-cases i.partition_id part _ q parts at_q) [
        | inl new ↦ subst (λ r. IsSound disk r × (r.closed ≡ false)) new (sound', opened')
        | inr old ↦ ok part q old
      ]

  content-removed :
      (i : BlockPlacementInfo) (p : Partition fs) (parts : Dict Bytes (Partition fs))
      (part c : Bytes)
      → AreOpen parts
      → lookup i.partition_id parts ≡ some p
      → content (removed i p parts) part c
        ≡ (if same i.partition_id part && same i.block_id c then none else content parts part c)
  unfolding removed content
  content-removed i p parts part c ok e =
      let (sound, opened) = ok i.partition_id p e in
      let after = (remove_blocks-stored disk (i ∷ []) p sound opened).3 c in
      ground (
        arith,
        e,
        after,
        lookup-insert i.partition_id part (Partition.remove_blocks (i ∷ []) p).1 parts,
        bytes_eq_iff i.partition_id part,
      )

  removed-IsKnown :
      (i j : BlockPlacementInfo) (p : Partition fs) (parts : Dict Bytes (Partition fs))
      → IsKnown parts j
      → IsKnown (removed i p parts) j
  unfolding removed
  removed-IsKnown i j p parts known e = known (
      ground (
        arith,
        e,
        lookup-insert i.partition_id j.partition_id (Partition.remove_blocks (i ∷ []) p).1 parts,
      ))

  All-IsKnown :
      (is : List BlockPlacementInfo) (i : BlockPlacementInfo) (p : Partition fs)
      (parts : Dict Bytes (Partition fs))
      → All (IsKnown parts) is
      → All (IsKnown (removed i p parts)) is
  All-IsKnown [] i p parts h = tt
  All-IsKnown (j ∷ is) i p parts h = (removed-IsKnown i j p parts h.0, All-IsKnown is i p parts h.1)

  remove_from-content :
      (is : List BlockPlacementInfo) (parts : Dict Bytes (Partition fs))
      → AreOpen parts
      → All (IsKnown parts) is
      → ((remove_from is parts).0 ≡ none)
        × ((part c : Bytes)
            → content (remove_from is parts).1 part c
              ≡ (if names part c is then none else content parts part c))
  unfolding remove_from
  remove_from-content [] parts ok known = (refl, λ part c. refl)
  remove_from-content (i ∷ is) parts ok known = elim (Option-cases (lookup i.partition_id parts)) [
    | inl e ↦ absurd (known.0 e)
    | inr (p, e) ↦
        let parts' = removed i p parts in
        let rest =
          remove_from-content is parts' (removed-AreOpen i p parts ok e)
            (All-IsKnown is i p parts known.1) in
        subst
          (λ r.
            (r.0 ≡ none)
            × ((part c : Bytes)
                → content r.1 part c
                  ≡ (if names part c (i ∷ is) then none else content parts part c)))
          (sym (remove_from-∷ i is p parts ok e))
          (rest.0, λ part c. ground (arith, rest.1 part c, content-removed i p parts part c ok e))
  ]

  remove_blocks-up :
      (is : List BlockPlacementInfo) (m : Manager fs)
      → m.shutdown ≡ false
      → remove_blocks is m
        ≡ ((remove_from is m.parts).0, record m { parts = (remove_from is m.parts).1 })
  unfolding remove_blocks
  remove_blocks-up is m up = ground arith

  -- On a disk that does not fail, with sound and open partitions, a manager that is up removes blocks
  -- of known partitions without an error: exactly the blocks that are asked for, each in the partition
  -- that is asked for, are unknown afterwards, and the others keep their contents.
  pub remove_blocks-content :
      (is : List BlockPlacementInfo) (m : Manager fs)
      → AreOpen m.parts
      → m.shutdown ≡ false
      → All (IsKnown m.parts) is
      → ((remove_blocks is m).0 ≡ none)
        × ((part c : Bytes)
            → content (remove_blocks is m).1.parts part c
              ≡ (if names part c is then none else content m.parts part c))
  unfolding remove_blocks
  remove_blocks-content is m ok up known =
      subst
        (λ r.
          (r.0 ≡ none)
          × ((part c : Bytes)
              → content r.1.parts part c
                ≡ (if names part c is then none else content m.parts part c)))
        (sym (remove_blocks-up is m up)) (remove_from-content is m.parts ok known)
