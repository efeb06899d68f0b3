-- ===== src/Data/Manager/Placement.antt =====
-- Where `Manager.WriteBlocks` puts blocks: what it reports is what the sinks get.
use mathlib.Core.List.{append-nil, append_assoc}
use rhosus.Base.{
  ℕ, zero, suc, ◌%◌, ◌<◌, ◌≡◌, refl, ◌⊎◌, inl, inr, Bytes, bytes_key, bytes_eq_iff, Bool, false,
  some, List, [], ◌∷◌, ◌++◌, length, get_elem?, Dict, same, lookup, lookup-insert, arith,
  if◌then◌else◌, ap, sym, ◌∙◌, Bool-cases,
}
use rhosus.Data.Files.{Files}
use rhosus.Data.Partition.{Partition, BlockPlacementInfo, Block}
use rhosus.Data.Manager.{
  Manager, Sinks, queue, send_to, place, write_blocks, open_partitions, get_not_full_partitions,
}

ids : List Block → List Bytes
ids [] = []
ids (b ∷ bs) = b.id ∷ ids bs

ids-append : (xs ys : List Block) → ids (xs ++ ys) ≡ ids xs ++ ids ys
unfolding ids
ids-append [] ys = refl
ids-append (x ∷ xs) ys = ap (◌∷◌ x.id) (ids-append xs ys)

-- The identifiers of the blocks that wait in the sink of a partition, in order.
pub waiting : Bytes → Sinks → List Bytes
unfolding ids queue
waiting part sinks = ids (queue (lookup part sinks))

-- The blocks that a placement reports for a partition, in order.
pub reported : Bytes → List BlockPlacementInfo → List Bytes
reported part [] = []
reported part (i ∷ is) =
    let rest = reported part is in if same i.partition_id part then i.block_id ∷ rest else rest

pub List-cases : (xs : List Bytes) → (xs ≡ []) ⊎ ((y : Bytes) × (ys : List Bytes) × (xs ≡ y ∷ ys))
List-cases [] = inl refl
List-cases (y ∷ ys) = inr (y, ys, refl)

pub get_elem?-lt {ℓ} :
    {A : Type ℓ} (xs : List A) (i : ℕ) → i < length xs → (x : A) × (get_elem? xs i ≡ some x)
get_elem?-lt [] i lt = ground arith
get_elem?-lt (x ∷ xs) zero lt = (x, refl)
get_elem?-lt (x ∷ xs) (suc i) lt = get_elem?-lt xs i (omega arith)

waiting-send_to :
    (part to : Bytes) (block : Block) (sinks : Sinks)
    → waiting part (send_to to block sinks)
      ≡ waiting part sinks ++ (if same to part then block.id ∷ [] else [])
unfolding waiting send_to
waiting-send_to part to block sinks =
    let q = queue (lookup to sinks) ++ block ∷ [] in
    elim (Bool-cases (same to part)) [
      | inl e ↦ rw e (
          ap (λ o. ids (queue o)) (rw e at (lookup-insert to part q sinks))
          ∙ ids-append (queue (lookup to sinks)) (block ∷ [])
          ∙ ap (λ a. ids (queue (lookup a sinks)) ++ block.id ∷ []) ((bytes_eq_iff to part).0 e))
      | inr e ↦
          rw e
            (ap (λ o. ids (queue o)) (rw e at (lookup-insert to part q sinks)) ∙ sym (append-nil _))
    ]

mod-lt : (i n : ℕ) → 0 < n → i % n < n
mod-lt i n pos = omega arith

reported-∷ :
    (part to : Bytes) (block : Block) (placement : List BlockPlacementInfo)
    → (if same to part then block.id ∷ [] else []) ++ reported part placement
      ≡ reported part (record { block_id = block.id; partition_id = to } ∷ placement)
unfolding reported
reported-∷ part to block placement = elim (Bool-cases (same to part)) [
  | inl e ↦ rw e refl
  | inr e ↦ rw e refl
]

waiting-reported :
    (part to : Bytes) (block : Block) (sinks : Sinks) (placement : List BlockPlacementInfo)
    → waiting part (send_to to block sinks) ++ reported part placement
      ≡ waiting part sinks
        ++ reported part (record { block_id = block.id; partition_id = to } ∷ placement)
waiting-reported part to block sinks placement =
    let one : List Bytes = if same to part then block.id ∷ [] else [] in
    ap (λ w. w ++ reported part placement) (waiting-send_to part to block sinks)
    ∙ append_assoc (waiting part sinks) one (reported part placement)
    ∙ ap (λ w. waiting part sinks ++ w) (reported-∷ part to block placement)

place-reported :
    (taken : ℕ → Bool) (parts : List Bytes) (i : ℕ) (blocks : List Block) (sinks : Sinks)
    → 0 < length parts
    → (placement : List BlockPlacementInfo) × (sinks' : Sinks) × (place taken parts i blocks sinks
        ≡ some (placement, sinks'))
      × ((part : Bytes) → waiting part sinks' ≡ waiting part sinks ++ reported part placement)
unfolding place reported
place-reported taken parts i [] sinks some_part = ([], sinks, refl, λ part. sym (append-nil _))
place-reported taken parts i (block ∷ blocks) sinks some_part =
    let (to, found) = get_elem?-lt parts (i % length parts) (mod-lt i (length parts) some_part) in
    elim (Bool-cases (taken i)) [
      | inl yes_i ↦
          let (placement, sinks', ran, all) =
            place-reported taken parts (suc i) blocks (send_to to block sinks) some_part in
          (
            record { block_id = block.id; partition_id = to } ∷ placement,
            sinks',
            ground (arith, found, ran),
            λ part. all part ∙ waiting-reported part to block sinks placement,
          )
      | inr no_i ↦
          let (placement, sinks', ran, all) =
            place-reported taken parts (suc i) blocks sinks some_part in
          (placement, sinks', ground (arith, found, ran), all)
    ]

open_partitions-some :
    {fs : Files} (a : Bytes) (file idx : fs.File) (parts : Dict Bytes (Partition fs))
    → (ids : List Bytes) × ((open_partitions (inr (a, file, idx)) parts).0 ≡ inr ids)
      × (0 < length ids)
unfolding open_partitions
open_partitions-some a file idx parts = elim (List-cases (get_not_full_partitions parts)) [
  | inl e ↦ (a ∷ [], ground (arith, e), omega arith)
  | inr (b, bs, e) ↦ (b ∷ bs, ground (arith, e), omega arith)
]

-- Where a new partition can be made, a write to a manager that is up does not panic and returns no
-- error, whichever sinks take their blocks in time; each sink gets exactly the blocks that the
-- placement reports for its partition, in that order, behind what waits there.
pub write_blocks-reported :
    {fs : Files} (a : Bytes) (file idx : fs.File) (taken : ℕ → Bool) (blocks : List Block)
    (sinks : Sinks) (m : Manager fs)
    → m.shutdown ≡ false
    → (placement : List BlockPlacementInfo) × (sinks' : Sinks) × (m' : Manager fs) × (write_blocks
          (inr (a, file, idx))
          taken
          blocks
          sinks
          m
        ≡ some (inr placement, sinks', m'))
      × ((part : Bytes) → waiting part sinks' ≡ waiting part sinks ++ reported part placement)
unfolding write_blocks
write_blocks-reported a file idx taken blocks sinks m up =
    let (ids, opened, some_part) = open_partitions-some a file idx m.parts in
    let (placement, sinks', ran, all) = place-reported taken ids 0 blocks sinks some_part in
    (
      placement,
      sinks',
      record m { parts = (open_partitions (inr (a, file, idx)) m.parts).1 },
      ground (arith, opened, ran),
      all,
    )
