-- ===== src/Data/Partition/Slots.antt =====
-- The scan for a free slot: a partition that is not full has one.
use rhosus.Base.{
  Bool-cases, dec_lt, subst, ℕ, zero, suc, ◌+◌, ◌/◌, ◌≤◌, ◌<◌, ◌≡◌, ◌≢◌, ◌⊎◌, inl, inr, Bytes,
  bytes_key, true, false, some, [], ◌∷◌, length, Dict, lookup, ◌==◌, arith, if◌then◌else◌,
}
use rhosus.Data.IdxFile.{IdxBlock, partition_blocks_count}
use rhosus.Data.Partition.{is_block_allocated, scan_slots, free_slot}

-- The entries that are not at slot `n`.
without : ℕ → Dict Bytes IdxBlock → Dict Bytes IdxBlock
without n [] = []
without n ((a, el) ∷ m) =
    let rest = without n m in if el.offset / 44 == n then rest else (a, el) ∷ rest

length-without_le : (n : ℕ) (m : Dict Bytes IdxBlock) → length (without n m) ≤ length m
unfolding without
length-without_le n [] = omega arith
length-without_le n ((a, el) ∷ m) = ground (arith, length-without_le n m)

length-without :
    (n : ℕ) (m : Dict Bytes IdxBlock)
    → is_block_allocated n m ≡ true
    → suc (length (without n m)) ≤ length m
unfolding without is_block_allocated
length-without n [] h = ground arith
length-without n ((a, el) ∷ m) h = ground (arith, length-without n m, length-without_le n m)

is_block_allocated-without :
    (i n : ℕ) (m : Dict Bytes IdxBlock)
    → i ≢ n
    → is_block_allocated i m ≡ true
    → is_block_allocated i (without n m) ≡ true
unfolding without is_block_allocated
is_block_allocated-without i n [] ne h = h
is_block_allocated-without i n ((a, el) ∷ m) ne h = ground (arith, is_block_allocated-without i n m)

-- Pigeonholes: a map with an entry at each of the first `k` slots has at least `k` entries.
le_length :
    (k : ℕ) (m : Dict Bytes IdxBlock)
    → ((i : ℕ) → i < k → is_block_allocated i m ≡ true)
    → k ≤ length m
le_length zero m h = omega arith
le_length (suc k) m h = omega (
  arith,
  length-without k m (h k (omega arith)),
  le_length k (without k m)
      (λ i lt. is_block_allocated-without i k m (λ e. omega arith) (h i (omega arith))),
)

-- The scan finds a free slot, or each slot that it visits is taken.
scan_slots_cases :
    (k n : ℕ) (m : Dict Bytes IdxBlock)
    → ((is_block_allocated (scan_slots k n m) m ≡ false) × (scan_slots k n m < n + k))
      ⊎ ((i : ℕ) → n ≤ i → i < n + k → is_block_allocated i m ≡ true)
unfolding scan_slots
scan_slots_cases zero n m = inr (λ i lo hi. ground arith)
scan_slots_cases (suc k) n m = elim (Bool-cases (is_block_allocated n m)) [
  | inr free ↦ rw free (inl (free, omega arith))
  | inl taken ↦ elim (scan_slots_cases k (suc n) m) [
    | inl found ↦ rw taken (inl (found.0, omega (arith, found.1)))
    | inr others ↦ inr (λ i lo hi. elim (dec_lt n i) [
      | yes gt ↦ others i (omega arith) (omega arith)
      | no ne ↦ subst (λ j. is_block_allocated j m ≡ true) (omega arith) taken
    ])
  ]
]

pub free_slot_lem :
    (m : Dict Bytes IdxBlock)
    → length m < partition_blocks_count
    → (is_block_allocated (free_slot m) m ≡ false) × (free_slot m < partition_blocks_count)
unfolding free_slot
free_slot_lem m room = elim (scan_slots_cases partition_blocks_count 0 m) [
  | inl found ↦ found
  | inr taken ↦
      ground (arith, le_length partition_blocks_count m (λ i lt. taken i (omega arith) lt))
]

-- A slot that is not allocated belongs to no block.
pub is_block_allocated-lookup :
    (n : ℕ) (a : Bytes) (b : IdxBlock) (m : Dict Bytes IdxBlock)
    → is_block_allocated n m ≡ false
    → lookup a m ≡ some b
    → b.offset / 44 ≢ n
unfolding is_block_allocated lookup
is_block_allocated-lookup n a b [] free e = ground arith
is_block_allocated-lookup n a b ((c, el) ∷ m) free e =
    ground (arith, is_block_allocated-lookup n a b m)
