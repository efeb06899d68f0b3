-- ===== src/Data/PartitionsMap/Room.antt =====
-- The watcher keeps a partition with room, and a random partition has room for a block.
use rhosus.Base.{
  ◌+◌, ◌↔◌, In, ap, sym, ◌∙◌, ℕ, zero, suc, ◌≤◌, ◌<◌, ◌≡◌, ◌≢◌, refl, inl, inr, ◌⊎◌, Bytes,
  bytes_key, bytes_eq_iff, true, false, not, ◌&&◌, none, some, List, [], ◌∷◌, length, get_elem?,
  Dict, lookup, insert, lookup-insert, HasUniqueKeys, ◌==◌, arith, Bool-cases,
}
use rhosus.Data.Files.{Files}
use rhosus.Data.IdxFile.{partition_blocks_count}
use rhosus.Data.Partition.{Partition, get_available_blocks}
use rhosus.Data.Manager.{new_partition, create_partition}
use rhosus.Data.Manager.Placement.{List-cases, get_elem?-lt}
use rhosus.Data.PartitionsMap.{
  has_enough_room, parts_available, watch_create_partitions, available_parts, candidates,
  get_random_partition,
}

get_elem?-∷_cases :
    (a b : Bytes) (i : ℕ) (xs : List Bytes)
    → get_elem? (b ∷ xs) i ≡ some a
    → (b ≡ a) ⊎ ((j : ℕ) × (get_elem? xs j ≡ some a))
get_elem?-∷_cases a b zero xs e = inl (ground arith)
get_elem?-∷_cases a b (suc j) xs e = inr (j, e)

module _ {fs : Files} where
  -- The partition is not full, and has room for 150 blocks.
  abbrev pub IsRoomy : Partition fs → Type 0
  IsRoomy p = (p.full ≡ false) × (length p.blocks_map + 150 ≤ 512)

  has_enough_room_iff : (p : Partition fs) → (has_enough_room p ≡ true) ↔ IsRoomy p
  unfolding has_enough_room
  has_enough_room_iff p = (λ h. (ground arith, ground arith), λ h. ground (arith, h.0, h.1))

  IsRoomy-cases :
      (parts : Dict Bytes (Partition fs))
      → ((b : Bytes) × (p : Partition fs) × In (b, p) parts × IsRoomy p)
        ⊎ (parts_available parts ≡ 0)
  unfolding parts_available
  IsRoomy-cases [] = inr refl
  IsRoomy-cases ((b, p) ∷ parts) = elim (Bool-cases (has_enough_room p)) [
    | inl room ↦ inl (b, p, inl refl, (has_enough_room_iff p).0 room)
    | inr full ↦ elim (IsRoomy-cases parts) [
      | inl (c, q, there, room) ↦ inl (c, q, inr there, room)
      | inr none_left ↦ inr (ground (arith, full, none_left))
    ]
  ]

  parts_available-In :
      (b : Bytes) (p : Partition fs) (parts : Dict Bytes (Partition fs))
      → In (b, p) parts
      → IsRoomy p
      → 1 ≤ parts_available parts
  unfolding parts_available
  parts_available-In b p [] there room = elim there [ ]
  parts_available-In b p ((c, q) ∷ parts) (inl e) room =
      let q_room : has_enough_room q ≡ true =
        ap (λ (x : Bytes × Partition fs). has_enough_room x.1) (sym e)
        ∙ (has_enough_room_iff p).1 room in
      ground (arith, q_room)
  parts_available-In b p ((c, q) ∷ parts) (inr there) room =
      omega (arith, parts_available-In b p parts there room)

  In-insert :
      (a : Bytes) (p : Partition fs) (parts : Dict Bytes (Partition fs))
      → In (a, p) (insert a p parts)
  unfolding insert
  In-insert a p [] = inl refl
  In-insert a p ((b, q) ∷ parts) = elim (Bool-cases (bytes_key.same b a)) [
    | inl e ↦ rw e (inl refl)
    | inr ne ↦ rw ne (inr (In-insert a p parts))
  ]

  unchanged :
      (b c : Bytes) (f g : fs.File) (p : Partition fs) (parts : Dict Bytes (Partition fs))
      → In (b, p) parts
      → IsRoomy p
      → watch_create_partitions (inr (c, f, g)) parts ≡ parts
  unfolding watch_create_partitions
  unchanged b c f g p parts there room =
      let some_room = parts_available-In b p parts there room in ground (arith, some_room)

  -- After a tick of the watcher that can make a partition, one at least of the partitions is not
  -- full and has room for 150 of its 512 blocks. If there was one before, the tick changes nothing, and
  -- the partitions of other names than the one that could be made are as before in any case.
  pub watch_create_partitions-IsRoomy :
      (a : Bytes) (f g : fs.File) (parts : Dict Bytes (Partition fs))
      → let parts' = watch_create_partitions (inr (a, f, g)) parts in
        ((b : Bytes) × (p : Partition fs) × In (b, p) parts' × IsRoomy p)
        × ((b : Bytes) (p : Partition fs) → In (b, p) parts → IsRoomy p → parts' ≡ parts)
        × ((b : Bytes) → a ≢ b → lookup b parts' ≡ lookup b parts)
  unfolding watch_create_partitions create_partition new_partition
  watch_create_partitions-IsRoomy a f g parts =
      let q = new_partition a f g in
      (
        elim (IsRoomy-cases parts) [
          | inl (b, p, there, room) ↦ (b, p, rw (unchanged b a f g p parts there room) there, room)
          | inr no_room ↦ (a, q, rw no_room (In-insert a q parts), (refl, omega arith))
        ],
        λ b p there room. unchanged b a f g p parts there room,
        λ b ne. ground (arith, lookup-insert a b q parts, bytes_eq_iff a b),
      )

  -- A partition that is not full and has a free slot.
  HasSlot : Partition fs → Type 0
  HasSlot p = (p.full ≡ false) × (length p.blocks_map ≢ partition_blocks_count)

  lookup-tail :
      (a b : Bytes) (p q : Partition fs) (parts : Dict Bytes (Partition fs))
      → lookup b parts ≡ none
      → lookup a parts ≡ some p
      → lookup a ((b, q) ∷ parts) ≡ some p
  unfolding lookup
  lookup-tail a b p q parts single e = ground (arith, bytes_eq_iff b a)

  available_parts_cases :
      (a b : Bytes) (i : ℕ) (q : Partition fs) (parts : Dict Bytes (Partition fs))
      → get_elem? (available_parts ((b, q) ∷ parts)) i ≡ some a
      → ((b ≡ a) × HasSlot q) ⊎ ((j : ℕ) × (get_elem? (available_parts parts) j ≡ some a))
  unfolding available_parts HasSlot
  available_parts_cases a b i q parts e =
      elim (Bool-cases (not q.full && not (length q.blocks_map == partition_blocks_count))) [
        | inr other ↦ inr (i, rw other at e)
        | inl room ↦ elim (get_elem?-∷_cases a b i (available_parts parts) (rw room at e)) [
          | inl eq ↦ inl (eq, (ground (arith, room), ground (arith, room)))
          | inr later ↦ inr later
        ]
      ]

  available_parts-HasSlot :
      (a : Bytes) (i : ℕ) (parts : Dict Bytes (Partition fs))
      → HasUniqueKeys parts
      → get_elem? (available_parts parts) i ≡ some a
      → (p : Partition fs) × (lookup a parts ≡ some p) × HasSlot p
  unfolding available_parts lookup
  available_parts-HasSlot a i [] unique e = ground arith
  available_parts-HasSlot a i ((b, q) ∷ parts) unique e =
      elim (available_parts_cases a b i q parts e) [
        | inl (eq, room) ↦ (q, ground (arith, eq, bytes_eq_iff b a), room)
        | inr (j, later) ↦
            let (p, there, room) = available_parts-HasSlot a j parts unique.1 later in
            (p, lookup-tail a b p q parts unique.0 there, room)
      ]

  -- Let the names of the partitions be unique, no partition have more than 512 blocks, a new one be
  -- made without an error, and the random number be below its bound. `getRandomPartition` then
  -- returns a partition of the map that is not full and has room for one block at least.
  pub get_random_partition-available :
      (rand : ℕ → ℕ) (a : Bytes) (f g : fs.File) (parts : Dict Bytes (Partition fs))
      → HasUniqueKeys parts
      → ((b : Bytes) (p : Partition fs)
          → lookup b parts ≡ some p
          → length p.blocks_map ≤ partition_blocks_count)
      → ((n : ℕ) → 0 < n → rand n < n)
      → (p : Partition fs) × (b : Bytes) × ((get_random_partition rand (inr (a, f, g)) parts).0
          ≡ inr (some p))
        × (lookup b (get_random_partition rand (inr (a, f, g)) parts).1 ≡ some p)
        × (p.full ≡ false)
        × (1 ≤ get_available_blocks p)
  unfolding get_random_partition candidates create_partition new_partition HasSlot
      get_available_blocks
  get_random_partition-available rand a f g parts unique few below =
      elim (List-cases (available_parts parts)) [
        | inl full ↦
            let q = new_partition a f g in
            (
              q,
              a,
              ground (arith, full, below 1, lookup-insert a a q parts, bytes_eq_iff a a),
              ground (arith, full, below 1, lookup-insert a a q parts, bytes_eq_iff a a),
              refl,
              omega arith,
            )
        | inr (b, ids, some_free) ↦
            let bound = below (suc (length ids)) (omega arith) in
            let (c, at) = get_elem?-lt (b ∷ ids) (rand (suc (length ids))) bound in
            let (p, there, room) =
              available_parts-HasSlot c (rand (suc (length ids))) parts unique (rw some_free at) in
            (
              p,
              c,
              ground (arith, some_free, at, there),
              ground (arith, some_free, at, there),
              room.0,
              omega (arith, room.1, few c p there),
            )
      ]
