-- ===== src/Data/IdxFile/Restart.antt =====
-- A restart: `Load` on a disk that does not fail gets back the map that the headers mirror.
use rhosus.Base.{
  ℕ, zero, suc, ◌+◌, ◌*◌, ◌/◌, ◌^◌, ◌≤◌, ◌<◌, ◌≡◌, ◌≢◌, refl, ◌⊎◌, inl, inr, Bytes, bytes_key,
  bytes_eq_iff, true, false, Option, none, some, [], length, Dict, lookup, insert, lookup-insert,
  arith, ltb, if◌then◌else◌, ap, sym, ◌∙◌, subst,
}
use rhosus.Data.Files.{Files, IsDisk, slice}
use rhosus.Data.IdxFile.{
  IdxBlock, marshal, is_bytes_all_zeros, no_block, add_slot, load_from, load, idx_file_size,
  partition_blocks_count,
}
use rhosus.Data.IdxFile.Codec.{unmarshal-marshal}

-- A header that can be told from an empty slot and is read back.
pub record IsStorable (a : Bytes) (b : IdxBlock) : Type 0 where
  pub own_id : b.id ≡ a
  pub id_length : length b.id ≡ 36
  pub size_lt : b.size < 2 ^ 64
  pub nonzero : is_bytes_all_zeros (marshal b) ≡ false

-- What the file holds at slot `n`: the header of the one block there, or zeros if there is none.
abbrev pub Mirrors : (ℕ → ℕ) → Dict Bytes IdxBlock → ℕ → Type 0
Mirrors byte m n =
    ((a : Bytes) × (b : IdxBlock) × (lookup a m ≡ some b)
      × (b.offset ≡ n * 44)
      × (slice byte (n * 44) 44 ≡ marshal b))
    ⊎ (((a : Bytes) (b : IdxBlock) → lookup a m ≡ some b → b.offset / 44 ≢ n)
        × (is_bytes_all_zeros (slice byte (n * 44) 44) ≡ true))

-- The part of a map at the slots below `n`.
below : ℕ → Option IdxBlock → Option IdxBlock
below n none = none
below n (some b) = if ltb (b.offset / 44) n then some b else none

insert-below :
    (a c : Bytes) (b : IdxBlock) (n : ℕ) (m blocks : Dict Bytes IdxBlock) (o : Option IdxBlock)
    → lookup c m ≡ o
    → lookup a m ≡ some b
    → b.offset / 44 ≡ n
    → lookup c blocks ≡ below n o
    → ((y : IdxBlock) → lookup c m ≡ some y → y.offset / 44 ≡ n → a ≡ c)
    → lookup c (insert a b blocks) ≡ below (suc n) o
unfolding below
insert-below a c b n m blocks none e_c e at_n loaded only =
    ground (arith, lookup-insert a c b blocks, bytes_eq_iff a c)
insert-below a c b n m blocks (some y) e_c e at_n loaded only =
    ground (arith, lookup-insert a c b blocks, bytes_eq_iff a c, only y e_c)

below-suc :
    (n : ℕ) (o : Option IdxBlock)
    → ((b : IdxBlock) → o ≡ some b → b.offset / 44 ≢ n)
    → below (suc n) o ≡ below n o
unfolding below
below-suc n none h = refl
below-suc n (some b) h = ground (arith, h b refl)

below-zero : (o : Option IdxBlock) → below 0 o ≡ none
unfolding below
below-zero none = refl
below-zero (some b) = ground arith

below-all :
    (o : Option IdxBlock)
    → ((b : IdxBlock) → o ≡ some b → b.offset / 44 < partition_blocks_count)
    → below partition_blocks_count o ≡ o
unfolding below
below-all none h = refl
below-all (some b) h = ground (arith, h b refl)

add_slot_header :
    (a : Bytes) (b : IdxBlock) (n : ℕ) (blocks : Dict Bytes IdxBlock)
    → IsStorable a b
    → b.offset ≡ n * 44
    → add_slot (marshal b) (n * 44) blocks ≡ some (insert a b blocks)
unfolding add_slot
add_slot_header a b n blocks ok at =
    ground (arith, ok.nonzero, unmarshal-marshal b no_block ok.id_length ok.size_lt, ok.own_id)

add_slot_zeros :
    (bytes : Bytes) (offset : ℕ) (blocks : Dict Bytes IdxBlock)
    → is_bytes_all_zeros bytes ≡ true
    → add_slot bytes offset blocks ≡ some blocks
unfolding add_slot
add_slot_zeros bytes offset blocks zeros = ground arith

module _ {fs : Files} (disk : IsDisk fs) (f : fs.File) (m : Dict Bytes IdxBlock)
    (storable : (a : Bytes) (b : IdxBlock) → lookup a m ≡ some b → IsStorable a b)
    (slot_lt : (a : Bytes) (b : IdxBlock)
      → lookup a m ≡ some b
      → b.offset / 44 < partition_blocks_count)
    (apart : (a c : Bytes) (x y : IdxBlock)
      → lookup a m ≡ some x
      → lookup c m ≡ some y
      → x.offset / 44 ≡ y.offset / 44
      → a ≡ c)
    (mirrors : (n : ℕ) → n < partition_blocks_count → Mirrors (disk.byte f) m n)
    (fits : disk.size f ≡ idx_file_size) where
  -- The blocks that are loaded when the first `n` slots are read.
  AreLoaded : ℕ → Dict Bytes IdxBlock → Type 0
  AreLoaded n blocks = (c : Bytes) → lookup c blocks ≡ below n (lookup c m)

  add_slot-AreLoaded :
      (n : ℕ) (blocks : Dict Bytes IdxBlock)
      → n < partition_blocks_count
      → AreLoaded n blocks
      → (next : Dict Bytes IdxBlock) × (add_slot (slice (disk.byte f) (n * 44) 44) (n * 44) blocks
          ≡ some next)
        × AreLoaded (suc n) next
  unfolding AreLoaded
  add_slot-AreLoaded n blocks lt loaded = elim (mirrors n lt) [
    | inl (a, b, e, at, s) ↦ (
      insert a b blocks,
      ap (λ t. add_slot t (n * 44) blocks) s ∙ add_slot_header a b n blocks (storable a b e) at,
      λ c.
          insert-below a c b n m blocks (lookup c m) refl e (omega arith) (loaded c)
            (λ y ey at_y. apart a c b y e ey (omega arith)),
    )
    | inr (unused, zeros) ↦ (
      blocks,
      add_slot_zeros _ (n * 44) blocks zeros,
      λ c. loaded c ∙ sym (below-suc n (lookup c m) (unused c)),
    )
  ]

  load_from-added :
      (k offset : ℕ) (blocks next : Dict Bytes IdxBlock)
      → offset + 44 ≤ disk.size f
      → add_slot (slice (disk.byte f) offset 44) offset blocks ≡ some next
      → load_from fs (suc k) offset f blocks ≡ load_from fs k (offset + 44) f next
  unfolding load_from
  load_from-added k offset blocks next fits added = ground (arith, disk.read_ok 44 offset f fits)

  load_from-AreLoaded :
      (k n : ℕ) (blocks : Dict Bytes IdxBlock)
      → n + k ≡ partition_blocks_count
      → AreLoaded n blocks
      → (r : Dict Bytes IdxBlock) × (load_from fs (suc k) (n * 44) f blocks ≡ some r)
        × AreLoaded partition_blocks_count r
  unfolding load_from
  load_from-AreLoaded zero n blocks e loaded =
      let end = disk.read_eof 44 (n * 44) f (omega arith) in
      (blocks, ground (arith, end), subst (λ i. AreLoaded i blocks) (omega arith) loaded)
  load_from-AreLoaded (suc k) n blocks e loaded =
      let (next, added, more) = add_slot-AreLoaded n blocks (omega arith) loaded in
      let (r, ran, all) = load_from-AreLoaded k (suc n) next (omega arith) more in
      let offset : n * 44 + 44 ≡ suc n * 44 = omega arith in
      (
        r,
        load_from-added (suc k) (n * 44) blocks next (omega arith) added
            ∙ ap (λ off. load_from fs (suc k) off f next) offset
            ∙ ran,
        all,
      )

  -- A file of 512 slots that mirrors a map, in which blocks are at slots of their own below 512 and
  -- each can be told from an empty slot, is loaded within 513 rounds, without a panic, and as a
  -- map with the same entries.
  pub load-mirrored :
      (r : Dict Bytes IdxBlock) × (load fs 513 f ≡ some r) × ((c : Bytes) → lookup c r ≡ lookup c m)
  unfolding load AreLoaded lookup
  load-mirrored =
      let (r, ran, all) = load_from-AreLoaded 512 0 [] refl (λ c. sym (below-zero (lookup c m))) in
      (r, ran, λ c. all c ∙ below-all (lookup c m) (slot_lt c))
