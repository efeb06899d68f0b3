-- ===== src/Data/Partition/Reads.antt =====
-- `ReadBlocks` and `RemoveBlocks` as operations on a store of the blocks' contents.
use mathlib.Core.Option
use mathlib.Core.Option.{Option}
use rhosus.Base.{
  ℕ, zero, suc, ◌+◌, ◌*◌, ◌/◌, ◌≤◌, ◌≡◌, refl, inr, Bytes, bytes_key, bytes_eq_iff, Bool, true,
  false, none, some, List, [], ◌∷◌, length, Dict, same, lookup, delete, lookup-delete, insert,
  lookup-insert, arith, if◌then◌else◌, ◌||◌, ap, sym, ◌∙◌, subst,
}
use rhosus.Data.Files.{Files, IsDisk, slice}
use rhosus.Data.IdxFile.{IdxBlock, no_block, default_block_size, default_partition_size}
use rhosus.Data.Partition.{
  Partition, BlockPlacementInfo, Block, header_of, read_block_contents, collect_blocks, read_blocks,
  forget_blocks, remove_blocks,
}
use rhosus.Data.Partition.Slotted.{IsSlotted, delete-IsSlotted}
use rhosus.Data.Partition.Stored.{stored, at_header, IsSound, stored_eq}

abbrev pub listed : Bytes → List BlockPlacementInfo → Bool
listed c [] = false
listed c (i ∷ is) = same i.block_id c || listed c is

abbrev pub or_empty : Option Bytes → Bytes
or_empty none = []
or_empty (some b) = b

-- The block with a content; the content of an unknown block is empty.
abbrev pub block_of : Bytes → Option Bytes → Block
block_of a o = record { id = a; len = length (or_empty o); bytes = or_empty o }

length-slice : (f : ℕ → ℕ) (off n : ℕ) → length (slice f off n) ≡ n
length-slice f off zero = refl
length-slice f off (suc n) = ap suc (length-slice f (suc off) n)

abbrev or_no_block : Option IdxBlock → IdxBlock
or_no_block none = no_block
or_no_block (some b) = b

lookup-forget_blocks :
    (is : List BlockPlacementInfo) (m : Dict Bytes IdxBlock) (c : Bytes)
    → lookup c (forget_blocks is m).1 ≡ (if listed c is then none else lookup c m)
unfolding forget_blocks
lookup-forget_blocks [] m c = refl
lookup-forget_blocks (i ∷ is) m c =
    ground (arith, lookup-forget_blocks is (delete i.block_id m) c, lookup-delete i.block_id c m)

forget_blocks-IsSlotted :
    (is : List BlockPlacementInfo) (m : Dict Bytes IdxBlock)
    → IsSlotted m
    → IsSlotted (forget_blocks is m).1
unfolding forget_blocks
forget_blocks-IsSlotted [] m ok = ok
forget_blocks-IsSlotted (i ∷ is) m ok =
    forget_blocks-IsSlotted is (delete i.block_id m) (delete-IsSlotted i.block_id m ok)

map-if_none :
    (f : IdxBlock → Bytes) (o : Option IdxBlock) (s : Option Bytes) (t : Bool)
    → s ≡ Option.map f o
    → Option.map f (if t then none else o) ≡ (if t then none else s)
map-if_none f o s true e = refl
map-if_none f o s false e = sym e

module _ {fs : Files} (disk : IsDisk fs) where
  read_block_contents_lem :
      (h : IdxBlock) (p : Partition fs)
      → h.offset / 44 * default_block_size + h.size ≤ disk.size p.file
      → read_block_contents (h.offset / 44) h.size p ≡ inr (at_header disk p.file h)
  unfolding read_block_contents
  read_block_contents_lem h p fits =
      ground (arith, disk.read_ok h.size (h.offset / 44 * default_block_size) p.file fits)

  -- What is read for a block, known or not.
  abbrev IsRead : Option IdxBlock → Partition fs → Option Bytes → Type 0
  IsRead o p s =
      (read_block_contents ((or_no_block o).offset / 44) (or_no_block o).size p ≡ inr (or_empty s))
      × ((or_no_block o).size ≡ length (or_empty s))

  map-IsRead :
      (a : Bytes) (o : Option IdxBlock) (p : Partition fs)
      → IsSound disk p
      → lookup a p.blocks_map ≡ o
      → IsRead o p (Option.map (at_header disk p.file) o)
  map-IsRead a none p ok e =
      (read_block_contents_lem no_block p (omega (arith, ok.preallocated)), refl)
  map-IsRead a (some b) p ok e = (
    read_block_contents_lem b p
        (omega (arith, ok.preallocated, ok.slotted.slot_lt a b e, ok.slotted.size_le a b e)),
    sym (length-slice _ _ _),
  )

  collect_blocks-∷ :
      (i : BlockPlacementInfo) (is : List BlockPlacementInfo) (p : Partition fs)
      (result : Dict Bytes Block)
      → IsSound disk p
      → collect_blocks (i ∷ is) p result
        ≡ collect_blocks is p
            (insert i.block_id (block_of i.block_id (stored disk p i.block_id)) result)
  unfolding collect_blocks header_of
  collect_blocks-∷ i is p result ok =
      let a = i.block_id in
      let o = lookup a p.blocks_map in
      let r : IsRead o p (stored disk p a) =
        subst (IsRead o p) (sym (stored_eq disk a o p refl)) (map-IsRead a o p ok refl) in
      ground (arith, r)

  lookup-collect_blocks :
      (is : List BlockPlacementInfo) (p : Partition fs) (result : Dict Bytes Block) (c : Bytes)
      → IsSound disk p
      → lookup c (collect_blocks is p result)
        ≡ (if listed c is then some (block_of c (stored disk p c)) else lookup c result)
  unfolding collect_blocks
  lookup-collect_blocks [] p result c ok = refl
  lookup-collect_blocks (i ∷ is) p result c ok =
      let a = i.block_id in
      let b = block_of a (stored disk p a) in
      ap (lookup c) (collect_blocks-∷ i is p result ok)
      ∙ lookup-collect_blocks is p (insert a b result) c ok
      ∙ ground (arith, lookup-insert a c b result, bytes_eq_iff a c)

  -- On a disk that does not fail, a read of a sound and open partition returns an entry for exactly
  -- the blocks that are asked for: each with its content and its length, and an unknown one empty.
  pub read_blocks-stored :
      (is : List BlockPlacementInfo) (p : Partition fs)
      → IsSound disk p
      → p.closed ≡ false
      → (result : Dict Bytes Block) × (read_blocks is p ≡ inr result)
        × ((c : Bytes)
            → lookup c result ≡ (if listed c is then some (block_of c (stored disk p c)) else none))
  unfolding read_blocks lookup
  read_blocks-stored is p ok opened =
      (collect_blocks is p [], ground arith, λ c. lookup-collect_blocks is p [] c ok)

  remove_blocks-opened :
      (is : List BlockPlacementInfo) (p : Partition fs)
      → p.closed ≡ false
      → ((remove_blocks is p).0 ≡ none)
        × ((remove_blocks is p).1.file ≡ p.file)
        × ((remove_blocks is p).1.closed ≡ false)
        × ((remove_blocks is p).1.blocks_map ≡ (forget_blocks is p.blocks_map).1)
  unfolding remove_blocks
  remove_blocks-opened is p opened = ground arith

  -- A removal from a sound and open partition returns no error, and makes exactly the blocks that
  -- it is given unknown; the content of each other block stays, and so do the slots of their own.
  -- The partition stays open.
  pub remove_blocks-stored :
      (is : List BlockPlacementInfo) (p : Partition fs)
      → IsSound disk p
      → p.closed ≡ false
      → ((remove_blocks is p).0 ≡ none)
        × IsSound disk (remove_blocks is p).1
        × ((remove_blocks is p).1.closed ≡ false)
        × ((c : Bytes)
            → stored disk (remove_blocks is p).1 c
              ≡ (if listed c is then none else stored disk p c))
  unfolding remove_blocks
  remove_blocks-stored is p ok opened =
      let r = remove_blocks-opened is p opened in
      let m = r.3 in
      (
        r.0,
        record {
          slotted = subst IsSlotted (sym m) (forget_blocks-IsSlotted is p.blocks_map ok.slotted);
          preallocated =
              subst (λ f. default_partition_size ≤ disk.size f) (sym r.1) ok.preallocated;
        },
        r.2,
        λ c.
            let o = lookup c p.blocks_map in
            let left : Option IdxBlock = if listed c is then none else o in
            stored_eq disk c left (remove_blocks is p).1
              (ap (lookup c) m ∙ lookup-forget_blocks is p.blocks_map c)
            ∙ ap (λ f. Option.map (at_header disk f) left) r.1
            ∙ map-if_none (at_header disk p.file) o (stored disk p c) (listed c is)
                (stored_eq disk c o p refl),
      )
