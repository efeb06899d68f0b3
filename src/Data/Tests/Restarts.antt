-- ===== src/Data/Tests/Restarts.antt =====
-- The theorems on restarts at a partition with one block and its header on disk.
use rhosus.Base.{
  ◌*◌, ◌/◌, ◌≡◌, refl, Bytes, bytes_key, bytes_eq_iff, nat_key, none, some, List, [], ◌∷◌, Dict,
  HasUniqueKeys, lookup, All, arith, sym, subst,
}
use rhosus.Data.IdxFile.{marshal, put_uint64, is_bytes_all_zeros}
use rhosus.Data.IdxFile.Headers.{slots, slots_lem}
use rhosus.Data.IdxFile.Mirror.{IsMirror, IsMirror-ext, IsVacant}
use rhosus.Data.Partition.{Partition, BlockPlacementInfo, write_blocks, remove_blocks, load_header}
use rhosus.Data.Partition.Stored.{stored, IsSound}
use rhosus.Data.Partition.Written.{or_else}
use rhosus.Data.Partition.Mirrored.{
  IsMirrored, IsTold, AreNew, AreKnown, write_blocks-IsMirrored, remove_blocks-IsMirrored,
}
use rhosus.Data.Partition.Rewritten.{write_blocks_rewritten}
use rhosus.Data.Partition.Loading.{IsReadable}
use rhosus.Data.Manager.{new_partition}
use rhosus.Data.Manager.Restarted.{load_header-write_blocks}
use rhosus.Data.Tests.{memory, memory-IsDisk, part, part-IsSound, id_a, id_b, Memory}
use rhosus.Data.Tests.Headers.{
  header, headers, header_file, header_bytes, header_bytes_apart, headers-IsStorable,
  lookup-singleton,
}
use rhosus.Data.Files.{slice}

-- The partition with the header of its block on disk.
abbrev pub kept : Partition memory
kept = record part { idx_file = header_file }

pub kept-IsSound : IsSound memory-IsDisk kept
kept-IsSound = record { slotted = part-IsSound.slotted; preallocated = part-IsSound.preallocated }

slices-IsMirror : IsMirror (λ n. slice header_bytes (n * 44) 44) headers
unfolding lookup marshal put_uint64
slices-IsMirror = record {
  unique = (refl, tt);
  storable = headers-IsStorable;
  on_slot = λ a b e.
      subst (λ x. x.offset ≡ x.offset / 44 * 44) (lookup-singleton id_a a header b e).1 refl;
  header = λ a b e.
      subst (λ x. slice header_bytes (x.offset / 44 * 44) 44 ≡ marshal x)
        (lookup-singleton id_a a header b e).1 refl;
  vacant = λ n lt free. header_bytes_apart n (λ at_3. free id_a header refl (sym at_3));
}

pub kept-IsMirrored : IsMirrored memory-IsDisk kept
kept-IsMirrored =
    IsMirror-ext (λ n. slice header_bytes (n * 44) 44) (slots memory-IsDisk header_file) headers
      (λ n. slots_lem memory-IsDisk n header_file) slices-IsMirror

pub memory-IsReadable : (f : Memory) → IsReadable memory-IsDisk f
memory-IsReadable f = record {
  full_read = refl;
  no_error = refl;
  same_size = refl;
  same_bytes = λ q. refl;
}

abbrev block_b : Dict Bytes Bytes
block_b = (id_b, 3 ∷ []) ∷ []

lookup-singleton_key : (a c x y : Bytes) → lookup c ((a, x) ∷ []) ≡ some y → a ≡ c
unfolding lookup
lookup-singleton_key a c x y e = ground (arith, bytes_eq_iff a c)

block_b-AreNew : AreNew block_b kept.blocks_map
unfolding lookup
block_b-AreNew c v e =
    subst (λ d. lookup d kept.blocks_map ≡ none) (lookup-singleton_key id_b c (3 ∷ []) v e) refl

block_b-IsTold : All IsTold block_b
unfolding is_bytes_all_zeros
block_b-IsTold = (refl, tt)

block_b-HasUniqueKeys : HasUniqueKeys block_b
unfolding lookup
block_b-HasUniqueKeys = (refl, tt)

write_blocks-IsMirrored_example : IsMirrored memory-IsDisk (write_blocks block_b kept).2
write_blocks-IsMirrored_example =
    write_blocks-IsMirrored memory-IsDisk block_b kept kept-IsSound (omega arith) refl (omega arith)
      ((refl, omega arith), tt) block_b-IsTold block_b-HasUniqueKeys block_b-AreNew kept-IsMirrored

abbrev block_a : List BlockPlacementInfo
block_a = record { block_id = id_a; partition_id = [] } ∷ []

block_a-AreKnown : AreKnown block_a kept.blocks_map
unfolding lookup
block_a-AreKnown = ((header, refl), tt)

remove_blocks-IsMirrored_example : IsMirrored memory-IsDisk (remove_blocks block_a kept).1
remove_blocks-IsMirrored_example =
    remove_blocks-IsMirrored memory-IsDisk block_a kept kept-IsSound (omega arith) refl
      block_a-AreKnown kept-IsMirrored

load_header-write_blocks_example :
    (r : Partition memory) × (load_header 513
        (new_partition [] (write_blocks block_b kept).2.file (write_blocks block_b kept).2.idx_file)
      ≡ some (none, r))
    × IsSound memory-IsDisk r
    × ((c : Bytes)
        → stored memory-IsDisk r c ≡ or_else (lookup c block_b) (stored memory-IsDisk kept c))
load_header-write_blocks_example =
    load_header-write_blocks memory-IsDisk [] (write_blocks block_b kept).2.file
      (write_blocks block_b kept).2.idx_file block_b kept kept-IsSound refl refl (omega arith)
      ((refl, omega arith), tt) block_b-IsTold block_b-HasUniqueKeys block_b-AreNew kept-IsMirrored
      (refl, λ q. refl) (refl, λ q. refl) (memory-IsReadable (write_blocks block_b kept).2.file)

id_a_known : lookup id_a kept.blocks_map ≡ some header
unfolding lookup
id_a_known = refl

write_blocks_rewritten_example :
    (slots memory-IsDisk (write_blocks ((id_a, 9 ∷ []) ∷ []) kept).2.idx_file 3 ≡ marshal header)
    × IsVacant 3 (write_blocks ((id_a, 9 ∷ []) ∷ []) kept).2.blocks_map
write_blocks_rewritten_example =
    write_blocks_rewritten memory-IsDisk id_a (9 ∷ []) header kept kept-IsSound (omega arith) refl
      (omega arith) (refl, omega arith) id_a_known kept-IsMirrored
