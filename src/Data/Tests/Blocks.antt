-- ===== src/Data/Tests/Blocks.antt =====
-- The theorems on partitions at a partition with one block.
use rhosus.Base.{
  HasUniqueKeys, none, ◌≡◌, refl, inr, Bytes, bytes_key, false, none, some, List, [], ◌∷◌, Dict,
  lookup, All, HasUniqueKeys, if◌then◌else◌, arith,
}
use rhosus.Data.Partition.{BlockPlacementInfo, Block, write_blocks, read_blocks}
use rhosus.Data.Partition.Stored.{stored, IsSound}
use rhosus.Data.Partition.Written.{write_blocks-stored, or_else, IsBlock}
use rhosus.Data.Partition.Reads.{read_blocks-stored, listed, block_of}
use rhosus.Data.Tests.{memory-IsDisk, part, part-IsSound, id_a, id_b}

abbrev two_blocks : Dict Bytes Bytes
two_blocks = (id_a, 1 ∷ 2 ∷ []) ∷ (id_b, 3 ∷ []) ∷ []

two_blocks-IsBlock : All IsBlock two_blocks
two_blocks-IsBlock = ((refl, omega arith), ((refl, omega arith), tt))

two_blocks-HasUniqueKeys : HasUniqueKeys two_blocks
unfolding lookup
two_blocks-HasUniqueKeys = (refl, (refl, tt))

abbrev wanted : List BlockPlacementInfo
wanted =
    record { block_id = id_b; partition_id = [] }
    ∷ record { block_id = id_a; partition_id = [] }
    ∷ []

write_blocks-stored_example :
    ((write_blocks two_blocks part).0 ≡ none)
    × ((write_blocks two_blocks part).1 ≡ [])
    × IsSound memory-IsDisk (write_blocks two_blocks part).2
    × ((write_blocks two_blocks part).2.closed ≡ false)
    × ((c : Bytes)
        → stored memory-IsDisk (write_blocks two_blocks part).2 c
          ≡ or_else (lookup c two_blocks) (stored memory-IsDisk part c))
write_blocks-stored_example =
    write_blocks-stored memory-IsDisk two_blocks part part-IsSound (omega arith) refl (omega arith)
      two_blocks-IsBlock two_blocks-HasUniqueKeys

read_blocks-stored_example :
    (result : Dict Bytes Block) × (read_blocks wanted part ≡ inr result)
    × ((c : Bytes)
        → lookup c result
          ≡ (if listed c wanted then some (block_of c (stored memory-IsDisk part c)) else none))
read_blocks-stored_example = read_blocks-stored memory-IsDisk wanted part part-IsSound refl

abbrev waiting_blocks : List Block
waiting_blocks =
    record { id = id_b; len = 1; bytes = 5 ∷ [] }
    ∷ record { id = id_a; len = 0; bytes = [] }
    ∷ record { id = id_b; len = 2; bytes = 6 ∷ 7 ∷ [] }
    ∷ []
