-- ===== src/Data/Tests/Managers.antt =====
-- The theorems on the manager at one with a single partition.
use rhosus.Base.{
  ℕ, ◌≡◌, refl, inr, Bytes, bytes_key, Bool, true, false, none, some, List, [], ◌∷◌, ◌++◌, lookup,
  All, if◌then◌else◌, arith, subst, leb,
}
use rhosus.Data.Partition.{BlockPlacementInfo, Block}
use rhosus.Data.Partition.Stored.{IsSound}
use rhosus.Data.Manager.{Manager, Sinks, remove_blocks, write_blocks}
use rhosus.Data.Manager.Contents.{content, names, AreOpen, IsKnown, remove_blocks-content}
use rhosus.Data.Manager.Placement.{waiting, reported, write_blocks-reported}
use rhosus.Data.Tests.{Memory, memory, memory-IsDisk, part, part-IsSound, id_a, id_b}

abbrev pub manager : Manager memory
manager = record { parts = ((7 ∷ [], part) ∷ []); shutdown = false }

abbrev pub asked : BlockPlacementInfo
asked = record { block_id = id_a; partition_id = 7 ∷ [] }

pub lookup-one : {V : Type 0} (a k : Bytes) (v w : V) → lookup a ((k, v) ∷ []) ≡ some w → v ≡ w
unfolding lookup
lookup-one a k v w e = ground arith

pub manager-AreOpen : AreOpen memory-IsDisk manager.parts
manager-AreOpen a p e =
    subst (λ q. IsSound memory-IsDisk q × (q.closed ≡ false)) (lookup-one a (7 ∷ []) part p e)
      (part-IsSound, refl)

asked-IsKnown : All (IsKnown memory-IsDisk manager.parts) (asked ∷ [])
unfolding lookup
asked-IsKnown = (λ e. ground arith, tt)

remove_blocks-content_example :
    ((remove_blocks (asked ∷ []) manager).0 ≡ none)
    × ((part c : Bytes)
        → content memory-IsDisk (remove_blocks (asked ∷ []) manager).1.parts part c ≡ (
            if names part c (asked ∷ []) then none else content memory-IsDisk manager.parts part c))
remove_blocks-content_example =
    remove_blocks-content memory-IsDisk (asked ∷ []) manager manager-AreOpen refl asked-IsKnown

abbrev blocks : List Block
blocks =
    record { id = id_a; len = 1; bytes = 5 ∷ [] }
    ∷ record { id = id_b; len = 0; bytes = [] }
    ∷ record { id = id_a; len = 0; bytes = [] }
    ∷ []

-- Every sink takes the blocks but the second one.
abbrev in_time : ℕ → Bool
in_time i = if leb i 0 then true else leb 2 i

abbrev pub new_file : Memory
new_file = record { size = 1073741824; byte = λ _. 0 }

write_blocks-reported_example :
    (placement : List BlockPlacementInfo) × (sinks' : Sinks) × (m' : Manager memory) × (write_blocks
        (inr (id_b, new_file, new_file))
        in_time
        blocks
        []
        manager
      ≡ some (inr placement, sinks', m'))
    × ((part : Bytes) → waiting part sinks' ≡ waiting part [] ++ reported part placement)
write_blocks-reported_example =
    write_blocks-reported id_b new_file new_file in_time blocks [] manager refl
