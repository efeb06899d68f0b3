-- ===== src/Data/Tests/Services.antt =====
-- The theorem on a node's answers at a node with one partition.
use rhosus.Base.{◌≡◌, refl, none, List, [], ◌∷◌}
use rhosus.Data.Partition.{BlockPlacementInfo}
use rhosus.Data.Service.{get_blocks}
use rhosus.Data.Service.Served.{served, get_blocks-served}
use rhosus.Data.Tests.{memory-IsDisk, id_a}
use rhosus.Data.Tests.Managers.{manager, manager-AreOpen, asked}

-- A block of the partition, and one of an unknown partition.
abbrev two_asked : List BlockPlacementInfo
two_asked = asked ∷ record { block_id = id_a; partition_id = 8 ∷ [] } ∷ []

get_blocks-served_example :
    get_blocks (λ _. none) 0 two_asked manager ≡ served memory-IsDisk two_asked manager
get_blocks-served_example =
    get_blocks-served memory-IsDisk (λ _. none) 0 two_asked manager manager-AreOpen refl (λ j. refl)
