-- ===== src/Registry/Tests/Requests.antt =====
-- The theorem on requests at a file with one block.
use rhosus.Base.{ℕ, String, [], ◌∷◌}
use mathlib.Core.List.{Perm}
use mathlib.Core.List.Perm
use rhosus.Storage.Tests.{memory_env, with_blocks}
use rhosus.Cluster.Tests.{memory}
use rhosus.Registry.Types.{Registry}
use rhosus.Registry.Remove.{ByNode}
use rhosus.Registry.Nodes
use rhosus.Registry.Tests.{a_registry, placed_block}

abbrev a_stored : Registry memory_env memory
a_stored = record a_registry {
  storage = record with_blocks { blocks = placed_block "b" 1 "n1" ∷ [] };
}

abbrev requests : ByNode
requests = ("n1", record { block_id = "b"; partition_id = "q" } ∷ []) ∷ []

abbrev new_id : ℕ → String
new_id i = "b"
