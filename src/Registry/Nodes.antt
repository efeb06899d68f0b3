-- ===== src/Registry/Nodes.antt =====
-- rhosus/registry/nodes_map.go: the data nodes that the registry knows. Dialling and the calls of a
-- node are arguments.
pub mod Least
use rhosus.Base.{
  ℕ, suc, ◌+◌, String, string_key, Bool, true, false, Option, none, some, List, [], ◌∷◌, Dict,
  lookup, insert, delete, modify, ◌⊎◌, inl, inr, sort_by, take, length, ltb, leb, if◌then◌else◌,
  Bytes,
}
use rhosus.Registry.Types.{Node, FsBlock, PlacementInfo, RegistryErr, node_not_found}

abbrev pub max_ping_retries : ℕ
max_ping_retries = 3

abbrev pub Nodes : Type 0
Nodes = Dict String Node

-- `AddNode`; `refused` is the error of the dial or of the first heartbeat.
unfoldable pub add_node : Option RegistryErr → String → String → Nodes → Option RegistryErr × Nodes
add_node (some e) name info_id nodes = (some e, nodes)
add_node none name info_id nodes =
    let node : Node = record {
      info_id = info_id;
      blocks_used = none;
      ping_retries = 0;
      unavailable = false;
    } in
    (none, insert name node nodes)

-- `RemoveNode`
unfoldable pub remove_node : String → Nodes → Nodes
remove_node id nodes = delete id nodes

-- `UpdateNodeInfo`
unfoldable pub update_node_info : String → String → Nodes → Nodes
update_node_info id info_id nodes = modify id (λ n. record n { info_id = info_id }) nodes

-- `NodeExists`
unfoldable pub node_exists : String → Nodes → Bool
node_exists name nodes = elim (lookup name nodes) [ none ↦ false | some n ↦ true ]

-- `GetNode`
pub get_node : String → Nodes → Option Node
get_node id nodes = lookup id nodes

-- What one round of `WatchNodes` does with the answer of a node: its count of used blocks, or none.
pub heartbeat : Option ℕ → Node → Node
heartbeat (some used) n = record n { blocks_used = some used }
heartbeat none n = record n {
  ping_retries = n.ping_retries + 1;
  unavailable = if leb max_ping_retries n.ping_retries then true else n.unavailable;
}

-- One round of `WatchNodes`
pub watch_nodes : (String → Option ℕ) → Nodes → Nodes
unfolding heartbeat
watch_nodes answer [] = []
watch_nodes answer ((id, n) ∷ nodes) = (id, heartbeat (answer id) n) ∷ watch_nodes answer nodes

abbrev pub add_metric : Option ℕ → Node → Option (List (ℕ × Node)) → Option (List (ℕ × Node))
add_metric none n ns = none
add_metric (some used) n none = none
add_metric (some used) n (some ns) = some ((used, n) ∷ ns)

-- The list of the nodes with the metrics that the comparison reads; none is its panic on nil.
unfoldable pub with_metrics : Nodes → Option (List (ℕ × Node))
with_metrics [] = some []
with_metrics ((id, n) ∷ nodes) = add_metric n.blocks_used n (with_metrics nodes)

abbrev pub second {ℓ κ} : {A : Type ℓ} {B : Type κ} → List (A × B) → List B
second [] = []
second ((a, b) ∷ xs) = b ∷ second xs

-- `GetNodesWithLeastBlocks`. With fewer than two nodes nothing is compared. none is a panic.
unfoldable pub get_nodes_with_least_blocks : ℕ → Nodes → Option (List Node)
unfolding with_metrics
get_nodes_with_least_blocks n [] = some []
get_nodes_with_least_blocks n ((id, node) ∷ []) = some (take n (node ∷ []))
get_nodes_with_least_blocks n (x ∷ y ∷ nodes) = elim (with_metrics (x ∷ y ∷ nodes)) [
  | none ↦ none
  | some ns ↦
      let sorted = second (sort_by (λ p. p.0) ns) in
      some (if ltb (length sorted) n then sorted else take n sorted)
]

-- `AssignBlocks` and `GetBlocks` of a node: the answer of the call is an argument.
pub assign_blocks :
    (String → List FsBlock → RegistryErr ⊎ List PlacementInfo)
    → String
    → List FsBlock
    → Nodes
    → RegistryErr ⊎ List PlacementInfo
assign_blocks call id blocks nodes = elim (lookup id nodes) [
  | none ↦ inl node_not_found
  | some n ↦ call id blocks
]

unfoldable pub get_blocks :
    (String → List PlacementInfo → RegistryErr ⊎ List FsBlock)
    → String
    → List PlacementInfo
    → Nodes
    → RegistryErr ⊎ List FsBlock
get_blocks call id blocks nodes = elim (lookup id nodes) [
  | none ↦ inl node_not_found
  | some n ↦ call id blocks
]
