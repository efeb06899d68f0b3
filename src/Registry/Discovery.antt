-- ===== src/Registry/Discovery.antt =====
-- rhosus/registry/registry.go: what RunServiceDiscovery does with the events that etcd sends of the
-- data nodes and of the other registries, getExistingNodes and getExistingRegistries; with the names
-- of rhosus/etcd/client.go. The decoding of a value and the dials are arguments.
pub mod Last
use Prim.Native.Char.{code}
use Prim.Native.String
use Prim.Native.String.{String}
use rhosus.Base.{
  Bytes, Option, none, some, List, [], ◌∷◌, Dict, insert, string_key, if◌then◌else◌, ◌==◌, same,
}
use rhosus.Cluster.Types
use rhosus.Cluster.Node.{Cluster}
use rhosus.Cluster.Members.{discover_or_update}
use rhosus.Registry.Types.{Node, RegistryErr}
use rhosus.Registry.Nodes.{Nodes, node_exists, update_node_info, add_node, remove_node}

-- An event of etcd: the key and the value that were put, or the key that was deleted.
pub data EtcdEvent : Type 0 where
  put_event : String → String → EtcdEvent
  delete_event : String → EtcdEvent

-- transport_pb.NodeInfo
pub record NodeInfo : Type 0 where
  pub id : String
  pub address : String

-- control_pb.RegistryInfo
pub record RegistryInfo : Type 0 where
  pub id : String
  pub address : String

abbrev pub nodes_path : String
nodes_path = "rhosus/service_discovery/nodes/"

-- What follows the prefix in a string, if the string starts with it.
after_prefix : String → String → Option String
after_prefix String.[] s = some s
after_prefix (String.◌∷◌ ch prefix) String.[] = none
after_prefix (String.◌∷◌ ch prefix) (String.◌∷◌ d s) =
    let rest = after_prefix prefix s in if code ch == code d then rest else none

-- `strings.TrimPrefix`
unfoldable trim_prefix : String → String → String
unfolding after_prefix
trim_prefix path prefix = elim (after_prefix prefix path) [ none ↦ path | some rest ↦ rest ]

-- `ParseNodeName`
unfoldable pub parse_node_name : String → String
unfolding trim_prefix
parse_node_name path = trim_prefix path nodes_path

module _ (base64_decode : String → Option RegistryErr × Bytes)
    (unmarshal : Bytes → Option RegistryErr × NodeInfo)
    (connect : NodeInfo → Option RegistryErr) where
  -- An error of the decoding is logged, and the information is used as it came out.
  unfoldable pub event_info : String → NodeInfo
  event_info value = (unmarshal (base64_decode value).1).1

  -- An event of `WatchForNodesUpdates`
  unfoldable pub handle_node_event : EtcdEvent → Nodes → Nodes
  unfolding event_info
  handle_node_event (put_event key value) nodes =
      let info = event_info value in
      if node_exists info.id nodes
      then update_node_info info.id info.id nodes
      else (add_node (connect info) info.id info.id nodes).1
  handle_node_event (delete_event key) nodes =
      let name = parse_node_name key in
      if node_exists name nodes then remove_node name nodes else nodes

  unfoldable pub handle_node_events : List EtcdEvent → Nodes → Nodes
  handle_node_events [] nodes = nodes
  handle_node_events (event ∷ events) nodes =
      handle_node_events events (handle_node_event event nodes)

-- `getExistingNodes`: here a value that is not decoded is left out.
pub get_existing_nodes :
    (Bytes → Option RegistryErr × NodeInfo)
    → List Bytes
    → Dict String NodeInfo
    → Dict String NodeInfo
get_existing_nodes unmarshal [] result = result
get_existing_nodes unmarshal (bytes ∷ nodes) result =
    let (err, info) = unmarshal bytes in
    get_existing_nodes unmarshal nodes
      (elim err [ some e ↦ result | none ↦ insert info.id info result ])

-- `getExistingRegistries`
pub get_existing_registries :
    (Bytes → Option RegistryErr × RegistryInfo)
    → List Bytes
    → Dict String RegistryInfo
    → Dict String RegistryInfo
get_existing_registries unmarshal [] result = result
get_existing_registries unmarshal (bytes ∷ registries) result =
    let (err, info) = unmarshal bytes in
    get_existing_registries unmarshal registries
      (elim err [ some e ↦ result | none ↦ insert info.id info result ])

module _ {cenv : Types.Env} (base64_decode : String → Option RegistryErr × Bytes)
    (unmarshal : Bytes → Option RegistryErr × RegistryInfo) (dial : String → Option Types.Err) where
  -- An event of `WatchForRegistriesUpdates`. The key, with its prefix, is compared with the name; a
  -- deletion changes nothing.
  pub handle_registry_event : String → EtcdEvent → Cluster cenv → Cluster cenv
  handle_registry_event name (delete_event key) c = c
  handle_registry_event name (put_event key value) c =
      let info = (unmarshal (base64_decode value).1).1 in
      if same key name then c else (discover_or_update dial info.id info.id info.address c).1
