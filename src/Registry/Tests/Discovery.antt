-- ===== src/Registry/Tests/Discovery.antt =====
-- The theorem on the events of etcd, at a node that comes, goes and comes back.
use rhosus.Base.{String, Bytes, true, Option, none, [], ◌∷◌, ◌≡◌, refl, string_key, arith}
use rhosus.Registry.Types.{RegistryErr}
use rhosus.Registry.Nodes.{node_exists}
use rhosus.Registry.Discovery.{put_event, delete_event, NodeInfo, handle_node_events}
use rhosus.Registry.Discovery.Last.{handle_node_events-last}
use rhosus.Registry.Tests.{a_registry}

-- Every value is the information of the node n4.
abbrev base64_decode : String → Option RegistryErr × Bytes
base64_decode value = (none, 7 ∷ [])

abbrev unmarshal : Bytes → Option RegistryErr × NodeInfo
unmarshal bytes = (none, record { id = "n4"; address = "localhost:6400" })

abbrev connect : NodeInfo → Option RegistryErr
connect info = none

handle_node_events-last_example :
    node_exists "n4" (
      handle_node_events base64_decode unmarshal connect
        (delete_event "rhosus/service_discovery/nodes/n4"
          ∷ put_event "rhosus/service_discovery/nodes/n4" "info"
          ∷ delete_event "rhosus/service_discovery/nodes/n1"
          ∷ [])
        a_registry.nodes)
    ≡ true
handle_node_events-last_example =
    handle_node_events-last base64_decode unmarshal connect "n4"
      (delete_event "rhosus/service_discovery/nodes/n4" ∷ [])
      (put_event "rhosus/service_discovery/nodes/n4" "info")
      (delete_event "rhosus/service_discovery/nodes/n1" ∷ []) a_registry.nodes refl refl
      (("n1", λ e. ground (arith, string_key.same_iff "n1" "n4"), refl), tt)
