-- ===== src/Registry/Discovery/Last.antt =====
-- rhosus/registry/registry.go: which data nodes the registry knows after events of etcd.
use rhosus.Base.{
  sym, ap, subst, String, Bytes, Bool, true, false, Option, none, some, List, [], ◌∷◌, ◌++◌, ◌≡◌,
  ◌≢◌, refl, ◌∙◌, All, lookup, lookup-insert, lookup-delete, lookup-modify, if◌then◌else◌, same,
  string_key, arith, Bool-cases, inl, inr,
}
use rhosus.Registry.Types.{Node, RegistryErr}
use rhosus.Registry.Nodes.{Nodes, node_exists, add_node, remove_node, update_node_info}
use rhosus.Registry.Discovery.{
  EtcdEvent, put_event, delete_event, NodeInfo, parse_node_name, nodes_path, after_prefix,
  trim_prefix, event_info, handle_node_event, handle_node_events,
}

add_node_refused :
    (e : RegistryErr) (i id info_id : String) (nodes : Nodes)
    → node_exists i (add_node (some e) id info_id nodes).1 ≡ node_exists i nodes
unfolding add_node
add_node_refused e i id info_id nodes = refl

node_exists-add_node :
    (i id info_id : String) (nodes : Nodes)
    → node_exists i (add_node none id info_id nodes).1
      ≡ (if same id i then true else node_exists i nodes)
unfolding node_exists add_node
node_exists-add_node i id info_id nodes =
    let node : Node = record {
      info_id = info_id;
      blocks_used = none;
      ping_retries = 0;
      unavailable = false;
    } in
    ground (arith, lookup-insert id i node nodes)

add_node_other :
    (refused : Option RegistryErr) (i id info_id : String) (nodes : Nodes)
    → id ≢ i
    → node_exists i (add_node refused id info_id nodes).1 ≡ node_exists i nodes
add_node_other none i id info_id nodes h =
    ground (arith, string_key.same_iff id i, node_exists-add_node i id info_id nodes)
add_node_other (some e) i id info_id nodes h = add_node_refused e i id info_id nodes

add_node_known :
    (id info_id : String) (nodes : Nodes) → node_exists id (add_node none id info_id nodes).1 ≡ true
add_node_known id info_id nodes =
    ground (arith, string_key.same_iff id id, node_exists-add_node id id info_id nodes)

node_exists-update_node_info :
    (i id info_id : String) (nodes : Nodes)
    → node_exists i (update_node_info id info_id nodes) ≡ node_exists i nodes
unfolding node_exists update_node_info
node_exists-update_node_info i id info_id nodes =
    ground (
      arith,
      lookup-modify id i (λ (n : Node). record n { info_id = info_id }) nodes,
      lookup i nodes,
    )

node_exists-remove_node :
    (i id : String) (nodes : Nodes)
    → node_exists i (remove_node id nodes) ≡ (if same id i then false else node_exists i nodes)
unfolding node_exists remove_node
node_exists-remove_node i id nodes = ground (arith, lookup-delete id i nodes)

abbrev pub prefixed : String → String → String
prefixed String.[] s = s
prefixed (String.◌∷◌ ch prefix) s = String.◌∷◌ ch (prefixed prefix s)

-- The key of a node in etcd.
abbrev pub node_key : String → String
node_key id = prefixed "rhosus/service_discovery/nodes/" id

after_prefix_lem : (prefix s : String) → after_prefix prefix (prefixed prefix s) ≡ some s
unfolding after_prefix
after_prefix_lem String.[] s = refl
after_prefix_lem (String.◌∷◌ ch prefix) s = ground (arith, after_prefix_lem prefix s)

parse_node_name-node_key : (id : String) → parse_node_name (node_key id) ≡ id
unfolding parse_node_name trim_prefix
parse_node_name-node_key id =
    ap (λ (found : Option String). elim found [ none ↦ node_key id | some rest ↦ rest ])
      (after_prefix_lem nodes_path id)

module _ (base64_decode : String → Option RegistryErr × Bytes)
    (unmarshal : Bytes → Option RegistryErr × NodeInfo)
    (connect : NodeInfo → Option RegistryErr) where
  -- The identifier that the code takes from an event.
  about : EtcdEvent → String
  about (put_event key value) = (event_info base64_decode unmarshal connect value).id
  about (delete_event key) = parse_node_name key

  abbrev pub is_put : EtcdEvent → Bool
  is_put (put_event key value) = true
  is_put (delete_event key) = false

  -- The information that is encoded in a value.
  abbrev pub info_of : String → NodeInfo
  info_of value = (unmarshal (base64_decode value).1).1

  -- What the event is about: the value that is put is the information of the node with this
  -- identifier, or the deleted key is the node's key.
  abbrev pub IsAbout : String → EtcdEvent → Type 0
  IsAbout id (put_event key value) = (info_of value).id ≡ id
  IsAbout id (delete_event key) = key ≡ node_key id

  -- The event is about another node.
  abbrev pub IsOther : String → EtcdEvent → Type 0
  IsOther id e = (j : String) × (j ≢ id) × IsAbout j e

  -- The node of the event can be reached, if it is put.
  abbrev pub Connects : EtcdEvent → Type 0
  Connects (put_event key value) = connect (info_of value) ≡ none
  Connects (delete_event key) = Unit

  about-IsAbout : (id : String) (e : EtcdEvent) → IsAbout id e → about e ≡ id
  unfolding about event_info
  about-IsAbout id (put_event key value) h = h
  about-IsAbout id (delete_event key) h = ap parse_node_name h ∙ parse_node_name-node_key id

  handle_node_event_other :
      (e : EtcdEvent) (i : String) (nodes : Nodes)
      → about e ≢ i
      → node_exists i (handle_node_event base64_decode unmarshal connect e nodes)
        ≡ node_exists i nodes
  unfolding handle_node_event about
  handle_node_event_other (put_event key value) i nodes h =
      let info = event_info base64_decode unmarshal connect value in
      elim (Bool-cases (node_exists info.id nodes)) [
        | inl e ↦ rw e (node_exists-update_node_info i info.id info.id nodes)
        | inr e ↦ rw e (add_node_other (connect info) i info.id info.id nodes h)
      ]
  handle_node_event_other (delete_event key) i nodes h =
      let name = parse_node_name key in
      ground (arith, string_key.same_iff name i, node_exists-remove_node i name nodes)

  handle_node_event_own :
      (e : EtcdEvent) (nodes : Nodes)
      → Connects e
      → node_exists (about e) (handle_node_event base64_decode unmarshal connect e nodes) ≡ is_put e
  unfolding handle_node_event about event_info
  handle_node_event_own (put_event key value) nodes h =
      let info = event_info base64_decode unmarshal connect value in
      elim (Bool-cases (node_exists info.id nodes)) [
        | inl e ↦ rw e (node_exists-update_node_info info.id info.id info.id nodes ∙ e)
        | inr e ↦ rw (e, h) (add_node_known info.id info.id nodes)
      ]
  handle_node_event_own (delete_event key) nodes h =
      let name = parse_node_name key in
      ground (arith, string_key.same_iff name name, node_exists-remove_node name name nodes)

  handle_node_events_others :
      (i : String) (events : List EtcdEvent) (nodes : Nodes)
      → All (IsOther i) events
      → node_exists i (handle_node_events base64_decode unmarshal connect events nodes)
        ≡ node_exists i nodes
  unfolding handle_node_events
  handle_node_events_others i [] nodes h = refl
  handle_node_events_others i (e ∷ events) nodes h =
      let (j, ne, names) = h.0 in
      handle_node_events_others i events (handle_node_event base64_decode unmarshal connect e nodes)
        h.1
      ∙ handle_node_event_other e i nodes (λ eq. ne (sym (about-IsAbout j e names) ∙ eq))

  -- After any events, a data node is known if the last event about it put it, and not if that event
  -- deleted its key: whatever the events before were, and the later ones are about other nodes. An
  -- event is about a node if the value that is put is the node's information, or the deleted key is
  -- the node's. A node that is put can be reached.
  pub handle_node_events-last :
      (id : String) (before : List EtcdEvent) (e : EtcdEvent) (after : List EtcdEvent)
      (nodes : Nodes)
      → IsAbout id e
      → Connects e
      → All (IsOther id) after
      → node_exists id
          (handle_node_events base64_decode unmarshal connect (before ++ e ∷ after) nodes)
        ≡ is_put e
  unfolding handle_node_events
  handle_node_events-last id [] e after nodes names c h =
      let nodes' = handle_node_event base64_decode unmarshal connect e nodes in
      handle_node_events_others id after nodes' h
      ∙ subst (λ i. node_exists i nodes' ≡ is_put e) (about-IsAbout id e names)
          (handle_node_event_own e nodes c)
  handle_node_events-last id (b ∷ before) e after nodes names c h =
      handle_node_events-last id before e after
        (handle_node_event base64_decode unmarshal connect b nodes) names c h
