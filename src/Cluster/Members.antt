-- ===== src/Cluster/Members.antt =====
-- The start of a registry and its peers: setInitialTermAndIndex, DiscoverOrUpdate, RemovePeer and
-- MemberCount of rhosus/registry/cluster/cluster.go, with AddPeer of
-- rhosus/registry/cluster/service.go.
pub mod Restart
use rhosus.Base.{
  ℕ, suc, String, Bool, true, false, Option, none, some, List, [], Dict, lookup, insert, string_key,
  length, if◌then◌else◌, ◌==◌,
}
use rhosus.Cluster.Types.{Entry, Err, shut_down, Env}
use rhosus.Cluster.Buffer.{empty}
use rhosus.Cluster.Node.{Peer, Cluster}

-- The peer that `DiscoverOrUpdate` makes.
abbrev pub new_peer : String → Peer
new_peer info_id = record {
  info_id = info_id;
  buffer = empty;
  last_committed_index = 0;
  recovering = false;
}

module _ {env : Env} where
  from_entry : Entry → Cluster env → Cluster env
  from_entry e c = record c {
    last_log_index = e.index;
    last_log_term = e.term;
    current_term = e.term;
  }

  -- `setInitialTermAndIndex`. An error of the log ends the process, which is `none`; one of
  -- Unmarshal is not looked at. An empty log leaves the last term at its zero value.
  pub set_initial_term_and_index : Cluster env → Option (Cluster env)
  unfolding from_entry
  set_initial_term_and_index c =
      let (err, last) = env.last_index c.wal in
      let (err', bytes) = env.read last c.wal in
      elim err [
        | some e ↦ none
        | none ↦
            if last == 0
            then some (record c { last_log_index = 0; current_term = 0 })
            else elim err' [ some e ↦ none | none ↦ some (from_entry (env.unmarshal bytes).1 c) ]
      ]

  -- `DiscoverOrUpdate`; `dial` is the dial and the ping of `AddPeer`. The connection that `AddPeer` makes is not marked alive.
  pub discover_or_update :
      (String → Option Err) → String → String → String → Cluster env → Option Err × Cluster env
  discover_or_update dial uid info_id address c =
      if c.shutdown then (some shut_down, c) else elim (lookup uid c.peers) [
        | some p ↦ (none, c)
        | none ↦ elim (dial address) [
          | some e ↦ (some e, c)
          | none ↦ (
            none,
            record c {
              peers = insert uid (new_peer info_id) c.peers;
              conns = insert uid false c.conns;
            },
          )
        ]
      ]

  -- `RemovePeer`: the service's removePeer does nothing, so a known peer stays.
  pub remove_peer : String → Cluster env → Option Err × Cluster env
  remove_peer uid c = if c.shutdown then (some shut_down, c) else (none, c)

  -- `MemberCount`
  pub member_count : Cluster env → ℕ
  member_count c = suc (length c.peers)
