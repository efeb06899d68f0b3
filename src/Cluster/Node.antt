-- ===== src/Cluster/Node.antt =====
-- The state of one registry in the cluster: `Cluster` of rhosus/registry/cluster/cluster.go and
-- `Peer` of rhosus/registry/cluster/peer.go, with their setters. The locks are not modelled: each
-- operation is one step. `conns` is the service's map of connections, with the flag Alive.
use rhosus.Base.{ℕ, String, Bool, Option, List, Dict, modify, string_key}
use rhosus.Cluster.Types.{Entry, Err, State, leader, candidate, follower, Env}
use rhosus.Cluster.Buffer.{EntriesBuffer}
use rhosus.Cluster.Buffer

pub record Peer : Type 0 where
  pub info_id : String
  pub buffer : EntriesBuffer
  pub last_committed_index : ℕ
  pub recovering : Bool

-- `WriteToBuffer`
unfoldable pub write_to_buffer : List Entry → Peer → Option Err × Peer
write_to_buffer es p =
    let (err, b) = Buffer.write_batch es p.buffer in (err, record p { buffer = b })

-- `pipeline` says that the goroutine of WritePipeline still receives.
pub record Cluster (env : Env) : Type 0 where
  pub id : String
  pub state : State
  pub current_term : ℕ
  pub last_log_index : ℕ
  pub last_log_term : ℕ
  pub peers : Dict String Peer
  pub conns : Dict String Bool
  pub wal : env.Log
  pub registry : env.Registry
  pub entries_handler : Option (List Entry → env.Registry → env.Registry)
  pub pipeline : Bool
  pub shutdown : Bool

module _ {env : Env} where
  abbrev pub set_current_term : ℕ → Cluster env → Cluster env
  set_current_term t c = record c { current_term = t }

  abbrev pub become_follower : Cluster env → Cluster env
  become_follower c = record c { state = follower }

  abbrev pub become_leader : Cluster env → Cluster env
  become_leader c = record c { state = leader }

  abbrev pub become_candidate : Cluster env → Cluster env
  become_candidate c = record c { state = candidate }

  -- A peer is changed in place, through the pointer that the map holds.
  abbrev pub update_peer : String → (Peer → Peer) → Cluster env → Cluster env
  update_peer uid f c = record c { peers = modify uid f c.peers }
