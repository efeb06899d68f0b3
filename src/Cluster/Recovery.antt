-- ===== src/Cluster/Recovery.antt =====
-- dispatchEntries and startLogRecovering of rhosus/registry/cluster/cluster.go, with AppendEntries of
-- rhosus/registry/cluster/service.go: how the leader sends entries to its followers. The network is
-- a state `Net` with a call that may get no answer. The goroutines of a round, each of which works
-- on its own peer, run one after another.
pub mod Catchup
pub mod Dispatch
use rhosus.Base.{
  ℕ, zero, suc, ◌+◌, ◌-◌, ◌%◌, ◌^◌, String, Bool, true, false, Option, none, some, List, [], ◌∷◌,
  Dict, lookup, string_key, if◌then◌else◌, to_int64, dec_int64, map,
}
use rhosus.Cluster.Types.{
  Entry, Err, library, no_answer, peer_not_found, unexpected_refusal, wrapped, Env, AppendRequest,
  AppendResponse,
}
use rhosus.Cluster.Buffer
use rhosus.Cluster.Node.{Peer, Cluster, update_peer}

abbrev pub Call : Type 0 → Type 0
Call Net = String → AppendRequest → Net → Option AppendResponse × Net

pub record Round (env : Env) (Net : Type 0) : Type 0 where
  pub err : Option Err
  pub cluster : Cluster env
  pub net : Net

abbrev pub set_recovering : Bool → Peer → Peer
set_recovering b p = record p { recovering = b }

module _ {env : Env} where
  -- The request that carries the entry at the index `i` to a peer that recovers.
  pub recovery_request : ℕ → ℕ → Entry → Cluster env → AppendRequest
  recovery_request term i entry c = record {
    term = term;
    leader_id = c.id;
    prev_log_index = to_int64 ((i + 2 ^ 64 - 1) % 2 ^ 64);
    entries = entry ∷ [];
  }

  -- The request of a round of `dispatchEntries`: its previous index is one below the leader's last.
  pub dispatch_request : List Entry → Cluster env → AppendRequest
  dispatch_request entries c = record {
    term = c.current_term;
    leader_id = c.id;
    prev_log_index = dec_int64 (to_int64 c.last_log_index);
    entries = entries;
  }

module _ {env : Env} {Net : Type 0} (call : Call Net) where
  -- `ControlService.AppendEntries`: a peer with no connection is not called.
  pub append_call : Cluster env → String → AppendRequest → Net → Option AppendResponse × Net
  append_call c uid req net = elim (lookup uid c.conns) [
    | none ↦ (none, net)
    | some alive ↦ call uid req net
  ]

  -- The loop of `startLogRecovering`, on the number of rounds left. An error of Unmarshal is only
  -- reported to the log file.
  pub recover_from : ℕ → ℕ → ℕ → String → Cluster env → Net → Round env Net
  recover_from zero term i uid c net = record { err = none; cluster = c; net = net }
  recover_from (suc k) term i uid c net =
      let (failed, bytes) = env.read i c.wal in
      let entry = (env.unmarshal bytes).1 in
      let (answer, net') = append_call c uid (recovery_request term i entry c) net in
      let next =
        recover_from k term (i + 1) uid
          (update_peer uid (λ p. record p { last_committed_index = i }) c) net' in
      elim failed [
        | some e ↦ record { err = some (wrapped e); cluster = c; net = net }
        | none ↦ elim answer [
          | none ↦ record { err = some no_answer; cluster = c; net = net' }
          | some res ↦
              if res.success
              then next
              else record { err = some unexpected_refusal; cluster = c; net = net' }
        ]
      ]

  -- `startLogRecovering`. The flag is set back when the function returns, also with an error.
  pub start_log_recovering : String → ℕ → Cluster env → Net → Round env Net
  start_log_recovering uid from c net =
      let c' = update_peer uid (set_recovering true) c in
      let r = recover_from (c.last_log_index - from) c.current_term (from + 1) uid c' net in
      elim (lookup uid c.peers) [
        | none ↦ record { err = some peer_not_found; cluster = c; net = net }
        | some p ↦ record r { cluster = update_peer uid (set_recovering false) r.cluster }
      ]

  -- The goroutine of `dispatchEntries` for one peer. Its buffer is empty afterwards, also when the
  -- call gets no answer.
  pub dispatch_to : String → Peer → Cluster env → Net → Round env Net
  dispatch_to uid peer c net =
      let (entries, rest) = Buffer.read peer.buffer in
      let c' = update_peer uid (λ p. record p { buffer = rest }) c in
      let (answer, net') = append_call c' uid (dispatch_request entries c') net in
      elim answer [
        | none ↦ record { err = none; cluster = c'; net = net' }
        | some res ↦
            if res.success
            then record { err = none; cluster = c'; net = net' }
            else start_log_recovering uid res.last_committed_index c' net'
      ]

  -- `dispatchEntries`, over the peers that the round started with. A peer that recovers is passed by.
  pub dispatch_entries : Dict String Peer → Cluster env → Net → Cluster env × Net
  dispatch_entries [] c net = (c, net)
  dispatch_entries ((uid, p) ∷ ps) c net =
      let r = dispatch_to uid p c net in
      let (c', net') = if p.recovering then (c, net) else (r.cluster, r.net) in
      dispatch_entries ps c' net'
