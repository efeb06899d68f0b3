-- ===== src/Cluster/Tests/Logs.antt =====
-- Writes, appended entries, buffers and recoveries of the cluster in memory.
use rhosus.Base.{
  ℕ, ◌≤◌, ◌≡◌, refl, true, false, none, some, List, [], ◌∷◌, arith, All, lookup, string_key,
}
use rhosus.Cluster.Types.{Entry, assign_file, library, Env}
use rhosus.Cluster.Buffer.{EntriesBuffer}
use rhosus.Cluster.Node.{Cluster}
use rhosus.Cluster.Write.{write_entry, write_entries_from_leader}
use rhosus.Cluster.Write.Leader.{IsBehind, write_entry-IsBehind}
use rhosus.Cluster.Write.Follower.{Holds, write_entries_from_leader-Holds}
use rhosus.Cluster.Server.{append_entries}
use rhosus.Cluster.Server.Append.{append_entries-Holds}
use rhosus.Cluster.Recovery.{start_log_recovering}
use rhosus.Cluster.Recovery.Catchup.{direct, CaughtUp, start_log_recovering-CaughtUp}
use rhosus.Cluster.Tests.{
  memory, memory-IsReliable, sample, log_to, a_leader, a_follower, follower_peer, send,
}

abbrev two : List Entry
two = sample 2 ∷ sample 3 ∷ []

abbrev holding_one : EntriesBuffer
holding_one = record { entries = sample 1 ∷ [] }

write_entry-IsBehind_example : IsBehind (write_entry true assign_file (9 ∷ []) 5 a_leader).1
write_entry-IsBehind_example =
    write_entry-IsBehind assign_file (9 ∷ []) 5 a_leader true (omega arith) (tt, tt)

-- A log that refuses every entry.
abbrev full_disk : Env
full_disk = record memory { write = λ i b l. (some (library 3), l) }

abbrev stuck_leader : Cluster full_disk
stuck_leader = record {
  id = "a";
  state = a_leader.state;
  current_term = 2;
  last_log_index = 3;
  last_log_term = 1;
  peers = a_leader.peers;
  conns = a_leader.conns;
  wal = log_to 3;
  registry = 0;
  entries_handler = none;
  pipeline = true;
  shutdown = false;
}

write_entries_from_leader-Holds_example :
    let r = write_entries_from_leader two a_follower.cluster in
    (r.0 ≡ none)
    × All (Holds r.1) two
    × (r.1.last_log_index ≡ 3)
    × (r.1.wal.last ≡ 3)
    × ((i : ℕ) → i ≤ 1 → memory.read i r.1.wal ≡ memory.read i a_follower.cluster.wal)
write_entries_from_leader-Holds_example =
    write_entries_from_leader-Holds memory-IsReliable 1 two a_follower.cluster (sample 3) refl
      (refl, (refl, tt)) refl

append_entries-Holds_example :
    let (res, s') = append_entries (send 2 1 two) a_follower in
    (res.success ≡ true)
    × All (Holds s'.cluster) two
    × (res.last_committed_index ≡ 3)
    × (s'.cluster.last_log_index ≡ 3)
    × (s'.cluster.current_term ≡ 2)
    × (s'.cluster.wal.last ≡ 3)
    × ((i : ℕ) → i ≤ 1 → memory.read i s'.cluster.wal ≡ memory.read i a_follower.cluster.wal)
append_entries-Holds_example =
    append_entries-Holds (send 2 1 two) a_follower (omega arith) memory-IsReliable (sample 3) refl
      refl (refl, (refl, tt)) refl

start_log_recovering-CaughtUp_example :
    let r = start_log_recovering direct "b" 1 a_leader a_follower in
    (r.err ≡ none) × CaughtUp sample 2 4 a_follower r.net
unfolding lookup
start_log_recovering-CaughtUp_example =
    start_log_recovering-CaughtUp memory-IsReliable memory-IsReliable sample (λ i. refl) "b"
      follower_peer true a_leader a_follower refl refl (λ j lo hi. refl) (omega arith) (omega arith)
      refl (omega arith)
