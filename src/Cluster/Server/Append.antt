-- ===== src/Cluster/Server/Append.antt =====
-- AppendEntries on each of its branches.
use rhosus.Base.{
  ℕ, ◌+◌, ◌≤◌, ◌<◌, ◌≡◌, length, true, false, Option, none, some, ◌||◌, arith, All, get_last?, ltb,
  ◌∙◌, ap, sym, subst, ltb_ℤ, to_int64, if◌then◌else◌,
}
use rhosus.Cluster.Types.{Entry, Err, Env, IsReliable, AppendRequest}
use rhosus.Cluster.Node.{Cluster, set_current_term, become_follower}
use rhosus.Cluster.Write.{write_entries_from_leader}
use rhosus.Cluster.Write.Follower.{
  Consecutive, Holds, write_entries_from_leader-Holds, current_term-write_entries_from_leader,
}
use rhosus.Cluster.Server.{ControlServer, ends_above, append_entries, yield_to}

-- A leader of a term that is over is refused and its entries are not stored. But where its batch
-- ends above the log, the server has taken over the leader's lower term and is a follower.
pub append_entries-stale :
    {env : Env} (req : AppendRequest) (s : ControlServer env)
    → req.term < s.cluster.current_term
    → ((append_entries req s).0.success ≡ false)
      × ((append_entries req s).1
          ≡ (if ends_above s.cluster.last_log_index req.entries then yield_to req.term s else s))
unfolding append_entries
append_entries-stale req s h = (ground arith, ground arith)

module _ {env : Env} (req : AppendRequest) (s : ControlServer env)
    (current : s.cluster.current_term ≤ req.term) where
  -- A request whose previous index lies beyond the log is refused with the last index that the
  -- server has, from which the leader starts to send again. The log stays.
  pub append_entries-gap :
      ltb_ℤ (to_int64 s.cluster.last_log_index) req.prev_log_index ≡ true
      → let (res, s') = append_entries req s in
        (res.success ≡ false)
        × (res.last_committed_index ≡ s.cluster.last_log_index)
        × (s'.cluster.last_log_index ≡ s.cluster.last_log_index)
        × (s'.cluster.wal ≡ s.cluster.wal)
  unfolding append_entries
  append_entries-gap gap = (ground arith, ground arith, ground arith, ground arith)

  -- What is handed on to the log: the cluster after the first test.
  abbrev pub yielded : Cluster env
  yielded =
      if ltb s.cluster.current_term req.term || ends_above s.cluster.last_log_index req.entries
      then set_current_term req.term (become_follower s.cluster)
      else s.cluster

  abbrev pub outcome : Option Err × Cluster env
  outcome = write_entries_from_leader req.entries yielded

  pub append_entries-take :
      ltb_ℤ (to_int64 s.cluster.last_log_index) req.prev_log_index ≡ false
      → let (res, s') = append_entries req s in
        (s'.cluster ≡ outcome.1)
        × (outcome.0 ≡ none → res.success ≡ true)
        × (res.last_committed_index ≡ outcome.1.last_log_index)
        × (res.term ≡ outcome.1.current_term)
  unfolding append_entries
  append_entries-take fits = (ground arith, λ h. ground arith, ground arith, ground arith)

  yielded-wal : yielded.wal ≡ s.cluster.wal
  yielded-wal = ground arith

  yielded-current_term : yielded.current_term ≡ req.term
  yielded-current_term = ground arith

  -- Let the log of the server be open and end at its last index, on a disk that does not fail. A
  -- request of a current leader whose previous index is not beyond the log, and whose indices go on
  -- from the log's last index one by one, is answered with success: every entry is in the log at its
  -- index, what the log had stays, the reported index is the batch's last, and the server is in the
  -- leader's term. The batch is not empty.
  pub append_entries-Holds :
      (sound : IsReliable env) (l : Entry)
      → sound.EndsAt s.cluster.last_log_index s.cluster.wal
      → ltb_ℤ (to_int64 s.cluster.last_log_index) req.prev_log_index ≡ false
      → Consecutive s.cluster.last_log_index req.entries
      → get_last? req.entries ≡ some l
      → let (res, s') = append_entries req s in
        (res.success ≡ true)
        × All (Holds s'.cluster) req.entries
        × (res.last_committed_index ≡ l.index)
        × (s'.cluster.last_log_index ≡ l.index)
        × (s'.cluster.current_term ≡ req.term)
        × sound.EndsAt (s.cluster.last_log_index + length req.entries) s'.cluster.wal
        × ((i : ℕ)
            → i ≤ s.cluster.last_log_index
            → env.read i s'.cluster.wal ≡ env.read i s.cluster.wal)
  append_entries-Holds sound l ends fits next last =
      let n = s.cluster.last_log_index in
      let t = append_entries-take fits in
      let at_end = subst (sound.EndsAt n) (sym yielded-wal) ends in
      let w = write_entries_from_leader-Holds sound n req.entries yielded l at_end next last in
      let k = current_term-write_entries_from_leader req.entries yielded in
      (
        t.1 w.0,
        subst (λ (c : Cluster env). All (Holds c) req.entries) (sym t.0) w.1,
        t.2 ∙ w.2,
        ap (λ (c : Cluster env). c.last_log_index) t.0 ∙ w.2,
        ap (λ (c : Cluster env). c.current_term) t.0 ∙ k.0 ∙ yielded-current_term,
        subst (λ (c : Cluster env). sound.EndsAt (n + length req.entries) c.wal) (sym t.0) w.3,
        λ i le.
            ap (λ (c : Cluster env). env.read i c.wal) t.0 ∙ w.4 i le ∙ ap (env.read i) yielded-wal,
      )
