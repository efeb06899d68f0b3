-- ===== src/Cluster/Recovery/Dispatch.antt =====
-- How a follower answers the leader's heartbeat.
use rhosus.Base.{
  ℕ, zero, suc, ◌+◌, ◌^◌, ◌≤◌, ◌<◌, ◌≡◌, ◌↔◌, true, false, [], arith, ltb_ℤ, to_int64, dec_int64,
  Bool-cases, inl, inr,
}
use rhosus.Cluster.Types.{Env}
use rhosus.Cluster.Node.{Cluster}
use rhosus.Cluster.Write.Follower.{write_entries_from_leader-nil}
use rhosus.Cluster.Server.{ControlServer, append_entries}
use rhosus.Cluster.Server.Append.{append_entries-gap, append_entries-take, yielded}
use rhosus.Cluster.Recovery.{dispatch_request}

-- The test of the previous index, for a leader whose last index is `l` and a follower's `f`.
gap_iff :
    (l f : ℕ)
    → l < 2 ^ 63
    → f < 2 ^ 63
    → (ltb_ℤ (to_int64 f) (dec_int64 (to_int64 l)) ≡ false) ↔ (l ≤ f + 1)
gap_iff zero f h k = (λ e. omega arith, λ e. ground arith)
gap_iff (suc l) f h k = (λ e. ground arith, λ e. ground arith)

module _ {env env' : Env} (c : Cluster env) (s : ControlServer env') where
  -- A heartbeat with no entries succeeds exactly at a follower whose log is at most one entry behind
  -- the leader's, so the leader starts no recovery for a follower that lacks its last entry.
  pub heartbeat_success_iff :
      s.cluster.current_term ≤ c.current_term
      → c.last_log_index < 2 ^ 63
      → s.cluster.last_log_index < 2 ^ 63
      → ((append_entries (dispatch_request [] c) s).0.success ≡ true)
        ↔ (c.last_log_index ≤ s.cluster.last_log_index + 1)
  unfolding dispatch_request
  heartbeat_success_iff t small small' =
      let req = dispatch_request [] c in
      let gap = gap_iff c.last_log_index s.cluster.last_log_index small small' in
      (
        λ ok. elim (Bool-cases (ltb_ℤ (to_int64 s.cluster.last_log_index) req.prev_log_index)) [
          | inl far ↦ cc ((append_entries-gap req s t far).0)
          | inr near ↦ gap.0 near
        ],
        λ close.
            (append_entries-take req s t (gap.1 close)).1
              (write_entries_from_leader-nil (yielded req s t)),
      )
