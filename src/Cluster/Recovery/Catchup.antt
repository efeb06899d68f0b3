-- ===== src/Cluster/Recovery/Catchup.antt =====
-- What a recovery and a dispatch achieve when the peer is a registry that runs the handlers of
-- Cluster/Server.
use rhosus.Base.{
  ℕ, zero, suc, ◌+◌, ◌-◌, ◌^◌, ◌≤◌, ◌<◌, ◌≡◌, refl, String, Bool, true, false, none, some, lookup,
  lookup-modify, string_key, arith, ltb_ℤ, to_int64, ◌∙◌, subst, dec_lt,
}
use rhosus.Cluster.Types.{Entry, Env, IsReliable}
use rhosus.Cluster.Node.{Peer, Cluster, update_peer}
use rhosus.Cluster.Write.Follower.{Holds}
use rhosus.Cluster.Server.{ControlServer, append_entries}
use rhosus.Cluster.Server.Append.{append_entries-Holds}
use rhosus.Cluster.Recovery.{
  Call, Round, append_call, recovery_request, recover_from, set_recovering, start_log_recovering,
}

-- The network in which the only peer is the server itself.
abbrev pub direct : {env : Env} → Call (ControlServer env)
direct uid req s = let (res, s') = append_entries req s in (some res, s')

-- Whatever the network does, a peer is not marked as recovering when the recovery is over.
pub start_log_recovering-flag :
    {env : Env} {Net : Type 0} (call : Call Net) (uid : String) (from : ℕ) (c : Cluster env)
    (net : Net) (p q : Peer)
    → lookup uid c.peers ≡ some p
    → lookup uid (start_log_recovering call uid from c net).cluster.peers ≡ some q
    → q.recovering ≡ false
unfolding start_log_recovering
start_log_recovering-flag {env} {Net} call uid from c net p q known =
    rw (known, start_log_recovering)
      (cleared (
        recover_from call (c.last_log_index - from) c.current_term (from + 1) uid
          (update_peer uid (set_recovering true) c) net))
  where
    cleared :
        (r : Round env Net)
        → lookup uid (update_peer uid (set_recovering false) r.cluster).peers ≡ some q
        → q.recovering ≡ false
    cleared r h = ground (
      arith,
      lookup-modify uid uid (set_recovering false) r.cluster.peers,
      string_key.same_iff uid uid,
    )

-- The server `s'` is `s` with the entries from the index `lo` up to `hi`, `hi` not included, which
-- are the last of its log.
pub record CaughtUp {env : Env} (entry_at : ℕ → Entry) (lo hi : ℕ) (s s' : ControlServer env)
    : Type 0 where
  pub last : s'.cluster.last_log_index + 1 ≡ hi
  pub held : (j : ℕ) → lo ≤ j → j < hi → Holds s'.cluster (entry_at j)
  pub kept : (j : ℕ) → j < lo → env.read j s'.cluster.wal ≡ env.read j s.cluster.wal

module _ {env env' : Env} (sound : IsReliable env) (sound' : IsReliable env') (entry_at : ℕ → Entry)
    (at : (i : ℕ) → (entry_at i).index ≡ i) where
  abbrev Logged : Cluster env → ℕ → Type 0
  Logged c i = env.read i c.wal ≡ (none, env.marshal (entry_at i))

  -- The server's log is open and ends at its last index.
  abbrev AtEnd : ControlServer env' → Type 0
  AtEnd s = sound'.EndsAt s.cluster.last_log_index s.cluster.wal

  round_ok :
      (term i : ℕ) (c : Cluster env) (s : ControlServer env')
      → s.cluster.current_term ≤ term
      → s.cluster.last_log_index + 1 ≡ i
      → AtEnd s
      → i < 2 ^ 63
      → let (res, s') = append_entries (recovery_request term i (entry_at i) c) s in
        (res.success ≡ true)
        × CaughtUp entry_at i (i + 1) s s'
        × (s'.cluster.current_term ≡ term)
        × AtEnd s'
  unfolding recovery_request
  round_ok term i c s t last ends small =
      let req = recovery_request term i (entry_at i) c in
      let fits : ltb_ℤ (to_int64 s.cluster.last_log_index) req.prev_log_index ≡ false =
        ground arith in
      let h =
        append_entries-Holds req s t sound' (entry_at i) ends fits (omega (arith, at i), tt) refl in
      (
        h.0,
        record {
          last = omega (arith, h.3, at i);
          held = λ j lo hi.
              subst (λ k. Holds (append_entries req s).1.cluster (entry_at k)) (omega arith) h.1.0;
          kept = λ j lo. h.6 j (omega arith);
        },
        h.4,
        subst (λ m. sound'.EndsAt m (append_entries req s).1.cluster.wal) (omega (arith, h.3, at i))
            h.5,
      )

  recover_from-step :
      (k term i : ℕ) (uid : String) (alive : Bool) (c : Cluster env) (s : ControlServer env')
      → lookup uid c.conns ≡ some alive
      → Logged c i
      → (append_entries (recovery_request term i (entry_at i) c) s).0.success ≡ true
      → recover_from direct (suc k) term i uid c s
        ≡ recover_from direct k term
            (i + 1)
            uid
            (update_peer uid (λ p. record p { last_committed_index = i }) c)
            (append_entries (recovery_request term i (entry_at i) c) s).1
  unfolding recover_from append_call
  recover_from-step k term i uid alive c s conn logged success =
      ground (arith, sound.unmarshal-marshal (entry_at i))

  CaughtUp-refl :
      (i : ℕ) (s : ControlServer env')
      → s.cluster.last_log_index + 1 ≡ i
      → CaughtUp entry_at i i s s
  CaughtUp-refl i s last = record {
    last = last;
    held = λ j lo hi. absurd (omega arith);
    kept = λ j lo. refl;
  }

  CaughtUp-trans :
      (lo mid hi : ℕ) (s t u : ControlServer env')
      → lo ≤ mid
      → CaughtUp entry_at lo mid s t
      → CaughtUp entry_at mid hi t u
      → CaughtUp entry_at lo hi s u
  CaughtUp-trans lo mid hi s t u le a b = record {
    last = b.last;
    held = λ j low high. elim (dec_lt j mid) [
      | yes early ↦ rw (at j) ((b.kept j early) ∙ rw (at j) at (a.held j low early))
      | no late ↦ b.held j (omega arith) high
    ];
    kept = λ j low. b.kept j (omega arith) ∙ a.kept j low;
  }

  recover_from-CaughtUp :
      (k term i : ℕ) (uid : String) (alive : Bool) (c : Cluster env) (s : ControlServer env')
      → lookup uid c.conns ≡ some alive
      → ((j : ℕ) → i ≤ j → j < i + k → Logged c j)
      → s.cluster.current_term ≤ term
      → s.cluster.last_log_index + 1 ≡ i
      → AtEnd s
      → i + k ≤ 2 ^ 63
      → let r = recover_from direct k term i uid c s in
        (r.err ≡ none) × CaughtUp entry_at i (i + k) s r.net
  recover_from-CaughtUp zero term i uid alive c s conn logged t last ends small =
      unfold recover_from in
      (refl, subst (λ m. CaughtUp entry_at i m s s) (omega arith) (CaughtUp-refl i s last))
  recover_from-CaughtUp (suc k) term i uid alive c s conn logged t last ends small =
      let h = round_ok term i c s t last ends (omega arith) in
      let s' = (append_entries (recovery_request term i (entry_at i) c) s).1 in
      let c' = update_peer uid (λ p. record p { last_committed_index = i }) c in
      let rest =
        recover_from-CaughtUp k term (i + 1) uid alive c' s' conn
          (λ j lo hi. logged j (omega arith) (omega arith)) (omega (arith, h.2)) h.1.last h.3
          (omega arith) in
      let s'' : ControlServer env' = (recover_from direct k term (i + 1) uid c' s').net in
      rw (recover_from-step k term i uid alive c s conn (logged i (omega arith) (omega arith)) h.0)
        (
          rest.0,
          CaughtUp-trans i (i + 1) (i + suc k) s s' s'' (omega arith) h.1
              (subst (λ m. CaughtUp entry_at (i + 1) m s' s'') (omega arith) rest.1),
        )

  -- Let the peer be known and connected, its registry's log be open and end at its last index, on a
  -- disk that does not fail, and let it be in no later term and not beyond the leader's last index,
  -- which is below 2^63. Let the leader's log hold the entries above the peer's last index. Then a
  -- recovery brings the peer up to the leader's log: every one of these entries is sent, nothing
  -- fails, and the peer's log ends where the leader's ends, with the leader's entries above that
  -- index and its own up to it as before.
  pub start_log_recovering-CaughtUp :
      (uid : String) (p : Peer) (alive : Bool) (c : Cluster env) (s : ControlServer env')
      → lookup uid c.peers ≡ some p
      → lookup uid c.conns ≡ some alive
      → ((j : ℕ) → s.cluster.last_log_index < j → j ≤ c.last_log_index → Logged c j)
      → s.cluster.current_term ≤ c.current_term
      → s.cluster.last_log_index ≤ c.last_log_index
      → AtEnd s
      → c.last_log_index + 1 ≤ 2 ^ 63
      → let r = start_log_recovering direct uid s.cluster.last_log_index c s in
        (r.err ≡ none)
        × CaughtUp entry_at (s.cluster.last_log_index + 1) (c.last_log_index + 1) s r.net
  unfolding start_log_recovering
  start_log_recovering-CaughtUp uid p alive c s known conn logged t le ends small =
      let from = s.cluster.last_log_index in
      let k = c.last_log_index - from in
      let h =
        recover_from-CaughtUp k c.current_term (from + 1) uid alive
          (update_peer uid (set_recovering true) c) s conn
          (λ j lo hi. logged j (omega arith) (omega arith)) t refl ends (omega arith) in
      let end : ControlServer env' =
        (recover_from direct k c.current_term (from + 1) uid
          (update_peer uid (set_recovering true) c) s).net in
      rw (known, start_log_recovering)
        (h.0, subst (λ m. CaughtUp entry_at (from + 1) m s end) (omega arith) h.1)
