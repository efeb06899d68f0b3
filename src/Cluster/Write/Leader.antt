-- ===== src/Cluster/Write/Leader.antt =====
-- What a leader's write leaves in its log and in its peers' buffers, on every branch.
use rhosus.Base.{
  ℕ, ◌+◌, ◌^◌, ◌%◌, ◌≤◌, ◌<◌, ◌≡◌, refl, String, Bytes, Bool, true, false, Option, none, some, [],
  ◌∷◌, ◌++◌, map, Dict, All, arith, get_last?, get_last?-append, ap, sym, subst, ◌&&◌, Bool-cases,
  Option-cases, inl, inr,
}
use rhosus.Cluster.Types.{Entry, EntryType, Err, shut_down, write_timeout, wrapped, Env}
use rhosus.Cluster.Buffer.{EntriesBuffer}
use rhosus.Cluster.Buffer.Order.{Fits, write_batch-append}
use rhosus.Cluster.Node.{Peer, Cluster, write_to_buffer}
use rhosus.Cluster.Write.{
  Outcome, returned, write_to_peers, write_pipeline, submit, next_entry, write_entry,
}

-- `last` is at most at the index `i` and of a term up to `t`.
abbrev pub Within : ℕ → ℕ → Option Entry → Type 0
Within i t none = Unit
Within i t (some e) = (e.index ≤ i) × (e.term ≤ t)

abbrev pub Behind : ℕ → ℕ → Dict String Peer → Type 0
Behind i t = All (λ (q : String × Peer). Within i t (get_last? q.1.buffer.entries))

-- No buffer is ahead of the log.
abbrev pub IsBehind : {env : Env} → Cluster env → Type 0
IsBehind c = Behind c.last_log_index c.current_term c.peers

-- The entry at the end of a peer's buffer.
abbrev pub deliver : Entry → String × Peer → String × Peer
deliver e q = (q.0, record q.1 { buffer = record { entries = q.1.buffer.entries ++ e ∷ [] } })

Within-Fits :
    (i t : ℕ) (o : Option Entry) (e : Entry) → Within i t o → i < e.index → t ≤ e.term → Fits o e
Within-Fits i t none e h p q = tt
Within-Fits i t (some l) e h p q = (omega arith, omega arith)

write_to_buffer-Fits :
    (e : Entry) (p : Peer)
    → Fits (get_last? p.buffer.entries) e
    → write_to_buffer (e ∷ []) p
      ≡ (none, record p { buffer = record { entries = p.buffer.entries ++ e ∷ [] } })
unfolding write_to_buffer
write_to_buffer-Fits e p h =
    ap (λ (r : Option Err × EntriesBuffer). (r.0, record p { buffer = r.1 }))
      (write_batch-append (e ∷ []) p.buffer (h, tt))

-- An entry ahead of every buffer reaches every buffer.
write_to_peers-deliver :
    (i t : ℕ) (e : Entry) (ps : Dict String Peer)
    → Behind i t ps
    → i < e.index
    → t ≤ e.term
    → write_to_peers (e ∷ []) ps ≡ (none, map (deliver e) ps)
unfolding write_to_peers
write_to_peers-deliver i t e [] h p q = refl
write_to_peers-deliver i t e ((uid, x) ∷ ps) h p q = ground (
  arith,
  write_to_buffer-Fits e x (Within-Fits i t (get_last? x.buffer.entries) e h.0 p q),
  write_to_peers-deliver i t e ps h.1 p q,
)

deliver-Behind : (e : Entry) (ps : Dict String Peer) → Behind e.index e.term (map (deliver e) ps)
deliver-Behind e [] = tt
deliver-Behind e ((uid, x) ∷ ps) = (
  subst (Within e.index e.term) (sym (get_last?-append x.buffer.entries e)) (omega arith),
  deliver-Behind e ps,
)

-- The state after an entry of the current term was logged and handed to the peers.
abbrev pub committed : {env : Env} → Entry → Cluster env → Cluster env
committed {env} e c = record c {
  last_log_index = e.index;
  last_log_term = c.current_term;
  wal = (env.write e.index (env.marshal e) c.wal).1;
  peers = map (deliver e) c.peers;
}

index_grows :
    {env : Env} (type : EntryType) (b : Bytes) (now : ℕ) (c : Cluster env)
    → c.last_log_index + 1 < 2 ^ 64
    → (next_entry type b now c).index ≡ c.last_log_index + 1
unfolding next_entry
index_grows type b now c h = omega arith

term_kept :
    {env : Env} (type : EntryType) (b : Bytes) (now : ℕ) (c : Cluster env)
    → (next_entry type b now c).term ≡ c.current_term
unfolding next_entry
term_kept type b now c = refl

module _ {env : Env} (type : EntryType) (b : Bytes) (now : ℕ) (c : Cluster env) where
  -- The calls of the log, for the entry of this write.
  abbrev logged : Option Err × env.Log
  logged = let e = next_entry type b now c in env.write e.index (env.marshal e) c.wal

  pub write_entry_ok :
      (ready : Bool)
      → logged.0 ≡ none
      → c.shutdown ≡ false
      → ready && c.pipeline ≡ true
      → c.last_log_index + 1 < 2 ^ 64
      → IsBehind c
      → write_entry ready type b now c ≡ (returned none, committed (next_entry type b now c) c)
  unfolding write_entry submit write_pipeline
  write_entry_ok ready taken up runs small behind = ground (
    arith,
    write_to_peers-deliver c.last_log_index c.current_term (next_entry type b now c) c.peers behind
        (omega (arith, index_grows type b now c small)) (omega (arith, term_kept type b now c)),
  )

  -- Afterwards no buffer is ahead of the log again, so writes succeed one after another.
  pub committed-IsBehind : IsBehind (committed (next_entry type b now c) c)
  unfolding next_entry
  committed-IsBehind = (deliver-Behind (next_entry type b now c) c.peers)

  write_entry_shut_down :
      (ready : Bool)
      → c.shutdown ≡ true
      → write_entry ready type b now c ≡ (returned (some shut_down), c)
  unfolding write_entry
  write_entry_shut_down ready down = ground arith

  -- A write that the log refuses returns the log's error; the index is set back and no peer gets
  -- the entry, but the last term stays at the current one.
  pub write_entry_refused :
      (ready : Bool) (e : Err)
      → logged.0 ≡ some e
      → c.shutdown ≡ false
      → write_entry ready type b now c
        ≡ (returned (some (wrapped e)), record c { last_log_term = c.current_term; wal = logged.1 })
  unfolding write_entry
  write_entry_refused ready e refused up = rw (refused, up, write_entry) refl

  -- When the pipeline does not receive, or is gone, the write times out for its caller, though the entry is in the log and
  -- counts as its last; no peer's buffer sees it.
  pub write_entry_unreceived :
      (ready : Bool)
      → logged.0 ≡ none
      → c.shutdown ≡ false
      → ready && c.pipeline ≡ false
      → write_entry ready type b now c ≡ (
        returned (some write_timeout),
        record c {
          last_log_index = (c.last_log_index + 1) % 2 ^ 64;
          last_log_term = c.current_term;
          wal = logged.1;
        },
      )
  unfolding write_entry submit next_entry
  write_entry_unreceived ready taken up gone = ground arith

Within-mono : {i j : ℕ} (t : ℕ) (o : Option Entry) → i ≤ j → Within i t o → Within j t o
Within-mono t none h k = tt
Within-mono t (some e) h k = (omega arith, k.1)

Behind-mono : {i j : ℕ} (t : ℕ) (ps : Dict String Peer) → i ≤ j → Behind i t ps → Behind j t ps
Behind-mono t [] h k = tt
Behind-mono t (q ∷ ps) h k =
    (Within-mono t (get_last? q.1.buffer.entries) h k.0, Behind-mono t ps h k.1)

module _ {env : Env} (type : EntryType) (b : Bytes) (now : ℕ) (c : Cluster env) where
  unreceived-IsBehind :
      c.last_log_index + 1 < 2 ^ 64
      → IsBehind c
      → Behind ((c.last_log_index + 1) % 2 ^ 64) c.current_term c.peers
  unreceived-IsBehind small h = Behind-mono c.current_term c.peers (omega arith) h

  -- Whatever becomes of a write, no buffer gets ahead of the log, so the pipeline never meets an
  -- entry that it would refuse.
  pub write_entry-IsBehind :
      (ready : Bool)
      → c.last_log_index + 1 < 2 ^ 64
      → IsBehind c
      → IsBehind (write_entry ready type b now c).1
  write_entry-IsBehind ready small h = elim (Bool-cases c.shutdown) [
    | inl down ↦
        subst (λ (r : Outcome × Cluster env). IsBehind r.1)
          (sym (write_entry_shut_down type b now c ready down)) h
    | inr up ↦ elim (Option-cases (logged type b now c).0) [
      | inr (e, refused) ↦
          subst (λ (r : Outcome × Cluster env). IsBehind r.1)
            (sym (write_entry_refused type b now c ready e refused up)) h
      | inl taken ↦ elim (Bool-cases (ready && c.pipeline)) [
        | inr gone ↦
            subst (λ (r : Outcome × Cluster env). IsBehind r.1)
              (sym (write_entry_unreceived type b now c ready taken up gone))
              (unreceived-IsBehind small h)
        | inl runs ↦
            subst (λ (r : Outcome × Cluster env). IsBehind r.1)
              (sym (write_entry_ok type b now c ready taken up runs small h))
              (committed-IsBehind type b now c)
      ]
    ]
  ]
