-- ===== src/Cluster/Write.antt =====
-- rhosus/registry/cluster/write.go: the leader's writes, the pipeline that hands them to the peers'
-- buffers, and the follower's writes.
pub mod Leader
pub mod Follower
use rhosus.Base.{
  ℕ, ◌+◌, ◌%◌, ◌^◌, String, Bytes, Bool, true, false, ◌&&◌, Option, none, some, List, [], ◌∷◌, Dict,
  if◌then◌else◌, leb,
}
use rhosus.Cluster.Types.{Entry, EntryType, Err, corrupt, shut_down, write_timeout, wrapped, Env}
use rhosus.Cluster.Node.{Peer, Cluster, write_to_buffer}

-- `validateEntriesSequence`, from the second entry on, behind the entry `last`
validate_after : Entry → List Entry → Option Err
validate_after last [] = none
validate_after last (e ∷ es) =
    let rest = validate_after e es in if leb e.index last.index then some corrupt else rest

pub validate_entries_sequence : List Entry → Option Err
unfolding validate_after
validate_entries_sequence [] = none
validate_entries_sequence (e ∷ es) = validate_after e es

-- How a write ends for its caller: with an error or nil, or not at all.
pub data Outcome : Type 0 where
  returned : Option Err → Outcome
  blocked : Outcome

-- The loop of `WritePipeline` over the peers, in the order in which the map is visited. It stops at
-- the first error, and what was buffered stays.
unfoldable pub write_to_peers : List Entry → Dict String Peer → Option Err × Dict String Peer
write_to_peers es [] = (none, [])
write_to_peers es ((uid, p) ∷ ps) =
    let (err, p') = write_to_buffer es p in
    let rest = write_to_peers es ps in
    elim err [ some e ↦ (some e, (uid, p') ∷ ps) | none ↦ (rest.0, (uid, p') ∷ rest.1) ]

module _ {env : Env} where
  -- `WritePipeline` for one request. On shutdown it returns and never answers the request; after an
  -- error it answers and returns too, so in both cases nobody receives afterwards.
  unfoldable pub write_pipeline : List Entry → Cluster env → Outcome × Cluster env
  write_pipeline es c =
      let (err, ps) = write_to_peers es c.peers in
      if c.shutdown then (blocked, record c { pipeline = false }) else elim err [
        | some e ↦ (returned (some e), record c { peers = ps; pipeline = false })
        | none ↦ (returned none, record c { peers = ps })
      ]

  -- The send on the channel with its timeout: `ready` says whether the pipeline receives in time.
  unfoldable pub submit : Bool → List Entry → Cluster env → Outcome × Cluster env
  unfolding write_pipeline
  submit ready es c =
      if ready && c.pipeline then write_pipeline es c else (returned (some write_timeout), c)

  -- The entry that `writeEntry` makes.
  unfoldable pub next_entry : EntryType → Bytes → ℕ → Cluster env → Entry
  next_entry type payload now c = record {
    index = (c.last_log_index + 1) % 2 ^ 64;
    term = c.current_term;
    type = type;
    payload = payload;
    timestamp = now;
  }

  -- `writeEntry`. When the log refuses the entry, only the index is set back.
  unfoldable pub write_entry : Bool → EntryType → Bytes → ℕ → Cluster env → Outcome × Cluster env
  write_entry ready type payload now c =
      let entry = next_entry type payload now c in
      let (err, log) = env.write entry.index (env.marshal entry) c.wal in
      let c' : Cluster env = record c {
        last_log_index = entry.index;
        last_log_term = c.current_term;
        wal = log;
      } in
      if c.shutdown then (returned (some shut_down), c) else elim err [
        | some e ↦
            (returned (some (wrapped e)), record c { last_log_term = c.current_term; wal = log })
        | none ↦ submit ready (entry ∷ []) c'
      ]

  -- `writeEntries`
  pub write_entries : Bool → List Entry → Cluster env → Outcome × Cluster env
  write_entries ready es c =
      if c.shutdown then (returned (some shut_down), c) else submit ready es c

  -- The loop of `WriteEntriesFromLeader`: what was written before an error stays.
  pub store_entries : List Entry → Cluster env → Option Err × Cluster env
  store_entries [] c = (none, c)
  store_entries (e ∷ es) c =
      let (err, log) = env.write e.index (env.marshal e) c.wal in
      let rest =
        store_entries es
          (record c { last_log_index = e.index; last_log_term = e.term; wal = log }) in
      elim err [ some x ↦ (some x, record c { wal = log }) | none ↦ rest ]

  -- The registry's callback, if one is set.
  abbrev pub call_handler : List Entry → Cluster env → Cluster env
  call_handler es c = elim c.entries_handler [
    | none ↦ c
    | some f ↦ record c { registry = f es c.registry }
  ]

  -- `WriteEntriesFromLeader`: the registry is told before the entries are in the log.
  pub write_entries_from_leader : List Entry → Cluster env → Option Err × Cluster env
  write_entries_from_leader es c = elim (validate_entries_sequence es) [
    | some e ↦ (some e, c)
    | none ↦ store_entries es (call_handler es c)
  ]
