-- ===== src/Cluster/Tests.antt =====
-- A cluster in memory: a log as a function from indices, and an encoding of entries that keeps them.
-- The children apply the theorems to it.
mod Votes
mod Logs
use rhosus.Base.{
  ℕ, zero, suc, ◌≡◌, ◌≢◌, refl, String, Bytes, Bool, true, false, Option, none, some, List, [], ◌∷◌,
  Dict, arith, if◌then◌else◌, ◌==◌, pos,
}
use rhosus.Cluster.Types.{
  Entry, EntryType, assign_file, delete_file, assign_blocks, delete_blocks, create_policy,
  delete_policy, create_token, revoke_token, Err, library, State, leader, follower, Env, IsReliable,
  VoteRequest, VoteResponse, AppendRequest,
}
use rhosus.Cluster.Buffer.{empty}
use rhosus.Cluster.Node.{Peer, Cluster}
use rhosus.Cluster.Server.{ControlServer}

pub record MemoryLog : Type 0 where
  pub cells : ℕ → Option Bytes
  pub last : ℕ

abbrev encode_type : EntryType → ℕ
encode_type assign_file = 0
encode_type delete_file = 1
encode_type assign_blocks = 3
encode_type delete_blocks = 4
encode_type create_policy = 5
encode_type delete_policy = 6
encode_type create_token = 7
encode_type revoke_token = 8

abbrev decode_type : ℕ → EntryType
decode_type n =
    if n == 0
    then assign_file
    else if n == 1
    then delete_file
    else if n == 3
    then assign_blocks
    else if n == 4
    then delete_blocks
    else if n == 5
    then create_policy
    else if n == 6
    then delete_policy
    else if n == 7
    then create_token
    else revoke_token

abbrev encode : Entry → Bytes
encode e = e.index ∷ e.term ∷ encode_type e.type ∷ e.timestamp ∷ e.payload

abbrev no_entry : Entry
no_entry = record { index = 0; term = 0; type = assign_file; payload = []; timestamp = 0 }

abbrev decode : Bytes → Option Err × Entry
decode (i ∷ t ∷ k ∷ s ∷ b) =
    (none, record { index = i; term = t; type = decode_type k; payload = b; timestamp = s })
decode _ = (some (library 2), no_entry)

decode_type-encode_type : (t : EntryType) → decode_type (encode_type t) ≡ t
decode_type-encode_type assign_file = refl
decode_type-encode_type _ = refl

abbrev pub memory : Env
memory = record {
  Log = MemoryLog;
  Registry = ℕ;
  write = λ i b l. (none, record { cells = λ j. if i == j then some b else l.cells j; last = i });
  read = λ i l. elim (l.cells i) [ none ↦ (some (library 1), []) | some b ↦ (none, b) ];
  last_index = λ l. (none, l.last);
  marshal = encode;
  unmarshal = decode;
}

abbrev memory-IsReliable : IsReliable memory
memory-IsReliable = record {
  EndsAt = λ n l. l.last ≡ n;
  unmarshal-marshal = λ e. ground (arith, decode_type-encode_type e.type);
  last_index_end = λ n l ends. ground (arith, ends);
  write_ok = λ n b l ends. refl;
  write-EndsAt = λ n b l ends. refl;
  read-write_self = λ n b l ends. ground arith;
  read-write_below = λ n j b l ends le. ground (arith, le);
}

abbrev sample : ℕ → Entry
sample i = record { index = i; term = 1; type = assign_file; payload = 7 ∷ []; timestamp = 0 }

abbrev log_to : ℕ → MemoryLog
log_to n = record { cells = λ i. some (encode (sample i)); last = n }

abbrev follower_peer : Peer
follower_peer = record {
  info_id = "b";
  buffer = empty;
  last_committed_index = 0;
  recovering = false;
}

-- A leader of the term 2 with three entries and one peer.
abbrev pub a_leader : Cluster memory
a_leader = record {
  id = "a";
  state = leader;
  current_term = 2;
  last_log_index = 3;
  last_log_term = 1;
  peers = ("b", follower_peer) ∷ [];
  conns = ("b", true) ∷ [];
  wal = log_to 3;
  registry = 0;
  entries_handler = none;
  pipeline = true;
  shutdown = false;
}

-- A follower of the term 2 that has the first of the leader's entries, and has voted.
abbrev a_follower : ControlServer memory
a_follower = record {
  cluster = record a_leader {
    id = "b";
    state = follower;
    last_log_index = 1;
    peers = [];
    conns = [];
    wal = log_to 1;
  };
  last_voted_term = 2;
  voted_for = "";
  entries_appended = 0;
}

abbrev ask_for : ℕ → ℕ → ℕ → VoteRequest
ask_for term index log_term = record {
  term = term;
  candidate_id = "c";
  last_log_index = index;
  last_log_term = log_term;
}

abbrev send : ℕ → ℕ → List Entry → AppendRequest
send term prev es = record { term = term; leader_id = "a"; prev_log_index = pos prev; entries = es }
