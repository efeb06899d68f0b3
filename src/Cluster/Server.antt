-- ===== src/Cluster/Server.antt =====
-- rhosus/registry/cluster/server.go: the handlers of the control service, RequestVote and
-- AppendEntries. One request is handled at a time. `entries_appended` is the number of signals in
-- the channel entriesAppendedC.
pub mod Append
pub mod Votes
use rhosus.Base.{
  ℕ, suc, String, Bool, true, false, ◌&&◌, ◌||◌, Option, none, some, List, get_last?, ltb, ◌==◌,
  if◌then◌else◌, ltb_ℤ, to_int64,
}
use rhosus.Cluster.Types.{Entry, Err, Env, VoteRequest, VoteResponse, AppendRequest, AppendResponse}
use rhosus.Cluster.Node.{Cluster, set_current_term, become_follower}
use rhosus.Cluster.Write.{write_entries_from_leader}

pub record ControlServer (env : Env) : Type 0 where
  pub cluster : Cluster env
  pub last_voted_term : ℕ
  pub voted_for : String
  pub entries_appended : ℕ

-- make(chan struct{}, 50)
abbrev pub entries_appended_cap : ℕ
entries_appended_cap = 50

-- The test at the head of `AppendEntries`: does the batch end above the index `last`?
unfoldable pub ends_above : ℕ → List Entry → Bool
ends_above last es = elim (get_last? es) [ none ↦ false | some e ↦ ltb last e.index ]

module _ {env : Env} where
  -- The three assignments that a handler makes for a newer leader or candidate.
  abbrev pub yield_to : ℕ → ControlServer env → ControlServer env
  yield_to term s = record s {
    cluster = set_current_term term (become_follower s.cluster);
    voted_for = "";
  }

  abbrev pub refuse_vote : ControlServer env → VoteResponse
  refuse_vote s = record {
    from = s.cluster.id;
    term = s.cluster.current_term;
    vote_granted = false;
  }

  -- The rest of `RequestVote`, after the request's term was looked at; `current` is the term that
  -- the server had when the request came.
  decide_vote : ℕ → VoteRequest → ControlServer env → VoteResponse × ControlServer env
  decide_vote current req s =
      if ltb req.term current
      then (refuse_vote s, s)
      else if s.last_voted_term == req.term
      then (refuse_vote s, s)
      else if ltb req.last_log_index s.cluster.last_log_index
      then (refuse_vote s, s)
      else if ltb req.last_log_term s.cluster.last_log_term
      then (refuse_vote s, s)
      else if req.last_log_term == s.cluster.last_log_term
          && ltb req.last_log_index s.cluster.last_log_index
      then (refuse_vote s, s)
      else (
        record { from = s.cluster.id; term = current; vote_granted = true },
        record s { cluster = set_current_term req.term s.cluster; last_voted_term = req.term },
      )

  -- `RequestVote`
  unfoldable pub request_vote : VoteRequest → ControlServer env → VoteResponse × ControlServer env
  unfolding decide_vote
  request_vote req s =
      let current = s.cluster.current_term in
      decide_vote current req (if ltb current req.term then yield_to req.term s else s)

  -- A send on the full channel waits until the loop that reads it has taken a signal.
  signal : ControlServer env → ControlServer env
  signal s = record s {
    entries_appended =
        if ltb s.entries_appended entries_appended_cap
        then suc s.entries_appended
        else entries_appended_cap;
  }

  -- The response that reports the state after the entries were handled.
  abbrev pub report : Bool → ControlServer env → AppendResponse
  report success s = record {
    from = s.cluster.id;
    term = s.cluster.current_term;
    success = success;
    last_agreed_index = 0;
    last_committed_index = s.cluster.last_log_index;
  }

  take_entries : List Entry → ControlServer env → AppendResponse × ControlServer env
  take_entries es s =
      let (err, c) = write_entries_from_leader es s.cluster in
      let s' : ControlServer env = record s { cluster = c } in
      elim err [ some e ↦ (report false s', s') | none ↦ (report true s', s') ]

  -- `AppendEntries` behind its first test. `current` and `last` are the term and the index from
  -- before that test.
  handle_append : ℕ → ℕ → AppendRequest → ControlServer env → AppendResponse × ControlServer env
  unfolding signal take_entries
  handle_append current last req s =
      if ltb req.term current
      then (
        record {
          from = s.cluster.id;
          term = s.cluster.current_term;
          success = false;
          last_agreed_index = s.cluster.last_log_index;
          last_committed_index = s.cluster.last_log_index;
        },
        s,
      )
      else if ltb_ℤ (to_int64 last) req.prev_log_index
      then (
        record {
          from = s.cluster.id;
          term = current;
          success = false;
          last_agreed_index = 0;
          last_committed_index = last;
        },
        signal s,
      )
      else take_entries req.entries (signal s)

  -- `AppendEntries`
  pub append_entries : AppendRequest → ControlServer env → AppendResponse × ControlServer env
  unfolding handle_append
  append_entries req s =
      let current = s.cluster.current_term in
      let last = s.cluster.last_log_index in
      let newer = ltb current req.term || ends_above last req.entries in
      handle_append current last req (if newer then yield_to req.term s else s)
