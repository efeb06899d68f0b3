-- ===== src/Cluster/Election/Winner.antt =====
-- When a candidate becomes the leader, and what an election changes.
use rhosus.Base.{
  ℕ, none, List, ◌+◌, ◌*◌, ◌%◌, ◌^◌, ◌≤◌, ◌<◌, ◌≡◌, ◌↔◌, refl, String, Bool, true, false, Option,
  some, [], ◌∷◌, map, lookup, string_key, arith, leb, ap, ◌∙◌, if◌then◌else◌,
}
use rhosus.Cluster.Types.{Env, leader, candidate, VoteRequest, VoteResponse}
use rhosus.Cluster.Node.{Peer, Cluster}
use rhosus.Cluster.Server.{ControlServer}
use rhosus.Cluster.Server.Votes.{granted, vote_granted_iff}
use rhosus.Cluster.Election.{
  Tally, count_vote, count_votes, wins, vote_request, send_vote_request, campaign, start_election,
}

-- A candidate wins exactly when, its own vote counted, at least half of those heard from are for it.
wins_iff : (t : Tally) → (wins t ≡ true) ↔ (t.responded + 1 ≤ 2 * (t.voted + 1))
unfolding wins
wins_iff t = (λ h. ground arith, λ h. ground arith)

module _ {env : Env} (ask : String → VoteRequest → Option VoteResponse) (c : Cluster env) where
  -- The request of the candidate in its new term.
  abbrev pub request : VoteRequest
  request = record {
    term = (c.current_term + 1) % 2 ^ 32;
    candidate_id = c.id;
    last_log_index = c.last_log_index;
    last_log_term = (c.current_term + 1) % 2 ^ 32;
  }

  -- What a peer answers to it: nothing without a connection.
  abbrev pub answer_of : Peer → Option VoteResponse
  answer_of p = elim (lookup p.info_id c.conns) [ none ↦ none | some alive ↦ ask p.info_id request ]

  -- How many peers answer, and how many of them grant their vote.
  abbrev pub heard : List (String × Peer) → ℕ
  heard [] = 0
  heard ((uid, p) ∷ ps) = (elim (answer_of p) [ none ↦ 0 | some res ↦ 1 ]) + heard ps

  abbrev pub for_it : List (String × Peer) → ℕ
  for_it [] = 0
  for_it ((uid, p) ∷ ps) =
      (elim (answer_of p) [ none ↦ 0 | some res ↦ if res.vote_granted then 1 else 0 ]) + for_it ps

  answers : List (String × Peer) → List (Option VoteResponse)
  answers ps = map (λ (q : String × Peer). send_vote_request ask (campaign c) q.1.info_id) ps

  count_votes-answers :
      (ps : List (String × Peer))
      → ((count_votes (answers ps)).responded ≡ heard ps)
        × ((count_votes (answers ps)).voted ≡ for_it ps)
  unfolding count_votes count_vote answers send_vote_request campaign vote_request
  count_votes-answers [] = (refl, refl)
  count_votes-answers ((uid, p) ∷ ps) =
      (ground (arith, count_votes-answers ps), ground (arith, count_votes-answers ps))

  -- An election raises the term by one and leaves the log and the peers; every connected peer is asked
  -- with the new term, also for the term of the last entry. The registry ends as the leader if, its own
  -- vote counted, at least half of those that answered grant their vote, and otherwise stays a
  -- candidate.
  pub start_election_lem :
      let c' = start_election ask c in
      (c'.current_term ≡ (c.current_term + 1) % 2 ^ 32)
      × (c'.state
          ≡ (if leb (heard c.peers + 1) (2 * (for_it c.peers + 1)) then leader else candidate))
      × (c'.last_log_index ≡ c.last_log_index)
      × (c'.last_log_term ≡ c.last_log_term)
      × (c'.wal ≡ c.wal)
      × (c'.peers ≡ c.peers)
  unfolding start_election answers
  start_election_lem =
      let tally = count_votes (answers c.peers) in
      let counted = count_votes-answers c.peers in
      (
        ground arith,
        ground (arith, wins_iff tally, counted),
        ground arith,
        ground arith,
        ground arith,
        ground arith,
      )

-- A candidate whose only peer answers and refuses its vote becomes the leader all the same.
pub start_election-refused :
    {env : Env} (ask : String → VoteRequest → Option VoteResponse) (c : Cluster env) (uid : String)
    (p : Peer) (alive : Bool) (res : VoteResponse)
    → c.peers ≡ (uid, p) ∷ []
    → lookup p.info_id c.conns ≡ some alive
    → ask p.info_id (request ask c) ≡ some res
    → res.vote_granted ≡ false
    → (start_election ask c).state ≡ leader
start_election-refused ask c uid p alive res one conn answer refused =
    (start_election_lem ask c).1
    ∙ ap (λ ps. if leb (heard ask c ps + 1) (2 * (for_it ask c ps + 1)) then leader else candidate)
        one
    ∙ ground (arith, conn, answer, refused)

-- A registry that has just raised its term for its own election still votes for another candidate
-- of that term: it keeps no record of the vote for itself.
pub start_election-rival :
    {env : Env} (ask : String → VoteRequest → Option VoteResponse) (s : ControlServer env)
    (req : VoteRequest)
    → s.last_voted_term ≤ s.cluster.current_term
    → s.cluster.current_term + 1 < 2 ^ 32
    → req.term ≡ s.cluster.current_term + 1
    → s.cluster.last_log_index ≤ req.last_log_index
    → s.cluster.last_log_term ≤ req.last_log_term
    → granted req (record s { cluster = start_election ask s.cluster }) ≡ true
start_election-rival ask s req voted small same index log_term =
    let k = start_election_lem ask s.cluster in
    (vote_granted_iff req _).1 (record {
      current = omega (arith, k.0);
      unvoted = omega arith;
      index = omega (arith, k.2);
      log_term = omega (arith, k.3);
    })

-- The request of a candidate whose log ends in an older term than the voter's is granted, since it
-- sends its current term for the term of its log.
pub vote_request-granted :
    {env env' : Env} (c : Cluster env) (s : ControlServer env')
    → s.cluster.last_log_term ≤ s.cluster.current_term
    → s.cluster.current_term ≤ c.current_term
    → s.last_voted_term < c.current_term
    → s.cluster.last_log_index ≤ c.last_log_index
    → c.last_log_term < s.cluster.last_log_term
    → granted (vote_request c) s ≡ true
vote_request-granted c s h1 h2 h3 h4 older = (vote_granted_iff (vote_request c) s).1 (
    unfold vote_request in
    record { current = h2; unvoted = omega arith; index = h4; log_term = omega arith })
