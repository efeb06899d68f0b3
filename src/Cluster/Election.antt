-- ===== src/Cluster/Election.antt =====
-- StartElection of rhosus/registry/cluster/cluster.go, with sendVoteRequest of
-- rhosus/registry/cluster/service.go. `ask` is the call over the network; no answer is `none`.
-- While the answers are awaited no request changes this registry.
pub mod Winner
use rhosus.Base.{
  ℕ, suc, ◌+◌, ◌*◌, ◌/◌, ◌%◌, ◌^◌, ◌≤◌, ◌<◌, ◌≡◌, ◌≢◌, ◌↔◌, ◌⊎◌, inl, inr, refl, String, Bool, true,
  false, ◌||◌, Option, none, some, List, [], ◌∷◌, map, length, Dict, lookup, string_key, arith, ltb,
  leb, if◌then◌else◌, Bool-cases,
}
use rhosus.Cluster.Types.{Env, State, leader, candidate, VoteRequest, VoteResponse}
use rhosus.Cluster.Node.{Peer, Cluster, set_current_term, become_leader, become_candidate}

-- The two counters of the election: `responded` and `voted`.
pub record Tally : Type 0 where
  pub responded : ℕ
  pub voted : ℕ

count_vote : Option VoteResponse → Tally → Tally
count_vote none t = t
count_vote (some res) t = record {
  responded = t.responded + 1;
  voted = if res.vote_granted then t.voted + 1 else t.voted;
}

-- The goroutines' additions, in any order of the answers.
pub count_votes : List (Option VoteResponse) → Tally
unfolding count_vote
count_votes [] = record { responded = 0; voted = 0 }
count_votes (r ∷ rs) = count_vote r (count_votes rs)

-- `responded < 1 || float64(voted) >= math.Floor(float64(responded/2))`; the division is of integers.
pub wins : Tally → Bool
wins t = ltb t.responded 1 || leb (t.responded / 2) t.voted

module _ {env : Env} where
  -- The request of `sendVoteRequest`: the last log term that it sends is the current term.
  pub vote_request : Cluster env → VoteRequest
  vote_request c = record {
    term = c.current_term;
    candidate_id = c.id;
    last_log_index = c.last_log_index;
    last_log_term = c.current_term;
  }

  -- `sendVoteRequest`: only a peer with a connection is asked.
  pub send_vote_request :
      (String → VoteRequest → Option VoteResponse) → Cluster env → String → Option VoteResponse
  send_vote_request ask c uid = elim (lookup uid c.conns) [
    | none ↦ none
    | some alive ↦ ask uid (vote_request c)
  ]

  -- The candidate in its new term, before it asks. Terms are uint32.
  pub campaign : Cluster env → Cluster env
  campaign c = set_current_term ((c.current_term + 1) % 2 ^ 32) (become_candidate c)

  pub start_election : (String → VoteRequest → Option VoteResponse) → Cluster env → Cluster env
  unfolding campaign
  start_election ask c =
      let c' = campaign c in
      let answers = map (λ (q : String × Peer). send_vote_request ask c' q.1.info_id) c'.peers in
      if wins (count_votes answers) then become_leader c' else c'
