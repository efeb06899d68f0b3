-- ===== src/Cluster/Tests/Votes.antt =====
-- Votes and elections of the cluster in memory.
use rhosus.Base.{
  ◌+◌, ◌*◌, ◌≡◌, refl, String, false, some, Option, List, [], ◌∷◌, arith, leb, if◌then◌else◌, inr,
}
use rhosus.Cluster.Types.{VoteRequest, VoteResponse, leader, candidate}
use rhosus.Cluster.Node.{Cluster}
use rhosus.Cluster.Server.{ends_above, request_vote}
use rhosus.Cluster.Server.Votes.{
  Request, vote, append, granted_terms, Ascending, granted_terms-Ascending, double_vote,
}
use rhosus.Cluster.Election.{start_election}
use rhosus.Cluster.Election.Winner.{heard, for_it, start_election_lem}
use rhosus.Cluster.Tests.{memory, sample, a_leader, a_follower, ask_for, send}

abbrev requests : List Request
requests = vote (ask_for 3 1 1) ∷ append (send 3 1 (sample 2 ∷ [])) ∷ vote (ask_for 4 5 3) ∷ []

granted_terms-Ascending_example : Ascending 2 (granted_terms requests a_follower)
unfolding request_vote
granted_terms-Ascending_example =
    granted_terms-Ascending requests a_follower (omega arith) (inr (omega arith), tt)

double_vote_example :
    granted_terms
      (append (send 0 1 (sample 2 ∷ [])) ∷ vote (ask_for 1 1 1) ∷ vote (ask_for 2 1 1) ∷ [])
      a_follower
    ≡ 1 ∷ 2 ∷ []
unfolding ends_above
double_vote_example =
    double_vote a_follower (send 0 1 (sample 2 ∷ [])) (ask_for 1 1 1) (ask_for 2 1 1) refl
      (omega arith) refl (omega arith) (omega arith) (omega arith) (omega arith) refl (omega arith)
      (omega arith)

abbrev no_to_all : String → VoteRequest → Option VoteResponse
no_to_all uid req = some (record { from = uid; term = req.term; vote_granted = false })

start_election_lem_example :
    let c' = start_election no_to_all a_leader in
    let ps = a_leader.peers in
    (c'.current_term ≡ 3)
    × (c'.state ≡ (
        if leb (heard no_to_all a_leader ps + 1) (2 * (for_it no_to_all a_leader ps + 1))
        then leader
        else candidate))
    × (c'.last_log_index ≡ 3)
    × (c'.last_log_term ≡ 1)
    × (c'.wal ≡ a_leader.wal)
    × (c'.peers ≡ ps)
start_election_lem_example = start_election_lem no_to_all a_leader

abbrev late_candidate : Cluster memory
late_candidate = record a_leader { current_term = 3; last_log_term = 0 }
