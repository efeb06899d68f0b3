-- ===== src/Cluster/Server/Votes.antt =====
-- To whom a server gives its vote: exactly when, and how often in one term.
use rhosus.Base.{
  ℕ, ◌≤◌, ◌<◌, ◌≡◌, ◌≢◌, ◌↔◌, ◌⊎◌, inl, inr, Bool, true, false, List, [], ◌∷◌, arith, ltb,
  if◌then◌else◌, Bool-cases, refl, ◌||◌, ap, ◌∙◌,
}
use rhosus.Cluster.Types.{Env, VoteRequest, AppendRequest}
use rhosus.Cluster.Node.{set_current_term, become_follower}
use rhosus.Cluster.Write.Follower.{current_term-write_entries_from_leader}
use rhosus.Cluster.Server.Append.{append_entries-stale}
use rhosus.Cluster.Server.{ControlServer, ends_above, yield_to, request_vote, append_entries}

-- The request is of a term that is not over and in which this server has not voted, and neither
-- number of its log is behind the server's.
pub record Grantable {env : Env} (req : VoteRequest) (s : ControlServer env) : Type 0 where
  pub current : s.cluster.current_term ≤ req.term
  pub unvoted : s.last_voted_term ≢ req.term
  pub index : s.cluster.last_log_index ≤ req.last_log_index
  pub log_term : s.cluster.last_log_term ≤ req.last_log_term

module _ {env : Env} (req : VoteRequest) (s : ControlServer env) where
  abbrev pub granted : Bool
  granted = (request_vote req s).0.vote_granted

  -- A vote is given exactly to the requests that are `Grantable`.
  pub vote_granted_iff : (granted ≡ true) ↔ Grantable req s
  unfolding request_vote
  vote_granted_iff = (λ h. ground arith, λ g. ground arith)

  -- A vote is recorded for its term; a refusal leaves the record of votes alone. In both cases the
  -- term does not fall, and the log keeps its place.
  pub request_vote_state :
      let s' = (request_vote req s).1 in
      (s'.last_voted_term ≡ (if granted then req.term else s.last_voted_term))
      × (s.cluster.current_term ≤ s'.cluster.current_term)
      × (granted ≡ true → s'.cluster.current_term ≡ req.term)
      × (s'.cluster.last_log_index ≡ s.cluster.last_log_index)
      × (s'.cluster.last_log_term ≡ s.cluster.last_log_term)
  unfolding request_vote
  request_vote_state = (ground arith, ground arith, λ h. ground arith, ground arith, ground arith)

-- What AppendEntries does to the votes and the term.
pub append_entries-last_voted_term :
    {env : Env} (req : AppendRequest) (s : ControlServer env)
    → (append_entries req s).1.last_voted_term ≡ s.last_voted_term
unfolding append_entries
append_entries-last_voted_term req s = ground arith

abbrev pub newer : {env : Env} → AppendRequest → ControlServer env → Bool
newer req s = ltb s.cluster.current_term req.term || ends_above s.cluster.last_log_index req.entries

-- The term that AppendEntries leaves: the request's, if that is newer or the batch ends above the log.
pub append_entries-current_term :
    {env : Env} (req : AppendRequest) (s : ControlServer env)
    → (append_entries req s).1.cluster.current_term
      ≡ (if newer req s then req.term else s.cluster.current_term)
unfolding append_entries
append_entries-current_term req s = ground (
  arith,
  current_term-write_entries_from_leader req.entries s.cluster,
  current_term-write_entries_from_leader req.entries
      (set_current_term req.term (become_follower s.cluster)),
)

-- The requests that the control service handles.
pub data Request : Type 0 where
  vote : VoteRequest → Request
  append : AppendRequest → Request

abbrev pub handle : {env : Env} → Request → ControlServer env → ControlServer env
handle (vote req) s = (request_vote req s).1
handle (append req) s = (append_entries req s).1

-- The terms for which a server gives its vote while it handles the requests, in order.
pub granted_terms : {env : Env} → List Request → ControlServer env → List ℕ
granted_terms [] s = []
granted_terms (vote req ∷ rs) s =
    let later = granted_terms rs (request_vote req s).1 in
    if granted req s then req.term ∷ later else later
granted_terms (append req ∷ rs) s = granted_terms rs (append_entries req s).1

-- No AppendEntries request of a term that is over brings entries above the log.
abbrev pub NoStaleEntries : {env : Env} → List Request → ControlServer env → Type 0
NoStaleEntries [] s = Unit
NoStaleEntries (vote req ∷ rs) s = NoStaleEntries rs (request_vote req s).1
NoStaleEntries (append req ∷ rs) s =
    ((newer req s ≡ false) ⊎ (s.cluster.current_term ≤ req.term))
    × NoStaleEntries rs (append_entries req s).1

abbrev pub Ascending : ℕ → List ℕ → Type 0
Ascending t [] = Unit
Ascending t (u ∷ us) = (t < u) × Ascending u us

granted_terms_from :
    {env : Env} (t : ℕ) (rs : List Request) (s : ControlServer env)
    → s.last_voted_term ≡ t
    → t ≤ s.cluster.current_term
    → NoStaleEntries rs s
    → Ascending t (granted_terms rs s)
unfolding granted_terms
granted_terms_from t [] s v h n = tt
granted_terms_from t (append req ∷ rs) s v h n =
    granted_terms_from t rs (append_entries req s).1 (rw (append_entries-last_voted_term req s) v)
      (ground (arith, append_entries-current_term req s)) n.1
granted_terms_from t (vote req ∷ rs) s v h n = elim (Bool-cases (granted req s)) [
  | inl g ↦
      rw (g, granted_terms)
        (
          new_term g,
          granted_terms_from req.term rs (request_vote req s).1
              (ground (arith, request_vote_state req s))
              (omega (arith, (request_vote_state req s).2 g)) n,
        )
  | inr r ↦
      rw (r, granted_terms)
        (granted_terms_from t rs (request_vote req s).1 (ground (arith, request_vote_state req s))
          (omega (arith, request_vote_state req s)) n)
]
  where
    new_term : granted req s ≡ true → t < req.term
    new_term g = let k = (vote_granted_iff req s).0 g in omega (arith, k.current, k.unvoted)

-- Let a server be in no earlier term than that of its last vote, and let no stale leader bring entries
-- above its log. Then the terms in which it gives its vote strictly grow, from above the term of its
-- last vote, over any sequence of requests: it votes at most once in a term.
pub granted_terms-Ascending :
    {env : Env} (rs : List Request) (s : ControlServer env)
    → s.last_voted_term ≤ s.cluster.current_term
    → NoStaleEntries rs s
    → Ascending s.last_voted_term (granted_terms rs s)
granted_terms-Ascending rs s h n = granted_terms_from s.last_voted_term rs s refl h n

-- The votes of a run that a stale leader's entries break: a server that has voted in its term, is
-- sent entries above its log by a leader of an older term, and then grants an older request, votes
-- a second time in the term of its first vote.
pub double_vote :
    {env : Env} (s : ControlServer env) (stale : AppendRequest) (older again : VoteRequest)
    → s.last_voted_term ≡ s.cluster.current_term
    → stale.term < s.cluster.current_term
    → ends_above s.cluster.last_log_index stale.entries ≡ true
    → stale.term ≤ older.term
    → older.term < s.cluster.current_term
    → s.cluster.last_log_index ≤ older.last_log_index
    → s.cluster.last_log_term ≤ older.last_log_term
    → again.term ≡ s.last_voted_term
    → s.cluster.last_log_index ≤ again.last_log_index
    → s.cluster.last_log_term ≤ again.last_log_term
    → granted_terms (append stale ∷ vote older ∷ vote again ∷ []) s
      ≡ older.term ∷ s.last_voted_term ∷ []
unfolding granted_terms
double_vote {env} s stale older again voted behind above t1 t2 i1 l1 same i2 l2 =
    rw (lowered, granted_terms) (rw (first, granted_terms) (rw (second, granted_terms) (cc same)))
  where
    s1 : ControlServer env
    s1 = yield_to stale.term s

    lowered : (append_entries stale s).1 ≡ s1
    lowered = ground (arith, append_entries-stale stale s behind)

    first : granted older s1 ≡ true
    first =
        (vote_granted_iff older s1).1
          (record { current = t1; unvoted = omega arith; index = i1; log_term = l1 })

    recorded : (request_vote older s1).1.last_voted_term ≡ older.term
    recorded =
        (request_vote_state older s1).0
        ∙ ap (λ (b : Bool). if b then older.term else s.last_voted_term) first

    after : let s2 = (request_vote older s1).1 in Grantable again s2
    after =
        let k = request_vote_state older s1 in
        record {
          current = omega (arith, k.2 first);
          unvoted = omega (arith, recorded);
          index = omega (arith, k.3);
          log_term = omega (arith, k.4);
        }

    second : granted again (request_vote older s1).1 ≡ true
    second = (vote_granted_iff again (request_vote older s1).1).1 after
