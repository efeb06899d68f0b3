-- ===== src/Cluster/Members/Restart.antt =====
-- A registry that starts again on the log of an earlier run, and the peers that it comes to know.
use rhosus.Base.{
  ℕ, suc, ◌≡◌, String, false, Option, none, some, lookup, lookup-insert, string_key, arith,
  if◌then◌else◌,
}
use rhosus.Cluster.Types.{Entry, Err, Env, IsReliable}
use rhosus.Cluster.Node.{Cluster}
use rhosus.Cluster.Write.Follower.{stored-EndsAt, read_stored}
use rhosus.Cluster.Members.{set_initial_term_and_index, discover_or_update, new_peer}

-- After a restart on the log in which `e` was written last, a registry has the index and the term of
-- `e`; a later term that it had voted or stood for is forgotten.
pub set_initial_term_and_index-write :
    {env : Env} (sound : IsReliable env) (n : ℕ) (e : Entry) (log : env.Log) (c : Cluster env)
    → sound.EndsAt n log
    → e.index ≡ suc n
    → c.wal ≡ (env.write e.index (env.marshal e) log).1
    → set_initial_term_and_index c
      ≡ some (record c { last_log_index = e.index; last_log_term = e.term; current_term = e.term })
unfolding set_initial_term_and_index
set_initial_term_and_index-write {env} sound n e log c ends next w = ground (
  arith,
  sound.last_index_end (suc n) c.wal,
  stored-EndsAt sound n e (record c { wal = log }) ends next,
  read_stored sound n e (record c { wal = log }) ends next,
  sound.unmarshal-marshal e,
)

-- A discovered peer that can be dialled is known afterwards, with an empty buffer; one that is known
-- already stays as it is, and so do all others.
pub lookup-discover_or_update :
    {env : Env} (dial : String → Option Err) (uid info_id address : String) (c : Cluster env)
    (j : String)
    → c.shutdown ≡ false
    → dial address ≡ none
    → lookup j (discover_or_update dial uid info_id address c).1.peers ≡ elim (lookup j c.peers) [
      | some p ↦ some p
      | none ↦ if string_key.same uid j then some (new_peer info_id) else none
    ]
unfolding discover_or_update
lookup-discover_or_update dial uid info_id address c j up ok =
    ground (arith, lookup-insert uid j (new_peer info_id) c.peers, string_key.same_iff uid j)
