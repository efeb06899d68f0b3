-- ===== src/Cluster/Types.antt =====
-- The messages of rhosus/pb/control.proto that the cluster exchanges, its errors, and what it takes
-- from outside: the write-ahead log, the wire format and the registry's callback.
use rhosus.Base.{ℕ, suc, ◌≤◌, String, Bytes, Bool, Option, none, List, ◌≡◌, ℤ}

pub data EntryType : Type 0 where
  assign_file delete_file assign_blocks delete_blocks : EntryType
  create_policy delete_policy create_token revoke_token : EntryType

-- `index` is a uint64, `term` a uint32; `payload` is the field Data.
pub record Entry : Type 0 where
  pub index : ℕ
  pub term : ℕ
  pub type : EntryType
  pub payload : Bytes
  pub timestamp : ℕ

-- ErrCorrupt, ErrShutdown, ErrPeerNotFound, ErrWriteTimeout, a call to a peer that fails, the error
-- of a recovery that the peer refuses, a message that cannot be encoded, those that a library returns, and those that `fmt.Errorf` wraps.
pub data Err : Type 0 where
  corrupt shut_down peer_not_found write_timeout no_answer unexpected_refusal not_encoded : Err
  library : ℕ → Err
  wrapped : Err → Err

pub data State : Type 0 where
  leader candidate follower : State

pub record VoteRequest : Type 0 where
  pub term : ℕ
  pub candidate_id : String
  pub last_log_index : ℕ
  pub last_log_term : ℕ

pub record VoteResponse : Type 0 where
  pub from : String
  pub term : ℕ
  pub vote_granted : Bool

pub record AppendRequest : Type 0 where
  pub term : ℕ
  pub leader_id : String
  pub prev_log_index : ℤ
  pub entries : List Entry

pub record AppendResponse : Type 0 where
  pub from : String
  pub term : ℕ
  pub success : Bool
  pub last_agreed_index : ℕ
  pub last_committed_index : ℕ

-- The calls of wal.WAL, the generated Marshal and Unmarshal of an entry, and the state that the
-- registry's entries handler works on. An error of `none` is Go's nil.
pub record Env : Type 1 where
  pub Log : Type 0
  pub Registry : Type 0
  pub write : ℕ → Bytes → Log → Option Err × Log
  pub read : ℕ → Log → Option Err × Bytes
  pub last_index : Log → Option Err × ℕ
  pub marshal : Entry → Bytes
  pub unmarshal : Bytes → Option Err × Entry

-- What the cluster relies on: an entry survives its encoding; and a log that is open, on a disk that
-- does not fail, takes an entry at the index after its last one, which is how wal.go says that it is
-- written. The entry is read back, the entries before it stay, and the log then ends there.
pub record IsReliable (env : Env) : Type 1 where
  -- The log is open and in order, and its last index is the number.
  pub EndsAt : ℕ → env.Log → Type 0
  pub unmarshal-marshal : (e : Entry) → env.unmarshal (env.marshal e) ≡ (none, e)
  pub last_index_end : (n : ℕ) (l : env.Log) → EndsAt n l → env.last_index l ≡ (none, n)
  pub write_ok : (n : ℕ) (b : Bytes) (l : env.Log) → EndsAt n l → (env.write (suc n) b l).0 ≡ none
  pub write-EndsAt :
      (n : ℕ) (b : Bytes) (l : env.Log) → EndsAt n l → EndsAt (suc n) (env.write (suc n) b l).1
  pub read-write_self :
      (n : ℕ) (b : Bytes) (l : env.Log)
      → EndsAt n l
      → env.read (suc n) (env.write (suc n) b l).1 ≡ (none, b)
  pub read-write_below :
      (n j : ℕ) (b : Bytes) (l : env.Log)
      → EndsAt n l
      → j ≤ n
      → env.read j (env.write (suc n) b l).1 ≡ env.read j l
