-- ===== src/Registry/Uploads.antt =====
-- rhosus/registry/file_handlers.go: HandlePutFile. The body of a request is read in chunks of 2 MB
-- into buffers of a pool. A full chunk becomes a block in a goroutine of its own, which nothing waits
-- for, and the block's data stays the buffer's memory; a shorter chunk is copied, and is the last. A
-- schedule says when the goroutines run and which buffer the pool hands out. One goroutine runs at a
-- time, and no other upload shares the pool.
pub mod Chunks
pub mod Races
pub mod Stored
use rhosus.Base.{
  ℕ, zero, suc, ◌+◌, ◌-◌, ◌*◌, ◌^◌, String, Bytes, Bool, true, false, Option, none, some, List, [],
  ◌∷◌, ◌++◌, length, take, drop, map, get_elem?, ◌==◌, ltb, leb, if◌then◌else◌, ◌⊎◌,
}
use rhosus.Storage.Types.{FileInfo, file_type}
use rhosus.Storage.Store.{Env}
use rhosus.Cluster.Types
use rhosus.Cluster.Entries.{EntryCodecs, Timing}
use rhosus.Registry.Types.{
  Registry, RegistryErr, Result, ok, failed, waiting, panicked, PlacementInfo, FsBlock,
  file_exists_err, no_such_file_or_directory,
}
use rhosus.Registry.Paths.{split, last_part, trim}
use rhosus.Registry.Files.{register_file}
use rhosus.Registry.Placing.{transport_and_register_blocks}

abbrev pub upload_block_size : ℕ
upload_block_size = 2 * 2 ^ 20

abbrev pub buffers_limit : ℕ
buffers_limit = 4

-- The data of a block: bytes of its own, or the memory of a buffer.
pub data Piece : Type 0 where
  own : Bytes → Piece
  shared : ℕ → Piece

-- fs_pb.Block, before it is sent.
pub record UploadBlock : Type 0 where
  pub id : String
  pub index : ℕ
  pub len : ℕ
  pub piece : Piece

-- `running` has the buffers of the goroutines that did not run yet, `free` those in the pool, and
-- `memory` what each buffer holds.
pub record Upload : Type 0 where
  pub unread : Bytes
  pub memory : List Bytes
  pub free : List ℕ
  pub running : List ℕ
  pub counter : ℕ
  pub blocks : List UploadBlock
  pub total : ℕ
  pub ended : Bool

-- A round of the loop, with the place in the pool of the buffer that it gets or a new one; a round in
-- which the body cannot be read to the end of the chunk, with the bytes that were read; or the
-- goroutine at a place in `running`.
pub data Event : Type 0 where
  round : Option ℕ → Event
  broken : Option ℕ → ℕ → Event
  run : ℕ → Event

-- A list without the element at a place.
abbrev pub without_at : List ℕ → ℕ → List ℕ
without_at [] i = []
without_at (x ∷ xs) zero = xs
without_at (x ∷ xs) (suc i) = x ∷ without_at xs i

-- What the buffers hold after a read into one of them; more that it held before stays behind.
abbrev pub fill : ℕ → Bytes → List Bytes → List Bytes
fill b chunk [] = []
fill zero chunk (x ∷ xs) = (chunk ++ drop (length chunk) x) ∷ xs
fill (suc b) chunk (x ∷ xs) = x ∷ fill b chunk xs

-- `bufPool.Get`: the buffer, the memory and the pool.
pub get_buffer : Option ℕ → Upload → ℕ × List Bytes × List ℕ
get_buffer none u = (length u.memory, u.memory ++ [] ∷ [], u.free)
get_buffer (some i) u = elim (get_elem? u.free i) [
  | none ↦ (length u.memory, u.memory ++ [] ∷ [], u.free)
  | some b ↦ (b, u.memory, without_at u.free i)
]

-- What a round makes of the chunk that was read into the buffer `b`.
pub take_chunk : (ℕ → String) → Bytes → ℕ → List Bytes → List ℕ → Upload → Upload
take_chunk new_id chunk b memory free u =
    let memory' = fill b chunk memory in
    let small : UploadBlock = record {
      id = new_id (length u.blocks);
      index = u.counter;
      len = length chunk;
      piece = own chunk;
    } in
    let last : Upload = record u {
      memory = memory';
      free = free ++ b ∷ [];
      blocks = u.blocks ++ small ∷ [];
      total = u.total + length chunk;
      ended = true;
    } in
    let full : Upload = record u {
      unread = drop upload_block_size u.unread;
      memory = memory';
      free = free;
      running = u.running ++ b ∷ [];
    } in
    if length chunk == 0
    then record u { memory = memory; free = free ++ b ∷ []; ended = true }
    else if ltb (length chunk) upload_block_size
    then last
    else full

-- The body of a goroutine.
pub run_block : (ℕ → String) → ℕ → Upload → Upload
run_block new_id i u = elim (get_elem? u.running i) [
  | none ↦ u
  | some b ↦
      let block : UploadBlock = record {
        id = new_id (length u.blocks);
        index = u.counter;
        len = upload_block_size;
        piece = shared b;
      } in
      record u {
        free = u.free ++ b ∷ [];
        running = without_at u.running i;
        counter = u.counter + 1;
        blocks = u.blocks ++ block ∷ [];
        total = u.total + upload_block_size;
      }
]

-- One event. A round waits while four buffers are in use, and there is none after the last.
pub perform : (ℕ → String) → Event → Upload → Upload
unfolding take_chunk run_block get_buffer
perform new_id (round pick) u =
    let (b, memory, free) = get_buffer pick u in
    if u.ended
    then u
    else if leb buffers_limit (length u.running)
    then u
    else take_chunk new_id (take upload_block_size u.unread) b memory free u
perform new_id (broken pick n) u =
    let (b, memory, free) = get_buffer pick u in
    let memory' = fill b (take n (take upload_block_size u.unread)) memory in
    if u.ended
    then u
    else if leb buffers_limit (length u.running)
    then u
    else record u { memory = memory'; free = free ++ b ∷ []; ended = true }
perform new_id (run i) u = run_block new_id i u

unfoldable pub perform_all : (ℕ → String) → List Event → Upload → Upload
unfolding perform
perform_all new_id [] u = u
perform_all new_id (e ∷ es) u = perform_all new_id es (perform new_id e u)

unfoldable pub start : Bytes → Upload
start content = record {
  unread = content;
  memory = [];
  free = [];
  running = [];
  counter = 1;
  blocks = [];
  total = 0;
  ended = false;
}

-- What a block's data is when it is sent.
pub bytes_of : List Bytes → Piece → Bytes
bytes_of memory (own x) = x
bytes_of memory (shared b) = elim (get_elem? memory b) [ none ↦ [] | some x ↦ x ]

pub sent_block : List Bytes → UploadBlock → FsBlock
unfolding bytes_of
sent_block memory b = record {
  id = b.id;
  index = b.index;
  len = b.len;
  bytes = bytes_of memory b.piece;
}

-- `dataToTransfer`
unfoldable pub data_to_transfer : Upload → List FsBlock
unfolding sent_block
data_to_transfer u = map (sent_block u.memory) u.blocks

-- The file of the request.
abbrev pub uploaded_file : String → String → ℕ → FileInfo
uploaded_file uid path size = record {
  id = uid;
  parent_id = "";
  type = file_type;
  name = last_part (split path);
  path = path;
  file_size = size;
  permission = 493;
  replication = 2;
}

-- The answer: OK, 409, 400 or 500.
pub data PutAnswer : Type 0 where
  stored_ok conflict bad_request internal_error : PutAnswer

pub put_answer : Result Unit → Result PutAnswer
put_answer (ok _) = ok stored_ok
put_answer (failed file_exists_err) = ok conflict
put_answer (failed no_such_file_or_directory) = ok bad_request
put_answer (failed e) = ok internal_error
put_answer waiting = waiting
put_answer panicked = panicked

module _ {senv : Env} {cenv : Types.Env} where
  -- The end of the handler, after the transport: a file is registered and the request answered.
  abbrev pub answer_put :
      Result Unit
      → Registry senv cenv
      → Result Unit × Registry senv cenv
      → Result PutAnswer × Registry senv cenv
  answer_put (ok _) r (registered, r') = (put_answer registered, r')
  answer_put (failed e) r (registered, r') = (put_answer registered, r')
  answer_put waiting r _ = (waiting, r)
  answer_put panicked r _ = (panicked, r)

  -- `HandlePutFile` from the loop on: the schedule up to its end, and that while the blocks are sent,
  -- whose goroutines add to the size of the file alone. An error of the transport is only logged.
  unfoldable pub handle_put_file :
      (String → List FsBlock → RegistryErr ⊎ List PlacementInfo)
      → EntryCodecs
      → Timing
      → Timing
      → (ℕ → String)
      → List Event
      → List Event
      → String
      → String
      → Bytes
      → Registry senv cenv
      → Result PutAnswer × Registry senv cenv
  handle_put_file call codecs at_blocks at_file new_id before during uid url content r =
      let path = trim url in
      let u = perform_all new_id before (start content) in
      let u' = perform_all new_id during u in
      let (sent, r') =
        transport_and_register_blocks call codecs at_blocks uid (data_to_transfer u) 2 r in
      if u.ended
      then answer_put sent r' (register_file codecs at_file (uploaded_file uid path u'.total) r')
      else (waiting, r)
