-- ===== src/Data/Service.antt =====
-- rhosus/node/grpc_server.go and node.go: the calls that a data node answers, over its manager. What
-- the gRPC stream and the profiler give is an argument.
pub mod Served
use rhosus.Base.{
  ℕ, zero, suc, ◌+◌, ◌-◌, ◌*◌, ◌/◌, ◌%◌, ◌^◌, Bytes, Bool, true, false, ◌⊎◌, inl, inr, Option, none,
  some, List, [], ◌∷◌, length, if◌then◌else◌,
}
use rhosus.Data.Files.{Files}
use rhosus.Data.IdxFile.{Err, default_block_size, default_partition_size}
use rhosus.Data.Partition.{BlockPlacementInfo, Block}
use rhosus.Data.Manager.{
  Manager, Created, Sinks, read_block, write_blocks, get_used_blocks_count, get_blocks_count,
}
use rhosus.Data.Manager

-- What `Recv` gives: a block, or an error after which the loop goes on.
pub data Received : Type 0 where
  received : Block → Received
  failed : Received

-- transport_pb.RemoveBlocksResponse; the text of the error is the error.
pub record RemoveBlocksResponse : Type 0 where
  pub success : Bool
  pub err : Option Err

-- The counts of transport_pb.NodeMetrics, as uint32 with the bits of the int32.
pub record Metrics : Type 0 where
  pub blocks_used : ℕ
  pub blocks_remaining : ℕ

-- The loop of `AssignBlocks`, up to the end of the stream.
pub receive : List Received → List Block
receive [] = []
receive (received b ∷ rs) = b ∷ receive rs
receive (failed ∷ rs) = receive rs

module _ {fs : Files} where
  -- `GetBlocks`: what is sent, and the error that ends the call. `send i` is the error of the `i`-th
  -- send. A nil block is none.
  pub get_blocks :
      (ℕ → Option Err) → ℕ → List BlockPlacementInfo → Manager fs → List (Option Block) × Option Err
  get_blocks send i [] m = ([], none)
  get_blocks send i (block ∷ blocks) m =
      let (sent, err) = get_blocks send (suc i) blocks m in
      elim (read_block block m) [
        | inl e ↦ ([], some e)
        | inr b ↦ elim (send i) [ some e ↦ ([], some e) | none ↦ (b ∷ sent, err) ]
      ]

  -- `AssignBlocks` with HandleAssignBlocks; `none` is a panic.
  pub assign_blocks :
      Created fs
      → (ℕ → Bool)
      → List Received
      → Sinks
      → Manager fs
      → Option ((Err ⊎ List BlockPlacementInfo) × Sinks × Manager fs)
  unfolding receive
  assign_blocks created taken stream sinks m = write_blocks created taken (receive stream) sinks m

  -- `RemoveBlocks`
  pub remove_blocks : List BlockPlacementInfo → Manager fs → RemoveBlocksResponse × Manager fs
  remove_blocks blocks m =
      let (err, m') = Manager.remove_blocks blocks m in
      elim err [
        | some e ↦ (record { success = false; err = some e }, m')
        | none ↦ (record { success = true; err = none }, m')
      ]

  -- `GetFreeBlocksCount`, in uint64; `free` is the free space of the disk in bytes.
  pub get_free_blocks_count : ℕ → Manager fs → ℕ
  get_free_blocks_count free m =
      let total =
        free / default_block_size + length m.parts * default_partition_size / default_block_size in
      if m.shutdown then 0 else (total + 2 ^ 64 - get_used_blocks_count m.parts) % 2 ^ 64

  -- The counts of `CollectMetrics`; `none` is the panic when the profiler cannot read the memory.
  pub collect_metrics : Bool → ℕ → Manager fs → Option Metrics
  unfolding get_free_blocks_count
  collect_metrics mem_ok free m =
      if mem_ok
      then some (record {
        blocks_used = get_blocks_count m % 2 ^ 32;
        blocks_remaining = get_free_blocks_count free m % 2 ^ 32;
      })
      else none
