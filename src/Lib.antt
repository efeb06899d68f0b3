-- ===== src/Lib.antt =====
-- Rhosus, a distributed file storage: the cluster of registries and the store of a data node.
--
-- The registries keep a shared log of entries (rhosus/registry/cluster). The leader appends an entry to
-- its write-ahead log, a pipeline hands it to a buffer for each peer, and a loop sends the buffers; a
-- follower that is behind is sent the missing entries one by one. A registry that hears nothing stands
-- for election. A data node (rhosus/node/data) keeps blocks in partition files of 512 slots, with an
-- index file beside each from which the map of blocks is loaded at the start.
--
-- Base: shared names; Boolean tests, lists, keys and maps (a Go map is an association list with one
--   entry to a key, and its order is the order of a range loop), int64.
-- Cluster (rhosus/registry/cluster): Types has the messages of rhosus/pb/control.proto, the errors, and
--   Env, the calls of the write-ahead log, of the generated encoding and of the registry's callback,
--   with the laws IsReliable: an open log is written at the index after its last, as wal.go asks. Buffer
--   is buffer.go. Node is the state of cluster.go and peer.go. Write is
--   write.go: writeEntry, the pipeline, and the follower's writes. Server is server.go: RequestVote and
--   AppendEntries. Election is StartElection with sendVoteRequest. Recovery is dispatchEntries and
--   startLogRecovering. Members is setInitialTermAndIndex and the peers' map.
--   Each handler is one step on the state; locks, timers and the gRPC transport are not modelled, and
--   the network is a parameter. Terms are numbers below 2 ^ 32 and indices below 2 ^ 64, and the sums
--   that the code makes wrap there. A send that may time out takes a Boolean for its outcome.
-- Data (rhosus/node/data): Files has the calls of os.File that the store makes, a parameter, and IsDisk, a
--   disk that does not fail within the preallocated file. IdxFile is idx_file.go with util.go: the headers
--   of 44 bytes, Load, Write and Erase. Partition is partition.go: WriteBlocks, ReadBlocks, RemoveBlocks,
--   loadHeader, Close and the counts. Load reads to the end of the file; its fuel is the number of reads,
--   and 513 are enough for 512 slots and the end. A panic is `none`. Manager is data.go with
--   the operations of partitions.go that it calls: WriteBlocks, RemoveBlocks, ReadBlock, Shutdown and the
--   counts. The identifier and the files of a new partition are an argument, and so is whether a sink takes
--   a block in time. Sink is the tick of the sink's loop in partition.go. PartitionsMap is the rest of
--   partitions.go, NewManager and NewIdxFile: the start from the entries of the directory, which are an
--   argument with the results of opening the files, the watcher's tick, and the choice of a partition.
--   fileutil.Preallocate, a copy of a library, is a parameter; the loop that makes the first
--   partitions runs over what its rounds meet. Service is the calls of grpc_server.go that reach the
--   manager, with node.go.
-- Storage (rhosus/registry/storage): Types has the messages that are kept. Tables has the schema of
--   storage.go and go-memdb as a parameter: a table is its insert, delete and lookups, and IsTable says
--   what go-memdb documents of one with a schema, as long as nothing breaks the uniqueness of an index.
--   Tables.Memory is a table in memory that meets these laws. Store is storage_files.go, Store.Auth is
--   storage_auth.go and storage_policy.go: each operation commits to its table and then writes the
--   backend, an interface. Load is loadFromBackend. FileBackend is backend_file.go, the backend over
--   bbolt, whose calls are a parameter with the laws IsBolt.
-- Registry (rhosus/registry): Files, Placing and Remove are files.go, util.go and the file handlers of
--   sys_handlers.go; Access is the handlers of policies and tokens; Replay is handleEntriesFromLeader
--   of registry.go, by which a follower applies the leader's entries; Nodes is nodes_map.go. Discovery
--   is the events of RunServiceDiscovery, with ParseNodeName of rhosus/etcd/client.go. A handler
--   answers, fails, waits for the cluster for ever, or panics. The answers of the data nodes, new
--   identifiers and clocks are arguments. killChildren takes fuel for the depth of the tree of files, and
--   any number above the rank of the file in it is enough. Cluster.Entries has the methods of write.go
--   that encode an entry and write it. Uploads is HandlePutFile of file_handlers.go from its loop on: a
--   schedule says when the goroutines run and which buffer the pool hands out, and blocks share the
--   memory of their buffers. One goroutine runs at a time, and no other upload shares the pool.
--   Requests is the other handlers of that file; the comparison of HandleList is no order, so that
--   sort.Slice with it is a parameter.
-- Auth (rhosus/auth): roles, tokens, a tick of the watch for expired tokens, and Login with credentials.
--   The hash of passwords is a parameter.
-- Not modelled: rhosus/registry/wal and rhosus/util, copies of libraries or glue; the opening of the
--   databases; the HTTP and gRPC servers, the connections to the nodes, and the commands. Concurrency within
--   a handler is not modelled but for uploads: what goroutines do at once is done in some order.
pub mod Base
pub mod Cluster
pub mod Data
pub mod Storage
pub mod Registry
pub mod Auth
