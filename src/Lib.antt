-- ===== src/Lib.antt =====
-- The metadata server of a HoraeDB cluster: ids, shard locks, the placement of shards on nodes by a
-- uniform consistent hash, and the metadata of a cluster, that is its tables and its topology.
--
-- The parts, each with the code that it is about:
--   * Common: helpers. Go maps are association lists whose order stands for the order of iteration;
--     methods that may fail are `Exec`, where what was written before an error stays written.
--   * Etcd, Etcd.Memory: the calls of etcd's KV as a record with its documented laws, and a store in
--     memory that has them.
--   * Id.Allocator: server/id/id_impl.go. A process takes a range of ids by a compare-and-put of a
--     counter in etcd (doRebaseLocked) and hands it out (Alloc). The mutex is that of one
--     process: Id.Allocator.Session cuts a call into steps of one call of etcd each, and
--     Id.Allocator.System interleaves the steps of several processes over one store, with restarts that
--     fall between two calls of etcd. Id.Codec: encodeID and decodeID; its fuel for printing n is n + 1,
--     and each digit divides by ten.
--   * Id.Reusable: server/id/reusable_id_impl.go, the ascending list of shard ids.
--   * EntryLock: server/coordinator/lock/entry_lock.go, the locks on shards that procedures take.
--   * Hash: server/coordinator/scheduler/nodepicker/hash/consistent_uniform.go. The rounds of the loop
--     in distributePartitionWithLoad are the length of the ring, as in the source, whose counter
--     stops there. The average load is a quotient of floats in the source, exact in its floor and
--     ceiling below 2^53. Hash.Offload is the part for affinity rules.
--   * Storage, Storage.Memory: the types of server/storage/types.go, the interface of
--     server/storage/meta.go that the managers call, and an instance in memory.
--     Storage.Paths is path.Join and Storage.KeyPath the keys of server/storage/key_path.go;
--     Storage.Impl is server/storage/storage_impl.go over etcd and codecs, with one child for each
--     part of the proof that it is such a storage. Storage.Convert holds the conversions between the
--     types and the messages. The rounds of CreateShardViews are the views.
--   * EtcdUtil: server/etcdutil/util.go. The rounds of a scan are those of its loop; as many as there
--     are entries are enough.
--   * Topology: server/cluster/metadata/topology_manager.go. Topology.Update holds the methods that
--     write; Topology.Removal, Topology.Tables and Topology.Nodes prove. The last loop of RemoveTable
--     writes to the array behind a slice, and is run on an explicit array and length.
--   * TableManager: server/cluster/metadata/table_manager.go, over the storage and two allocators.
--   * ClusterMetadata: the operations on tables of server/cluster/metadata/cluster_metadata.go, which
--     run both managers over one storage, and the comparisons of a heartbeat. ClusterMetadata.Routes is
--     GetShardTables, RouteTables and GetNodeShards, the random choice of a node a parameter, and
--     ClusterMetadata.Nodes is RegisterNode with the cache of the registered nodes.
--   * Procedure: server/coordinator/procedure/procedure.go. Procedure.Heap is container/heap of the Go
--     library, whose rounds are its indices; Procedure.Queue is delay_queue.go, Procedure.Manager is
--     manager_impl.go, over the states and validity of procedures as parameters, and Procedure.System
--     its goroutines as events: a round of the promotion, a submission, the release of a shard. The
--     rounds of a promotion are enough when they are more than the entries that wait. Times are in
--     milliseconds.
--   * Procedure.Fsm: the loop that the Start methods of server/coordinator/procedure/ddl and operation
--     share, over the library of state machines as a parameter; Procedure.Fsm.Script is the loop as a
--     straight line of calls, and Procedure.Fsm.Ends a relation apart from the loop that says how a run
--     goes. One round for each event and one more are enough. Procedure.Calls holds
--     the calls to the nodes (server/coordinator/eventdispatch/dispatch.go) and the write of
--     server/coordinator/procedure/storage.go, as interfaces, and Procedure.Store is the storage over
--     etcd, server/coordinator/procedure/storage_impl.go.
--   * Procedure.TransferLeader, Procedure.TransferLeader.Batch, Procedure.Split:
--     server/coordinator/procedure/operation. Procedure.Ddl is ddl/common_util.go, and
--     Procedure.CreateTable, Procedure.DropTable, Procedure.CreatePartitionTable and
--     Procedure.DropPartitionTable are the directories of ddl; the goroutines of the last two take
--     their steps in the order of a schedule (the children Tasks).
--   * Reopen: server/coordinator/scheduler/reopen/scheduler.go, over the two constructors of procedures
--     that the factory gives it, which are parameters.
--   * Scheduler: server/coordinator/scheduler/scheduler.go and what the schedulers ask of the factory;
--     Scheduler.NodePicker is nodepicker/node_picker.go over Hash, Scheduler.Static and
--     Scheduler.Rebalanced are static/scheduler.go and rebalanced/scheduler.go over any picker, and
--     Scheduler.ShardPicker is server/coordinator/shard_picker.go. The rounds of the binary search of a
--     shard are the length of the list, which halves with each.
--
-- A panic is the error `panicked`, or `none`. Times are arguments. Each method that holds its lock from
-- its first line to its last is one step, but for Alloc of Id.Allocator.System, whose lock other
-- processes do not share. Machine integers are 64 bits where the source adds (`u64`) and cut to 32 bits where it converts. Logging and the text of errors are left out.
--
-- Not modelled: the servers and their configuration (server/server.go, server/config, server/service),
-- leadership (server/member), the loop that runs the schedulers
-- (server/coordinator/scheduler/manager), the bytes of the messages, and the loading of a cluster in
-- server/cluster/metadata/cluster_metadata.go.
pub mod Common
pub mod Etcd
pub mod EtcdUtil
pub mod Id
pub mod EntryLock
pub mod Hash
pub mod Storage
pub mod Topology
pub mod TableManager
pub mod ClusterMetadata
pub mod Procedure
pub mod Reopen
pub mod Scheduler
