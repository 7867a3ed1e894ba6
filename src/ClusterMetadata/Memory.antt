-- ===== src/ClusterMetadata/Memory.antt =====
-- A cluster in memory with one schema, one shard and one node, for the tests.
use ceresmeta.Storage.{leader, stable, ShardNode, ClusterView, Schema, ShardView, Storage}
use ceresmeta.Storage.Memory.{Mem, memory_storage}
use ceresmeta.Topology.{TopologyManagerImpl}
use ceresmeta.TableManager.{IdAllocator, TableManagerImpl}
use ceresmeta.ClusterMetadata.{World}
use ceresmeta.Common.{nat_eq, ok, ℕ, ◌+◌, some, [], ◌∷◌, text_eq}

abbrev pub counter : IdAllocator
counter = record { State = ℕ; alloc = λ n. (ok n, n + 1) }

abbrev pub node : ShardNode
node = record { id = 5; shard_role = leader; node_name = b'a' ∷ [] }

abbrev pub view : ClusterView
view = record {
  cluster_id = 1;
  version = 3;
  state = stable;
  shard_nodes = node ∷ [];
  created_at = 0;
}

abbrev pub shard : ShardView
shard = record { shard_id = 5; version = 7; table_ids = 1 ∷ 2 ∷ []; created_at = 0 }

abbrev pub stored : Mem
stored = record { cluster = λ c. some view; shard = λ c k. some shard; shard_list = shard ∷ [] }

abbrev pub topology : TopologyManagerImpl
topology = record {
  cluster_id = 1;
  cluster_view = some view;
  shard_nodes_mapping = (5, node ∷ []) ∷ [];
  node_shards_mapping = (b'a' ∷ [], node ∷ []) ∷ [];
  shard_tables_mapping = (5, shard) ∷ [];
  table_shard_mapping = (1, 5 ∷ []) ∷ (2, 5 ∷ []) ∷ [];
  nodes = [];
}

abbrev pub public : Schema
public = record { id = 1; cluster_id = 1; name = b'p' ∷ []; created_at = 0 }

abbrev pub manager : TableManagerImpl
manager = record { cluster_id = 1; schemas = (b'p' ∷ [], public) ∷ []; schema_tables = [] }

abbrev pub s : Storage
s = memory_storage

abbrev pub before : World s counter counter
before = (manager, (topology, (stored, (2, 3))))
