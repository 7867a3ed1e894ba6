-- ===== src/Storage.antt =====
-- server/storage/types.go: the data that the storage keeps, and the interface of server/storage/meta.go
-- as far as the managers of server/cluster/metadata use it.
pub mod Memory
pub mod Paths
pub mod KeyPath
pub mod Impl
pub mod Convert
use ceresmeta.Storage.Paths.{is_name}
use ceresmeta.Common.{
  if◌then◌else◌, ◌==◌, nat_eq, Result, ok, err, ℕ, ◌≡◌, Bool, true, false, Option, none, some, List,
  view_conflict, Bytes, text_eq,
}

pub data ClusterState : Type 0 where
  empty stable prepare : ClusterState

pub data ShardRole : Type 0 where
  leader follower : ShardRole

pub data ShardStatus : Type 0 where
  status_unknown ready partial_open : ShardStatus

pub data NodeState : Type 0 where
  state_unknown online offline : NodeState

pub record ShardNode : Type 0 where
  pub id : ℕ
  pub shard_role : ShardRole
  pub node_name : Bytes

pub record ClusterView : Type 0 where
  pub cluster_id : ℕ
  pub version : ℕ
  pub state : ClusterState
  pub shard_nodes : List ShardNode
  pub created_at : ℕ

-- The time is the argument `now`.
unfoldable pub new_cluster_view : ℕ → ℕ → ℕ → ClusterState → List ShardNode → ClusterView
new_cluster_view now id version state shard_nodes = record {
  cluster_id = id;
  version = version;
  state = state;
  shard_nodes = shard_nodes;
  created_at = now;
}

pub record Schema : Type 0 where
  pub id : ℕ
  pub cluster_id : ℕ
  pub name : Bytes
  pub created_at : ℕ

-- The message of a partitioned table is opaque: its bytes, or nil.
pub record Table : Type 0 where
  pub id : ℕ
  pub name : Bytes
  pub schema_id : ℕ
  pub created_at : ℕ
  pub partition_info : Option Bytes

unfoldable pub is_partitioned : Table → Bool
is_partitioned t = elim t.partition_info [ none ↦ false | some _ ↦ true ]

pub record ShardView : Type 0 where
  pub shard_id : ℕ
  pub version : ℕ
  pub table_ids : List ℕ
  pub created_at : ℕ

unfoldable pub new_shard_view : ℕ → ℕ → ℕ → List ℕ → ShardView
new_shard_view now shard_id version table_ids = record {
  shard_id = shard_id;
  version = version;
  table_ids = table_ids;
  created_at = now;
}

pub record NodeStats : Type 0 where
  pub lease : ℕ
  pub zone : Bytes
  pub node_version : Bytes

pub record Node : Type 0 where
  pub name : Bytes
  pub node_stats : NodeStats
  pub last_touch_time : ℕ
  pub state : NodeState

pub data TopologyType : Type 0 where
  type_unknown static dynamic : TopologyType

pub record Cluster : Type 0 where
  pub id : ℕ
  pub name : Bytes
  pub min_node_count : ℕ
  pub shard_total : ℕ
  pub topology_type : TopologyType
  pub procedure_executing_batch_size : ℕ
  pub created_at : ℕ
  pub modified_at : ℕ

-- The calls of the storage: each may fail.
pub record Storage : Type 1 where
  pub State : Type 0
  pub create_cluster_view : ClusterView → State → Result (Unit {0}) × State
  pub get_cluster_view : ℕ → State → Result ClusterView × State
  pub update_cluster_view : ℕ → ClusterView → ℕ → State → Result (Unit {0}) × State
  pub list_schemas : ℕ → State → Result (List Schema) × State
  pub create_schema : ℕ → Schema → State → Result (Unit {0}) × State
  pub create_table : ℕ → ℕ → Table → State → Result (Unit {0}) × State
  pub list_tables : ℕ → ℕ → State → Result (List Table) × State
  pub delete_table : ℕ → ℕ → Bytes → State → Result (Unit {0}) × State
  pub create_shard_views : ℕ → List ShardView → State → Result (Unit {0}) × State
  pub list_shard_views : ℕ → State → Result (List ShardView) × State
  pub update_shard_view : ℕ → ShardView → ℕ → State → Result (Unit {0}) × State
  pub list_nodes : ℕ → State → Result (List Node) × State
  pub create_or_update_node : ℕ → Node → State → Result (Unit {0}) × State
  -- The latest views read at once, which only the laws speak of.
  pub cluster_view : State → ℕ → Option ClusterView
  pub shard_view : State → ℕ → ℕ → Option ShardView
  -- What the storage's own writes keep: a latest version names a view that is there.
  pub IsValid : State → Type 0

-- The version that an update compares is the version of the view that is there.
abbrev pub HasClusterVersion : Option ClusterView → ℕ → Type 0
HasClusterVersion none n = ⊥
HasClusterVersion (some v) n = v.version ≡ n

-- What the managers rely on: an update of the cluster view compares the version that it replaces, one
-- of a shard view does not, and a read returns the latest view. A write that fails has done nothing or
-- all of it.
pub record StorageLaws (s : Storage) : Type 0 where
  pub get_cluster_view_ok :
      (c : ℕ) (t : s.State) (v : ClusterView)
      → (s.get_cluster_view c t).0 ≡ ok v
      → s.cluster_view t c ≡ some v
  pub get_cluster_view_keeps :
      (c d : ℕ) (t : s.State) → s.cluster_view (s.get_cluster_view c t).1 d ≡ s.cluster_view t d
  pub update_cluster_view_ok :
      (c : ℕ) (v : ClusterView) (n : ℕ) (t : s.State)
      → s.IsValid t
      → (s.update_cluster_view c v n t).0 ≡ ok tt
      → HasClusterVersion (s.cluster_view t c) n
        × (s.cluster_view (s.update_cluster_view c v n t).1 c ≡ some v)
  pub update_cluster_view_conflict :
      (c : ℕ) (v : ClusterView) (n : ℕ) (t : s.State)
      → s.IsValid t
      → (s.update_cluster_view c v n t).0 ≡ err view_conflict
      → (HasClusterVersion (s.cluster_view t c) n → ⊥)
        × (s.cluster_view (s.update_cluster_view c v n t).1 c ≡ s.cluster_view t c)
  pub update_shard_view_ok :
      (c : ℕ) (v : ShardView) (n : ℕ) (t : s.State)
      → s.IsValid t
      → (s.update_shard_view c v n t).0 ≡ ok tt
      → (k : ℕ)
      → s.shard_view (s.update_shard_view c v n t).1 c k
        ≡ (if v.shard_id == k then some v else s.shard_view t c k)
  pub update_shard_view_other :
      (c : ℕ) (v : ShardView) (n : ℕ) (t : s.State) (k : ℕ)
      → s.IsValid t
      → (v.shard_id == k) ≡ false
      → s.shard_view (s.update_shard_view c v n t).1 c k ≡ s.shard_view t c k
  pub create_table-IsValid :
      (c i : ℕ) (table : Table) (t : s.State)
      → is_name table.name ≡ true
      → s.IsValid t
      → s.IsValid (s.create_table c i table t).1
