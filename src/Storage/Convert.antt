-- ===== src/Storage/Convert.antt =====
-- The conversions of server/storage/types.go between the data that the storage keeps and the messages
-- of horaedbproto: of each message, the fields that are written or read. A clause for a number that no
-- constant of the message has stands for the code after the switch.
pub mod RoundTrip
mod Tests
use ceresmeta.Storage.{
  ClusterState, empty, stable, prepare, ShardRole, leader, follower, ShardStatus, status_unknown,
  ready, partial_open, NodeState, state_unknown, online, offline, ShardNode, ClusterView, Schema,
  Table, ShardView, NodeStats, Node, TopologyType, type_unknown, static, dynamic, Cluster,
}
use ceresmeta.Common.{
  nat_eq, Result, ok, err, ℕ, Bool, false, Option, none, some, List, [], map, Bytes, panicked,
}

-- The constants of the messages, and any other number.
pub data ShardRolePb : Type 0 where
  pb_leader pb_follower : ShardRolePb
  other_role : ℕ → ShardRolePb

pub data TopologyTypePb : Type 0 where
  pb_unknown pb_static pb_dynamic : TopologyTypePb
  other_type : ℕ → TopologyTypePb

pub data ClusterStatePb : Type 0 where
  pb_empty pb_stable pb_prepare_rebalance pb_awaiting_open pb_awaiting_close : ClusterStatePb
  other_state : ℕ → ClusterStatePb

pub data NodeStatePb : Type 0 where
  pb_online pb_offline : NodeStatePb
  other_node_state : ℕ → NodeStatePb

pub data ShardStatusPb : Type 0 where
  pb_ready pb_partial_open : ShardStatusPb
  other_status : ℕ → ShardStatusPb

pub record ClusterPb : Type 0 where
  pub id : ℕ
  pub name : Bytes
  pub min_node_count : ℕ
  pub shard_total : ℕ
  pub enable_schedule : Bool
  pub topology_type : TopologyTypePb
  pub procedure_executing_batch_size : ℕ
  pub created_at : ℕ
  pub modified_at : ℕ

pub record ShardNodePb : Type 0 where
  pub id : ℕ
  pub shard_role : ShardRolePb
  pub node : Bytes

pub record ClusterViewPb : Type 0 where
  pub cluster_id : ℕ
  pub version : ℕ
  pub state : ClusterStatePb
  pub shard_nodes : List ShardNodePb
  pub cause : Bytes
  pub created_at : ℕ

pub record SchemaPb : Type 0 where
  pub id : ℕ
  pub cluster_id : ℕ
  pub name : Bytes
  pub created_at : ℕ

pub record TablePb : Type 0 where
  pub id : ℕ
  pub name : Bytes
  pub schema_id : ℕ
  pub desc : Bytes
  pub created_at : ℕ
  pub partition_info : Option Bytes

pub record ShardViewPb : Type 0 where
  pub shard_id : ℕ
  pub table_ids : List ℕ
  pub version : ℕ
  pub created_at : ℕ

pub record NodeStatsPb : Type 0 where
  pub lease : ℕ
  pub zone : Bytes
  pub node_version : Bytes

-- The statistics are a pointer.
pub record NodePb : Type 0 where
  pub name : Bytes
  pub stats : Option NodeStatsPb
  pub last_touch_time : ℕ
  pub state : NodeStatePb

unfoldable pub convert_shard_role_pb : ShardRolePb → ShardRole
convert_shard_role_pb pb_leader = leader
convert_shard_role_pb pb_follower = follower
convert_shard_role_pb (other_role n) = follower

unfoldable pub convert_shard_role_to_pb : ShardRole → ShardRolePb
convert_shard_role_to_pb leader = pb_leader
convert_shard_role_to_pb follower = pb_follower

unfoldable pub convert_topology_type_to_pb : TopologyType → TopologyTypePb
convert_topology_type_to_pb type_unknown = pb_unknown
convert_topology_type_to_pb static = pb_static
convert_topology_type_to_pb dynamic = pb_dynamic

unfoldable pub convert_topology_type_pb : TopologyTypePb → TopologyType
convert_topology_type_pb pb_unknown = type_unknown
convert_topology_type_pb pb_static = static
convert_topology_type_pb pb_dynamic = dynamic
convert_topology_type_pb (other_type n) = static

unfoldable pub convert_cluster_state_to_pb : ClusterState → ClusterStatePb
convert_cluster_state_to_pb empty = pb_empty
convert_cluster_state_to_pb stable = pb_stable
convert_cluster_state_to_pb prepare = pb_prepare_rebalance

-- Another number panics.
unfoldable pub convert_cluster_state_pb : ClusterStatePb → Result ClusterState
convert_cluster_state_pb pb_empty = ok empty
convert_cluster_state_pb pb_awaiting_open = ok empty
convert_cluster_state_pb pb_awaiting_close = ok empty
convert_cluster_state_pb pb_prepare_rebalance = ok prepare
convert_cluster_state_pb pb_stable = ok stable
convert_cluster_state_pb (other_state n) = err panicked

unfoldable pub convert_shard_status_pb : Option ShardStatusPb → ShardStatus
convert_shard_status_pb none = ready
convert_shard_status_pb (some pb_partial_open) = partial_open
convert_shard_status_pb (some pb_ready) = ready
convert_shard_status_pb (some (other_status n)) = ready

unfoldable pub convert_shard_status_to_pb : ShardStatus → ShardStatusPb
convert_shard_status_to_pb partial_open = pb_partial_open
convert_shard_status_to_pb ready = pb_ready
convert_shard_status_to_pb status_unknown = pb_ready

unfoldable pub convert_node_state_to_pb : NodeState → NodeStatePb
convert_node_state_to_pb state_unknown = pb_offline
convert_node_state_to_pb online = pb_online
convert_node_state_to_pb offline = pb_offline

unfoldable pub convert_node_state_pb : NodeStatePb → NodeState
convert_node_state_pb pb_online = online
convert_node_state_pb pb_offline = offline
convert_node_state_pb (other_node_state n) = offline

unfoldable pub convert_cluster_to_pb : Cluster → ClusterPb
convert_cluster_to_pb c = record {
  id = c.id;
  name = c.name;
  min_node_count = c.min_node_count;
  shard_total = c.shard_total;
  enable_schedule = false;
  topology_type = convert_topology_type_to_pb c.topology_type;
  procedure_executing_batch_size = c.procedure_executing_batch_size;
  created_at = c.created_at;
  modified_at = c.modified_at;
}

unfoldable pub convert_cluster_pb : ClusterPb → Cluster
convert_cluster_pb c = record {
  id = c.id;
  name = c.name;
  min_node_count = c.min_node_count;
  shard_total = c.shard_total;
  topology_type = convert_topology_type_pb c.topology_type;
  procedure_executing_batch_size = c.procedure_executing_batch_size;
  created_at = c.created_at;
  modified_at = c.modified_at;
}

unfoldable pub convert_shard_node_to_pb : ShardNode → ShardNodePb
convert_shard_node_to_pb n = record {
  id = n.id;
  shard_role = convert_shard_role_to_pb n.shard_role;
  node = n.node_name;
}

unfoldable pub convert_shard_node_pb : ShardNodePb → ShardNode
convert_shard_node_pb n = record {
  id = n.id;
  shard_role = convert_shard_role_pb n.shard_role;
  node_name = n.node;
}

unfoldable pub convert_cluster_view_to_pb : ClusterView → ClusterViewPb
convert_cluster_view_to_pb v = record {
  cluster_id = v.cluster_id;
  version = v.version;
  state = convert_cluster_state_to_pb v.state;
  shard_nodes = map convert_shard_node_to_pb v.shard_nodes;
  cause = [];
  created_at = v.created_at;
}

unfoldable pub convert_cluster_view_pb : ClusterViewPb → Result ClusterView
convert_cluster_view_pb v = elim (convert_cluster_state_pb v.state) [
  | err x ↦ err x
  | ok state ↦ ok (record {
    cluster_id = v.cluster_id;
    version = v.version;
    state = state;
    shard_nodes = map convert_shard_node_pb v.shard_nodes;
    created_at = v.created_at;
  })
]

unfoldable pub convert_schema_to_pb : Schema → SchemaPb
convert_schema_to_pb s = record {
  id = s.id;
  cluster_id = s.cluster_id;
  name = s.name;
  created_at = s.created_at;
}

unfoldable pub convert_schema_pb : SchemaPb → Schema
convert_schema_pb s = record {
  id = s.id;
  cluster_id = s.cluster_id;
  name = s.name;
  created_at = s.created_at;
}

unfoldable pub convert_table_to_pb : Table → TablePb
convert_table_to_pb t = record {
  id = t.id;
  name = t.name;
  schema_id = t.schema_id;
  desc = [];
  created_at = t.created_at;
  partition_info = t.partition_info;
}

unfoldable pub convert_table_pb : TablePb → Table
convert_table_pb t = record {
  id = t.id;
  name = t.name;
  schema_id = t.schema_id;
  created_at = t.created_at;
  partition_info = t.partition_info;
}

unfoldable pub convert_shard_view_to_pb : ShardView → ShardViewPb
convert_shard_view_to_pb v = record {
  shard_id = v.shard_id;
  table_ids = v.table_ids;
  version = v.version;
  created_at = v.created_at;
}

unfoldable pub convert_shard_view_pb : ShardViewPb → ShardView
convert_shard_view_pb v = record {
  shard_id = v.shard_id;
  version = v.version;
  table_ids = v.table_ids;
  created_at = v.created_at;
}

unfoldable pub convert_node_stats_to_pb : NodeStats → NodeStatsPb
convert_node_stats_to_pb s = record {
  lease = s.lease;
  zone = s.zone;
  node_version = s.node_version;
}

unfoldable pub convert_node_stats_pb : NodeStatsPb → NodeStats
convert_node_stats_pb s = record { lease = s.lease; zone = s.zone; node_version = s.node_version }

unfoldable pub convert_node_to_pb : Node → NodePb
convert_node_to_pb n = record {
  name = n.name;
  stats = some (convert_node_stats_to_pb n.node_stats);
  last_touch_time = n.last_touch_time;
  state = convert_node_state_to_pb n.state;
}

-- A node without statistics is a nil dereference.
unfoldable pub convert_node_pb : NodePb → Result Node
convert_node_pb n = elim n.stats [
  | none ↦ err panicked
  | some s ↦ ok (record {
    name = n.name;
    node_stats = convert_node_stats_pb s;
    last_touch_time = n.last_touch_time;
    state = convert_node_state_pb n.state;
  })
]
