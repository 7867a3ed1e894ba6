-- ===== src/Storage/Convert/RoundTrip.antt =====
-- What the conversions of server/storage/types.go keep.
use ceresmeta.Storage.{
  ClusterState, ShardRole, leader, follower, NodeState, state_unknown, online, offline, ShardNode,
  ClusterView, Schema, Table, ShardView, Node, TopologyType, Cluster, empty, stable, prepare,
  type_unknown, static, dynamic,
}
use ceresmeta.Storage.Convert.{
  convert_shard_role_pb, convert_shard_role_to_pb, convert_topology_type_to_pb,
  convert_topology_type_pb, convert_cluster_state_to_pb, convert_cluster_state_pb,
  convert_node_state_to_pb, convert_node_state_pb, convert_cluster_to_pb, convert_cluster_pb,
  convert_shard_node_to_pb, convert_shard_node_pb, convert_cluster_view_to_pb,
  convert_cluster_view_pb, convert_schema_to_pb, convert_schema_pb, convert_table_to_pb,
  convert_table_pb, convert_shard_view_to_pb, convert_shard_view_pb, convert_node_stats_to_pb,
  convert_node_stats_pb, convert_node_to_pb, convert_node_pb,
}
use ceresmeta.Common.{nat_eq, ok, ◌≡◌, refl, List, [], ◌∷◌, map}

topology_type_roundtrip :
    (t : TopologyType) → convert_topology_type_pb (convert_topology_type_to_pb t) ≡ t
unfolding convert_topology_type_pb convert_topology_type_to_pb
topology_type_roundtrip type_unknown = refl
topology_type_roundtrip static = refl
topology_type_roundtrip dynamic = refl

cluster_state_roundtrip :
    (s : ClusterState) → convert_cluster_state_pb (convert_cluster_state_to_pb s) ≡ ok s
unfolding convert_cluster_state_pb convert_cluster_state_to_pb
cluster_state_roundtrip empty = refl
cluster_state_roundtrip stable = refl
cluster_state_roundtrip prepare = refl

shard_role_roundtrip : (r : ShardRole) → convert_shard_role_pb (convert_shard_role_to_pb r) ≡ r
unfolding convert_shard_role_pb convert_shard_role_to_pb
shard_role_roundtrip leader = refl
shard_role_roundtrip follower = refl

-- A state that is not known has no message of its own.
abbrev pub stored_state : NodeState → NodeState
stored_state state_unknown = offline
stored_state online = online
stored_state offline = offline

node_state_roundtrip :
    (s : NodeState) → convert_node_state_pb (convert_node_state_to_pb s) ≡ stored_state s
unfolding convert_node_state_pb convert_node_state_to_pb
node_state_roundtrip state_unknown = refl
node_state_roundtrip online = refl
node_state_roundtrip offline = refl

shard_nodes_roundtrip :
    (ns : List ShardNode) → map convert_shard_node_pb (map convert_shard_node_to_pb ns) ≡ ns
unfolding convert_shard_node_pb convert_shard_node_to_pb
shard_nodes_roundtrip [] = refl
shard_nodes_roundtrip (n ∷ ns) =
    rw (shard_role_roundtrip n.shard_role, shard_nodes_roundtrip ns) refl

cluster_view_roundtrip :
    (v : ClusterView) → convert_cluster_view_pb (convert_cluster_view_to_pb v) ≡ ok v
unfolding convert_cluster_view_pb convert_cluster_view_to_pb
cluster_view_roundtrip v =
    rw (cluster_state_roundtrip v.state, convert_cluster_view_pb, convert_cluster_view_to_pb)
      (rw (shard_nodes_roundtrip v.shard_nodes) refl)

-- What is converted to a message and back is what was given, but for a node whose state is not known:
-- it comes back as offline.
pub convert_roundtrip :
    (c : Cluster) (v : ClusterView) (s : Schema) (t : Table) (w : ShardView) (n : Node)
    → (convert_cluster_pb (convert_cluster_to_pb c) ≡ c)
      × (convert_cluster_view_pb (convert_cluster_view_to_pb v) ≡ ok v)
      × (convert_schema_pb (convert_schema_to_pb s) ≡ s)
      × (convert_table_pb (convert_table_to_pb t) ≡ t)
      × (convert_shard_view_pb (convert_shard_view_to_pb w) ≡ w)
      × (convert_node_pb (convert_node_to_pb n) ≡ ok (record n { state = stored_state n.state }))
unfolding convert_cluster_pb convert_cluster_to_pb convert_schema_pb convert_schema_to_pb
    convert_table_pb convert_table_to_pb convert_shard_view_pb convert_shard_view_to_pb
    convert_node_pb convert_node_to_pb convert_node_stats_pb convert_node_stats_to_pb
convert_roundtrip c v s t w n = (
  rw (topology_type_roundtrip c.topology_type) refl,
  cluster_view_roundtrip v,
  refl,
  refl,
  refl,
  rw (node_state_roundtrip n.state) refl,
)
