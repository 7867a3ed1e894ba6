-- ===== src/Storage/Convert/Tests.antt =====
-- The conversions at concrete data.
use ceresmeta.Storage.{
  leader, follower, state_unknown, ClusterView, Schema, Table, ShardView, Node, Cluster, prepare,
  dynamic,
}
use ceresmeta.Storage.Convert.{
  convert_cluster_to_pb, convert_cluster_pb, convert_cluster_view_to_pb, convert_cluster_view_pb,
  convert_schema_to_pb, convert_schema_pb, convert_table_to_pb, convert_table_pb,
  convert_shard_view_to_pb, convert_shard_view_pb, convert_node_to_pb, convert_node_pb,
}
use ceresmeta.Storage.Convert.RoundTrip.{stored_state, convert_roundtrip}
use ceresmeta.Common.{nat_eq, ok, ◌≡◌, some, [], ◌∷◌}

abbrev test_cluster : Cluster
test_cluster = record {
  id = 1;
  name = 100 ∷ [];
  min_node_count = 2;
  shard_total = 4;
  topology_type = dynamic;
  procedure_executing_batch_size = 8;
  created_at = 5;
  modified_at = 6;
}

abbrev test_view : ClusterView
test_view = record {
  cluster_id = 1;
  version = 3;
  state = prepare;
  shard_nodes =
      (record { id = 0; shard_role = leader; node_name = 97 ∷ [] })
      ∷ (record { id = 1; shard_role = follower; node_name = 98 ∷ [] })
      ∷ [];
  created_at = 7;
}

abbrev test_schema : Schema
test_schema = record { id = 2; cluster_id = 1; name = 112 ∷ []; created_at = 8 }

abbrev test_table : Table
test_table = record {
  id = 9;
  name = 116 ∷ [];
  schema_id = 2;
  created_at = 9;
  partition_info = some (1 ∷ []);
}

abbrev test_shard : ShardView
test_shard = record { shard_id = 1; version = 4; table_ids = 9 ∷ []; created_at = 10 }

abbrev test_node : Node
test_node = record {
  name = 97 ∷ [];
  node_stats = record { lease = 30; zone = 122 ∷ []; node_version = [] };
  last_touch_time = 11;
  state = state_unknown;
}

convert_roundtrip_example :
    (convert_cluster_pb (convert_cluster_to_pb test_cluster) ≡ test_cluster)
    × (convert_cluster_view_pb (convert_cluster_view_to_pb test_view) ≡ ok test_view)
    × (convert_schema_pb (convert_schema_to_pb test_schema) ≡ test_schema)
    × (convert_table_pb (convert_table_to_pb test_table) ≡ test_table)
    × (convert_shard_view_pb (convert_shard_view_to_pb test_shard) ≡ test_shard)
    × (convert_node_pb (convert_node_to_pb test_node)
        ≡ ok (record test_node { state = stored_state test_node.state }))
convert_roundtrip_example =
    convert_roundtrip test_cluster test_view test_schema test_table test_shard test_node
