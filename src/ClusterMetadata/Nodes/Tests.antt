-- ===== src/ClusterMetadata/Nodes/Tests.antt =====
-- A registration at a cluster in memory.
use ceresmeta.Storage.{static, leader, ready, offline, Cluster}
use ceresmeta.ClusterMetadata.{RegisteredNode}
use ceresmeta.ClusterMetadata.Memory.{counter, view, stored, topology, manager, s}
use ceresmeta.ClusterMetadata.Nodes.{register_node}
use ceresmeta.ClusterMetadata.Nodes.Laws.{Cached, register_node_static}
use ceresmeta.Common.{nat_eq, ok, ◌≡◌, refl, [], ◌∷◌, text_eq}

abbrev meta : Cluster
meta = record {
  id = 1;
  name = b'd' ∷ [];
  min_node_count = 0;
  shard_total = 8;
  topology_type = static;
  procedure_executing_batch_size = 4;
  created_at = 0;
  modified_at = 0;
}

abbrev node : RegisteredNode
node = record {
  node = record {
    name = b'c' ∷ [];
    node_stats = record { lease = 1; zone = []; node_version = [] };
    last_touch_time = 50;
    state = offline;
  };
  shard_infos = (record { id = 5; role = leader; version = 7; status = ready }) ∷ [];
}

register_node_static_example :
    let after =
      register_node s counter counter 9 meta node ([], (manager, (topology, (stored, (2, 3))))) in
    (after.0 ≡ ok tt)
    × (after.1.1 ≡ (manager, (topology, (stored, (2, 3)))))
    × Cached [] node after.1.0
register_node_static_example =
    register_node_static s counter counter 9 meta node [] manager topology stored (2, 3) view refl
      refl refl refl
