-- ===== src/Scheduler/Tests.antt =====
-- The schedulers and the shard picker on a cluster of two shards.
use ceresmeta.Storage.{ClusterState, stable, prepare, online, ShardNode, ShardView, leader}
use ceresmeta.ClusterMetadata.{RegisteredNode}
use ceresmeta.Scheduler.{Snapshot, Factory}
use ceresmeta.Scheduler.NodePicker as NodePicker
use ceresmeta.Scheduler.Static as Static
use ceresmeta.Scheduler.Rebalanced.{
  SchedulerImpl, schedule, generate_latest_shard_node_mapping, transfer_loop, assign_loop,
}
use ceresmeta.Scheduler.Rebalanced.Bounds.{schedule-batch}
use ceresmeta.Scheduler.ShardPicker.{pick_shards, sort_stable, select, map_shards}
use ceresmeta.Common.{
  nat_eq, length, Map, Result, ok, ℕ, ◌≤◌, ◌≡◌, refl, false, some, List, [], ◌∷◌, map, Bytes,
  text_eq,
}

abbrev on_a : ShardNode
on_a = record { id = 0; shard_role = leader; node_name = b'a' ∷ [] }

abbrev on_b : ShardNode
on_b = record { id = 1; shard_role = leader; node_name = b'b' ∷ [] }

abbrev node_named : Bytes → RegisteredNode
node_named name = record {
  node = record {
    name = name;
    node_stats = record { lease = 0; zone = []; node_version = [] };
    last_touch_time = 5;
    state = online;
  };
  shard_infos = [];
}

abbrev views : Map ℕ ShardView
views =
    (0, record { shard_id = 0; version = 1; table_ids = 4 ∷ 5 ∷ []; created_at = 0 })
    ∷ (1, record { shard_id = 1; version = 1; table_ids = 6 ∷ []; created_at = 0 })
    ∷ []

abbrev snapshot : ClusterState → List ShardNode → Snapshot
snapshot state nodes = record {
  topology = record {
    shard_views_mapping = views;
    cluster_view = record {
      cluster_id = 1;
      version = 2;
      state = state;
      shard_nodes = nodes;
      created_at = 0;
    };
  };
  registered_nodes = node_named (b'a' ∷ []) ∷ node_named (b'b' ∷ []) ∷ [];
}

-- A procedure is its shard, a batch their number.
abbrev factory : Factory ℕ
factory = record {
  create_transfer_leader = λ q. ok q.shard_id;
  create_batch_transfer_leader = λ ps. ok (length ps);
}

-- A picker that puts every shard on one node.
abbrev all_on_b : NodePicker.Config → List ℕ → List RegisteredNode → Result (Map ℕ RegisteredNode)
all_on_b config ks nodes = ok (map (λ k. (k, node_named (b'b' ∷ []))) ks)

picks : pick_shards (snapshot stable (on_a ∷ on_b ∷ [])) 3 ≡ ok (on_b ∷ on_a ∷ on_b ∷ [])
unfolding pick_shards sort_stable select map_shards
picks = refl

abbrev rebalanced : SchedulerImpl
rebalanced = record {
  procedure_executing_batch_size = 4;
  latest_shard_node_mapping = [];
  enable_schedule = false;
  shard_affinity_rule = [];
}

rebalances : (schedule all_on_b factory (snapshot stable (on_a ∷ [])) rebalanced).0 ≡ ok (some 2)
unfolding schedule generate_latest_shard_node_mapping transfer_loop assign_loop
rebalances = refl

schedule-batch_example :
    (ps : List ℕ) × (factory.create_batch_transfer_leader ps ≡ ok 2) × (length ps ≤ 4)
schedule-batch_example =
    schedule-batch all_on_b factory (snapshot stable (on_a ∷ [])) rebalanced 2 rebalances

assigns : Static.schedule factory 4 all_on_b 20 (snapshot prepare (on_a ∷ [])) ≡ ok (some 1)
unfolding Static.schedule
assigns = refl

recovers : Static.schedule factory 1 all_on_b 20 (snapshot stable (on_a ∷ on_b ∷ [])) ≡ ok (some 1)
unfolding Static.schedule
recovers = refl
