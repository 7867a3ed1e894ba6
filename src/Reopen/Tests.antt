-- ===== src/Reopen/Tests.antt =====
-- Two nodes with a shard each that was opened partly, and a batch size of one.
use ceresmeta.Storage.{leader, online, partial_open}
use ceresmeta.ClusterMetadata.{ShardInfo, RegisteredNode}
use ceresmeta.Reopen.{reopen_nodes}
use ceresmeta.Common.{nat_eq, Result, ok, ℕ, ◌≡◌, refl, List, [], ◌∷◌, Bytes}

abbrev shard : ℕ → ShardInfo
shard k = record { id = k; role = leader; version = 1; status = partial_open }

abbrev node : Bytes → ℕ → RegisteredNode
node name k = record {
  node = record {
    name = name;
    node_stats = record { lease = 0; zone = []; node_version = [] };
    last_touch_time = 0;
    state = online;
  };
  shard_infos = shard k ∷ [];
}

abbrev two_nodes : List RegisteredNode
two_nodes = node (b'a' ∷ []) 1 ∷ node (b'b' ∷ []) 2 ∷ []

abbrev create : ℕ → Bytes → Result ℕ
create k name = ok k

abbrev batch : List ℕ → Result ℕ
batch ps = ok 0

-- Two procedures at a batch size of one.
exceeds : reopen_nodes create batch 5 1 two_nodes [] ≡ ok (1 ∷ 2 ∷ [])
unfolding reopen_nodes
exceeds = refl

abbrev made : List ℕ
made = 1 ∷ 2 ∷ []

abbrev none_yet : List ℕ
none_yet = []
