-- ===== src/Scheduler/NodePicker.antt =====
-- server/coordinator/scheduler/nodepicker/node_picker.go. The hash of bytes (murmur3) is a parameter.
use ceresmeta.Scheduler.{ShardAffinity}
use ceresmeta.ClusterMetadata.{RegisteredNode, is_expired}
use ceresmeta.Hash as Hash
use ceresmeta.Hash.{PartitionAffinity, ConsistentUniformHash, get_partition_owner}
use ceresmeta.Hash.Build.{Built, refused, built, build_consistent_uniform_hash}
use ceresmeta.Common.{
  ltb, if◌then◌else◌, ◌==◌, nat_eq, length, Map, lookup, insert, Result, ok, err, ℕ, Option, none,
  some, List, [], ◌∷◌, Bytes, text_eq, pos, panicked, no_alive_nodes, invalid_hash,
}

pub record Config : Type 0 where
  pub num_total_shards : ℕ
  pub shard_affinity_rule : Map ℕ ShardAffinity

unfoldable pub gen_partition_affinities : List (ℕ × ShardAffinity) → List PartitionAffinity
gen_partition_affinities [] = []
gen_partition_affinities ((shard_id, affinity) ∷ rules) =
    record {
      partition_id = shard_id;
      num_allowed_other_partitions = affinity.num_allowed_other_shards;
    }
    ∷ gen_partition_affinities rules

abbrev uniform_hash_replication_factor : ℕ
uniform_hash_replication_factor = 127

-- The alive nodes by their names, the later of two with one name.
unfoldable pub filter_expired_nodes :
    ℕ → List RegisteredNode → Map Bytes RegisteredNode → Map Bytes RegisteredNode
unfolding insert is_expired
filter_expired_nodes now [] alive = alive
filter_expired_nodes now (n ∷ ns) alive =
    let skipped = filter_expired_nodes now ns alive in
    let taken = filter_expired_nodes now ns (insert n.node.name n alive) in
    if is_expired now n then skipped else taken

unfoldable pub members_of : List RegisteredNode → Map Bytes RegisteredNode → List Bytes
unfolding lookup
members_of [] alive = []
members_of (n ∷ ns) alive =
    let rest = members_of ns alive in
    elim (lookup n.node.name alive) [ none ↦ rest | some _ ↦ n.node.name ∷ rest ]

abbrev owner_of : ConsistentUniformHash → ℕ → Option Bytes
owner_of c k = elim (get_partition_owner c k) [ none ↦ none | some o ↦ o ]

-- The loop over the shards; a failed assertion is a panic.
unfoldable pub pick_loop :
    ConsistentUniformHash
    → Map Bytes RegisteredNode
    → ℕ
    → List ℕ
    → Map ℕ RegisteredNode
    → Result (Map ℕ RegisteredNode)
unfolding lookup insert
pick_loop c alive total [] picked = ok picked
pick_loop c alive total (k ∷ ks) picked =
    let found : Option RegisteredNode = elim (owner_of c k) [
      | none ↦ none
      | some name ↦ lookup name alive
    ] in
    let next : Result (Map ℕ RegisteredNode) = elim found [
      | none ↦ err panicked
      | some n ↦ pick_loop c alive total ks (insert k n picked)
    ] in
    if ltb k total then next else err panicked

unfoldable pub pick_node :
    (Bytes → ℕ) → ℕ → Config → List ℕ → List RegisteredNode → Result (Map ℕ RegisteredNode)
unfolding gen_partition_affinities filter_expired_nodes members_of pick_loop
    build_consistent_uniform_hash
pick_node sum64 now config shard_ids nodes =
    let alive = filter_expired_nodes now nodes [] in
    let hash_conf : Hash.Config = record {
      hasher = some sum64;
      replication_factor = pos uniform_hash_replication_factor;
      partition_affinities = gen_partition_affinities config.shard_affinity_rule;
    } in
    if length alive == 0
    then err no_alive_nodes
    else elim (build_consistent_uniform_hash (pos config.num_total_shards) (members_of nodes alive)
        hash_conf) [
          | refused e ↦ err invalid_hash
          | Built.panicked ↦ err panicked
          | built c ↦ pick_loop c alive config.num_total_shards shard_ids []
        ]
