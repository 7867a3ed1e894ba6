-- ===== src/Hash/Build.antt =====
-- `BuildConsistentUniformHash` of consistent_uniform.go.
use ceresmeta.Common.{
  ltb, if◌then◌else◌, ◌==◌, nat_eq, length, Map, insert, ℕ, ◌+◌, ◌-◌, ◌/◌, ◌%◌, ◌^◌, Option, none,
  some, List, [], ◌∷◌, Bytes, text_eq, ℤ, is_neg, pos_part,
}
use ceresmeta.Hash.{
  ConsistentUniformHash, PartitionAffinity, Config, BuildError, invalid_num_partitions,
  empty_members, sanitize, initialize_virtual_nodes, distribute_partitions,
}
use ceresmeta.Hash.Offload.{ensure_affinity}

-- `sort.Slice` of the rules by partition.
pub insert_affinity : PartitionAffinity → List PartitionAffinity → List PartitionAffinity
insert_affinity a [] = a ∷ []
insert_affinity a (x ∷ xs) =
    if ltb x.partition_id a.partition_id then x ∷ insert_affinity a xs else a ∷ x ∷ xs

unfoldable pub sort_affinities : List PartitionAffinity → List PartitionAffinity
unfolding insert_affinity
sort_affinities [] = []
sort_affinities (a ∷ as') = insert_affinity a (sort_affinities as')

-- The floor and the ceiling of the average load. The source divides in 64-bit floats; up to 2^53
-- the rounded quotient has the floor and the ceiling of the exact one.
unfoldable pub min_load_of : ℕ → ℕ → ℕ
min_load_of n m = n / m

unfoldable pub max_load_of : ℕ → ℕ → ℕ
max_load_of n m = (n + (m - 1)) / m

unfoldable pub empty_partitions : List Bytes → Map Bytes (List ℕ) → Map Bytes (List ℕ)
unfolding insert
empty_partitions [] mp = mp
empty_partitions (mem ∷ mems) mp = empty_partitions mems (insert mem [] mp)

-- The struct before its virtual nodes.
unfoldable pub new_hash : ℕ → List Bytes → Config → ConsistentUniformHash
unfolding min_load_of max_load_of empty_partitions sort_affinities
new_hash num_partitions mems config = record {
  config = record config { partition_affinities = sort_affinities config.partition_affinities };
  min_load = min_load_of num_partitions (length mems);
  max_load = max_load_of num_partitions (length mems);
  num_partitions = num_partitions % 2 ^ 32;
  members = [];
  mem_partitions = empty_partitions mems [];
  partition_dist = [];
  node_to_mems = [];
  sorted_ring = [];
}

-- The outcome: an error, a panic, or the hash.
pub data Built : Type 0 where
  refused : BuildError → Built
  panicked : Built
  built : ConsistentUniformHash → Built

abbrev to_built : Option ConsistentUniformHash → Built
to_built none = panicked
to_built (some c) = built c

abbrev affinity_step : Option ConsistentUniformHash → Option ConsistentUniformHash
affinity_step none = none
affinity_step (some c) = ensure_affinity c c.config.partition_affinities []

-- The part after the checks.
unfoldable pub build_with : (Bytes → ℕ) → ℕ → List Bytes → Config → Option ConsistentUniformHash
unfolding new_hash
build_with sum64 num_partitions mems config = affinity_step (
    distribute_partitions sum64
      (initialize_virtual_nodes sum64 mems (new_hash num_partitions mems config)))

abbrev build_unchecked : Option (Bytes → ℕ) → ℕ → List Bytes → Config → Built
build_unchecked none n mems config = refused BuildError.hasher_not_provided
build_unchecked (some sum64) n mems config = to_built (build_with sum64 n mems config)

unfoldable pub build_consistent_uniform_hash : ℤ → List Bytes → Config → Built
unfolding sanitize
build_consistent_uniform_hash num_partitions mems config = elim (sanitize config) [
  | some e ↦ refused e
  | none ↦
      if is_neg num_partitions
      then refused invalid_num_partitions
      else if length mems == 0
      then refused empty_members
      else build_unchecked config.hasher (pos_part num_partitions) mems config
]
