-- ===== src/Hash/Uniform.antt =====
-- What `BuildConsistentUniformHash` promises when no rule of affinity is given.
use ceresmeta.Common.{
  nat_eq, length, elem, lookup, ℕ, zero, suc, ◌+◌, ◌-◌, ◌*◌, ◌/◌, ◌^◌, ◌≤◌, ◌<◌, ◌≡◌, refl, ap, ◌∙◌,
  true, some, List, [], arith, Bytes, text_eq, ℤ, pos, negsuc, is_pos, pos_part,
}
use ceresmeta.Hash.{
  ConsistentUniformHash, Config, get_partition_owner, distribute_partitions,
  initialize_virtual_nodes,
}
use ceresmeta.Hash.Offload.{ensure_affinity}
use ceresmeta.Hash.Build.{built, build_consistent_uniform_hash, build_with, new_hash}
use ceresmeta.Hash.Spread.{Spread}
use ceresmeta.Hash.Balance.{distribute_partitions-balanced, get_partition_owner-Spread}
use ceresmeta.Hash.Cover.{
  DistinctNames, NoCollision, initialize-Kept, initialize-Spread, initialize-members,
}

-- The hash has spread `n` partitions over the members: each partition is owned by one member, and
-- each member owns between the floor and the ceiling of the average.
pub record IsUniform (n : ℕ) (names : List Bytes) (c : ConsistentUniformHash) : Type 0 where
  pub owner :
      (p : ℕ)
      → p < n
      → (mem : Bytes) × (get_partition_owner c p ≡ some (some mem))
        × (parts : List ℕ) × (lookup mem c.mem_partitions ≡ some parts)
        × (elem p parts ≡ true)
  pub sole :
      (mem : Bytes) (parts : List ℕ) (p : ℕ)
      → lookup mem c.mem_partitions ≡ some parts
      → elem p parts ≡ true
      → get_partition_owner c p ≡ some (some mem)
  pub loads :
      (mem : Bytes) (parts : List ℕ)
      → lookup mem c.mem_partitions ≡ some parts
      → (n / length names ≤ length parts) × (length parts ≤ (n + (length names - 1)) / length names)

bounds_ordered : (n m : ℕ) → 0 < m → n / m ≤ (n + (m - 1)) / m
bounds_ordered n m h = grind arith

bounds_above : (n m : ℕ) → 0 < m → n ≤ (n + (m - 1)) / m * m
bounds_above n m h = grind arith

bounds_below : (n m : ℕ) → n / m * m ≤ n
bounds_below n m = grind arith

is_pos-pos_part : (z : ℤ) → is_pos z ≡ true → 0 < pos_part z
is_pos-pos_part (pos zero) h = cc
is_pos-pos_part (pos (suc n)) h = omega arith
is_pos-pos_part (negsuc n) h = cc

without_rules :
    (sum64 : Bytes → ℕ) (n : ℕ) (mems : List Bytes) (config : Config) (c : ConsistentUniformHash)
    → distribute_partitions sum64 (initialize_virtual_nodes sum64 mems (new_hash n mems config))
      ≡ some c
    → c.config.partition_affinities ≡ []
    → build_with sum64 n mems config ≡ some c
unfolding build_with ensure_affinity
without_rules sum64 n mems config c e rules = rw e (rw rules refl)

new_hash-rules :
    (n : ℕ) (mems : List Bytes) (config : Config)
    → config.partition_affinities ≡ []
    → (new_hash n mems config).config.partition_affinities ≡ []
unfolding new_hash
new_hash-rules n mems config h = rw h refl

owner_of_only :
    (n : ℕ) (c : ConsistentUniformHash)
    → Spread n c
    → (mem : Bytes) (parts : List ℕ) (p : ℕ) → lookup mem c.mem_partitions ≡ some parts
    → elem p parts ≡ true
    → get_partition_owner c p ≡ some (some mem)
unfolding get_partition_owner
owner_of_only n c s mem parts p f e = let (i, d, o) = s.only mem parts p f e in ground (arith, d, o)

-- The part after the checks.
build_with-IsUniform :
    (sum64 : Bytes → ℕ) (n : ℕ) (mems : List Bytes) (config : Config)
    → 0 < pos_part config.replication_factor
    → config.partition_affinities ≡ []
    → 0 < length mems
    → n < 2 ^ 32
    → DistinctNames mems
    → NoCollision sum64 mems (pos_part config.replication_factor)
    → (c : ConsistentUniformHash) × (build_with sum64 n mems config ≡ some c) × IsUniform n mems c
build_with-IsUniform sum64 n mems config some_replica no_rule some_member small distinct apart =
    let c2 = initialize_virtual_nodes sum64 mems (new_hash n mems config) in
    let kept = initialize-Kept sum64 n mems config some_replica some_member apart in
    let count = initialize-members sum64 n mems config some_replica some_member apart distinct in
    let spread = initialize-Spread sum64 n mems config some_replica some_member apart distinct in
    let least : c2.min_load ≡ n / length mems = kept.min_load ∙ unfold new_hash in refl in
    let most : c2.max_load ≡ (n + (length mems - 1)) / length mems =
      kept.max_load ∙ unfold new_hash in refl in
    let all : c2.num_partitions ≡ n = kept.num_partitions ∙ unfold new_hash in omega arith in
    let (c, e, s, config', loads) =
      distribute_partitions-balanced sum64 c2 spread
        (rw (least, most) (bounds_ordered n (length mems) some_member))
        (rw (most, count, all) (bounds_above n (length mems) some_member))
        (rw (least, count, all) (bounds_below n (length mems))) in
    let s' : Spread n c = rw all at s in
    let rules =
      ap (λ (k : Config). k.partition_affinities) (config' ∙ kept.config)
      ∙ new_hash-rules n mems config no_rule in
    (
      c,
      without_rules sum64 n mems config c e rules,
      record {
        owner = get_partition_owner-Spread n c s';
        sole = owner_of_only n c s';
        loads = λ mem parts f. rw (← least, ← most) (loads mem parts f);
      },
    )

checked :
    (sum64 : Bytes → ℕ) (n : ℕ) (mems : List Bytes) (config : Config) (c : ConsistentUniformHash)
    → config.hasher ≡ some sum64
    → is_pos config.replication_factor ≡ true
    → 0 < length mems
    → build_with sum64 n mems config ≡ some c
    → build_consistent_uniform_hash (pos n) mems config ≡ built c
unfolding build_consistent_uniform_hash
checked sum64 n mems config c given replicas some_member e = ground arith

-- With a hasher, a positive number of replicas, no rule of affinity, at least one member, no name
-- twice, no collision of hashes between members, and fewer than 2^32 partitions, the hash is built:
-- each partition has one owner, and each member owns between the floor and the ceiling of the
-- average number of partitions.
pub build-IsUniform :
    (sum64 : Bytes → ℕ) (n : ℕ) (mems : List Bytes) (config : Config)
    → config.hasher ≡ some sum64
    → is_pos config.replication_factor ≡ true
    → config.partition_affinities ≡ []
    → 0 < length mems
    → n < 2 ^ 32
    → DistinctNames mems
    → NoCollision sum64 mems (pos_part config.replication_factor)
    → (c : ConsistentUniformHash) × (build_consistent_uniform_hash (pos n) mems config ≡ built c)
      × IsUniform n mems c
build-IsUniform sum64 n mems config given replicas no_rule some_member small distinct apart =
    let (c, e, u) =
      build_with-IsUniform sum64 n mems config (is_pos-pos_part config.replication_factor replicas)
        no_rule some_member small distinct apart in
    (c, checked sum64 n mems config c given replicas some_member e, u)
