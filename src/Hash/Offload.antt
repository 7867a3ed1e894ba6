-- ===== src/Hash/Offload.antt =====
-- The affinity rules of consistent_uniform.go: members of a partition with a rule are offloaded.
use ceresmeta.Common.Partial.{◌>>=◌}
use ceresmeta.Common.{
  ltb, leb, if◌then◌else◌, ◌==◌, nat_eq, length, elem, sort, lookup, insert, ℕ, zero, suc, ◌+◌, ◌-◌,
  Bool, true, false, Option, none, some, List, [], ◌∷◌, Bytes, text_eq,
}
use ceresmeta.Hash.{ConsistentUniformHash, PartitionAffinity, add, remove, member_at, next_index}

abbrev C : Type 0
C = ConsistentUniformHash

-- The writes that move a partition from one member to another.
pub move_partition : C → ℕ → ℕ → Bytes → Bytes → Option C
unfolding lookup insert
move_partition c part i source mem = do
  parts ← lookup mem c.mem_partitions
  let mp = insert mem (add part parts) c.mem_partitions
  source_parts ← lookup source mp
  some (record c {
    partition_dist = insert part i c.partition_dist;
    mem_partitions = insert source (remove part source_parts) mp;
  })

-- The loop of `offloadPartitionWithAllowedLoad`, with the rounds left, from the index before.
pub offload_probe : C → ℕ → ℕ → ℕ → Bytes → ℕ → List Bytes → Option (Bool × C)
unfolding lookup move_partition
offload_probe c zero part i source allowed blacked = some (false, c)
offload_probe c (suc rounds) part i source allowed blacked =
    let j = next_index c.sorted_ring i in
    let rest = offload_probe c rounds part j source allowed blacked in
    do
      mem ← member_at c j
      if elem mem blacked then rest else do
        parts ← lookup mem c.mem_partitions
        if leb (length parts + 1) allowed
            then (do c' ← move_partition c part j source mem; some (true, c'))
            else rest

-- A missing index reads as 0.
pub index_of : C → ℕ → ℕ
unfolding lookup
index_of c part = elim (lookup part c.partition_dist) [ none ↦ 0 | some i ↦ i ]

pub offload_partition_with_allowed_load : C → ℕ → Bytes → ℕ → List Bytes → Option (Bool × C)
offload_partition_with_allowed_load c part source allowed blacked =
    offload_probe c (length c.sorted_ring - 1) part (index_of c part) source allowed blacked

-- The loop over the allowed load, `count` of them from `load` on; it gives up with a warning.
pub offload_loads : C → ℕ → ℕ → ℕ → Bytes → List Bytes → Option C
offload_loads c zero load part source blacked = some c
offload_loads c (suc count) load part source blacked = do
  (done, c') ← offload_partition_with_allowed_load c part source load blacked
  let rest = offload_loads c' count (load + 1) part source blacked
  if done then some c' else rest

pub offload_partition : C → ℕ → Bytes → List Bytes → Option C
offload_partition c part source blacked =
    offload_loads c (c.num_partitions - c.max_load) c.max_load part source blacked

-- The partitions to offload, with the number retained so far.
pub select_offload : ℕ → ℕ → ℕ → List ℕ → List ℕ
select_offload retained allowed kept [] = []
select_offload retained allowed kept (p ∷ ps) =
    let later = select_offload retained allowed kept ps in
    let later' = select_offload retained allowed (kept + 1) ps in
    let others = p ∷ later in
    if p == retained then later else if ltb kept allowed then later' else others

pub offload_all : C → List ℕ → Bytes → List Bytes → Option C
offload_all c [] source blacked = some c
offload_all c (p ∷ ps) source blacked = do
  c' ← offload_partition c p source blacked
  offload_all c' ps source blacked

-- An allowed number below 1 is an assertion that fails.
pub offload_member : C → Bytes → List ℕ → ℕ → ℕ → List Bytes → Option C
offload_member c mem parts retained allowed blacked =
    if leb 1 allowed
    then offload_all c (sort (select_offload retained allowed 1 parts)) mem blacked
    else none

-- The loop of `ensureAffinity` over the rules, with the members offloaded so far.
unfoldable pub ensure_affinity : C → List PartitionAffinity → List Bytes → Option C
unfolding lookup
ensure_affinity c [] offloaded = some c
ensure_affinity c (a ∷ as') offloaded = do
  mem ← member_at c (index_of c a.partition_id)
  let offloaded' = mem ∷ offloaded
  let allowed = a.num_allowed_other_partitions + 1
  parts ← lookup mem c.mem_partitions
  c' ←
      (if ltb allowed (length parts)
        then offload_member c mem parts a.partition_id allowed offloaded'
        else some c)
  ensure_affinity c' as' offloaded'
