-- ===== src/Hash/Balance.antt =====
-- The distribution of the partitions over a covered ring: it does not panic, and the loads differ by
-- at most the difference of the two bounds.
use ceresmeta.Common.{
  nat_eq, length, elem, lookup, ℕ, zero, suc, ◌+◌, ◌*◌, ◌≤◌, ◌<◌, ◌≡◌, refl, inl, inr, true, some,
  List, arith, Bytes, text_eq,
}
use ceresmeta.Hash.{
  ConsistentUniformHash, distribute_partition, start_index, distribute_from, distribute_partitions,
  get_partition_owner,
}
use native.Mathlib.Nat.{add-zero}
use ceresmeta.Hash.Loads.{
  total, AllLoads, AllLoads-of_lookup, lookup_of_AllLoads, total_ge, AllLoads-exact,
}
use ceresmeta.Hash.Probe.{with_load-outcome}
use ceresmeta.Hash.Spread.{Spread, Same, Same-trans, Spread-Placed}

abbrev C : Type 0
C = ConsistentUniformHash

-- One partition more, while the bound leaves room.
distribute_partition-Spread :
    (k i : ℕ) (c : C)
    → Spread k c
    → i < length c.sorted_ring
    → c.min_load ≤ c.max_load
    → k < c.max_load * length c.mem_partitions
    → (c' : C) × (distribute_partition c k i ≡ some c') × Spread (k + 1) c' × Same c c'
unfolding distribute_partition
distribute_partition-Spread k i c h b l room =
    elim (with_load-outcome c h.covered k i c.min_load b) [
      | inl (c', e, pl) ↦
          let (s, same) = Spread-Placed k c.min_load c c' h pl l (inl refl) in
          (c', rw e refl, s, same)
      | inr (e, full) ↦ elim (with_load-outcome c h.covered k i c.max_load b) [
        | inl (c', e', pl) ↦
            let large = AllLoads-of_lookup (λ n. c.min_load ≤ n) c.mem_partitions h.keys full in
            let (s, same) = Spread-Placed k c.max_load c c' h pl (omega arith) (inr large) in
            (c', rw e (rw e' refl), s, same)
        | inr (e', full') ↦
            let large = AllLoads-of_lookup (λ n. c.max_load ≤ n) c.mem_partitions h.keys full' in
            absurd (omega (arith, total_ge c.max_load c.mem_partitions large, h.sum))
      ]
    ]

start_index-lt :
    (sum64 : Bytes → ℕ) (c : C) (p : ℕ)
    → 0 < length c.sorted_ring
    → start_index sum64 c p < length c.sorted_ring
unfolding start_index
start_index-lt sum64 c p h = ground arith

distribute_from-Spread :
    (sum64 : Bytes → ℕ) (count k : ℕ) (c : C)
    → Spread k c
    → c.min_load ≤ c.max_load
    → k + count ≤ c.max_load * length c.mem_partitions
    → (c' : C) × (distribute_from sum64 count k c ≡ some c') × Spread (k + count) c' × Same c c'
unfolding distribute_from
distribute_from-Spread sum64 zero k c h l room = (
  c,
  refl,
  rw add-zero h,
  record { config = refl; min_load = refl; max_load = refl; sorted_ring = refl; members = refl },
)
distribute_from-Spread sum64 (suc count) k c h l room =
    let (c', e, h', same) =
      distribute_partition-Spread k (start_index sum64 c k) c h
        (start_index-lt sum64 c k h.covered.some_node) l (omega arith) in
    let (c'', e', h'', same') =
      distribute_from-Spread sum64 count (k + 1) c' h' (omega (arith, same.min_load, same.max_load))
        (rw (same.max_load, same.members) (omega arith)) in
    let sums : k + 1 + count ≡ k + suc count = omega arith in
    (c'', rw e e', rw sums at h'', Same-trans same same')

-- From an empty distribution over a covered ring whose bounds fit the number of partitions, the
-- distribution does not panic. Every partition is with the member that its index in the ring names,
-- no partition is with any other, and every load lies within the two bounds.
pub distribute_partitions-balanced :
    (sum64 : Bytes → ℕ) (c : C)
    → Spread 0 c
    → c.min_load ≤ c.max_load
    → c.num_partitions ≤ c.max_load * length c.mem_partitions
    → c.min_load * length c.mem_partitions ≤ c.num_partitions
    → (c' : C) × (distribute_partitions sum64 c ≡ some c')
      × Spread c.num_partitions c'
      × (c'.config ≡ c.config)
      × ((mem : Bytes) (parts : List ℕ)
          → lookup mem c'.mem_partitions ≡ some parts
          → (c.min_load ≤ length parts) × (length parts ≤ c.max_load))
unfolding distribute_partitions
distribute_partitions-balanced sum64 c h l room low =
    let (c', e, s, same) = distribute_from-Spread sum64 c.num_partitions 0 c h l (omega arith) in
    let sums : 0 + c.num_partitions ≡ c.num_partitions = omega arith in
    let s' : Spread c.num_partitions c' = rw sums at s in
    let enough : c'.min_load * length c'.mem_partitions ≤ total c'.mem_partitions =
      rw (same.min_load, same.members) (omega (arith, s'.sum)) in
    let large : AllLoads (λ n. c'.min_load ≤ n) c'.mem_partitions = elim s'.uniform [
      | inl small ↦ AllLoads-exact c'.min_load c'.mem_partitions small enough
      | inr big ↦ big
    ] in
    (
      c',
      e,
      s',
      same.config,
      λ mem parts f. (
        omega (
          arith,
          lookup_of_AllLoads (λ n. c'.min_load ≤ n) c'.mem_partitions large mem parts f,
          same.min_load,
        ),
        omega (
          arith,
          lookup_of_AllLoads (λ n. n ≤ c'.max_load) c'.mem_partitions s'.bounded mem parts f,
          same.max_load,
        ),
      ),
    )

-- After the distribution the owner of every partition is a member.
pub get_partition_owner-Spread :
    (k : ℕ) (c : C)
    → Spread k c
    → (p : ℕ) → p < k
    → (mem : Bytes) × (get_partition_owner c p ≡ some (some mem))
      × (parts : List ℕ) × (lookup mem c.mem_partitions ≡ some parts)
      × (elem p parts ≡ true)
unfolding get_partition_owner
get_partition_owner-Spread k c h p b =
    let w = h.owned p b in (w.mem, ground (arith, w.indexed, w.owns), w.parts, w.finds, w.holds)
