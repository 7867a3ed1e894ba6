-- ===== src/Hash/Probe.antt =====
-- The search along the ring for a member with room.
use ceresmeta.Common.{
  ltb, leb, if◌then◌else◌, ◌==◌, nat_eq, Bool-cases, length, lookup, ℕ, zero, suc, ◌+◌, ◌-◌, ◌≤◌,
  ◌<◌, ◌≡◌, refl, ◌∙◌, ◌⊎◌, inl, inr, true, false, some, List, arith, Bytes, text_eq,
}
use ceresmeta.Hash.{
  ConsistentUniformHash, member_at, next_index, place, probe, distribute_partition_with_load,
}

abbrev C : Type 0
C = ConsistentUniformHash

-- Every index of the ring has a member, and every member is at some index.
pub record Covered (c : C) : Type 0 where
  pub some_node : 0 < length c.sorted_ring
  pub owner : (i : ℕ) → i < length c.sorted_ring → (mem : Bytes) × (member_at c i ≡ some mem)
  pub known :
      (i : ℕ) (mem : Bytes)
      → member_at c i ≡ some mem
      → (parts : List ℕ) × (lookup mem c.mem_partitions ≡ some parts)
  pub present :
      (mem : Bytes) (parts : List ℕ)
      → lookup mem c.mem_partitions ≡ some parts
      → (i : ℕ) × (i < length c.sorted_ring) × (member_at c i ≡ some mem)

-- The index after `k` steps from `i` along a ring of the length `n`.
abbrev pub ahead : ℕ → ℕ → ℕ → ℕ
ahead n i k = if ltb (i + k) n then i + k else i + k - n

-- The member at an index has no room.
abbrev pub Full : C → ℕ → ℕ → Type 0
Full c allowed i =
    (mem : Bytes) (parts : List ℕ)
    → member_at c i ≡ some mem
    → lookup mem c.mem_partitions ≡ some parts
    → allowed ≤ length parts

-- The outcomes of a search: a place with room, or the struct as it was after rounds without room.
pub record Placed (c : C) (part allowed : ℕ) (c' : C) : Type 0 where
  pub at : ℕ
  pub mem : Bytes
  pub parts : List ℕ
  pub in_ring : at < length c.sorted_ring
  pub owns : member_at c at ≡ some mem
  pub finds : lookup mem c.mem_partitions ≡ some parts
  pub room : length parts + 1 ≤ allowed
  pub result : c' ≡ place c part at mem parts

probe-step :
    (c : C) (rounds part i allowed : ℕ) (mem : Bytes) (parts : List ℕ)
    → member_at c i ≡ some mem
    → lookup mem c.mem_partitions ≡ some parts
    → probe c (suc rounds) part i allowed ≡ (
        if leb (length parts + 1) allowed
        then some (true, place c part i mem parts)
        else probe c rounds part (next_index c.sorted_ring i) allowed)
unfolding probe
probe-step c rounds part i allowed mem parts o f = rw (o, f)

one-Full :
    (c : C) (allowed i : ℕ) (mem : Bytes) (parts : List ℕ)
    → member_at c i ≡ some mem
    → lookup mem c.mem_partitions ≡ some parts
    → allowed ≤ length parts
    → Full c allowed i
one-Full c allowed i mem parts o f l = λ mem' parts' o' f'.
    let same : mem' ≡ mem = ground arith in
    let same_parts : parts' ≡ parts = ground arith in rw same_parts l

-- The index `k + 1` steps ahead is `k` steps ahead of the next one.
Full-step :
    (c : C) (allowed i rounds : ℕ)
    → i < length c.sorted_ring
    → suc rounds ≤ length c.sorted_ring
    → Full c allowed i
    → ((k : ℕ)
        → k < rounds
        → Full c allowed (ahead (length c.sorted_ring) (next_index c.sorted_ring i) k))
    → (k : ℕ) → k < suc rounds
    → Full c allowed (ahead (length c.sorted_ring) i k)
Full-step c allowed i rounds h l one rest zero b =
    let here : ahead (length c.sorted_ring) i 0 ≡ i = ground arith in rw here one
Full-step c allowed i rounds h l one rest (suc k) b =
    let n = length c.sorted_ring in
    let there : ahead n i (suc k) ≡ ahead n (next_index c.sorted_ring i) k = ground arith in
    rw there (rest k (omega arith))

-- From an index of a covered ring a search does not panic: it places the partition at a member with
-- room, or it leaves the struct as it was and has found no room at any index that it passed.
pub probe-outcome :
    (c : C)
    → Covered c
    → (rounds part i allowed : ℕ) → i < length c.sorted_ring
    → rounds ≤ length c.sorted_ring
    → ((c' : C) × (probe c rounds part i allowed ≡ some (true, c')) × Placed c part allowed c')
      ⊎ ((probe c rounds part i allowed ≡ some (false, c))
          × ((k : ℕ) → k < rounds → Full c allowed (ahead (length c.sorted_ring) i k)))
probe-outcome c cov zero part i allowed h l =
    inr (unfold probe in refl, λ k b. absurd (omega arith))
probe-outcome c cov (suc rounds) part i allowed h l =
    let (mem, o) = cov.owner i h in
    let (parts, f) = cov.known i mem o in
    let here = probe-step c rounds part i allowed mem parts o f in
    elim (Bool-cases (leb (length parts + 1) allowed)) [
      | inl fits ↦ inl (
        place c part i mem parts,
        here ∙ (rw fits refl),
        record {
          at = i;
          mem = mem;
          parts = parts;
          in_ring = h;
          owns = o;
          finds = f;
          room = ground arith;
          result = refl;
        },
      )
      | inr full ↦
          elim (probe-outcome c cov rounds part (next_index c.sorted_ring i) allowed (ground arith)
            (omega arith)) [
              | inl (c', e, pl) ↦ inl (c', here ∙ rw full e, pl)
              | inr (e, rest) ↦ inr (
                here ∙ rw full e,
                Full-step c allowed i rounds h l (one-Full c allowed i mem parts o f (ground arith))
                    rest,
              )
            ]
    ]

-- After as many rounds as the ring is long, no member has room.
pub with_load-outcome :
    (c : C)
    → Covered c
    → (part i allowed : ℕ) → i < length c.sorted_ring
    → ((c' : C) × (distribute_partition_with_load c part i allowed ≡ some (true, c'))
        × Placed c part allowed c')
      ⊎ ((distribute_partition_with_load c part i allowed ≡ some (false, c))
          × ((mem : Bytes) (parts : List ℕ)
              → lookup mem c.mem_partitions ≡ some parts
              → allowed ≤ length parts))
unfolding distribute_partition_with_load
with_load-outcome c cov part i allowed h = elim (Bool-cases (allowed == 0)) [
  | inl none_allowed ↦ inr (rw none_allowed refl, λ mem parts f. ground arith)
  | inr some_allowed ↦
      elim (probe-outcome c cov (length c.sorted_ring) part i allowed h (omega arith)) [
        | inl (c', e, pl) ↦ inl (c', rw some_allowed e, pl)
        | inr (e, full) ↦ inr (
          rw some_allowed e,
          λ mem parts f.
              let (j, b, o) = cov.present mem parts f in
              let n = length c.sorted_ring in
              let k = if leb i j then j - i else j + n - i in
              let there : ahead n i k ≡ j = ground arith in
              full k (ground arith) mem parts (rw there o) f,
        )
      ]
]
