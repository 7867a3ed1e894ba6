-- ===== src/Hash/Spread.antt =====
-- What holds of the struct while the partitions are spread, and what a placement does to it.
use ceresmeta.Common.{
  if◌then◌else◌, ◌==◌, nat_eq, Bool-cases, length, elem, lookup, lookup-insert, ℕ, ◌+◌, ◌≤◌, ◌<◌,
  ◌≡◌, refl, ◌∙◌, ◌⊎◌, inl, inr, true, false, ◌||◌, some, List, arith, Bytes, bytes_eq,
  bytes_eq_refl, bytes_eq_sound, bytes_eq_iff, text_eq, eq-false_of_not,
}
use ceresmeta.Hash.{ConsistentUniformHash, add, member_at, place}
use ceresmeta.Hash.Loads.{
  total, KeysDistinct, AllLoads, length-add, total-insert, length-insert, KeysDistinct-insert,
  AllLoads-of_lookup, lookup_of_AllLoads,
}
use ceresmeta.Hash.Probe.{Covered, Placed}

abbrev C : Type 0
C = ConsistentUniformHash

-- A partition is with the member at its index of the ring.
pub record Owned (c : C) (p : ℕ) : Type 0 where
  pub at : ℕ
  pub mem : Bytes
  pub parts : List ℕ
  pub indexed : lookup p c.partition_dist ≡ some at
  pub owns : member_at c at ≡ some mem
  pub finds : lookup mem c.mem_partitions ≡ some parts
  pub holds : elem p parts ≡ true

-- The struct after the partitions below `k`.
pub record Spread (k : ℕ) (c : C) : Type 0 where
  pub covered : Covered c
  pub keys : KeysDistinct c.mem_partitions
  pub sum : total c.mem_partitions ≡ k
  pub below :
      (mem : Bytes) (parts : List ℕ)
      → lookup mem c.mem_partitions ≡ some parts
      → (p : ℕ) → elem p parts ≡ true
      → p < k
  pub bounded : AllLoads (λ n. n ≤ c.max_load) c.mem_partitions
  pub uniform :
      AllLoads (λ n. n ≤ c.min_load) c.mem_partitions
      ⊎ AllLoads (λ n. c.min_load ≤ n) c.mem_partitions
  pub owned : (p : ℕ) → p < k → Owned c p
  pub only :
      (mem : Bytes) (parts : List ℕ) (p : ℕ)
      → lookup mem c.mem_partitions ≡ some parts
      → elem p parts ≡ true
      → (i : ℕ) × (lookup p c.partition_dist ≡ some i) × (member_at c i ≡ some mem)

-- What a distribution leaves as it was.
pub record Same (c c' : C) : Type 0 where
  pub config : c'.config ≡ c.config
  pub min_load : c'.min_load ≡ c.min_load
  pub max_load : c'.max_load ≡ c.max_load
  pub sorted_ring : c'.sorted_ring ≡ c.sorted_ring
  pub members : length c'.mem_partitions ≡ length c.mem_partitions

pub Same-trans : {c c' c'' : C} → Same c c' → Same c' c'' → Same c c''
Same-trans h k = record {
  config = k.config ∙ h.config;
  min_load = k.min_load ∙ h.min_load;
  max_load = k.max_load ∙ h.max_load;
  sorted_ring = k.sorted_ring ∙ h.sorted_ring;
  members = k.members ∙ h.members;
}

elem-add : (p q : ℕ) (s : List ℕ) → elem p (add q s) ≡ (q == p) || elem p s
elem-add p q s = ground arith

module _ (c : C) (part i : ℕ) (mem : Bytes) (parts : List ℕ) (o : member_at c i ≡ some mem)
    (f : lookup mem c.mem_partitions ≡ some parts) where
  abbrev c' : C
  c' = place c part i mem parts

  place-member_at : (j : ℕ) → member_at c' j ≡ member_at c j
  unfolding place member_at
  place-member_at j = refl

  place-lookup :
      (m : Bytes)
      → lookup m c'.mem_partitions
        ≡ (if mem == m then some (add part parts) else lookup m c.mem_partitions)
  unfolding place
  place-lookup m = lookup-insert mem m (add part parts) c.mem_partitions

  -- What is found afterwards is what was placed, or was there.
  place-finds :
      (m : Bytes) (v : List ℕ)
      → lookup m c'.mem_partitions ≡ some v
      → ((mem ≡ m) × (v ≡ add part parts)) ⊎ (lookup m c.mem_partitions ≡ some v)
  place-finds m v f' = ground (arith, place-lookup m, bytes_eq_iff mem m)

  place-dist :
      (p : ℕ)
      → lookup p c'.partition_dist ≡ (if part == p then some i else lookup p c.partition_dist)
  unfolding place
  place-dist p = lookup-insert part p i c.partition_dist

  place-Same : Same c c'
  unfolding place
  place-Same = record {
    config = refl;
    min_load = refl;
    max_load = refl;
    sorted_ring = refl;
    members = length-insert mem parts (add part parts) c.mem_partitions f;
  }

  place-Covered : Covered c → Covered c'
  unfolding place member_at
  place-Covered cov = record {
    some_node = cov.some_node;
    owner = cov.owner;
    known = λ j m o'. elim (Bool-cases (bytes_eq mem m)) [
      | inl same ↦ (add part parts, place-lookup m ∙ rw same refl)
      | inr other ↦ let (v, f') = cov.known j m o' in (v, place-lookup m ∙ rw other f')
    ];
    present = λ m v f'. elim (Bool-cases (bytes_eq mem m)) [
      | inl same ↦ rw (← bytes_eq_sound mem m same) (cov.present mem parts f)
      | inr other ↦ cov.present m v (ground (arith, place-lookup m))
    ];
  }

  module _ (new : elem part parts ≡ false) where
    place-AllLoads :
        (P : ℕ → Type 0)
        → KeysDistinct c.mem_partitions
        → AllLoads P c.mem_partitions
        → P (length parts + 1)
        → AllLoads P c'.mem_partitions
    unfolding place
    place-AllLoads P d a h =
        AllLoads-of_lookup P c'.mem_partitions
          (KeysDistinct-insert mem (add part parts) c.mem_partitions d)
          (λ m v f'. elim (Bool-cases (bytes_eq mem m)) [
            | inl same ↦
                let grown : length v ≡ length parts + 1 =
                  ground (arith, place-lookup m, length-add part parts) in
                rw grown h
            | inr other ↦
                lookup_of_AllLoads P c.mem_partitions a m v (ground (arith, place-lookup m))
          ])

    place-below :
        Spread part c
        → (m : Bytes) (v : List ℕ) → lookup m c'.mem_partitions ≡ some v
        → (p : ℕ) → elem p v ≡ true
        → p < part + 1
    place-below h m v f' p e = elim (place-finds m v f') [
      | inl (_, grown) ↦
          let there : elem p (add part parts) ≡ true = (rw grown at e) in
          ground (arith, elem-add p part parts, h.below mem parts f p)
      | inr before ↦ omega (arith, h.below m v before p e)
    ]

    place-Owned : Spread part c → (p : ℕ) → p < part + 1 → Owned c' p
    place-Owned h p b = elim (Bool-cases (part == p)) [
      | inl this ↦ record {
        at = i;
        mem = mem;
        parts = add part parts;
        indexed = place-dist p ∙ rw this refl;
        owns = place-member_at i ∙ o;
        finds = place-lookup mem ∙ rw bytes_eq_refl refl;
        holds = ground (arith, elem-add p part parts);
      }
      | inr earlier ↦ old p earlier (h.owned p (ground arith))
    ]
      where
        old : (p : ℕ) → (part == p) ≡ false → Owned c p → Owned c' p
        old p earlier w = elim (Bool-cases (bytes_eq mem w.mem)) [
          | inl same ↦ record {
            at = w.at;
            mem = w.mem;
            parts = add part parts;
            indexed = place-dist p ∙ rw earlier w.indexed;
            owns = place-member_at w.at ∙ w.owns;
            finds = place-lookup w.mem ∙ rw same refl;
            holds = ground (arith, elem-add p part parts, bytes_eq_iff mem w.mem, w.holds, w.finds);
          }
          | inr apart ↦ record {
            at = w.at;
            mem = w.mem;
            parts = w.parts;
            indexed = place-dist p ∙ rw earlier w.indexed;
            owns = place-member_at w.at ∙ w.owns;
            finds = place-lookup w.mem ∙ rw apart w.finds;
            holds = w.holds;
          }
        ]

    place-only :
        Spread part c
        → (m : Bytes) (v : List ℕ) (p : ℕ) → lookup m c'.mem_partitions ≡ some v
        → elem p v ≡ true
        → (j : ℕ) × (lookup p c'.partition_dist ≡ some j) × (member_at c' j ≡ some m)
    place-only h m v p f' e = elim (place-finds m v f') [
      | inl (same, grown) ↦
          let there : elem p (add part parts) ≡ true = (rw grown at e) in
          elim (Bool-cases (part == p)) [
            | inl this ↦ (i, place-dist p ∙ rw this refl, place-member_at i ∙ rw (← same) o)
            | inr earlier ↦
                old mem m p earlier same
                  (h.only mem parts p f (ground (arith, elem-add p part parts)))
          ]
      | inr before ↦
          let p-lt = h.below m v before p e in old m m p (ground arith) refl (h.only m v p before e)
    ]
      where
        old :
            (n m : Bytes) (p : ℕ)
            → (part == p) ≡ false
            → n ≡ m
            → (j : ℕ) × (lookup p c.partition_dist ≡ some j) × (member_at c j ≡ some n)
            → (j : ℕ) × (lookup p c'.partition_dist ≡ some j) × (member_at c' j ≡ some m)
        old n m p earlier same (j, d, w) =
            (j, place-dist p ∙ rw earlier d, place-member_at j ∙ rw (← same) w)

    place-sum : Spread part c → total c'.mem_partitions ≡ part + 1
    unfolding place
    place-sum h = omega (
      arith,
      total-insert mem parts (add part parts) c.mem_partitions f,
      length-add part parts new,
      h.sum,
    )

    place-keys : Spread part c → KeysDistinct c'.mem_partitions
    unfolding place
    place-keys h = KeysDistinct-insert mem (add part parts) c.mem_partitions h.keys

    place-bounded :
        Spread part c
        → length parts + 1 ≤ c.max_load
        → AllLoads (λ n. n ≤ c'.max_load) c'.mem_partitions
    unfolding place
    place-bounded h l = place-AllLoads (λ n. n ≤ c.max_load) h.keys h.bounded l

    -- A placement below the least load finds all loads at most that; another one finds all at least.
    place-uniform :
        Spread part c
        → (length parts + 1 ≤ c.min_load) ⊎ AllLoads (λ n. c.min_load ≤ n) c.mem_partitions
        → AllLoads (λ n. n ≤ c'.min_load) c'.mem_partitions
          ⊎ AllLoads (λ n. c'.min_load ≤ n) c'.mem_partitions
    unfolding place
    place-uniform h (inl low) = elim h.uniform [
      | inl small ↦ inl (place-AllLoads (λ n. n ≤ c.min_load) h.keys small low)
      | inr large ↦ absurd (
          omega
            (arith, lookup_of_AllLoads (λ n. c.min_load ≤ n) c.mem_partitions large mem parts f))
    ]
    place-uniform h (inr large) = inr (
        place-AllLoads (λ n. c.min_load ≤ n) h.keys large
          (omega
            (arith, lookup_of_AllLoads (λ n. c.min_load ≤ n) c.mem_partitions large mem parts f)))

    place-Spread :
        Spread part c
        → length parts + 1 ≤ c.max_load
        → (length parts + 1 ≤ c.min_load) ⊎ AllLoads (λ n. c.min_load ≤ n) c.mem_partitions
        → Spread (part + 1) c'
    place-Spread h l side = record {
      covered = place-Covered h.covered;
      keys = place-keys h;
      sum = place-sum h;
      below = place-below h;
      bounded = place-bounded h l;
      uniform = place-uniform h side;
      owned = place-Owned h;
      only = place-only h;
    }

-- A search that has placed a partition has spread one more.
pub Spread-Placed :
    (k allowed : ℕ) (c c' : C)
    → Spread k c
    → Placed c k allowed c'
    → allowed ≤ c.max_load
    → (allowed ≡ c.min_load) ⊎ AllLoads (λ n. c.min_load ≤ n) c.mem_partitions
    → Spread (k + 1) c' × Same c c'
Spread-Placed k allowed c c' h pl l side =
    let new =
      eq-false_of_not (elem k pl.parts)
        (λ m. omega (arith, h.below pl.mem pl.parts pl.finds k m)) in
    let side' : (length pl.parts + 1 ≤ c.min_load)
        ⊎ AllLoads (λ n. c.min_load ≤ n) c.mem_partitions =
      elim side [ inl least ↦ inl (omega (arith, pl.room)) | inr large ↦ inr large ] in
    rw pl.result (
      place-Spread c k pl.at pl.mem pl.parts pl.owns pl.finds new h (omega (arith, pl.room)) side',
      place-Same c k pl.at pl.mem pl.parts pl.owns pl.finds,
    )
