-- ===== src/Hash/Cover.antt =====
-- The struct that `BuildConsistentUniformHash` sets up before it spreads the partitions.
use ceresmeta.Common.{
  if◌then◌else◌, nat_eq, Option-cases, length, get_elem?, elem, sort, lookup, insert, lookup-insert,
  ℕ, ◌+◌, ◌≤◌, ◌<◌, ◌≡◌, refl, sym, ap, ◌∙◌, inl, inr, true, false, none, some, List, [], ◌∷◌,
  arith, Bytes, bytes_eq_refl, bytes_eq_iff, text_eq, pos_part,
}
use ceresmeta.Hash.{
  ConsistentUniformHash, Config, member_at, sort_names, add_members, initialize_virtual_nodes,
}
use ceresmeta.Hash.Elements.{
  elem-sort, elem-sort_names, elem-get_elem?, get_elem?-elem, get_elem?-lt,
}
use ceresmeta.Hash.Loads.{Parts, KeysDistinct, KeysDistinct-insert, AllLoads-of_lookup, total_le}
use ceresmeta.Hash.Build.{empty_partitions, new_hash}
use ceresmeta.Hash.Probe.{Covered}
use ceresmeta.Hash.Spread.{Spread}
use ceresmeta.Hash.Ring.{node_hash, Kept, Added, Node, add_members-Added}

abbrev C : Type 0
C = ConsistentUniformHash

-- No name occurs twice.
abbrev pub DistinctNames : List Bytes → Type 0
DistinctNames [] = Unit
DistinctNames (x ∷ xs) = (elem x xs ≡ false) × DistinctNames xs

-- The virtual nodes of two members never have one hash.
abbrev pub NoCollision : (Bytes → ℕ) → List Bytes → ℕ → Type 0
NoCollision sum64 names replicas =
    (m n : Bytes) (i j : ℕ)
    → elem m names ≡ true
    → elem n names ≡ true
    → i < replicas
    → j < replicas
    → node_hash sum64 m i ≡ node_hash sum64 n j
    → m ≡ n

lookup-empty_partitions :
    (k : Bytes) (mems : List Bytes) (mp : Parts)
    → lookup k (empty_partitions mems mp) ≡ (if elem k mems then some [] else lookup k mp)
unfolding empty_partitions
lookup-empty_partitions k [] mp = refl
lookup-empty_partitions k (m ∷ mems) mp =
    ground (arith, lookup-empty_partitions k mems (insert m [] mp), lookup-insert m k [] mp)

KeysDistinct-empty_partitions :
    (mems : List Bytes) (mp : Parts) → KeysDistinct mp → KeysDistinct (empty_partitions mems mp)
unfolding empty_partitions
KeysDistinct-empty_partitions [] mp d = d
KeysDistinct-empty_partitions (m ∷ mems) mp d =
    KeysDistinct-empty_partitions mems (insert m [] mp) (KeysDistinct-insert m [] mp d)

length-insert_new :
    (k : Bytes) (v : List ℕ) (mp : Parts)
    → lookup k mp ≡ none
    → length (insert k v mp) ≡ length mp + 1
unfolding lookup insert
length-insert_new k v [] h = omega arith
length-insert_new k v ((j, x) ∷ mp) h = ground (arith, length-insert_new k v mp)

length-empty_partitions :
    (mems : List Bytes) (mp : Parts)
    → DistinctNames mems
    → ((k : Bytes) → elem k mems ≡ true → lookup k mp ≡ none)
    → length (empty_partitions mems mp) ≡ length mems + length mp
unfolding empty_partitions
length-empty_partitions [] mp d apart = omega arith
length-empty_partitions (m ∷ mems) mp d apart =
    let ih =
      length-empty_partitions mems (insert m [] mp) d.1
        (λ k e. ground (arith, lookup-insert m k [] mp, apart k, d.0, bytes_eq_iff m k)) in
    omega (arith, ih, length-insert_new m [] mp (apart m (rw bytes_eq_refl refl)))

-- A member found has no partitions yet.
empty_found :
    (k : Bytes) (v : List ℕ) (mems : List Bytes)
    → lookup k (empty_partitions mems []) ≡ some v
    → (elem k mems ≡ true) × (v ≡ [])
unfolding lookup
empty_found k v mems f = ground (arith, lookup-empty_partitions k mems [])

member_at-none : (c : C) (i : ℕ) → get_elem? c.sorted_ring i ≡ none → member_at c i ≡ none
unfolding member_at
member_at-none c i out = rw out refl

module _ (sum64 : Bytes → ℕ) (n : ℕ) (mems : List Bytes) (config : Config)
    (some_replica : 0 < pos_part config.replication_factor) (some_member : 0 < length mems)
    (no_collision : NoCollision sum64 mems (pos_part config.replication_factor)) where
  abbrev replicas : ℕ
  replicas = pos_part config.replication_factor

  abbrev c0 : C
  c0 = new_hash n mems config

  abbrev c1 : C
  c1 = add_members sum64 (sort_names mems) c0

  abbrev c2 : C
  c2 = initialize_virtual_nodes sum64 mems c0

  all-Added :
      Added sum64 mems replicas c0 c1
      × ((mem : Bytes)
          → elem mem (sort_names mems) ≡ true
          → elem (node_hash sum64 mem 0) c1.sorted_ring ≡ true)
  unfolding new_hash
  all-Added =
      add_members-Added sum64 mems replicas (sort_names mems) c0 some_replica refl
        (λ mem e. rw elem-sort_names at e) (λ h e. absurd (cc))

  pub initialize-Kept : Kept c0 c2
  unfolding initialize_virtual_nodes
  initialize-Kept =
      let k = all-Added.0.kept in
      record {
        config = k.config;
        min_load = k.min_load;
        max_load = k.max_load;
        num_partitions = k.num_partitions;
        mem_partitions = k.mem_partitions;
        partition_dist = k.partition_dist;
      }

  -- The node at an index of the sorted ring.
  node_at : (i h : ℕ) → get_elem? c2.sorted_ring i ≡ some h → Node sum64 mems replicas c1 h
  unfolding initialize_virtual_nodes
  node_at i h e =
      all-Added.0.nodes h
        (ground (arith, elem-sort h c1.sorted_ring, get_elem?-elem h i c2.sorted_ring e))

  member_at-node :
      (i h : ℕ) (e : get_elem? c2.sorted_ring i ≡ some h)
      → member_at c2 i ≡ some (node_at i h e).mem
  unfolding initialize_virtual_nodes member_at
  member_at-node i h e = ground (arith, (node_at i h e).mapped)

  -- A member is at an index of the sorted ring.
  index_of_member :
      (mem : Bytes)
      → elem mem mems ≡ true
      → (i : ℕ) × (i < length c2.sorted_ring) × (member_at c2 i ≡ some mem)
  unfolding initialize_virtual_nodes
  index_of_member mem named =
      let g = node_hash sum64 mem 0 in
      let there = all-Added.1 mem (rw elem-sort_names named) in
      let (i, b, e) = elem-get_elem? g (sort c1.sorted_ring) (rw elem-sort there) in
      let node = node_at i g e in
      let same =
        no_collision node.mem mem node.replica 0 node.named named node.within some_replica
          (sym node.hashed) in
      (i, b, member_at-node i g e ∙ ap some same)

  mem_partitions-empty : c2.mem_partitions ≡ empty_partitions mems []
  unfolding new_hash
  mem_partitions-empty = initialize-Kept.mem_partitions

  named_at : (i : ℕ) (mem : Bytes) → member_at c2 i ≡ some mem → elem mem mems ≡ true
  named_at i mem o = elim (Option-cases (get_elem? c2.sorted_ring i)) [
    | inl out ↦ absurd (no_member i mem out o)
    | inr (h, e) ↦
        let node = node_at i h e in
        let same : node.mem ≡ mem = ground (arith, member_at-node i h e) in rw same at node.named
  ]
    where
      no_member :
          (i : ℕ) (mem : Bytes) → get_elem? c2.sorted_ring i ≡ none → member_at c2 i ≡ some mem → ⊥
      no_member i mem out o = cc (member_at-none c2 i out)

  initialize-Covered : Covered c2
  initialize-Covered = record {
    some_node =
        let (m, e) = some_name mems some_member in
        let (i, b, o) = index_of_member m e in omega arith;
    owner = λ i b.
        let (h, e) = get_elem?-lt i c2.sorted_ring b in ((node_at i h e).mem, member_at-node i h e);
    known = λ i mem o. (
      [],
      rw mem_partitions-empty
          (ground (arith, lookup-empty_partitions mem mems [], named_at i mem o)),
    );
    present = λ mem parts f.
        index_of_member mem (empty_found mem parts mems (rw mem_partitions-empty at f)).0;
  }
    where
      some_name : (l : List Bytes) → 0 < length l → (m : Bytes) × (elem m l ≡ true)
      some_name [] h = absurd (omega arith)
      some_name (m ∷ l) h = (m, rw bytes_eq_refl refl)

  pub initialize-Spread : DistinctNames mems → Spread 0 c2
  initialize-Spread d =
      let keys : KeysDistinct c2.mem_partitions =
        rw mem_partitions-empty (KeysDistinct-empty_partitions mems [] tt) in
      let found = λ (mem : Bytes) (v : List ℕ) (f : lookup mem c2.mem_partitions ≡ some v).
        (empty_found mem v mems (rw mem_partitions-empty at f)).1 in
      let loads = λ (b : ℕ).
        AllLoads-of_lookup (λ x. x ≤ b) c2.mem_partitions keys
          (λ mem v f. rw (found mem v f) (omega arith)) in
      record {
        covered = initialize-Covered;
        keys = keys;
        sum = omega (arith, total_le 0 c2.mem_partitions (loads 0));
        below = λ mem v f p e. absurd (ground (arith, found mem v f));
        bounded = loads c2.max_load;
        uniform = inl (loads c2.min_load);
        owned = λ p b. absurd (omega arith);
        only = λ mem v p f e. absurd (ground (arith, found mem v f));
      }

  pub initialize-members : DistinctNames mems → length c2.mem_partitions ≡ length mems
  initialize-members d =
      rw mem_partitions-empty
        (omega (arith, length-empty_partitions mems [] d (λ k e. unfold lookup in refl)))
