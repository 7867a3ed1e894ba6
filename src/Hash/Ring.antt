-- ===== src/Hash/Ring.antt =====
-- The ring of virtual nodes: every node on it belongs to a member, and every member is on it.
use ceresmeta.Common.{
  ◌==◌, nat_eq, Bool-cases, elem, Map, lookup, insert, lookup-insert, ℕ, zero, suc, ◌+◌, ◌≤◌, ◌<◌,
  ◌≡◌, refl, ◌∙◌, inl, inr, true, some, List, [], ◌∷◌, arith, Bytes, bytes_eq, bytes_eq_refl,
  bytes_eq_sound, text_eq, pos_part,
}
use ceresmeta.Hash.{
  ConsistentUniformHash, virtual_node_key, add_virtual_node, add_replicas, add_members,
}
use ceresmeta.Hash.Elements.{elem-append}

abbrev C : Type 0
C = ConsistentUniformHash

-- The hash of a virtual node.
abbrev pub node_hash : (Bytes → ℕ) → Bytes → ℕ → ℕ
node_hash sum64 mem i = sum64 (virtual_node_key mem i)

-- What the virtual nodes leave as it was.
pub record Kept (c c' : C) : Type 0 where
  pub config : c'.config ≡ c.config
  pub min_load : c'.min_load ≡ c.min_load
  pub max_load : c'.max_load ≡ c.max_load
  pub num_partitions : c'.num_partitions ≡ c.num_partitions
  pub mem_partitions : c'.mem_partitions ≡ c.mem_partitions
  pub partition_dist : c'.partition_dist ≡ c.partition_dist

pub Kept-refl : (c : C) → Kept c c
Kept-refl c = record {
  config = refl;
  min_load = refl;
  max_load = refl;
  num_partitions = refl;
  mem_partitions = refl;
  partition_dist = refl;
}

pub Kept-trans : {c c' c'' : C} → Kept c c' → Kept c' c'' → Kept c c''
Kept-trans h k = record {
  config = k.config ∙ h.config;
  min_load = k.min_load ∙ h.min_load;
  max_load = k.max_load ∙ h.max_load;
  num_partitions = k.num_partitions ∙ h.num_partitions;
  mem_partitions = k.mem_partitions ∙ h.mem_partitions;
  partition_dist = k.partition_dist ∙ h.partition_dist;
}

module _ (sum64 : Bytes → ℕ) (names : List Bytes) (replicas : ℕ) where
  -- A node is a replica of a member, which the node is mapped to.
  pub record Node (c : C) (h : ℕ) : Type 0 where
    pub mem : Bytes
    pub replica : ℕ
    pub named : elem mem names ≡ true
    pub within : replica < replicas
    pub hashed : h ≡ node_hash sum64 mem replica
    pub mapped : lookup h c.node_to_mems ≡ some mem

  abbrev pub Nodes : C → Type 0
  Nodes c = (h : ℕ) → elem h c.sorted_ring ≡ true → Node c h

  -- The outcome of adding nodes: nodes all, nothing else changed, none lost.
  pub record Added (c c' : C) : Type 0 where
    pub nodes : Nodes c'
    pub kept : Kept c c'
    pub grows : (h : ℕ) → elem h c.sorted_ring ≡ true → elem h c'.sorted_ring ≡ true

  Added-trans : {c c' c'' : C} → Added c c' → Added c' c'' → Added c c''
  Added-trans a b = record {
    nodes = b.nodes;
    kept = Kept-trans a.kept b.kept;
    grows = λ h e. b.grows h (a.grows h e);
  }

  add_virtual_node-Added :
      (mem : Bytes) (i : ℕ) (c : C)
      → elem mem names ≡ true
      → i < replicas
      → Nodes c
      → Added c (add_virtual_node sum64 mem i c)
        × (elem (node_hash sum64 mem i) (add_virtual_node sum64 mem i c).sorted_ring ≡ true)
  unfolding add_virtual_node
  add_virtual_node-Added mem i c named b ns =
      let g = node_hash sum64 mem i in
      (
        record {
          nodes = λ h e. elim (Bool-cases (g == h)) [
            | inl new ↦ record {
              mem = mem;
              replica = i;
              named = named;
              within = b;
              hashed = ground arith;
              mapped = lookup-insert g h mem c.node_to_mems ∙ rw new refl;
            }
            | inr old ↦
                let n = ns h (ground (arith, elem-append h c.sorted_ring (g ∷ []))) in
                record {
                  mem = n.mem;
                  replica = n.replica;
                  named = n.named;
                  within = n.within;
                  hashed = n.hashed;
                  mapped = lookup-insert g h mem c.node_to_mems ∙ rw old n.mapped;
                }
          ];
          kept = record {
            config = refl;
            min_load = refl;
            max_load = refl;
            num_partitions = refl;
            mem_partitions = refl;
            partition_dist = refl;
          };
          grows = λ h e. ground (arith, elem-append h c.sorted_ring (g ∷ []));
        },
        ground (arith, elem-append g c.sorted_ring (g ∷ [])),
      )

  add_replicas-Added :
      (mem : Bytes) (count i : ℕ) (c : C)
      → elem mem names ≡ true
      → i + count ≤ replicas
      → Nodes c
      → Added c (add_replicas sum64 mem count i c)
        × (0 < count
            → elem (node_hash sum64 mem i) (add_replicas sum64 mem count i c).sorted_ring ≡ true)
  unfolding add_replicas
  add_replicas-Added mem zero i c named b ns =
      (record { nodes = ns; kept = Kept-refl c; grows = λ h e. e }, λ l. absurd (omega arith))
  add_replicas-Added mem (suc count) i c named b ns =
      let (a, there) = add_virtual_node-Added mem i c named (omega arith) ns in
      let (a', _) =
        add_replicas-Added mem count (i + 1) (add_virtual_node sum64 mem i c) named (omega arith)
          a.nodes in
      (Added-trans a a', λ l. a'.grows (node_hash sum64 mem i) there)

  -- The table of the members' names is apart.
  members-Added :
      (ms : Map Bytes Bytes) (c c' : C) → Added c c' → Added c (record c' { members = ms })
  members-Added ms c c' a = record {
    nodes = λ h e.
        let n = a.nodes h e in
        record {
          mem = n.mem;
          replica = n.replica;
          named = n.named;
          within = n.within;
          hashed = n.hashed;
          mapped = n.mapped;
        };
    kept = record {
      config = a.kept.config;
      min_load = a.kept.min_load;
      max_load = a.kept.max_load;
      num_partitions = a.kept.num_partitions;
      mem_partitions = a.kept.mem_partitions;
      partition_dist = a.kept.partition_dist;
    };
    grows = a.grows;
  }

  -- Every member added has its first replica on the ring.
  pub add_members-Added :
      (mems : List Bytes) (c : C)
      → 0 < replicas
      → pos_part c.config.replication_factor ≡ replicas
      → ((mem : Bytes) → elem mem mems ≡ true → elem mem names ≡ true)
      → Nodes c
      → Added c (add_members sum64 mems c)
        × ((mem : Bytes)
            → elem mem mems ≡ true
            → elem (node_hash sum64 mem 0) (add_members sum64 mems c).sorted_ring ≡ true)
  unfolding add_members
  add_members-Added [] c l r sub ns =
      (record { nodes = ns; kept = Kept-refl c; grows = λ h e. e }, λ mem m. absurd (cc))
  add_members-Added (mem ∷ mems) c l r sub ns =
      let count = pos_part c.config.replication_factor in
      let (a, there) =
        add_replicas-Added mem count 0 c (sub mem (rw bytes_eq_refl refl)) (omega (arith, r)) ns in
      let c' = add_replicas sum64 mem count 0 c in
      let c'' = record c' { members = insert mem mem c'.members } in
      let b = members-Added (insert mem mem c'.members) c c' a in
      let (d, rest) =
        add_members-Added mems c'' l (rw a.kept.config r) (λ m e. sub m (ground arith)) b.nodes in
      (
        Added-trans b d,
        λ m e. elim (Bool-cases (bytes_eq mem m)) [
          | inl this ↦
              rw (← bytes_eq_sound mem m this)
                (d.grows (node_hash sum64 mem 0) (there (omega (arith, r))))
          | inr later ↦ rest m (ground arith)
        ],
      )
