-- ===== src/Topology/Nodes.antt =====
-- What the methods on the cluster view of server/cluster/metadata/topology_manager.go promise.
use ceresmeta.Storage.{
  ClusterState, ShardNode, ClusterView, new_cluster_view, Storage, StorageLaws, HasClusterVersion,
}
use ceresmeta.Topology.{TopologyManagerImpl, map_shard_nodes, set_cluster_view, append_at, or_nil}
use ceresmeta.Topology.Update.{
  contains, without_nodes, load_cluster_view, update_cluster_view_with_lock, update_cluster_view,
  drop_shard_nodes,
}
use ceresmeta.Common.{
  if◌then◌else◌, u64, Eq, ◌==◌, nat_eq, Bool-cases, Option-cases, Map, lookup, lookup-insert, ok,
  err, ℕ, ◌+◌, ◌≡◌, refl, sym, ◌∙◌, inl, inr, Bool, true, ◌&&◌, not, some, List, [], ◌∷◌, ◌++◌,
  arith, view_conflict, Bytes, bytes_eq_iff, text_eq, Result-cases,
}

-- The nodes of a shard, and those of a node name, in the order of the cluster view.
abbrev pub nodes_of_shard : ℕ → List ShardNode → List ShardNode
nodes_of_shard k [] = []
nodes_of_shard k (n ∷ ns) = let rest = nodes_of_shard k ns in if n.id == k then n ∷ rest else rest

abbrev pub nodes_of_name : Bytes → List ShardNode → List ShardNode
nodes_of_name k [] = []
nodes_of_name k (n ∷ ns) =
    let rest = nodes_of_name k ns in if n.node_name == k then n ∷ rest else rest

append_nil : {A : Type 0} → (xs : List A) → xs ++ [] ≡ xs
append_nil [] = refl
append_nil (x ∷ xs) = rw (append_nil xs) refl

append_one :
    {A : Type 0} → (xs : List A) (a : A) (ys : List A) → (xs ++ a ∷ []) ++ ys ≡ xs ++ a ∷ ys
append_one [] a ys = refl
append_one (x ∷ xs) a ys = rw (append_one xs a ys) refl

append_at-lookup :
    {K : Type 0} ⦃e : Eq K⦄ (k j : K) (n : ShardNode) (m : Map K (List ShardNode))
    (rest : List ShardNode)
    → or_nil (lookup j (append_at k n m)) ++ rest
      ≡ or_nil (lookup j m) ++ (if k == j then n ∷ rest else rest)
append_at-lookup ⦃e⦄ k j n m rest = elim (Bool-cases (k == j)) [
  | inl b ↦
      let p = (e.beq_iff k j).0 b in
      rw (lookup-insert k j (or_nil (lookup k m) ++ n ∷ []) m, b)
        (rw p (append_one (or_nil (lookup j m)) n rest))
  | inr b ↦ rw (lookup-insert k j (or_nil (lookup k m) ++ n ∷ []) m, b) refl
]

map_shard_nodes-lookup :
    (k : ℕ) (ns : List ShardNode) (m : TopologyManagerImpl)
    → or_nil (lookup k (map_shard_nodes ns m).shard_nodes_mapping)
      ≡ or_nil (lookup k m.shard_nodes_mapping) ++ nodes_of_shard k ns
unfolding map_shard_nodes
map_shard_nodes-lookup k [] m = sym (append_nil (or_nil (lookup k m.shard_nodes_mapping)))
map_shard_nodes-lookup k (n ∷ ns) m =
    rw (map_shard_nodes-lookup k ns _)
      (append_at-lookup n.id k n m.shard_nodes_mapping (nodes_of_shard k ns))

map_shard_nodes-names :
    (k : Bytes) (ns : List ShardNode) (m : TopologyManagerImpl)
    → or_nil (lookup k (map_shard_nodes ns m).node_shards_mapping)
      ≡ or_nil (lookup k m.node_shards_mapping) ++ nodes_of_name k ns
unfolding map_shard_nodes
map_shard_nodes-names k [] m = sym (append_nil (or_nil (lookup k m.node_shards_mapping)))
map_shard_nodes-names k (n ∷ ns) m =
    rw (map_shard_nodes-names k ns _)
      (append_at-lookup n.node_name k n m.node_shards_mapping (nodes_of_name k ns))

-- After a load of a cluster view, the memory maps each shard and each node name to exactly its nodes
-- of the view, in the view's order.
pub set_cluster_view_lem :
    (v : ClusterView) (m : TopologyManagerImpl)
    → ((set_cluster_view v m).cluster_view ≡ some v)
      × ((k : ℕ)
          → or_nil (lookup k (set_cluster_view v m).shard_nodes_mapping)
            ≡ nodes_of_shard k v.shard_nodes)
      × ((n : Bytes)
          → or_nil (lookup n (set_cluster_view v m).node_shards_mapping)
            ≡ nodes_of_name n v.shard_nodes)
unfolding set_cluster_view lookup
set_cluster_view_lem v m = (
  refl,
  λ k. map_shard_nodes-lookup k v.shard_nodes _,
  λ n. map_shard_nodes-names n v.shard_nodes _,
)

-- The test of `contains`.
abbrev pub is_node : ShardNode → ShardNode → Bool
is_node a b = (a.node_name == b.node_name) && (a.id == b.id)

contains-is_node :
    (ds : List ShardNode) (a b : ShardNode) → is_node a b ≡ true → contains ds a ≡ contains ds b
unfolding contains
contains-is_node [] a b h = refl
contains-is_node (d ∷ ds) a b h =
    ground (arith, bytes_eq_iff a.node_name b.node_name, contains-is_node ds a b h)

-- DropShardNodes keeps a node exactly when none of those to drop has its name and its shard.
pub contains-without_nodes :
    (ds ns : List ShardNode) (n : ShardNode)
    → contains (without_nodes ds ns) n ≡ (not (contains ds n) && contains ns n)
unfolding contains without_nodes
contains-without_nodes ds [] n = ground arith
contains-without_nodes ds (x ∷ ns) n = elim (Bool-cases (is_node n x)) [
  | inl e ↦ ground (arith, contains-without_nodes ds ns n, contains-is_node ds n x e)
  | inr e ↦ ground (arith, contains-without_nodes ds ns n)
]

module _ (s : Storage) (laws : StorageLaws s) where
  -- An update of the cluster view that succeeds on a valid storage, with no other writer between the update and the
  -- load, replaced in the storage a view of the version that the memory had; both then hold the new
  -- view, a version further, and the memory maps each shard to exactly its nodes of that view.
  pub update_cluster_view_ok :
      (now : ℕ) (st : ClusterState) (ns : List ShardNode) (m : TopologyManagerImpl) (t : s.State)
      → s.IsValid t
      → (update_cluster_view s now st ns (m, t)).0 ≡ ok tt
      → (v : ClusterView) × (m.cluster_view ≡ some v)
        × HasClusterVersion (s.cluster_view t m.cluster_id) v.version
        × (let v' = new_cluster_view now m.cluster_id (u64 (v.version + 1)) st ns in
            let (m', t') = (update_cluster_view s now st ns (m, t)).1 in
            (m'.cluster_view ≡ some v')
            × (s.cluster_view t' m.cluster_id ≡ some v')
            × ((k : ℕ) → or_nil (lookup k m'.shard_nodes_mapping) ≡ nodes_of_shard k ns))
  unfolding update_cluster_view update_cluster_view_with_lock load_cluster_view new_cluster_view
  update_cluster_view_ok now st ns m t valid h = elim (Option-cases m.cluster_view) [
    | inl e ↦ absurd (cc (rw e at h))
    | inr (v, e) ↦
        let v' = new_cluster_view now m.cluster_id (u64 (v.version + 1)) st ns in
        let t1 = (s.update_cluster_view m.cluster_id v' v.version t).1 in
        let h1 : (s.update_cluster_view m.cluster_id v' v.version t).0 ≡ ok tt = ground arith in
        let (p, q) = laws.update_cluster_view_ok m.cluster_id v' v.version t valid h1 in
        elim (Result-cases (s.get_cluster_view m.cluster_id t1).0) [
          | inr (x, h2) ↦ absurd (ground arith)
          | inl (u, h2) ↦
              let same : v' ≡ u =
                ground (arith, q, laws.get_cluster_view_ok m.cluster_id t1 u h2) in
              let (a, b, c) = set_cluster_view_lem v' (record m { cluster_view = some v }) in
              (
                v,
                e,
                p,
                rw (e, h1, h2)
                    (rw (sym same)
                      (a, laws.get_cluster_view_keeps m.cluster_id m.cluster_id t1 ∙ q, b)),
              )
        ]
  ]

  -- When the update of a valid storage conflicts, the conflict is returned, and neither the memory nor
  -- the view in the storage changes.
  pub update_cluster_view_conflict :
      (now : ℕ) (st : ClusterState) (ns : List ShardNode) (m : TopologyManagerImpl) (t : s.State)
      (v : ClusterView)
      → s.IsValid t
      → m.cluster_view ≡ some v
      → (s.update_cluster_view m.cluster_id
          (new_cluster_view now m.cluster_id (u64 (v.version + 1)) st ns)
          v.version
          t).0
        ≡ err view_conflict
      → let w' = update_cluster_view s now st ns (m, t) in
        (w'.0 ≡ err view_conflict)
        × (w'.1.0 ≡ m)
        × (s.cluster_view w'.1.1 m.cluster_id ≡ s.cluster_view t m.cluster_id)
  unfolding update_cluster_view update_cluster_view_with_lock
  update_cluster_view_conflict now st ns m t v valid e h =
      let (p, q) = laws.update_cluster_view_conflict m.cluster_id _ v.version t valid h in
      rw (e, h) (refl, refl, q)

  -- After a DropShardNodes that succeeds on a valid storage, the storage holds a view with the old state in which a node
  -- occurs, by its name and its shard, exactly when it occurred before and was not to be dropped.
  pub drop_shard_nodes_ok :
      (now : ℕ) (ds : List ShardNode) (m : TopologyManagerImpl) (t : s.State) (v : ClusterView)
      → s.IsValid t
      → m.cluster_view ≡ some v
      → (drop_shard_nodes s now ds (m, t)).0 ≡ ok tt
      → (v' : ClusterView) × (s.cluster_view (drop_shard_nodes s now ds (m, t)).1.1 m.cluster_id
          ≡ some v')
        × (v'.state ≡ v.state)
        × ((n : ShardNode)
            → contains v'.shard_nodes n ≡ (not (contains ds n) && contains v.shard_nodes n))
  unfolding drop_shard_nodes update_cluster_view new_cluster_view
  drop_shard_nodes_ok now ds m t v valid e h =
      let ns = without_nodes ds v.shard_nodes in
      let same : drop_shard_nodes s now ds (m, t) ≡ update_cluster_view s now v.state ns (m, t) =
        rw e refl in
      let h' = rw same at h in
      let (u, f, p, (q, r, z)) = update_cluster_view_ok now v.state ns m t valid h' in
      (
        new_cluster_view now m.cluster_id (u64 (u.version + 1)) v.state ns,
        rw same r,
        refl,
        λ n. contains-without_nodes ds v.shard_nodes n,
      )
