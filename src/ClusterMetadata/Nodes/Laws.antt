-- ===== src/ClusterMetadata/Nodes/Laws.antt =====
-- What a registration leaves, of the cache and of a stable cluster.
use ceresmeta.Storage.{ClusterView, Cluster, Storage, static, stable}
use ceresmeta.TableManager.{IdAllocator, TableManagerImpl}
use ceresmeta.ClusterMetadata.{RegisteredNode, World}
use ceresmeta.ClusterMetadata.Nodes.{
  with_online, Cache, store_node, prepare_when_enough, update_shard_nodes, register_node,
  get_registered_node_by_name,
}
use ceresmeta.Topology.{TopologyManagerImpl}
use ceresmeta.Common.{
  leb, if◌then◌else◌, ◌==◌, nat_eq, Bool-cases, length, lookup-insert, ok, ℕ, ◌%◌, ◌^◌, ◌≡◌, refl,
  inl, inr, some, Bytes, text_eq, Result-cases,
}

-- The node is in the cache, as online; the other names are as they were.
abbrev pub Cached : Cache → RegisteredNode → Cache → Type 0
Cached cache n cache' =
    (name : Bytes)
    → get_registered_node_by_name name cache' ≡ (
        if n.node.name == name
        then some (with_online n)
        else get_registered_node_by_name name cache)

module _ (s : Storage) (schema_alloc table_alloc : IdAllocator) where
  -- A RegisterNode that returns no error leaves the node in the cache under its name, as online and with
  -- the shards that it registers, and the other names as they were.
  pub register_node-Cached :
      (now : ℕ) (meta : Cluster) (n : RegisteredNode) (cache : Cache)
      (w : World s schema_alloc table_alloc)
      → (register_node s schema_alloc table_alloc now meta n (cache, w)).0 ≡ ok tt
      → Cached cache n (register_node s schema_alloc table_alloc now meta n (cache, w)).1.0
  unfolding register_node get_registered_node_by_name
  register_node-Cached now meta n cache w h name =
      let r1 = store_node s schema_alloc table_alloc meta.id (with_online n).node w in
      elim (Result-cases r1.0) [
        | inr (x, f) ↦ absurd (cc (rw f at h))
        | inl (_, f) ↦
            let r2 = prepare_when_enough s schema_alloc table_alloc now meta (length cache) r1.1 in
            elim (Result-cases r2.0) [
              | inr (x, g) ↦ absurd (cc (rw (f, g) at h))
              | inl (_, g) ↦ rw (f, g) (lookup-insert n.node.name name (with_online n) cache)
            ]
      ]

  register_node_keeps :
      (now : ℕ) (meta : Cluster) (n : RegisteredNode) (cache : Cache) (m : TableManagerImpl)
      (p : TopologyManagerImpl) (t : s.State) (x : schema_alloc.State × table_alloc.State)
      (v : ClusterView)
      → p.cluster_view ≡ some v
      → v.state ≡ stable
      → meta.topology_type ≡ static
      → (s.create_or_update_node meta.id (with_online n).node t).0 ≡ ok tt
      → ((register_node s schema_alloc table_alloc now meta n (cache, (m, (p, (t, x))))).0 ≡ ok tt)
        × ((register_node s schema_alloc table_alloc now meta n (cache, (m, (p, (t, x))))).1.1
            ≡ (m, (p, ((s.create_or_update_node meta.id (with_online n).node t).1, x))))
  unfolding register_node prepare_when_enough update_shard_nodes
  register_node_keeps now meta n cache m p t x v h st ty f =
      elim (Bool-cases (leb meta.min_node_count (length cache % 2 ^ 32))) [
        | inl e ↦ (rw (ty, f, e, h, st, h, st) refl, simp (ty, f, e, h, st))
        | inr e ↦ (rw (ty, f, e, h, st) refl, simp (ty, f, e, h, st))
      ]

  -- In a stable cluster with a static topology, a RegisterNode whose node is stored returns no error. It
  -- changes neither manager and nothing else in the storage, and leaves the node in the cache under its
  -- name, as online, and the other names as they were.
  pub register_node_static :
      (now : ℕ) (meta : Cluster) (n : RegisteredNode) (cache : Cache) (m : TableManagerImpl)
      (p : TopologyManagerImpl) (t : s.State) (x : schema_alloc.State × table_alloc.State)
      (v : ClusterView)
      → p.cluster_view ≡ some v
      → v.state ≡ stable
      → meta.topology_type ≡ static
      → (s.create_or_update_node meta.id (with_online n).node t).0 ≡ ok tt
      → let after = register_node s schema_alloc table_alloc now meta n (cache, (m, (p, (t, x)))) in
        (after.0 ≡ ok tt)
        × (after.1.1 ≡ (m, (p, ((s.create_or_update_node meta.id (with_online n).node t).1, x))))
        × Cached cache n after.1.0
  register_node_static now meta n cache m p t x v h st ty f =
      let (done, same) = register_node_keeps now meta n cache m p t x v h st ty f in
      (done, same, register_node-Cached now meta n cache (m, (p, (t, x))) done)
