-- ===== src/ClusterMetadata/Nodes.antt =====
-- The registration of a node at a heartbeat, and the cache of the nodes that are registered:
-- RegisterNode and what it calls in server/cluster/metadata/cluster_metadata.go.
pub mod Laws
mod Tests
use ceresmeta.Storage.{
  ClusterState, empty, stable, prepare, NodeState, online, ShardNode, Node, TopologyType,
  type_unknown, static, dynamic, Cluster, Storage,
}
use ceresmeta.Topology.{is_state_stable}
use ceresmeta.Topology.Update as Topo
use ceresmeta.TableManager.{IdAllocator}
use ceresmeta.ClusterMetadata.{
  ShardInfo, RegisteredNode, World, Action, on_topology, need_update, maybe_correct_shard_version,
}
use ceresmeta.Common.{
  leb, if◌then◌else◌, nat_eq, length, Map, lookup, insert, Result, ok, err, Exec, pure, ◌>>=◌, ◌>>◌,
  ℕ, ◌%◌, ◌^◌, Bool, true, false, Option, none, some, List, [], ◌∷◌, map, Bytes, text_eq, panicked,
}

abbrev is_state_empty : ClusterState → Bool
is_state_empty empty = true
is_state_empty stable = false
is_state_empty prepare = false

-- `enableUpdateWhenStable`
abbrev is_dynamic : TopologyType → Bool
is_dynamic type_unknown = false
is_dynamic static = false
is_dynamic dynamic = true

abbrev pub with_online : RegisteredNode → RegisteredNode
with_online n = record n { node = record n.node { state = online } }

-- The shards that a node registers, as the nodes of its shards.
abbrev pub shard_nodes_of : RegisteredNode → List ShardNode
shard_nodes_of n =
    map (λ i. record { id = i.id; shard_role = i.role; node_name = n.node.name }) n.shard_infos

-- An error that is logged only; a panic is not.
abbrev logged : Result (Unit {0}) → Result (Unit {0})
logged (err panicked) = err panicked
logged _ = ok tt

abbrev pub Cache : Type 0
Cache = Map Bytes RegisteredNode

unfoldable pub get_registered_nodes : Cache → List RegisteredNode
get_registered_nodes cache = map (λ e. e.1) cache

unfoldable pub get_registered_node_by_name : Bytes → Cache → Option RegisteredNode
get_registered_node_by_name name cache = lookup name cache

module _ (s : Storage) (schema_alloc table_alloc : IdAllocator) where
  abbrev Act : Type 0 → Type 0
  Act A = Action s schema_alloc table_alloc A

  -- A cluster view that is not loaded is a nil dereference.
  abbrev cluster_state : Act ClusterState
  cluster_state (m, (p, w)) = elim p.cluster_view [
    | none ↦ (err panicked, (m, (p, w)))
    | some v ↦ (ok v.state, (m, (p, w)))
  ]

  abbrev pub store_node : ℕ → Node → Act (Unit {0})
  store_node c n (m, (p, (t, x))) =
      let (r, t') = s.create_or_update_node c n t in (r, (m, (p, (t', x))))

  -- The error of the update is logged.
  abbrev prepare_if_empty : ℕ → ClusterState → Act (Unit {0})
  prepare_if_empty now state w =
      let (r, w') =
        on_topology s schema_alloc table_alloc (Topo.update_cluster_view s now prepare []) w in
      if is_state_empty state then (logged r, w') else (ok tt, w)

  -- When as many nodes are registered as the cluster needs, an empty cluster is prepared.
  unfoldable pub prepare_when_enough : ℕ → Cluster → ℕ → Act (Unit {0})
  prepare_when_enough now meta registered =
      if leb meta.min_node_count (registered % 2 ^ 32)
      then cluster_state >>= prepare_if_empty now
      else pure tt

  unfoldable pub update_by_node : ℕ → Option RegisteredNode → RegisteredNode → Act (Unit {0})
  unfolding need_update
  update_by_node now old n =
      let update =
        on_topology s schema_alloc table_alloc
          (Topo.update_cluster_view_by_node s now ((n.node.name, shard_nodes_of n) ∷ [])) in
      elim old [
        | none ↦ update
        | some o ↦
            if need_update o n
            then update
            else maybe_correct_shard_version s schema_alloc table_alloc now n
      ]

  unfoldable pub update_shard_nodes :
      ℕ → Cluster → Option RegisteredNode → RegisteredNode → Act (Unit {0})
  unfolding update_by_node
  update_shard_nodes now meta old n =
      if is_dynamic meta.topology_type
      then update_by_node now old n
      else (cluster_state >>= λ state.
          if is_state_stable state then pure tt else update_by_node now old n)

  abbrev NodeAction : Type 0 → Type 0
  NodeAction A = Exec (Cache × World s schema_alloc table_alloc) A

  abbrev on_cluster : {A : Type 0} → Act A → NodeAction A
  on_cluster f (cache, w) = let (r, w') = f w in (r, (cache, w'))

  abbrev prepare_cluster : ℕ → Cluster → NodeAction (Unit {0})
  unfolding prepare_when_enough
  prepare_cluster now meta (cache, w) =
      on_cluster (prepare_when_enough now meta (length cache)) (cache, w)

  -- The node is in the cache whatever the update returns.
  abbrev cache_node : ℕ → Cluster → RegisteredNode → NodeAction (Unit {0})
  unfolding update_shard_nodes
  cache_node now meta n (cache, w) =
      let (r, w') = update_shard_nodes now meta (lookup n.node.name cache) n w in
      (r, (insert n.node.name n cache, w'))

  unfoldable pub register_node : ℕ → Cluster → RegisteredNode → NodeAction (Unit {0})
  unfolding prepare_when_enough update_shard_nodes
  register_node now meta n = do
    on_cluster (store_node meta.id (with_online n).node)
    prepare_cluster now meta
    cache_node now meta (with_online n)
