-- ===== src/Topology/Update.antt =====
-- The methods of topology_manager.go that change the storage and the memory.
use ceresmeta.Storage.{
  ClusterState, empty, ShardNode, new_cluster_view, Table, ShardView, new_shard_view, Storage,
}
use ceresmeta.Topology.{
  TopologyManagerImpl, CreateShardView, map_tables, map_nodes, set_cluster_view, set_shard_views,
}
use ceresmeta.Common.{
  ltb, if◌then◌else◌, u64, ◌==◌, nat_eq, length, take, get_elem?, set, Map, lookup, insert, delete,
  Result, ok, Exec, ◌>>=◌, ◌>>◌, need, ℕ, zero, suc, ◌+◌, ◌-◌, Bool, false, ◌&&◌, ◌||◌, Option,
  none, some, List, [], ◌∷◌, ◌++◌, map, shard_not_found, Bytes, text_eq, panicked,
}

-- The loops of `RemoveTable`: an element is kept once for each id to remove that is another.
unfoldable pub kept_for : ℕ → List ℕ → List ℕ
kept_for t [] = []
kept_for t (d ∷ ds) = let rest = kept_for t ds in if t == d then rest else t ∷ rest

unfoldable pub kept_tables : List ℕ → List ℕ → List ℕ
unfolding kept_for
kept_tables [] ds = []
kept_tables (t ∷ ts) ds = kept_for t ds ++ kept_tables ts ds

unfoldable pub delete_tables : List ℕ → Map ℕ (List ℕ) → Map ℕ (List ℕ)
unfolding delete
delete_tables [] m = m
delete_tables (d ∷ ds) m = delete_tables ds (delete d m)

-- The last loop of `RemoveTable` writes to the array behind the slice: `a` is the array, `len` the
-- length of the slice. An index past the length is a panic.
unfoldable pub compact_element : List ℕ → ℕ → ℕ → List ℕ → ℕ → Option (List ℕ × ℕ)
compact_element [] v i a len = some (a, len)
compact_element (d ∷ ds) v i a len =
    let skipped = compact_element ds v i a len in
    let moved : Option (List ℕ × ℕ) = elim (get_elem? a (len - 1)) [
      | none ↦ none
      | some last ↦ compact_element ds v i (set a i last) (len - 1)
    ] in
    if d == v then (if ltb i len then moved else none) else skipped

-- The rounds left, from the index `i`: as many as the slice was long.
unfoldable pub compact_from : List ℕ → ℕ → ℕ → List ℕ → ℕ → Option (List ℕ)
unfolding compact_element
compact_from ds zero i a len = some (take len a)
compact_from ds (suc rounds) i a len = elim (get_elem? a i) [
  | none ↦ none
  | some v ↦ elim (compact_element ds v i a len) [
    | none ↦ none
    | some (a', len') ↦ compact_from ds rounds (i + 1) a' len'
  ]
]

unfoldable pub compact : List ℕ → List ℕ → Option (List ℕ)
unfolding compact_from
compact ds ts = compact_from ds (length ts) 0 ts (length ts)

-- `contains`
unfoldable pub contains : List ShardNode → ShardNode → Bool
contains [] n = false
contains (d ∷ ds) n = (n.node_name == d.node_name && n.id == d.id) || contains ds n

unfoldable pub without_nodes : List ShardNode → List ShardNode → List ShardNode
unfolding contains
without_nodes ds [] = []
without_nodes ds (n ∷ ns) =
    let rest = without_nodes ds ns in if contains ds n then rest else n ∷ rest

-- The nodes given, and those of other node names.
unfoldable pub join_nodes : Map Bytes (List ShardNode) → List ShardNode
join_nodes [] = []
join_nodes ((name, ns) ∷ m) = ns ++ join_nodes m

unfoldable pub nodes_of_others : Map Bytes (List ShardNode) → List ShardNode → List ShardNode
unfolding lookup
nodes_of_others m [] = []
nodes_of_others m (n ∷ ns) =
    let rest = nodes_of_others m ns in
    elim (lookup n.node_name m) [ none ↦ n ∷ rest | some _ ↦ rest ]

abbrev shard_view_of : ℕ → CreateShardView → ShardView
shard_view_of now v = new_shard_view now v.shard_id 0 v.tables

module _ (s : Storage) where
  abbrev pub Action : Type 0 → Type 0
  Action A = Exec (TopologyManagerImpl × s.State) A

  -- A call of the storage.
  abbrev pub on_storage : {A : Type 0} → (s.State → Result A × s.State) → Action A
  on_storage f (m, t) = let (r, t') = f t in (r, (m, t'))

  abbrev pub memory : Action TopologyManagerImpl
  memory (m, t) = (ok m, (m, t))

  abbrev pub set_memory : TopologyManagerImpl → Action (Unit {0})
  set_memory m' (m, t) = (ok tt, (m', t))

  unfoldable pub add_table : ℕ → ℕ → ℕ → List Table → Action (Unit {0})
  unfolding new_shard_view lookup insert map_tables
  add_table now shard_id latest_version tables = do
    m ← memory
    view ← need shard_not_found (lookup shard_id m.shard_tables_mapping)
    let ids = map (λ t. t.id) tables
    let view' = new_shard_view now shard_id latest_version (view.table_ids ++ ids)
    on_storage (s.update_shard_view m.cluster_id view' view.version)
    set_memory (record m {
      shard_tables_mapping = insert shard_id view' m.shard_tables_mapping;
      table_shard_mapping = map_tables shard_id ids m.table_shard_mapping;
    })

  -- The memory after the writes of `RemoveTable`, with the table ids of the shard.
  abbrev pub removed :
      ℕ → ℕ → ShardView → List ℕ → List ℕ → TopologyManagerImpl → TopologyManagerImpl
  removed shard_id latest_version view ds ts m = record m {
    shard_tables_mapping =
        insert shard_id (record view { version = latest_version; table_ids = ts })
          m.shard_tables_mapping;
    table_shard_mapping = delete_tables ds m.table_shard_mapping;
  }

  unfoldable pub remove_table : ℕ → ℕ → ℕ → List ℕ → Action (Unit {0})
  unfolding new_shard_view lookup insert
  remove_table now shard_id latest_version ds = do
    m ← memory
    view ← need shard_not_found (lookup shard_id m.shard_tables_mapping)
    let ts = kept_tables view.table_ids ds
    on_storage (
        s.update_shard_view m.cluster_id (new_shard_view now view.shard_id latest_version ts)
          view.version)
    set_memory (removed shard_id latest_version view ds ts m)
    ts' ← need panicked (compact ds ts)
    set_memory (removed shard_id latest_version view ds ts' m)

  unfoldable pub load_cluster_view : Action (Unit {0})
  load_cluster_view = do
    m ← memory
    v ← on_storage (s.get_cluster_view m.cluster_id)
    set_memory (set_cluster_view v m)

  unfoldable pub load_shard_views : Action (Unit {0})
  load_shard_views = do
    m ← memory
    vs ← on_storage (s.list_shard_views m.cluster_id)
    set_memory (set_shard_views vs m)

  unfoldable pub load_nodes : Action (Unit {0})
  unfolding map_nodes
  load_nodes = do
    m ← memory
    ns ← on_storage (s.list_nodes m.cluster_id)
    set_memory (record m { nodes = map_nodes ns [] })

  unfoldable pub load : Action (Unit {0})
  load = do load_cluster_view; load_shard_views; load_nodes

  unfoldable pub update_cluster_view_with_lock :
      ℕ → ClusterState → List ShardNode → Action (Unit {0})
  unfolding new_cluster_view
  update_cluster_view_with_lock now state nodes = do
    m ← memory
    view ← need panicked m.cluster_view
    on_storage (
        s.update_cluster_view m.cluster_id
          (new_cluster_view now m.cluster_id (u64 (view.version + 1)) state nodes) view.version)
    load_cluster_view

  unfoldable pub update_cluster_view : ℕ → ClusterState → List ShardNode → Action (Unit {0})
  update_cluster_view now state nodes = update_cluster_view_with_lock now state nodes

  unfoldable pub drop_shard_nodes : ℕ → List ShardNode → Action (Unit {0})
  drop_shard_nodes now ds = do
    m ← memory
    view ← need panicked m.cluster_view
    update_cluster_view_with_lock now view.state (without_nodes ds view.shard_nodes)

  unfoldable pub update_cluster_view_by_node : ℕ → Map Bytes (List ShardNode) → Action (Unit {0})
  update_cluster_view_by_node now by_node = do
    m ← memory
    view ← need panicked m.cluster_view
    update_cluster_view_with_lock now view.state
        (join_nodes by_node ++ nodes_of_others by_node view.shard_nodes)

  unfoldable pub init_cluster_view : ℕ → Action (Unit {0})
  unfolding new_cluster_view
  init_cluster_view now = do
    m ← memory
    on_storage (s.create_cluster_view (new_cluster_view now m.cluster_id 0 empty []))
    load_cluster_view

  unfoldable pub create_shard_views : ℕ → List CreateShardView → Action (Unit {0})
  unfolding new_shard_view
  create_shard_views now views = do
    m ← memory
    on_storage (s.create_shard_views m.cluster_id (map (shard_view_of now) views))
    load_shard_views

  unfoldable pub update_shard_version_with_expect : ℕ → ℕ → ℕ → ℕ → Action (Unit {0})
  unfolding new_shard_view lookup insert
  update_shard_version_with_expect now shard_id version expect = do
    m ← memory
    view ← need shard_not_found (lookup shard_id m.shard_tables_mapping)
    let view' = new_shard_view now shard_id version view.table_ids
    on_storage (s.update_shard_view m.cluster_id view' expect)
    set_memory (record m { shard_tables_mapping = insert shard_id view' m.shard_tables_mapping })
