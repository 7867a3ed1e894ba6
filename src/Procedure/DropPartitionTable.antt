-- ===== src/Procedure/DropPartitionTable.antt =====
-- server/coordinator/procedure/ddl/droppartitiontable/drop_partition_table.go.
pub mod Tasks
use ceresmeta.Storage.{Table, ShardView, Storage}
use ceresmeta.Topology.{Topology, append_at}
use ceresmeta.TableManager.{IdAllocator, TableManagerImpl, get_table}
use ceresmeta.ClusterMetadata.{drop_table_metadata}
use ceresmeta.ClusterMetadata.Routes.{TableInfo}
use ceresmeta.Procedure.{
  Procedure, Kind, kind_drop_partition_table, State, state_init, Priority, priority_med,
  RelatedVersionInfo,
}
use ceresmeta.Procedure.Calls.{Dispatch, Meta, ProcedureStorage}
use ceresmeta.Procedure.Ddl.{
  DropTableReq, get_sub_table_names, Observer, Both, on_cluster, get_table_metadata,
  build_shard_version_update,
}
use ceresmeta.Procedure.DropPartitionTable.Tasks.{Task, task_of, run_tasks}
use ceresmeta.Procedure.Fsm.{Fsm, Run, Machine}
use ceresmeta.Procedure.Fsm as Loop
use ceresmeta.Common.{
  nat_eq, Map, lookup, insert, Error, Result, ok, err, Exec, raise, ◌>>=◌, ◌>>◌, ℕ, Bool, true,
  false, Option, none, some, List, [], ◌∷◌, map, shard_not_found, Bytes, text_eq, panicked,
  encode_failed, empty_partition_names,
}

pub data FsmState : Type 0 where
  begin drop_data_table drop_partition_table finish : FsmState

pub data Event : Type 0 where
  event_drop_data_table event_drop_partition_table event_finish : Event

unfoldable pub drop_partition_table_events : Event → FsmState → Option FsmState
drop_partition_table_events event_drop_data_table begin = some drop_data_table
drop_partition_table_events event_drop_partition_table drop_data_table = some drop_partition_table
drop_partition_table_events event_finish drop_partition_table = some finish
drop_partition_table_events _ _ = none

pub record Params : Type 0 where
  pub id : ℕ
  pub topology : Topology
  pub source_req : DropTableReq

pub record RawData : Type 0 where
  pub id : ℕ
  pub fsm_state : FsmState
  pub state : State
  pub drop_table_request : DropTableReq

-- The first loops of `buildRelatedVersionInfo`.
unfoldable pub map_ids : ℕ → List ℕ → Map ℕ ℕ → Map ℕ ℕ
map_ids k [] m = m
map_ids k (t ∷ ts) m = map_ids k ts (insert t k m)

unfoldable pub table_shard_mapping : List (ℕ × ShardView) → Map ℕ ℕ → Map ℕ ℕ
unfolding map_ids
table_shard_mapping [] m = m
table_shard_mapping ((k, v) ∷ vs) m = table_shard_mapping vs (map_ids k v.table_ids m)

-- The version of the shard of one sub table: one that is not there, or is on no shard, is passed over.
abbrev version_of : Map ℕ ℕ → Map ℕ ShardView → Option Table → Map ℕ ℕ → Result (Map ℕ ℕ)
version_of shards views none m = ok m
version_of shards views (some t) m = elim (lookup t.id shards) [
  | none ↦ ok m
  | some k ↦ elim (lookup k views) [
    | none ↦ err shard_not_found
    | some v ↦ ok (insert k v.version m)
  ]
]

unfoldable pub versions_of :
    Bytes → TableManagerImpl → Map ℕ ℕ → Map ℕ ShardView → List Bytes → Map ℕ ℕ → Result (Map ℕ ℕ)
versions_of sn tm shards views [] m = ok m
versions_of sn tm shards views (n ∷ ns) m = elim (get_table sn n tm) [
  | err x ↦ err x
  | ok found ↦ elim (version_of shards views found m) [
    | err x ↦ err x
    | ok m' ↦ versions_of sn tm shards views ns m'
  ]
]

unfoldable pub build_related_version_info : Params → TableManagerImpl → Result RelatedVersionInfo
unfolding versions_of table_shard_mapping
build_related_version_info p tm =
    elim (versions_of p.source_req.schema_name tm
      (table_shard_mapping p.topology.shard_views_mapping []) p.topology.shard_views_mapping
      (get_sub_table_names p.source_req.partition_table_info) []) [
        | err x ↦ err x
        | ok m ↦ ok (record {
          cluster_id = p.topology.cluster_view.cluster_id;
          shard_with_version = m;
          cluster_version = p.topology.cluster_view.version;
        })
      ]

-- The state of a new procedure is the name of the first state of the state machine, which is none of
-- the states of a procedure.
pub record DropPartitionTable : Type 0 where
  pub params : Params
  pub related_version_info : RelatedVersionInfo
  pub state : FsmState

unfoldable pub new_procedure : Params → TableManagerImpl → Result DropPartitionTable
unfolding build_related_version_info
new_procedure p tm = elim (build_related_version_info p tm) [
  | err x ↦ err x
  | ok v ↦ ok (record { params = p; related_version_info = v; state = begin })
]

abbrev pub to_procedure : DropPartitionTable → ceresmeta.Procedure.Procedure
to_procedure t = record {
  id = t.params.id;
  kind = kind_drop_partition_table;
  priority = priority_med;
  related_version_info = t.related_version_info;
}

module _ (s : Storage) (sa ta : IdAllocator) (d : Dispatch) (o : Observer TableInfo)
    (ps : ProcedureStorage) (marshal : RawData → Result Bytes) where
  -- Beside the cluster and the nodes: the one who submitted, `table` of the request, and the stored
  -- procedures.
  abbrev pub Whole : Type 0
  Whole = Both s sa ta d × ((o.State × Option Table) × ps.Stored)

  abbrev pub on_both : {A : Type 0} → Exec (Both s sa ta d) A → Exec Whole A
  on_both f (b, x) = let (r, b') = f b in (r, (b', x))

  abbrev pub on_storage : {A : Type 0} → Exec ps.Stored A → Exec Whole A
  on_storage f (b, (x, y)) = let (r, y') = f y in (r, (b, (x, y')))

  abbrev pub set_table : Table → Exec Whole (Unit {0})
  set_table t (b, ((x, y), z)) = (ok tt, (b, ((x, some t), z)))

  abbrev pub tell_failed : Error → Whole → Whole
  tell_failed e (b, ((x, y), z)) = (b, (((o.on_failed (some e) x).1, y), z))

  abbrev pub tell_succeeded : TableInfo → Exec Whole (Unit {0})
  tell_succeeded t (b, ((x, y), z)) = let (r, x') = o.on_succeeded t x in (r, (b, ((x', y), z)))

  unfoldable pub convert_to_meta : Params → FsmState → State → Result Meta
  convert_to_meta p f state =
      elim (marshal
        (record { id = p.id; fsm_state = f; state = state; drop_table_request = p.source_req })) [
          | err x ↦ err encode_failed
          | ok b ↦
              ok (record {
                id = p.id;
                kind = kind_drop_partition_table;
                state = state;
                raw_data = b;
              })
        ]

  unfoldable pub persist : Params → FsmState → State → Exec Whole (Unit {0})
  persist p f state w = elim (convert_to_meta p f state) [
    | err x ↦ (err x, w)
    | ok m ↦ on_storage (ps.create_or_update m) w
  ]

  module _ (schedule : List (ℕ × ℕ)) (p : DropPartitionTable) where
    abbrev pub req : DropTableReq
    req = p.params.source_req

    -- The metadata of a table with no shard is dropped at once.
    abbrev group_one :
        Bytes
        → (Map ℕ (List Bytes) → Exec (Both s sa ta d) (Map ℕ (List Bytes)))
        → Map ℕ (List Bytes)
        → ceresmeta.ClusterMetadata.ShardVersionUpdate × Bool
        → Exec (Both s sa ta d) (Map ℕ (List Bytes))
    group_one n next m (u, false) = do
      on_cluster s sa ta d (drop_table_metadata s sa ta req.schema_name n)
      next m
    group_one n next m (u, true) = next (append_at u.shard_id n m)

    -- The loop of `dropDataTablesCallback`: a table that cannot be read is passed over.
    unfoldable pub group_tables :
        List Bytes → Map ℕ (List Bytes) → Exec (Both s sa ta d) (Map ℕ (List Bytes))
    group_tables [] m w = (ok m, w)
    group_tables (n ∷ ns) m w =
        let (r, w') = get_table_metadata s sa ta d req.schema_name n w in
        elim r [
          | err x ↦ group_tables ns m w'
          | ok t ↦
              (build_shard_version_update s sa ta d t p.related_version_info.shard_with_version
                  >>= group_one n (λ m'. group_tables ns m') m)
                w'
        ]

    abbrev drop_names : List Bytes → Exec (Both s sa ta d) (Unit {0})
    drop_names [] = raise empty_partition_names
    drop_names (n ∷ ns) = do
      m ← group_tables (n ∷ ns) []
      run_tasks s sa ta d req.schema_name schedule
          (map (task_of p.related_version_info.shard_with_version) m) none

    -- A message without partitions is a nil dereference.
    unfoldable pub drop_data_tables_callback : Exec Whole (Unit {0})
    drop_data_tables_callback = elim req.partition_table_info [
      | none ↦ raise panicked
      | some i ↦ on_both (drop_names i.sub_table_names)
    ]

    unfoldable pub drop_partition_table_callback : Exec Whole (Unit {0})
    drop_partition_table_callback = do
      t ← on_both (on_cluster s sa ta d (drop_table_metadata s sa ta req.schema_name req.name))
      set_table t

    abbrev pub table_info : Table → TableInfo
    table_info t = record {
      id = t.id;
      name = t.name;
      schema_id = t.schema_id;
      schema_name = req.schema_name;
      partition_info = none;
      created_at = 0;
    }

    unfoldable pub finish_callback : Exec Whole (Unit {0})
    finish_callback w = elim w.1.0.1 [
      | none ↦ (err panicked, w)
      | some t ↦ tell_succeeded (table_info t) w
    ]

    unfoldable pub callbacks : Event → Exec Whole (Unit {0})
    callbacks event_drop_data_table = drop_data_tables_callback
    callbacks event_drop_partition_table = drop_partition_table_callback
    callbacks event_finish = finish_callback

    -- The cases of the loop of `Start`.
    abbrev pub switch : FsmState → Option Event
    switch begin = some event_drop_data_table
    switch drop_data_table = some event_drop_partition_table
    switch drop_partition_table = some event_finish
    switch finish = none

    abbrev pub machine : Machine Event FsmState Whole
    machine = record {
      events = drop_partition_table_events;
      callbacks = callbacks;
      switch = switch;
      persist = persist p.params;
      on_failed = tell_failed;
    }

    unfoldable pub start : Fsm → Exec (Run FsmState Whole) (Unit {0})
    start f = Loop.start f machine 4
