-- ===== src/Procedure/CreatePartitionTable.antt =====
-- server/coordinator/procedure/ddl/createpartitiontable/create_partition_table.go.
pub mod Tasks
pub mod Pending
pub mod Steps
pub mod Laws
pub mod SubTables
mod Tests
use ceresmeta.Storage.{Table, Storage}
use ceresmeta.Topology.{Topology, or_nil, append_at}
use ceresmeta.TableManager.{IdAllocator}
use ceresmeta.ClusterMetadata.{ShardVersionUpdate, create_table_metadata}
use ceresmeta.ClusterMetadata.Routes.{ShardNodeWithVersion}
use ceresmeta.Procedure.{
  Procedure, Kind, kind_create_partition_table, State, state_init, Priority, priority_low,
  RelatedVersionInfo,
}
use ceresmeta.Procedure.Calls.{Dispatch, Meta, ProcedureStorage}
use ceresmeta.Procedure.Ddl.{
  CreateTableReq, get_partition_info, get_sub_table_names, Observer, or_zero, zero_update, Both,
  on_cluster,
}
use ceresmeta.Procedure.CreatePartitionTable.Tasks.{Task, task_of, run_tasks}
use ceresmeta.Procedure.Fsm.{Fsm, Run, Machine}
use ceresmeta.Procedure.Fsm as Loop
use ceresmeta.Common.{
  if◌then◌else◌, ◌==◌, nat_eq, length, Map, lookup, insert, Error, Result, ok, err, Exec, raise,
  ◌>>=◌, ◌>>◌, ℕ, Option, none, some, List, [], ◌∷◌, map, shard_not_found, Bytes, text_eq, panicked,
  encode_failed,
}

pub data FsmState : Type 0 where
  begin create_partition_table create_sub_tables finish : FsmState

pub data Event : Type 0 where
  event_create_partition_table event_create_sub_tables event_finish : Event

unfoldable pub create_partition_table_events : Event → FsmState → Option FsmState
create_partition_table_events event_create_partition_table begin = some create_partition_table
create_partition_table_events event_create_sub_tables create_partition_table =
    some create_sub_tables
create_partition_table_events event_finish create_sub_tables = some finish
create_partition_table_events _ _ = none

pub record Params : Type 0 where
  pub id : ℕ
  pub topology : Topology
  pub source_req : CreateTableReq
  pub sub_tables_shards : List ShardNodeWithVersion

pub record RawData : Type 0 where
  pub id : ℕ
  pub fsm_state : FsmState
  pub state : State
  pub sub_tables_shards : List ShardNodeWithVersion

-- The loop of `buildRelatedVersionInfo`.
unfoldable pub shard_versions_of : Topology → List ShardNodeWithVersion → Map ℕ ℕ → Result (Map ℕ ℕ)
shard_versions_of t [] m = ok m
shard_versions_of t (x ∷ xs) m = elim (lookup x.shard_info.id t.shard_views_mapping) [
  | none ↦ err shard_not_found
  | some v ↦ shard_versions_of t xs (insert v.shard_id v.version m)
]

unfoldable pub build_related_version_info : Params → Result RelatedVersionInfo
unfolding shard_versions_of
build_related_version_info p = elim (shard_versions_of p.topology p.sub_tables_shards []) [
  | err x ↦ err x
  | ok m ↦ ok (record {
    cluster_id = p.topology.cluster_view.cluster_id;
    shard_with_version = m;
    cluster_version = p.topology.cluster_view.version;
  })
]

pub record CreatePartitionTable : Type 0 where
  pub params : Params
  pub related_version_info : RelatedVersionInfo
  pub state : State

unfoldable pub new_procedure : Params → Result CreatePartitionTable
unfolding build_related_version_info
new_procedure p = elim (build_related_version_info p) [
  | err x ↦ err x
  | ok v ↦ ok (record { params = p; related_version_info = v; state = state_init })
]

abbrev pub to_procedure : CreatePartitionTable → ceresmeta.Procedure.Procedure
to_procedure t = record {
  id = t.params.id;
  kind = kind_create_partition_table;
  priority = priority_low;
  related_version_info = t.related_version_info;
}

-- The names of the sub tables by shard.
unfoldable pub group_names :
    List ShardNodeWithVersion → List Bytes → Map ℕ (List Bytes) → Map ℕ (List Bytes)
group_names (x ∷ xs) (n ∷ ns) m = group_names xs ns (append_at x.shard_info.id n m)
group_names [] ns m = m
group_names (x ∷ xs) [] m = m

module _ (s : Storage) (sa ta : IdAllocator) (d : Dispatch)
    (o : Observer (Table × ShardVersionUpdate)) (ps : ProcedureStorage)
    (marshal : RawData → Result Bytes) where
  -- Beside the cluster and the nodes: the one who submitted, `createPartitionTableResult`, and the
  -- stored procedures.
  abbrev pub Whole : Type 0
  Whole = Both s sa ta d × ((o.State × Option Table) × ps.Stored)

  abbrev pub on_both : {A : Type 0} → Exec (Both s sa ta d) A → Exec Whole A
  on_both f (b, x) = let (r, b') = f b in (r, (b', x))

  abbrev pub on_storage : {A : Type 0} → Exec ps.Stored A → Exec Whole A
  on_storage f (b, (x, y)) = let (r, y') = f y in (r, (b, (x, y')))

  abbrev set_result : Table → Exec Whole (Unit {0})
  set_result t (b, ((x, y), z)) = (ok tt, (b, ((x, some t), z)))

  abbrev pub tell_failed : Error → Whole → Whole
  tell_failed e (b, ((x, y), z)) = (b, (((o.on_failed (some e) x).1, y), z))

  abbrev pub tell_succeeded : Table → Exec Whole (Unit {0})
  tell_succeeded t (b, ((x, y), z)) =
      let (r, x') = o.on_succeeded (t, zero_update) x in (r, (b, ((x', y), z)))

  unfoldable pub convert_to_meta : Params → FsmState → State → Result Meta
  convert_to_meta p f state =
      elim (marshal (record {
        id = p.id;
        fsm_state = f;
        state = state;
        sub_tables_shards = p.sub_tables_shards;
      })) [
        | err x ↦ err encode_failed
        | ok b ↦
            ok (record {
              id = p.id;
              kind = kind_create_partition_table;
              state = state;
              raw_data = b;
            })
      ]

  unfoldable pub persist : Params → FsmState → State → Exec Whole (Unit {0})
  persist p f state w = elim (convert_to_meta p f state) [
    | err x ↦ (err x, w)
    | ok m ↦ on_storage (ps.create_or_update m) w
  ]

  -- The goroutines of the second callback run as `schedule` says, each step at its time.
  module _ (now : ℕ) (schedule : List (ℕ × ℕ)) (p : CreatePartitionTable) where
    abbrev req : CreateTableReq
    req = p.params.source_req

    unfoldable pub create_partition_table_callback : Exec Whole (Unit {0})
    create_partition_table_callback = do
      t ← on_both (
          on_cluster s sa ta d (
            create_table_metadata s sa ta now req.schema_name req.name
              (get_partition_info req.partition_table_info)))
      set_result t

    abbrev pub tasks : List Task
    tasks =
        map (task_of p.related_version_info.shard_with_version)
          (group_names p.params.sub_tables_shards (get_sub_table_names req.partition_table_info) [])

    -- Other numbers of shards and names are a panic.
    unfoldable pub create_data_tables_callback : Exec Whole (Unit {0})
    create_data_tables_callback =
        if length p.params.sub_tables_shards
          == length (get_sub_table_names req.partition_table_info)
        then on_both (run_tasks s sa ta d req schedule tasks)
        else raise panicked

    unfoldable pub finish_callback : Exec Whole (Unit {0})
    finish_callback w = elim w.1.0.1 [ none ↦ (err panicked, w) | some t ↦ tell_succeeded t w ]

    unfoldable pub callbacks : Event → Exec Whole (Unit {0})
    callbacks event_create_partition_table = create_partition_table_callback
    callbacks event_create_sub_tables = create_data_tables_callback
    callbacks event_finish = finish_callback

    -- The cases of the loop of `Start`.
    abbrev pub switch : FsmState → Option Event
    switch begin = some event_create_partition_table
    switch create_partition_table = some event_create_sub_tables
    switch create_sub_tables = some event_finish
    switch finish = none

    abbrev pub machine : Machine Event FsmState Whole
    machine = record {
      events = create_partition_table_events;
      callbacks = callbacks;
      switch = switch;
      persist = persist p.params;
      on_failed = tell_failed;
    }

    unfoldable pub start : Fsm → Exec (Run FsmState Whole) (Unit {0})
    start f = Loop.start f machine 4
