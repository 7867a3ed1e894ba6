-- ===== src/Procedure/CreatePartitionTable/Tasks.antt =====
-- `createDataTables` of create_partition_table.go: a goroutine for each shard, which creates its tables
-- one after the other, and the wait for all of them. The goroutines take their steps in the order of a
-- schedule. What they still do after the first error has been received is not modelled.
use ceresmeta.Storage.{Table, Storage}
use ceresmeta.TableManager.{IdAllocator}
use ceresmeta.ClusterMetadata.{create_table_metadata, add_table_topology}
use ceresmeta.Procedure.Calls.{Dispatch}
use ceresmeta.Procedure.Ddl.{
  CreateTableReq, build_create_table_request, or_zero, Both, on_cluster, create_table_on_shard,
}
use ceresmeta.Common.{
  if◌then◌else◌, u64, nat_eq, get_elem?, set, Map, lookup, ok, err, Exec, pure, ◌>>=◌, ◌>>◌, ℕ, ◌+◌,
  Bool, true, false, ◌&&◌, none, some, List, [], ◌∷◌, Bytes, out_of_fuel,
}

-- Where a goroutine stands with the first of its tables.
pub data Stage : Type 0 where
  waiting : Stage
  created : Table → Stage
  dispatched : Table → ℕ → Stage

pub record Task : Type 0 where
  pub shard_id : ℕ
  pub version : ℕ
  pub names : List Bytes
  pub stage : Stage

abbrev pub task_of : Map ℕ ℕ → ℕ × List Bytes → Task
task_of versions (k, ns) = record {
  shard_id = k;
  version = or_zero (lookup k versions);
  names = ns;
  stage = waiting;
}

abbrev pub is_finished : Task → Bool
is_finished t = elim t.names [ [] ↦ true | n ∷ ns ↦ false ]

-- `goRoutineNumber` reaches zero only by a message.
unfoldable pub all_finished : List Task → Bool
all_finished [] = true
all_finished (t ∷ ts) = is_finished t && all_finished ts

abbrev pub has_returned : List Task → Bool
has_returned [] = false
has_returned (t ∷ ts) = all_finished (t ∷ ts)

abbrev pub after_first : List Bytes → List Bytes
after_first [] = []
after_first (n ∷ ns) = ns

module _ (s : Storage) (sa ta : IdAllocator) (d : Dispatch) (req : CreateTableReq) where
  abbrev pub create_next : ℕ → Task → List Bytes → Exec (Both s sa ta d) Task
  create_next now t [] = pure t
  create_next now t (n ∷ ns) = do
    tb ← on_cluster s sa ta d (create_table_metadata s sa ta now req.schema_name n none)
    pure (record t { stage = created tb })

  abbrev pub step_at : ℕ → Task → Stage → Exec (Both s sa ta d) Task
  step_at now t waiting = create_next now t t.names
  step_at now t (created tb) = do
    v ← create_table_on_shard s sa ta d t.shard_id (
        build_create_table_request tb (record { shard_id = t.shard_id; latest_version = t.version })
          req)
    pure (record t { stage = dispatched tb v })
  step_at now t (dispatched tb v) = do
    on_cluster s sa ta d
        (add_table_topology s sa ta now (record { shard_id = t.shard_id; latest_version = v }) tb)
    pure (record t { version = u64 (t.version + 1); names = after_first t.names; stage = waiting })

  unfoldable pub step : ℕ → Task → Exec (Both s sa ta d) Task
  step now t = step_at now t t.stage

  -- A schedule that ends before the goroutines do leaves the callback waiting.
  unfoldable pub run_tasks : List (ℕ × ℕ) → List Task → Exec (Both s sa ta d) (Unit {0})
  run_tasks [] ts w = ((if has_returned ts then ok tt else err out_of_fuel), w)
  run_tasks ((i, now) ∷ schedule) ts w = elim (get_elem? ts i) [
    | none ↦ run_tasks schedule ts w
    | some t ↦ (step now t >>= λ t'. run_tasks schedule (set ts i t')) w
  ]
