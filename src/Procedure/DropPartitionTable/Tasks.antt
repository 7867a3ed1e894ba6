-- ===== src/Procedure/DropPartitionTable/Tasks.antt =====
-- `dispatchDropDataTable` of drop_partition_table.go: a goroutine for each shard, which drops its
-- tables one after the other, and the wait for all of them. The goroutines take their steps in the
-- order of a schedule.
use ceresmeta.Storage.{Table, Storage}
use ceresmeta.TableManager.{IdAllocator}
use ceresmeta.ClusterMetadata.{drop_table}
use ceresmeta.Procedure.Calls.{Dispatch}
use ceresmeta.Procedure.Ddl.{or_zero, Both, on_cluster, get_table_metadata, drop_table_on_shard}
use ceresmeta.Common.{
  if◌then◌else◌, u64, nat_eq, get_elem?, set, Map, lookup, Error, Result, ok, err, Exec, pure,
  ◌>>=◌, ◌>>◌, ℕ, ◌+◌, Bool, true, false, Option, none, some, List, [], ◌∷◌, Bytes, out_of_fuel,
}

-- Where a goroutine stands with the first of its tables.
pub data Stage : Type 0 where
  waiting : Stage
  found : Table → Stage
  dispatched : ℕ → Stage

pub record Task : Type 0 where
  pub shard_id : ℕ
  pub version : ℕ
  pub names : List Bytes
  pub stage : Stage

abbrev pub task_of : Map ℕ ℕ → ℕ × List Bytes → Task
task_of versions (k, ns) = record {
  shard_id = k;
  version = or_zero (lookup k versions);
  names = ns;
  stage = waiting;
}

unfoldable pub all_finished : List Task → Bool
all_finished [] = true
all_finished (t ∷ ts) = elim t.names [ [] ↦ all_finished ts | n ∷ ns ↦ false ]

abbrev pub after_first : List Bytes → List Bytes
after_first [] = []
after_first (n ∷ ns) = ns

-- `errOnce` of the group: its first error is kept.
abbrev pub keep_first : Option Error → Error → Option Error
keep_first none e = some e
keep_first (some x) e = some x

abbrev pub wait_result : Option Error → Result (Unit {0})
wait_result none = ok tt
wait_result (some e) = err e

module _ (s : Storage) (sa ta : IdAllocator) (d : Dispatch) (schema_name : Bytes) where
  abbrev find_next : Task → List Bytes → Exec (Both s sa ta d) Task
  find_next t [] = pure t
  find_next t (n ∷ ns) = do
    tb ← get_table_metadata s sa ta d schema_name n
    pure (record t { stage = found tb })

  abbrev drop_next : ℕ → Task → ℕ → List Bytes → Exec (Both s sa ta d) Task
  drop_next now t v [] = pure t
  drop_next now t v (n ∷ ns) = do
    on_cluster s sa ta d (
        drop_table s sa ta now (record {
          schema_name = schema_name;
          table_name = n;
          shard_id = t.shard_id;
          latest_version = v;
        }))
    pure (record t { version = u64 (t.version + 1); names = ns; stage = waiting })

  abbrev step_at : ℕ → Task → Stage → Exec (Both s sa ta d) Task
  step_at now t waiting = find_next t t.names
  step_at now t (found tb) = do
    v ←
        drop_table_on_shard s sa ta d schema_name tb
          (record { shard_id = t.shard_id; latest_version = t.version })
    pure (record t { stage = dispatched v })
  step_at now t (dispatched v) = drop_next now t v t.names

  unfoldable pub step : ℕ → Task → Exec (Both s sa ta d) Task
  step now t = step_at now t t.stage

  -- A goroutine that has failed is finished, the others go on. A schedule that ends before the
  -- goroutines do leaves the callback waiting.
  unfoldable pub run_tasks :
      List (ℕ × ℕ) → List Task → Option Error → Exec (Both s sa ta d) (Unit {0})
  run_tasks [] ts first w = ((if all_finished ts then wait_result first else err out_of_fuel), w)
  run_tasks ((i, now) ∷ schedule) ts first w = elim (get_elem? ts i) [
    | none ↦ run_tasks schedule ts first w
    | some t ↦
        let (r, w') = step now t w in
        elim r [
          | ok t' ↦ run_tasks schedule (set ts i t') first w'
          | err e ↦ run_tasks schedule (set ts i (record t { names = [] })) (keep_first first e) w'
        ]
  ]
