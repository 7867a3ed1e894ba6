-- ===== src/Procedure/Manager.antt =====
-- server/coordinator/procedure/manager_impl.go.
pub mod Rounds
use ceresmeta.EntryLock.{EntryLock, new_entry_lock, try_lock, unlock}
use ceresmeta.Storage.{ShardView}
use ceresmeta.Procedure.{
  Procedure, State, state_init, state_running, state_finished, state_failed, state_cancelled, Kind,
}
use ceresmeta.Procedure.Queue.{DelayQueue, new_procedure_delay_queue, push, pop}
use ceresmeta.Common.{
  if◌then◌else◌, ◌==◌, nat_eq, elem, Map, lookup, insert, delete, Error, Result, ok, err, Exec, ℕ,
  zero, suc, Bool, true, false, ◌&&◌, not, Option, none, some, List, [], ◌∷◌, ◌++◌, out_of_fuel,
}

-- `ManagerImpl`; the channel only wakes the loop of promotions.
pub record ManagerImpl : Type 0 where
  pub procedure_shard_lock : EntryLock
  pub waiting_procedures : DelayQueue
  pub running : Bool
  pub running_procedures : Map ℕ Procedure

abbrev default_waiting_queue_len : ℕ
default_waiting_queue_len = 1000

-- In milliseconds.
abbrev pub default_waiting_queue_delay : ℕ
default_waiting_queue_delay = 500

unfoldable pub new_manager_impl : ManagerImpl
unfolding new_procedure_delay_queue
new_manager_impl = record {
  procedure_shard_lock = new_entry_lock;
  waiting_procedures = new_procedure_delay_queue default_waiting_queue_len;
  running = false;
  running_procedures = [];
}

-- The keys of a map, each once.
unfoldable pub keys : {A : Type 0} → Map ℕ A → List ℕ
keys [] = []
keys ((k, v) ∷ m) = let rest = keys m in if elem k rest then rest else k ∷ rest

abbrev pub shard_ids : Procedure → List ℕ
shard_ids p = keys p.related_version_info.shard_with_version

unfoldable pub start : ManagerImpl → ManagerImpl
start m = record m { running = true }

abbrev is_running : State → Bool
is_running state_running = true
is_running _ = false

-- `Stop`, over the states and the results of cancelling.
unfoldable pub stop_loop :
    (Procedure → State)
    → (Procedure → Result (Unit {0}))
    → List (ℕ × Procedure)
    → Option (Result (Unit {0}))
stop_loop state cancel [] = none
stop_loop state cancel ((k, p) ∷ ps) =
    let rest = stop_loop state cancel ps in if is_running (state p) then some (cancel p) else rest

unfoldable pub stop :
    (Procedure → State)
    → (Procedure → Result (Unit {0}))
    → ManagerImpl
    → Result (Unit {0}) × ManagerImpl
unfolding stop_loop
stop state cancel m = elim (stop_loop state cancel m.running_procedures) [
  | some r ↦ (r, m)
  | none ↦ (ok tt, record m { running = false })
]

unfoldable pub submit : ℕ → Procedure → ManagerImpl → Result (Unit {0}) × ManagerImpl
submit now p m =
    let (r, q) = push now p 0 m.waiting_procedures in (r, record m { waiting_procedures = q })

pub record Info : Type 0 where
  pub id : ℕ
  pub kind : Kind
  pub state : State

unfoldable pub list_running_procedure : (Procedure → State) → List (ℕ × Procedure) → List Info
list_running_procedure state [] = []
list_running_procedure state ((k, p) ∷ ps) =
    let rest = list_running_procedure state ps in
    let info : Info = record { id = p.id; kind = p.kind; state = state p } in
    if is_running (state p) then info ∷ rest else rest

-- `checkValid`: what the current topology has of each shard.
abbrev same_versions : List (ℕ × ℕ) → Map ℕ ShardView → Bool
unfolding lookup
same_versions [] views = true
same_versions ((k, version) ∷ ks) views =
    let rest = same_versions ks views in
    elim (lookup k views) [ none ↦ false | some v ↦ if v.version == version then rest else false ]

unfoldable pub check_valid : ℕ → Map ℕ ShardView → Procedure → Bool
unfolding lookup
check_valid cluster_version views p =
    p.related_version_info.cluster_version == cluster_version
    && same_versions p.related_version_info.shard_with_version views

-- What a round of the loop of `promoteProcedure` comes to.
pub data Round : Type 0 where
  done : Round
  again : List Procedure → Round
  failed : Error → Round

-- One round, with the procedures that are ready so far.
unfoldable pub promote_one :
    (Procedure → Bool) → ℕ → List Procedure → ManagerImpl → Round × ManagerImpl
promote_one valid now ready m =
    let (popped, q) = pop now m.waiting_procedures in
    elim popped [
      | none ↦ (done, record m { waiting_procedures = q })
      | some p ↦
          let (granted, locks) = try_lock (shard_ids p) m.procedure_shard_lock in
          let (r, q') = push now p default_waiting_queue_delay q in
          let back : Round = elim r [ ok _ ↦ again ready | err x ↦ failed x ] in
          if not (valid p)
          then (again ready, record m { waiting_procedures = q })
          else if granted
          then (
            again (ready ++ p ∷ []),
            record m { waiting_procedures = q; procedure_shard_lock = locks },
          )
          else (back, record m { waiting_procedures = q'; procedure_shard_lock = locks })
    ]

-- `promoteProcedure`: the procedures that are ready, whose shards are locked.
unfoldable pub promote_procedure :
    (Procedure → Bool) → ℕ → ℕ → List Procedure → Exec ManagerImpl (List Procedure)
promote_procedure valid zero now ready m = (err out_of_fuel, m)
promote_procedure valid (suc rounds) now ready m =
    let (round, m') = promote_one valid now ready m in
    elim round [
      | done ↦ (ok ready, m')
      | failed x ↦ (err x, m')
      | again ready' ↦ promote_procedure valid rounds now ready' m'
    ]

unfoldable pub run_shards : Procedure → List ℕ → Map ℕ Procedure → Map ℕ Procedure
unfolding insert
run_shards p [] running = running
run_shards p (k ∷ ks) running = run_shards p ks (insert k p running)

-- The loop of `startProcedurePromoteInternal` over the new procedures.
unfoldable pub run_all : List Procedure → Map ℕ Procedure → Map ℕ Procedure
unfolding run_shards
run_all [] running = running
run_all (p ∷ ps) running = run_all ps (run_shards p (shard_ids p) running)

unfoldable pub publish : List Procedure → ManagerImpl → ManagerImpl
unfolding run_all
publish ready m = record m { running_procedures = run_all ready m.running_procedures }

-- A round of the loop at the end of a worker in `startProcedureWorker`; `none` is the panic of the lock.
unfoldable pub release_shard : ℕ → ManagerImpl → Option ManagerImpl
unfolding delete
release_shard k m = elim (unlock (k ∷ []) m.procedure_shard_lock) [
  | none ↦ none
  | some locks ↦ some (record m {
    running_procedures = delete k m.running_procedures;
    procedure_shard_lock = locks;
  })
]

-- `startProcedurePromoteInternal`: the procedures whose workers are started; an error is logged.
unfoldable pub start_procedure_promote_internal :
    (Procedure → Bool) → ℕ → ℕ → ManagerImpl → List Procedure × ManagerImpl
unfolding promote_procedure publish
start_procedure_promote_internal valid rounds now m =
    let (r, m') = promote_procedure valid rounds now [] m in
    elim r [ err x ↦ ([], m') | ok ready ↦ (ready, publish ready m') ]
