-- ===== src/Procedure/System.antt =====
-- The manager of manager_impl.go with its goroutines: the loop of promotions, whose rounds others may
-- come between, and one worker for each procedure that was started, which releases its shards one by one.
pub mod Exclusive
use ceresmeta.EntryLock.{EntryLock, held, try_lock, unlock}
use ceresmeta.Procedure.{Procedure}
use ceresmeta.Procedure.Queue.{DelayQueue, push, pop}
use ceresmeta.Procedure.Manager.{
  ManagerImpl, default_waiting_queue_delay, keys, shard_ids, submit, Round, done, again, failed,
  promote_one, publish, release_shard,
}
use ceresmeta.Common.{
  if◌then◌else◌, ◌==◌, nat_eq, drop, ℕ, zero, suc, ◌+◌, ◌≤◌, Bool, Option, none, some, List, [],
  ◌∷◌, ◌++◌, map,
}

-- The procedures that the promotion has so far, and the workers with the shards that they still hold.
pub record System : Type 0 where
  pub manager : ManagerImpl
  pub ready : List Procedure
  pub workers : List (Procedure × List ℕ)

pub data Event : Type 0 where
  submitted : ℕ → Procedure → Event
  promoted : (Procedure → Bool) → ℕ → Event
  released : ℕ → Event

abbrev pub worker : Procedure → Procedure × List ℕ
worker p = (p, shard_ids p)

-- The end of a promotion: its procedures run; an error drops them.
abbrev pub promote : Round → ManagerImpl → System → System
promote done m s = record {
  manager = publish s.ready m;
  ready = [];
  workers = s.workers ++ map worker s.ready;
}
promote (again ready) m s = record s { manager = m; ready = ready }
promote (failed x) m s = record s { manager = m; ready = [] }

-- The next shard of the i-th worker, if it has one.
abbrev pub next_shard : ℕ → List (Procedure × List ℕ) → Option ℕ
next_shard i [] = none
next_shard zero ((p, []) ∷ ws) = none
next_shard zero ((p, k ∷ ks) ∷ ws) = some k
next_shard (suc i) (w ∷ ws) = next_shard i ws

abbrev pub drop_shard : ℕ → List (Procedure × List ℕ) → List (Procedure × List ℕ)
drop_shard i [] = []
drop_shard zero ((p, ks) ∷ ws) = (p, drop 1 ks) ∷ ws
drop_shard (suc i) (w ∷ ws) = w ∷ drop_shard i ws

-- `none` is a panic.
unfoldable pub step : Event → System → Option System
step (submitted now p) s = some (record s { manager = (submit now p s.manager).1 })
step (promoted valid now) s =
    let (round, m) = promote_one valid now s.ready s.manager in some (promote round m s)
step (released i) s = elim (next_shard i s.workers) [
  | none ↦ some s
  | some k ↦ elim (release_shard k s.manager) [
    | none ↦ none
    | some m ↦ some (record s { manager = m; workers = drop_shard i s.workers })
  ]
]

unfoldable pub run : List Event → System → Option System
unfolding step
run [] s = some s
run (e ∷ es) s = elim (step e s) [ none ↦ none | some s' ↦ run es s' ]

-- How often a shard is held: by the procedures that are ready, and by the workers.
abbrev pub occ : ℕ → List ℕ → ℕ
occ k [] = 0
occ k (j ∷ js) = if j == k then suc (occ k js) else occ k js

abbrev pub holds_ready : ℕ → List Procedure → ℕ
holds_ready k [] = 0
holds_ready k (p ∷ ps) = occ k (shard_ids p) + holds_ready k ps

abbrev pub holds_workers : ℕ → List (Procedure × List ℕ) → ℕ
holds_workers k [] = 0
holds_workers k ((p, ks) ∷ ws) = occ k ks + holds_workers k ws

abbrev pub holders : ℕ → System → ℕ
holders k s = holds_ready k s.ready + holds_workers k s.workers

-- No shard is held twice, and what is held is locked.
abbrev pub IsExclusive : System → Type 0
IsExclusive s = (k : ℕ) → holders k s ≤ (if held s.manager.procedure_shard_lock k then 1 else 0)

abbrev pub initial : ManagerImpl → System
initial m = record { manager = m; ready = []; workers = [] }
