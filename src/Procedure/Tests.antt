-- ===== src/Procedure/Tests.antt =====
-- Two procedures that share a shard, in the queue and in the manager.
use ceresmeta.Procedure.{Procedure, kind_split, priority_low}
use ceresmeta.Procedure.Heap.{rank_at}
use ceresmeta.Procedure.Heap.Counts.{count, bit}
use ceresmeta.Procedure.Queue.{
  ProcedureScheduleEntry, DelayQueue, rank, new_procedure_delay_queue, push, pop,
}
use ceresmeta.Procedure.Queue.Laws.{IsValid}
use ceresmeta.Procedure.Queue.Due.{
  QueueCall, pop-first, pop-returns, pushes, calls, new_queue-IsValid,
}
use ceresmeta.Procedure.Manager.{ManagerImpl, new_manager_impl, promote_procedure}
use ceresmeta.Procedure.Manager.Rounds.{promote_procedure-ends}
use ceresmeta.Procedure.System.{
  System, Event, submitted, promoted, released, run, initial, IsExclusive,
}
use ceresmeta.Procedure.System.Exclusive.{run-IsExclusive}
use ceresmeta.Common.{
  nat_eq, length, get_elem?, err, ℕ, ◌+◌, ◌≤◌, ◌<◌, ◌≡◌, refl, ◌≢◌, Bool, true, some, List, [], ◌∷◌,
  arith, out_of_fuel,
}

abbrev first : Procedure
first = record {
  id = 1;
  kind = kind_split;
  priority = priority_low;
  related_version_info = record {
    cluster_id = 1;
    shard_with_version = (5, 7) ∷ (6, 2) ∷ [];
    cluster_version = 3;
  };
}

abbrev second : Procedure
second = record {
  id = 2;
  kind = kind_split;
  priority = priority_low;
  related_version_info = record {
    cluster_id = 1;
    shard_with_version = (6, 2) ∷ [];
    cluster_version = 3;
  };
}

abbrev allowed : Procedure → Bool
allowed p = true

abbrev events : List Event
events =
    submitted 10 first
    ∷ submitted 11 second
    ∷ promoted allowed 20
    ∷ promoted allowed 20
    ∷ promoted allowed 20
    ∷ released 0
    ∷ []

run-IsExclusive_example :
    (s' : System) × (run events (initial new_manager_impl) ≡ some s') × IsExclusive s'
run-IsExclusive_example = run-IsExclusive events (initial new_manager_impl) (λ k. omega arith)

abbrev waiting_calls : List QueueCall
waiting_calls = pushes 10 first 500 ∷ pushes 11 second 0 ∷ []

new_queue-IsValid_example : IsValid (calls waiting_calls (new_procedure_delay_queue 9))
new_queue-IsValid_example = new_queue-IsValid waiting_calls 9

abbrev queue : DelayQueue
queue = record {
  max_len = 9;
  heap_queue =
      record { procedure = second; run_after = 11 }
      ∷ record { procedure = first; run_after = 510 }
      ∷ [];
  existing_procs = (1, tt) ∷ (2, tt) ∷ [];
}

queue-calls : calls waiting_calls (new_procedure_delay_queue 9) ≡ queue
unfolding push new_procedure_delay_queue
queue-calls = refl

queue-IsValid : IsValid queue
queue-IsValid = rw queue-calls at (new_queue-IsValid waiting_calls 9)

pop-first_example :
    (x : ProcedureScheduleEntry) × (get_elem? queue.heap_queue 0 ≡ some x)
    × (x.procedure ≡ second)
    × (x.run_after ≤ 20)
    × ((k : ℕ) → k < length queue.heap_queue → x.run_after ≤ rank_at rank queue.heap_queue k)
    × ((test : ProcedureScheduleEntry → Bool)
        → count test (pop 20 queue).1.heap_queue + bit (test x) ≡ count test queue.heap_queue)
unfolding pop
pop-first_example = pop-first 20 queue second queue-IsValid refl

pop-returns_example : (p : Procedure) × ((pop 20 queue).0 ≡ some p)
pop-returns_example = pop-returns 20 queue 0 queue-IsValid (omega arith) (omega arith)

abbrev manager : ManagerImpl
manager = record {
  procedure_shard_lock = [];
  waiting_procedures = queue;
  running = true;
  running_procedures = [];
}

promote_procedure-ends_example : (promote_procedure allowed 3 20 [] manager).0 ≢ err out_of_fuel
promote_procedure-ends_example = promote_procedure-ends allowed 3 20 manager (omega arith)
