-- ===== src/Procedure/Queue.antt =====
-- server/coordinator/procedure/delay_queue.go. The lock makes each method one step; the time is `now`.
pub mod Laws
pub mod Due
use ceresmeta.Procedure.{Procedure}
use ceresmeta.Procedure.Heap.{push_heap, pop_heap}
use ceresmeta.Common.{
  ltb, leb, if◌then◌else◌, nat_eq, length, get_elem?, Map, lookup, insert, delete, Result, ok, err,
  ℕ, ◌+◌, Option, none, some, List, [], queue_full, push_duplicated,
}

pub record ProcedureScheduleEntry : Type 0 where
  pub procedure : Procedure
  pub run_after : ℕ

pub record DelayQueue : Type 0 where
  pub max_len : ℕ
  pub heap_queue : List ProcedureScheduleEntry
  pub existing_procs : Map ℕ (Unit {0})

abbrev pub rank : ProcedureScheduleEntry → ℕ
rank x = x.run_after

unfoldable pub new_procedure_delay_queue : ℕ → DelayQueue
new_procedure_delay_queue max_len = record {
  max_len = max_len;
  heap_queue = [];
  existing_procs = [];
}

unfoldable pub len : DelayQueue → ℕ
len q = length q.heap_queue

unfoldable pub push : ℕ → Procedure → ℕ → DelayQueue → Result (Unit {0}) × DelayQueue
unfolding lookup insert push_heap
push now p delay q =
    let pushed = record q {
      heap_queue = push_heap rank (record { procedure = p; run_after = now + delay }) q.heap_queue;
      existing_procs = insert p.id tt q.existing_procs;
    } in
    if leb q.max_len (length q.heap_queue)
    then (err queue_full, q)
    else elim (lookup p.id q.existing_procs) [
      | some _ ↦ (err push_duplicated, q)
      | none ↦ (ok tt, pushed)
    ]

unfoldable pub pop : ℕ → DelayQueue → Option Procedure × DelayQueue
unfolding delete pop_heap
pop now q = elim (get_elem? q.heap_queue 0) [
  | none ↦ (none, q)
  | some x ↦ if ltb now x.run_after then (none, q) else (
    some x.procedure,
    record q {
      heap_queue = pop_heap rank q.heap_queue;
      existing_procs = delete x.procedure.id q.existing_procs;
    },
  )
]
