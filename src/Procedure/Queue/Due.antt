-- ===== src/Procedure/Queue/Due.antt =====
-- Which procedure the queue of delay_queue.go gives, and when.
use ceresmeta.Procedure.{Procedure}
use ceresmeta.Procedure.Heap.{rank_at}
use ceresmeta.Procedure.Heap.Counts.{count, bit, count-pop_heap, get_some}
use ceresmeta.Procedure.Queue.{
  ProcedureScheduleEntry, DelayQueue, rank, new_procedure_delay_queue, push, pop,
}
use ceresmeta.Procedure.Queue.Laws.{
  IsValid, root_least, push-IsValid, pop-IsValid, pop_empty, pop_early, pop_due,
}
use ceresmeta.Common.{
  ltb, nat_eq, Bool-cases, Option-cases, length, get_elem?, lookup, ℕ, ◌+◌, ◌≤◌, ◌<◌, ◌≡◌, refl,
  inl, inr, Bool, some, List, [], ◌∷◌, arith,
}

-- From a valid queue, a procedure that is popped is that of the entry at the head of the queue, which is
-- due and which no other entry comes before. That entry is gone once from the queue, and nothing else is:
-- what any test counts in the queue before, it counts after, and once more if it holds of the entry.
pub pop-first :
    (now : ℕ) (q : DelayQueue) (p : Procedure)
    → IsValid q
    → (pop now q).0 ≡ some p
    → (x : ProcedureScheduleEntry) × (get_elem? q.heap_queue 0 ≡ some x)
      × (x.procedure ≡ p)
      × (x.run_after ≤ now)
      × ((k : ℕ) → k < length q.heap_queue → x.run_after ≤ rank_at rank q.heap_queue k)
      × ((test : ProcedureScheduleEntry → Bool)
          → count test (pop now q).1.heap_queue + bit (test x) ≡ count test q.heap_queue)
pop-first now q p v h = elim (Option-cases (get_elem? q.heap_queue 0)) [
  | inl e ↦ absurd (cc (rw (pop_empty now q e) at h))
  | inr (x, e) ↦ elim (Bool-cases (ltb now x.run_after)) [
    | inl f ↦ absurd (cc (rw (pop_early now q x e f) at h))
    | inr f ↦ (
      x,
      e,
      cc (rw (pop_due now q x e f) at h),
      ground arith,
      λ k l.
          let r = root_least rank q.heap_queue k k v.ordered (omega arith) l in
          ground (arith, e, r),
      λ test. rw (pop_due now q x e f) (count-pop_heap rank test x q.heap_queue e),
    )
  ]
]

-- A valid queue with an entry that is due gives a procedure.
pub pop-returns :
    (now : ℕ) (q : DelayQueue) (k : ℕ)
    → IsValid q
    → k < length q.heap_queue
    → rank_at rank q.heap_queue k ≤ now
    → (p : Procedure) × ((pop now q).0 ≡ some p)
pop-returns now q k v l h =
    let least = root_least rank q.heap_queue k k v.ordered (omega arith) l in
    elim (Option-cases (get_elem? q.heap_queue 0)) [
      | inl e ↦ let (x, some_x) = get_some q.heap_queue 0 (omega arith) in absurd (cc)
      | inr (x, e) ↦ (x.procedure, rw (pop_due now q x e (ground (arith, e, least, h))) refl)
    ]

pub data QueueCall : Type 0 where
  pushes : ℕ → Procedure → ℕ → QueueCall
  pops : ℕ → QueueCall

abbrev pub call : QueueCall → DelayQueue → DelayQueue
call (pushes now p delay) q = (push now p delay q).1
call (pops now) q = (pop now q).1

abbrev pub calls : List QueueCall → DelayQueue → DelayQueue
calls [] q = q
calls (c ∷ cs) q = calls cs (call c q)

calls-IsValid : (cs : List QueueCall) (q : DelayQueue) → IsValid q → IsValid (calls cs q)
calls-IsValid [] q v = v
calls-IsValid (pushes now p delay ∷ cs) q v = calls-IsValid cs _ (push-IsValid now p delay q v)
calls-IsValid (pops now ∷ cs) q v = calls-IsValid cs _ (pop-IsValid now q v)

-- After any calls of Push and Pop on a new queue, each id that is recorded is queued once and no other
-- is, the entries are a heap, and there are at most as many as allowed.
pub new_queue-IsValid :
    (cs : List QueueCall) (max_len : ℕ) → IsValid (calls cs (new_procedure_delay_queue max_len))
unfolding new_procedure_delay_queue lookup
new_queue-IsValid cs max_len =
    calls-IsValid cs (new_procedure_delay_queue max_len)
      (record { ids = λ k. refl; ordered = λ k p l. absurd (omega arith); bounded = omega arith })
