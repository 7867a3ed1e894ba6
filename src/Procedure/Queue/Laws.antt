-- ===== src/Procedure/Queue/Laws.antt =====
-- What the queue of delay_queue.go keeps, and what it gives.
use ceresmeta.Procedure.{Procedure}
use ceresmeta.Procedure.Heap.{rank_at, push_heap, pop_heap}
use ceresmeta.Procedure.Heap.Counts.{count, count-push_heap, count-pop_heap, length-count}
use ceresmeta.Procedure.Heap.Order.{IsHeap, parent, push_heap-IsHeap, pop_heap-IsHeap}
use ceresmeta.Procedure.Queue.{ProcedureScheduleEntry, DelayQueue, rank, push, pop}
use ceresmeta.Common.{
  ltb, leb, ◌==◌, nat_eq, Bool-cases, Option-cases, length, get_elem?, lookup, insert, delete,
  lookup-insert, lookup-delete, ok, err, ℕ, zero, suc, ◌+◌, ◌≤◌, ◌<◌, ◌≡◌, refl, inl, inr, Bool,
  true, false, none, some, List, arith, queue_full, push_duplicated,
}

abbrev pub has_id : ℕ → ProcedureScheduleEntry → Bool
has_id k x = x.procedure.id == k

abbrev known : ℕ → DelayQueue → ℕ
known k q = elim (lookup k q.existing_procs) [ none ↦ 0 | some _ ↦ 1 ]

-- Each id that is recorded is queued once and no other is, the entries are a heap, and there are at most
-- as many as allowed.
pub record IsValid (q : DelayQueue) : Type 0 where
  pub ids : (k : ℕ) → count (has_id k) q.heap_queue ≡ known k q
  pub ordered : IsHeap rank (length q.heap_queue) q.heap_queue
  pub bounded : length q.heap_queue ≤ q.max_len

-- The root comes first.
pub root_least :
    {A : Type 0} (f : A → ℕ) (xs : List A) (fuel k : ℕ)
    → IsHeap f (length xs) xs
    → k ≤ fuel
    → k < length xs
    → rank_at f xs 0 ≤ rank_at f xs k
root_least f xs fuel zero h p q = omega arith
root_least f xs zero (suc k) h p q = absurd (omega arith)
root_least f xs (suc fuel) (suc k) h p q =
    let up = root_least f xs fuel (parent (suc k)) h (omega arith) (omega arith) in
    omega (arith, up, h (suc k) (omega arith) q)

abbrev pub entry : ℕ → Procedure → ℕ → ProcedureScheduleEntry
entry now p delay = record { procedure = p; run_after = now + delay }

-- The branches of `Push`.
module _ (now : ℕ) (p : Procedure) (delay : ℕ) (q : DelayQueue) where
  pub push_full :
      leb q.max_len (length q.heap_queue) ≡ true → push now p delay q ≡ (err queue_full, q)
  unfolding push
  push_full h = rw (h, push) refl

  pub push_twice :
      (u : Unit {0})
      → leb q.max_len (length q.heap_queue) ≡ false
      → lookup p.id q.existing_procs ≡ some u
      → push now p delay q ≡ (err push_duplicated, q)
  unfolding push
  push_twice u h e = rw (h, e, push) refl

  abbrev pushed : DelayQueue
  pushed = record q {
    heap_queue = push_heap rank (entry now p delay) q.heap_queue;
    existing_procs = insert p.id tt q.existing_procs;
  }

  pub push_new :
      leb q.max_len (length q.heap_queue) ≡ false
      → lookup p.id q.existing_procs ≡ none
      → push now p delay q ≡ (ok tt, pushed)
  unfolding push
  push_new h e = rw (h, e, push) refl

  pushed-IsValid :
      IsValid q
      → leb q.max_len (length q.heap_queue) ≡ false
      → lookup p.id q.existing_procs ≡ none
      → IsValid pushed
  pushed-IsValid v h e = record {
    ids = λ k. ground (
      arith,
      v.ids k,
      e,
      count-push_heap rank (has_id k) (entry now p delay) q.heap_queue,
      lookup-insert p.id k tt q.existing_procs,
    );
    ordered = push_heap-IsHeap rank (entry now p delay) q.heap_queue v.ordered;
    bounded = ground (
      arith,
      h,
      v.bounded,
      count-push_heap rank (λ x. true) (entry now p delay) q.heap_queue,
      length-count q.heap_queue,
      length-count pushed.heap_queue,
    );
  }

  pub push-IsValid : IsValid q → IsValid (push now p delay q).1
  push-IsValid v = elim (Bool-cases (leb q.max_len (length q.heap_queue))) [
    | inl h ↦ rw (push_full h) v
    | inr h ↦ elim (Option-cases (lookup p.id q.existing_procs)) [
      | inl e ↦ rw (push_new h e) (pushed-IsValid v h e)
      | inr (u, e) ↦ rw (push_twice u h e) v
    ]
  ]

-- The branches of `Pop`.
module _ (now : ℕ) (q : DelayQueue) where
  pub pop_empty : get_elem? q.heap_queue 0 ≡ none → pop now q ≡ (none, q)
  unfolding pop
  pop_empty h = rw (h, pop) refl

  module _ (x : ProcedureScheduleEntry) (e : get_elem? q.heap_queue 0 ≡ some x) where
    pub pop_early : ltb now x.run_after ≡ true → pop now q ≡ (none, q)
    unfolding pop
    pop_early h = rw (e, h, pop) refl

    abbrev pub popped : DelayQueue
    popped = record q {
      heap_queue = pop_heap rank q.heap_queue;
      existing_procs = delete x.procedure.id q.existing_procs;
    }

    pub pop_due : ltb now x.run_after ≡ false → pop now q ≡ (some x.procedure, popped)
    unfolding pop
    pop_due h = rw (e, h, pop) refl

    popped-IsValid : IsValid q → IsValid popped
    popped-IsValid v = record {
      ids = λ k. ground (
        arith,
        v.ids k,
        v.ids x.procedure.id,
        count-pop_heap rank (has_id k) x q.heap_queue e,
        lookup-delete x.procedure.id k q.existing_procs,
      );
      ordered = pop_heap-IsHeap rank q.heap_queue v.ordered;
      bounded = ground (
        arith,
        v.bounded,
        count-pop_heap rank (λ y. true) x q.heap_queue e,
        length-count q.heap_queue,
        length-count popped.heap_queue,
      );
    }

  pub pop-IsValid : IsValid q → IsValid (pop now q).1
  pop-IsValid v = elim (Option-cases (get_elem? q.heap_queue 0)) [
    | inl e ↦ rw (pop_empty e) v
    | inr (x, e) ↦ elim (Bool-cases (ltb now x.run_after)) [
      | inl h ↦ rw (pop_early x e h) v
      | inr h ↦ rw (pop_due x e h) (popped-IsValid x e v)
    ]
  ]
