-- ===== src/Procedure/Manager/Rounds.antt =====
-- The rounds of the loop of promoteProcedure in manager_impl.go, and their end.
use ceresmeta.EntryLock.{EntryLock, try_lock}
use ceresmeta.Procedure.{Procedure}
use ceresmeta.Procedure.Heap.Counts.{count, count-push_heap, count-pop_heap}
use ceresmeta.Procedure.Queue.{ProcedureScheduleEntry, DelayQueue, rank, push, pop}
use ceresmeta.Procedure.Queue.Laws.{
  push_full, push_twice, push_new, pop_empty, pop_early, pop_due, entry,
}
use ceresmeta.Procedure.Manager.{
  ManagerImpl, default_waiting_queue_delay, shard_ids, Round, done, again, failed, promote_one,
  promote_procedure,
}
use ceresmeta.Common.{
  ltb, leb, nat_eq, Bool-cases, Option-cases, length, get_elem?, lookup, Result, ok, err, ℕ, zero,
  suc, ◌≤◌, ◌<◌, ◌≡◌, refl, ap, ◌∙◌, ◌≢◌, inl, inr, Bool, true, false, none, some, List, [], ◌∷◌,
  ◌++◌, arith, Result-cases, out_of_fuel,
}

abbrev pub locks_of : ManagerImpl → EntryLock
locks_of m = m.procedure_shard_lock

-- The rounds by what they come to.
module _ (valid : Procedure → Bool) (now : ℕ) (ready : List Procedure) (m : ManagerImpl) where
  abbrev rest : ManagerImpl
  rest = record m { waiting_procedures = (pop now m.waiting_procedures).1 }

  pub round_empty :
      (pop now m.waiting_procedures).0 ≡ none → promote_one valid now ready m ≡ (done, rest)
  unfolding promote_one
  round_empty e = rw (e, promote_one) refl

  module _ (p : Procedure) (e : (pop now m.waiting_procedures).0 ≡ some p) where
    abbrev asked : Bool × EntryLock
    asked = try_lock (shard_ids p) (locks_of m)

    pub round_invalid : valid p ≡ false → promote_one valid now ready m ≡ (again ready, rest)
    unfolding promote_one
    round_invalid v = rw (e, v, promote_one) refl

    pub round_granted :
        valid p ≡ true
        → asked.0 ≡ true
        → promote_one valid now ready m
          ≡ (again (ready ++ p ∷ []), record rest { procedure_shard_lock = asked.1 })
    unfolding promote_one
    round_granted v g = rw (e, v, g, promote_one) refl

    abbrev pub back : Result (Unit {0}) × DelayQueue
    back = push now p default_waiting_queue_delay rest.waiting_procedures

    pub round_refused :
        valid p ≡ true
        → asked.0 ≡ false
        → promote_one valid now ready m ≡ (
          (elim back.0 as (λ r. Round) [ ok _ ↦ again ready | err x ↦ failed x ]),
          record m { waiting_procedures = back.1; procedure_shard_lock = asked.1 },
        )
    unfolding promote_one
    round_refused v g = rw (e, v, g, promote_one) refl

-- The entries that are due.
abbrev due : ℕ → ProcedureScheduleEntry → Bool
due now x = leb x.run_after now

abbrev waiting : ℕ → DelayQueue → ℕ
waiting now q = count (due now) q.heap_queue

-- An entry that is pushed back is not due.
push-waiting :
    (now : ℕ) (p : Procedure) (delay : ℕ) (q : DelayQueue)
    → 0 < delay
    → waiting now (push now p delay q).1 ≡ waiting now q
push-waiting now p delay q h = elim (Bool-cases (leb q.max_len (length q.heap_queue))) [
  | inl f ↦ rw (push_full now p delay q f) refl
  | inr f ↦ elim (Option-cases (lookup p.id q.existing_procs)) [
    | inl e ↦
        rw (push_new now p delay q f e)
          (ground (arith, h, count-push_heap rank (due now) (entry now p delay) q.heap_queue))
    | inr (u, e) ↦ rw (push_twice now p delay q u f e) refl
  ]
]

-- An entry that is popped was due.
pop-waiting :
    (now : ℕ) (q : DelayQueue) (p : Procedure)
    → (pop now q).0 ≡ some p
    → suc (waiting now (pop now q).1) ≡ waiting now q
pop-waiting now q p h = elim (Option-cases (get_elem? q.heap_queue 0)) [
  | inl e ↦ absurd (cc (rw (pop_empty now q e) at h))
  | inr (x, e) ↦ elim (Bool-cases (ltb now x.run_after)) [
    | inl f ↦ absurd (cc (rw (pop_early now q x e f) at h))
    | inr f ↦
        rw (pop_due now q x e f) (ground (arith, f, count-pop_heap rank (due now) x q.heap_queue e))
  ]
]

push-fuel :
    (now : ℕ) (p : Procedure) (delay : ℕ) (q : DelayQueue)
    → (push now p delay q).0 ≢ err out_of_fuel
push-fuel now p delay q h = elim (Bool-cases (leb q.max_len (length q.heap_queue))) [
  | inl f ↦ cc (rw (push_full now p delay q f) at h)
  | inr f ↦ elim (Option-cases (lookup p.id q.existing_procs)) [
    | inl e ↦ cc (rw (push_new now p delay q f e) at h)
    | inr (u, e) ↦ cc (rw (push_twice now p delay q u f e) at h)
  ]
]

abbrev after_round :
    (Procedure → Bool)
    → ℕ
    → ℕ
    → List Procedure
    → Round × ManagerImpl
    → Result (List Procedure) × ManagerImpl
after_round valid rounds now ready r = elim r.0 [
  | done ↦ (ok ready, r.1)
  | failed x ↦ (err x, r.1)
  | again ready' ↦ promote_procedure valid rounds now ready' r.1
]

promote_eq :
    (valid : Procedure → Bool) (rounds now : ℕ) (ready : List Procedure) (m : ManagerImpl)
    → promote_procedure valid (suc rounds) now ready m
      ≡ after_round valid rounds now ready (promote_one valid now ready m)
unfolding promote_procedure
promote_eq valid rounds now ready m = refl

promote_procedure-fuel :
    (valid : Procedure → Bool) (rounds now : ℕ) (ready : List Procedure) (m : ManagerImpl)
    → waiting now m.waiting_procedures < rounds
    → (promote_procedure valid rounds now ready m).0 ≢ err out_of_fuel
promote_procedure-fuel valid zero now ready m h g = absurd (omega arith)
promote_procedure-fuel valid (suc rounds) now ready m h g =
    let q = m.waiting_procedures in
    elim (Option-cases (pop now q).0) [
      | inl e ↦ cc (rw (promote_eq valid rounds now ready m, round_empty valid now ready m e) at g)
      | inr (p, e) ↦
          let fewer = pop-waiting now q p e in
          elim (Bool-cases (valid p)) [
            | inr v ↦
                promote_procedure-fuel valid rounds now ready (rest valid now ready m) (omega arith)
                  (rw (promote_eq valid rounds now ready m, round_invalid valid now ready m p e v)
                    at g)
            | inl v ↦ elim (Bool-cases (asked valid now ready m p e).0) [
              | inl gr ↦
                  promote_procedure-fuel valid rounds now (ready ++ p ∷ [])
                    (record (rest valid now ready m) {
                      procedure_shard_lock = (asked valid now ready m p e).1;
                    })
                    (omega arith)
                    (rw
                      (
                        promote_eq valid rounds now ready m,
                        round_granted valid now ready m p e v gr,
                      )
                      at g)
              | inr gr ↦
                  let (r, q') = back valid now ready m p e in
                  let same =
                    push-waiting now p default_waiting_queue_delay (pop now q).1 (omega arith) in
                  let g' =
                    rw
                      (
                        promote_eq valid rounds now ready m,
                        round_refused valid now ready m p e v gr,
                      )
                      at g in
                  elim (Result-cases r) [
                    | inr (x, f) ↦
                        let bad : x ≡ out_of_fuel = cc (rw f at g') in
                        push-fuel now p default_waiting_queue_delay (pop now q).1 (f ∙ ap err bad)
                    | inl (u, f) ↦
                        promote_procedure-fuel valid rounds now ready
                          (record m {
                            waiting_procedures = q';
                            procedure_shard_lock = (asked valid now ready m p e).1;
                          })
                          (omega (arith, same, fewer)) (rw f at g')
                  ]
            ]
          ]
    ]

count-length : {A : Type 0} (f : A → Bool) (xs : List A) → count f xs ≤ length xs
count-length f [] = omega arith
count-length f (x ∷ xs) = ground (arith, count-length f xs)

-- The loop of promotions ends, at an instant, within as many rounds as one more than the entries that
-- wait, whichever procedures are valid and locks are held.
pub promote_procedure-ends :
    (valid : Procedure → Bool) (rounds now : ℕ) (m : ManagerImpl)
    → length m.waiting_procedures.heap_queue < rounds
    → (promote_procedure valid rounds now [] m).0 ≢ err out_of_fuel
promote_procedure-ends valid rounds now m h =
    promote_procedure-fuel valid rounds now [] m
      (omega (arith, h, count-length (due now) m.waiting_procedures.heap_queue))
