-- ===== src/Procedure/CreatePartitionTable/Laws.antt =====
-- The goroutines of create_partition_table.go: the tables that are there when all have ended.
use ceresmeta.Storage.{Storage}
use ceresmeta.TableManager.{IdAllocator}
use ceresmeta.Procedure.Calls.{Dispatch}
use ceresmeta.Procedure.Ddl.{CreateTableReq}
use ceresmeta.Procedure.CreatePartitionTable.Tasks.{Task, has_returned, step, run_tasks}
use ceresmeta.Procedure.CreatePartitionTable.Pending.{
  is_pending, pending_set, pending_others, returned_none,
}
use ceresmeta.Procedure.CreatePartitionTable.Steps.{
  B, IsFound, AreOk, IsStep, set-AreOk, get-AreOk, step-IsStep,
}
use ceresmeta.Common.{
  nat_eq, Bool-cases, Option-cases, get_elem?, set, ok, ◌>>=◌, ℕ, ◌≡◌, refl, ◌⊎◌, inl, inr, true,
  none, some, List, [], ◌∷◌, arith, Bytes, text_eq, continue_inv,
}

module _ (s : Storage) (sa ta : IdAllocator) (d : Dispatch) (req : CreateTableReq) where
  module _ (i now : ℕ) (schedule : List (ℕ × ℕ)) (ts : List Task) (b : B s sa ta d req) where
    run_none :
        get_elem? ts i ≡ none
        → run_tasks s sa ta d req ((i, now) ∷ schedule) ts b ≡ run_tasks s sa ta d req schedule ts b
    unfolding run_tasks
    run_none e = rw (e, run_tasks) refl

    run_some :
        (t : Task)
        → get_elem? ts i ≡ some t
        → run_tasks s sa ta d req ((i, now) ∷ schedule) ts b
          ≡ (step s sa ta d req now t >>= λ t'. run_tasks s sa ta d req schedule (set ts i t')) b
    unfolding run_tasks
    run_some t e = rw (e, run_tasks) refl

  pub run-IsFound :
      (schedule : List (ℕ × ℕ)) (ts : List Task) (b : B s sa ta d req) (n : Bytes)
      → AreOk s sa ta d req b ts
      → (is_pending n ts ≡ true) ⊎ IsFound s sa ta d req n b
      → (run_tasks s sa ta d req schedule ts b).0 ≡ ok tt
      → IsFound s sa ta d req n (run_tasks s sa ta d req schedule ts b).1
  unfolding run_tasks IsStep
  run-IsFound [] ts b n k p h = elim p [
    | inr q ↦ q
    | inl q ↦
        let z = returned_none n ts in
        absurd (elim (Bool-cases (has_returned ts)) [
          | inl e ↦ let y = z e in cc
          | inr e ↦ ground (arith, e)
        ])
  ]
  run-IsFound ((i, now) ∷ schedule) ts b n k p h = elim (Option-cases (get_elem? ts i)) [
    | inl e ↦
        rw (run_none i now schedule ts b e)
          (run-IsFound schedule ts b n k p (rw (run_none i now schedule ts b e) at h))
    | inr (t, e) ↦
        let run = run_some i now schedule ts b t e in
        let (t', f, h', r) =
          continue_inv (step s sa ta d req now t b).0 (step s sa ta d req now t b).1
            (λ (y : Task). run_tasks s sa ta d req schedule (set ts i y)) tt (rw run at h) in
        let (grows, (fine, kept)) =
          step-IsStep s sa ta d req now t b t' (get-AreOk s sa ta d req b ts i t e k) f in
        let b' = (step s sa ta d req now t b).1 in
        rw run (
          rw r (
            run-IsFound schedule (set ts i t') b' n
              (set-AreOk s sa ta d req b b' ts i t' grows fine k)
              (elim p [
                | inr q ↦ inr (grows n q)
                | inl q ↦ elim (pending_others n ts i t t' e q) [
                  | inr z ↦ inl z
                  | inl z ↦ elim (kept n z) [
                    | inl y ↦ inl (pending_set n ts i t t' e y)
                    | inr y ↦ inr y
                  ]
                ]
              ])
              h'))
  ]
