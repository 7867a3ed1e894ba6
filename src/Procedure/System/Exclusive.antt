-- ===== src/Procedure/System/Exclusive.antt =====
-- No two procedures hold one shard in the manager of server/coordinator/procedure/manager_impl.go.
use ceresmeta.EntryLock.{EntryLock, held, try_lock, unlock}
use ceresmeta.EntryLock.Laws.{try_lock_success, try_lock_failure, unlock_one}
use ceresmeta.Procedure.{Procedure}
use ceresmeta.Procedure.Queue.{pop}
use ceresmeta.Procedure.Manager.{
  ManagerImpl, keys, shard_ids, submit, Round, done, again, failed, promote_one, publish,
  release_shard,
}
use ceresmeta.Procedure.Manager.Rounds.{
  locks_of, round_empty, round_invalid, round_granted, round_refused, back,
}
use ceresmeta.Procedure.System.{
  System, Event, submitted, promoted, released, worker, promote, next_shard, drop_shard, step, run,
  occ, holds_ready, holds_workers, holders, IsExclusive,
}
use ceresmeta.Common.{
  if◌then◌else◌, ◌==◌, nat_eq, Bool-cases, Option-cases, elem, delete, ℕ, zero, suc, ◌+◌, ◌≤◌, ◌≡◌,
  refl, inl, inr, Bool, true, some, List, [], ◌∷◌, ◌++◌, map, arith, Result-cases,
}

occ-keys :
    {A : Type 0} (k : ℕ) (m : List (ℕ × A)) → occ k (keys m) ≡ (if elem k (keys m) then 1 else 0)
unfolding keys
occ-keys k [] = refl
occ-keys k ((j, v) ∷ m) = ground (arith, occ-keys k m, occ-keys j m)

holds_ready-append :
    (k : ℕ) (ps qs : List Procedure)
    → holds_ready k (ps ++ qs) ≡ holds_ready k ps + holds_ready k qs
holds_ready-append k [] qs = omega arith
holds_ready-append k (p ∷ ps) qs = omega (arith, holds_ready-append k ps qs)

holds_workers-append :
    (k : ℕ) (ws vs : List (Procedure × List ℕ))
    → holds_workers k (ws ++ vs) ≡ holds_workers k ws + holds_workers k vs
holds_workers-append k [] vs = omega arith
holds_workers-append k ((p, ks) ∷ ws) vs = omega (arith, holds_workers-append k ws vs)

holds_workers-worker :
    (k : ℕ) (ps : List Procedure) → holds_workers k (map worker ps) ≡ holds_ready k ps
holds_workers-worker k [] = refl
holds_workers-worker k (p ∷ ps) = omega (arith, holds_workers-worker k ps)

-- The shard that a worker releases was held by it, and is held once less.
holds_workers-drop_shard :
    (i j k : ℕ) (ws : List (Procedure × List ℕ))
    → next_shard i ws ≡ some j
    → holds_workers k ws ≡ (if j == k then 1 else 0) + holds_workers k (drop_shard i ws)
holds_workers-drop_shard i j k [] h = ground arith
holds_workers-drop_shard zero j k ((p, []) ∷ ws) h = ground arith
holds_workers-drop_shard zero j k ((p, l ∷ ks) ∷ ws) h = ground arith
holds_workers-drop_shard (suc i) j k ((p, ks) ∷ ws) h =
    ground (arith, holds_workers-drop_shard i j k ws)

abbrev bit : Bool → ℕ
bit b = if b then 1 else 0

-- What is ready after a round.
abbrev ready_after : List Procedure → Round → List Procedure
ready_after ready done = ready
ready_after ready (again ps) = ps
ready_after ready (failed x) = []

granted-bit :
    (p : Procedure) (l : EntryLock) (k : ℕ)
    → (try_lock (shard_ids p) l).0 ≡ true
    → occ k (shard_ids p) + bit (held l k) ≡ bit (held (try_lock (shard_ids p) l).1 k)
granted-bit p l k h =
    let (free, taken) = try_lock_success (shard_ids p) l h in
    let once : occ k (shard_ids p) ≡ (if elem k (shard_ids p) then 1 else 0) =
      occ-keys k p.related_version_info.shard_with_version in
    ground (arith, free k, taken k, once)

promote_one-bit :
    (valid : Procedure → Bool) (now : ℕ) (ready : List Procedure) (m : ManagerImpl) (k : ℕ)
    → holds_ready k (ready_after ready (promote_one valid now ready m).0)
        + bit (held (locks_of m) k)
      ≤ holds_ready k ready + bit (held (locks_of (promote_one valid now ready m).1) k)
promote_one-bit valid now ready m k = elim (Option-cases (pop now m.waiting_procedures).0) [
  | inl e ↦ rw (round_empty valid now ready m e) (omega arith)
  | inr (p, e) ↦ elim (Bool-cases (valid p)) [
    | inr v ↦ rw (round_invalid valid now ready m p e v) (omega arith)
    | inl v ↦ elim (Bool-cases (try_lock (shard_ids p) (locks_of m)).0) [
      | inl g ↦
          let x = granted-bit p (locks_of m) k g in
          let y = holds_ready-append k ready (p ∷ []) in
          rw (round_granted valid now ready m p e v g) (omega (arith, x, y))
      | inr g ↦
          let same = (try_lock_failure (shard_ids p) (locks_of m) g).0 in
          rw (round_refused valid now ready m p e v g) (
            rw same (elim (Result-cases (back valid now ready m p e).0) [
              | inl (u, f) ↦ rw f (omega arith)
              | inr (x, f) ↦ rw f (omega arith)
            ]))
    ]
  ]
]

promote-IsExclusive :
    (s : System) (valid : Procedure → Bool) (now : ℕ)
    → IsExclusive s
    → let r = promote_one valid now s.ready s.manager in IsExclusive (promote r.0 r.1 s)
unfolding publish
promote-IsExclusive s valid now h k =
    let r = promote_one valid now s.ready s.manager in
    round_cases r.0 r.1 (promote_one-bit valid now s.ready s.manager k)
  where
    round_cases :
        (r : Round) (m : ManagerImpl)
        → holds_ready k (ready_after s.ready r) + bit (held (locks_of s.manager) k)
          ≤ holds_ready k s.ready + bit (held (locks_of m) k)
        → holders k (promote r m s) ≤ bit (held (locks_of (promote r m s).manager) k)
    round_cases done m b = omega (
      arith,
      h k,
      holds_workers-append k s.workers (map worker s.ready),
      holds_workers-worker k s.ready,
      b,
    )
    round_cases (again ps) m b = omega (arith, h k, b)
    round_cases (failed x) m b = omega (arith, h k, b)

locked_of_next :
    (s : System) (i j : ℕ)
    → next_shard i s.workers ≡ some j
    → IsExclusive s
    → held (locks_of s.manager) j ≡ true
locked_of_next s i j e h = ground (arith, h j, holds_workers-drop_shard i j j s.workers e)

release_shard_eq :
    (k : ℕ) (m : ManagerImpl) (l : EntryLock)
    → unlock (k ∷ []) m.procedure_shard_lock ≡ some l
    → release_shard k m
      ≡ some (record m {
        running_procedures = delete k m.running_procedures;
        procedure_shard_lock = l;
      })
unfolding release_shard
release_shard_eq k m l p = rw (p, release_shard) refl

-- No step panics, and each keeps the shards exclusive.
step-IsExclusive :
    (e : Event) (s : System) → IsExclusive s → (s' : System) × (step e s ≡ some s') × IsExclusive s'
unfolding step submit
step-IsExclusive (submitted now p) s h =
    (record s { manager = (submit now p s.manager).1 }, refl, h)
step-IsExclusive (promoted valid now) s h =
    let r = promote_one valid now s.ready s.manager in
    (promote r.0 r.1 s, refl, promote-IsExclusive s valid now h)
step-IsExclusive (released i) s h = elim (Option-cases (next_shard i s.workers)) [
  | inl e ↦ (s, rw (e, step) refl, h)
  | inr (j, e) ↦
      let owned = locked_of_next s i j e h in
      let (l, p, after) = unlock_one j (locks_of s.manager) owned in
      (
        record {
          manager = record s.manager {
            running_procedures = delete j s.manager.running_procedures;
            procedure_shard_lock = l;
          };
          ready = s.ready;
          workers = drop_shard i s.workers;
        },
        rw (e, step) (rw (release_shard_eq j s.manager l p) refl),
        λ k. ground (arith, h k, holds_workers-drop_shard i j k s.workers e, after k),
      )
]

-- From a state in which no shard is held twice, no run of submissions, rounds of promotion and
-- releases panics, and no shard is held twice after it; what is held is locked.
pub run-IsExclusive :
    (es : List Event) (s : System)
    → IsExclusive s
    → (s' : System) × (run es s ≡ some s') × IsExclusive s'
unfolding run
run-IsExclusive [] s h = (s, refl, h)
run-IsExclusive (e ∷ es) s h =
    let (s1, p, h1) = step-IsExclusive e s h in
    let (s2, q, h2) = run-IsExclusive es s1 h1 in (s2, rw (p, run) q, h2)
