-- ===== src/Id/Allocator/Session/Laws.antt =====
-- One step of a call against the counter that the store holds.
use ceresmeta.Etcd.{Etcd, EtcdLaws}
use ceresmeta.Id.Allocator.{AllocatorImpl, is_exhausted, rebase_from, fast_rebase_locked}
use ceresmeta.Id.Allocator.Rebase.{
  Stored, IsRead, Rebased, rebase_from-Rebased, get-IsRead, get-Stored, fast_rebase_locked-Rebased,
}
use ceresmeta.Id.Allocator.Step.{Held, rebase-Held, weaken, flag-Held, next_id-Held}
use ceresmeta.Id.Allocator.Session.{
  Phase, idle, read_first, initialized, fast_failed, read_again, going, done, phase_of, result_of,
  Turn, give, after_first, after_fast, after_again, advance,
}
use ceresmeta.Common.{
  if◌then◌else◌, ◌==◌, nat_eq, Error, Result, ok, err, ℕ, ◌+◌, ◌^◌, ◌≤◌, ◌<◌, ◌≡◌, refl, ◌⊎◌, inl,
  Bool, true, false, some, List, arith, Bytes,
}

-- The response that a call holds was read when the counter was not above `n`.
abbrev pub HasRead : ℕ → Phase → Type 0
HasRead n (read_first r) = IsRead n r
HasRead n (read_again r) = IsRead n r
HasRead n _ = Unit

pub grow-HasRead : (n m : ℕ) (p : Phase) → n ≤ m → HasRead n p → HasRead m p
grow-HasRead n m idle l h = tt
grow-HasRead n m (read_first r) l h = λ v e. let (c, b, same) = h v e in (c, omega arith, same)
grow-HasRead n m initialized l h = tt
grow-HasRead n m fast_failed l h = tt
grow-HasRead n m (read_again r) l h = λ v e. let (c, b, same) = h v e in (c, omega arith, same)

-- What a step keeps, and where an id that it gives comes from.
pub record Advanced (e : Etcd) (a : AllocatorImpl) (n : ℕ) (out : Turn e) : Type 0 where
  pub holds : Held e a n a.alloc_step out.1
  pub has_read : HasRead holds.counter (phase_of out.0)
  pub given :
      (v : ℕ)
      → result_of out.0 ≡ some (ok v)
      → (((a.base ≤ v) × (v < a.end)) ⊎ (n ≤ v)) × (v < out.1.0.base) × (v < holds.counter)

module _ (e : Etcd) (laws : EtcdLaws e) (a : AllocatorImpl) (n : ℕ) (positive : 0 < a.alloc_step)
    (room : n + a.alloc_step < 2 ^ 64) where
  abbrev T : Type 0
  T = AllocatorImpl × e.State

  abbrev H : T → Type 0
  H t = Held e a n a.alloc_step t

  give-Advanced : (t : T) → H t → t.0.base < t.0.end → Advanced e a n (give e t)
  give-Advanced t h left =
      let (h', given) = next_id-Held e laws a n positive t a.alloc_step h left room in
      record { holds = h'; has_read = tt; given = λ v g. given v (cc) }

  error-Advanced : (x : Error) (t : T) → H t → Advanced e a n (done (err x), t)
  error-Advanced x t h = record { holds = h; has_read = tt; given = λ v g. absurd (cc) }

  first-Advanced : (out : Result (Unit {0}) × T) → H out.1 → Advanced e a n (after_first e out)
  first-Advanced (err x, t) h = error-Advanced x t h
  first-Advanced (ok u, t) h = record {
    holds = flag-Held e laws a n positive true t a.alloc_step h;
    has_read = tt;
    given = λ v g. absurd (cc);
  }

  fast-Advanced :
      (out : Result (Unit {0}) × T)
      → H out.1
      → (out.0 ≡ ok tt → out.1.0.base < out.1.0.end)
      → Advanced e a n (after_fast e out)
  fast-Advanced (err x, t) h left = record { holds = h; has_read = tt; given = λ v g. absurd (cc) }
  fast-Advanced (ok u, t) h left = give-Advanced t h (left refl)

  again-Advanced :
      (out : Result (Unit {0}) × T)
      → H out.1
      → (out.0 ≡ ok tt → out.1.0.base < out.1.0.end)
      → Advanced e a n (after_again e out)
  again-Advanced (err x, t) h left = error-Advanced x t h
  again-Advanced (ok u, t) h left = give-Advanced t h (left refl)

module _ (e : Etcd) (laws : EtcdLaws e) (a : AllocatorImpl) (s : e.State) (n : ℕ)
    (positive : 0 < a.alloc_step) (room : n + a.alloc_step < 2 ^ 64) (st : Stored e s a.key n)
    (low : a.base ≤ a.end) (high : a.end ≤ n) where
  abbrev begun : (s' : e.State) → Stored e s' a.key n → Held e a n 0 (a, s')
  begun s' st' = record {
    counter = n;
    stored = st';
    grows = omega arith;
    bounded = omega arith;
    same_key = refl;
    same_step = refl;
    ordered = low;
    below = high;
    reserved = λ u l b. inl (l, b);
  }

  rebased :
      (out : Result (Unit {0}) × (AllocatorImpl × e.State))
      → Rebased e a n out
      → Held e a n a.alloc_step out.1 × (out.0 ≡ ok tt → out.1.0.base < out.1.0.end)
  rebased out r =
      let (h, left) = rebase-Held e laws a n positive (a, s) 0 (begun s st) out r in
      (weaken e laws a n positive out.1 (0 + a.alloc_step) a.alloc_step (omega arith) h, left)

  still : (s' : e.State) → Stored e s' a.key n → Held e a n a.alloc_step (a, s')
  still s' st' = weaken e laws a n positive (a, s') 0 a.alloc_step (omega arith) (begun s' st')

  read-Advanced : (p : Phase) → HasRead n p → Advanced e a n (going p, (a, (e.get a.key s).1))
  read-Advanced p h =
      let k = still (e.get a.key s).1 (get-Stored e laws a.key s n st) in
      record {
        holds = k;
        has_read = grow-HasRead n k.counter p k.grows h;
        given = λ v g. absurd (cc);
      }

  if-Advanced :
      (b : Bool) (x y : Turn e)
      → Advanced e a n x
      → (b ≡ false → Advanced e a n y)
      → Advanced e a n (if b then x else y)
  if-Advanced true x y h k = h
  if-Advanced false x y h k = k refl

  from_read :
      (r : Result (List Bytes))
      → IsRead n r
      → let out = rebase_from e a (r, s) in
        Held e a n a.alloc_step out.1 × (out.0 ≡ ok tt → out.1.0.base < out.1.0.end)
  from_read r read =
      rebased (rebase_from e a (r, s))
        (rebase_from-Rebased e laws a s n r st (omega arith) room read)

  -- One step of a call, on a struct whose range lies below the counter.
  pub advance-Advanced : (p : Phase) → HasRead n p → Advanced e a n (advance e p (a, s))
  unfolding advance is_exhausted
  advance-Advanced idle h =
      if-Advanced a.is_initialized _ _
        (record { holds = still s st; has_read = tt; given = λ v g. absurd (cc) })
        (λ f. read-Advanced (read_first (e.get a.key s).0) (get-IsRead e laws a.key s n st))
  advance-Advanced (read_first r) h =
      first-Advanced e laws a n positive room (rebase_from e a (r, s)) (from_read r h).0
  advance-Advanced initialized h =
      let (k, left) =
        rebased (fast_rebase_locked e (a, s))
          (fast_rebase_locked-Rebased e laws a s n st high room) in
      if-Advanced (a.base == a.end) _ _
        (fast-Advanced e laws a n positive room (fast_rebase_locked e (a, s)) k left)
        (λ f. give-Advanced e laws a n positive room (a, s) (still s st) (ground arith))
  advance-Advanced fast_failed h =
      read-Advanced (read_again (e.get a.key s).0) (get-IsRead e laws a.key s n st)
  advance-Advanced (read_again r) h =
      let (k, left) = from_read r h in
      again-Advanced e laws a n positive room (rebase_from e a (r, s)) k left
