-- ===== src/Id/Allocator/Step.antt =====
-- One call of `Alloc` of server/id/id_impl.go, against the counter that the store holds.
use ceresmeta.Common.{
  if◌then◌else◌, u64, ◌==◌, nat_eq, Bool-cases, Error, Result, ok, err, continue, ◌>>=◌, ℕ, ◌+◌,
  ◌*◌, ◌^◌, ◌≤◌, ◌<◌, ◌≡◌, refl, ◌⊎◌, inl, inr, Bool, true, false, arith,
}
use ceresmeta.Etcd.{Etcd, EtcdLaws}
use ceresmeta.Id.Allocator.{
  AllocatorImpl, Alloc, initialize, or_slow, refill, next_id, alloc, slow_rebase_locked,
  fast_rebase_locked,
}
use ceresmeta.Id.Allocator.Rebase.{
  Stored, Rebased, slow_rebase_locked-Rebased, fast_rebase_locked-Rebased,
}

-- The struct and the store on the way from the struct `a` and the counter `n`, after reserving
-- at most `budget` ids: what the struct holds it held before, or it lies past the counter.
pub record Held (e : Etcd) (a : AllocatorImpl) (n budget : ℕ) (t : AllocatorImpl × e.State)
    : Type 0 where
  pub counter : ℕ
  pub stored : Stored e t.1 a.key counter
  pub grows : n ≤ counter
  pub bounded : counter ≤ n + budget
  pub same_key : t.0.key ≡ a.key
  pub same_step : t.0.alloc_step ≡ a.alloc_step
  pub ordered : t.0.base ≤ t.0.end
  pub below : t.0.end ≤ counter
  pub reserved : (u : ℕ) → t.0.base ≤ u → u < t.0.end → ((a.base ≤ u) × (u < a.end)) ⊎ (n ≤ u)

-- The result of a call: what is held after it, and where the id comes from.
pub record Allocated (e : Etcd) (a : AllocatorImpl) (n : ℕ)
    (out : Result ℕ × (AllocatorImpl × e.State)) : Type 0 where
  pub holds : Held e a n (3 * a.alloc_step) out.1
  pub given :
      (v : ℕ)
      → out.0 ≡ ok v
      → (((a.base ≤ v) × (v < a.end)) ⊎ (n ≤ v)) × (v < out.1.0.base) × (v < holds.counter)

module _ (e : Etcd) (laws : EtcdLaws e) (a : AllocatorImpl) (n : ℕ)
    (positive : 0 < a.alloc_step) where
  abbrev T : Type 0
  T = AllocatorImpl × e.State

  -- A rebase on the way.
  pub rebase-Held :
      (t : T) (budget : ℕ) (h : Held e a n budget t) (out : Result (Unit {0}) × T)
      → Rebased e t.0 h.counter out
      → Held e a n (budget + a.alloc_step) out.1 × (out.0 ≡ ok tt → out.1.0.base < out.1.0.end)
  rebase-Held t budget h out r =
      let st : Stored e out.1.1 a.key r.counter = rw h.same_key at r.stored in
      elim r.outcome [
        | inl (x, failed, kept) ↦ (
          record {
            counter = r.counter;
            stored = st;
            grows = omega (arith, r.grows, h.grows);
            bounded = omega (arith, r.bounded, h.bounded, h.same_step);
            same_key = rw kept h.same_key;
            same_step = rw kept h.same_step;
            ordered = rw kept h.ordered;
            below = rw kept (omega (arith, h.below, r.grows));
            reserved = rw kept h.reserved;
          },
          λ done. absurd (ground arith),
        )
        | inr (done, got, next) ↦ (
          record {
            counter = r.counter;
            stored = st;
            grows = omega (arith, r.grows, h.grows);
            bounded = omega (arith, r.bounded, h.bounded, h.same_step);
            same_key = rw got h.same_key;
            same_step = rw got h.same_step;
            ordered = rw got (omega arith);
            below = rw got (omega (arith, next));
            reserved = rw got (λ u l b. inr (omega (arith, h.grows)));
          },
          λ _. rw got (omega (arith, h.same_step)),
        )
      ]

  pub weaken : (t : T) (b c : ℕ) → b ≤ c → Held e a n b t → Held e a n c t
  weaken t b c l h = record {
    counter = h.counter;
    stored = h.stored;
    grows = h.grows;
    bounded = omega (arith, h.bounded);
    same_key = h.same_key;
    same_step = h.same_step;
    ordered = h.ordered;
    below = h.below;
    reserved = h.reserved;
  }

  slow-Held :
      (t : T) (budget : ℕ) (h : Held e a n budget t)
      → n + budget + a.alloc_step < 2 ^ 64
      → let out = slow_rebase_locked e t in
        Held e a n (budget + a.alloc_step) out.1 × (out.0 ≡ ok tt → out.1.0.base < out.1.0.end)
  slow-Held t budget h room = rebase-Held t budget h (slow_rebase_locked e t) (
      slow_rebase_locked-Rebased e laws t.0 t.1 h.counter (rw h.same_key h.stored)
        (omega (arith, h.ordered, h.below)) (omega (arith, h.bounded, h.same_step)))

  fast-Held :
      (t : T) (budget : ℕ) (h : Held e a n budget t)
      → n + budget + a.alloc_step < 2 ^ 64
      → let out = fast_rebase_locked e t in
        Held e a n (budget + a.alloc_step) out.1 × (out.0 ≡ ok tt → out.1.0.base < out.1.0.end)
  fast-Held t budget h room = rebase-Held t budget h (fast_rebase_locked e t) (
      fast_rebase_locked-Rebased e laws t.0 t.1 h.counter (rw h.same_key h.stored)
        (omega (arith, h.below)) (omega (arith, h.bounded, h.same_step)))

  -- Setting the flag keeps what is held.
  pub flag-Held :
      (b : Bool) (t : T) (budget : ℕ)
      → Held e a n budget t
      → Held e a n budget (record t.0 { is_initialized = b }, t.1)
  flag-Held b t budget h = record {
    counter = h.counter;
    stored = h.stored;
    grows = h.grows;
    bounded = h.bounded;
    same_key = h.same_key;
    same_step = h.same_step;
    ordered = h.ordered;
    below = h.below;
    reserved = h.reserved;
  }

  continue-Held :
      (budget : ℕ) (out : Result (Unit {0}) × T) (f : Unit {0} → Alloc e (Unit {0}))
      → Held e a n budget out.1
      → ((t : T) → Held e a n budget t → Held e a n budget (f tt t).1)
      → Held e a n budget (continue out.0 f out.1).1
  continue-Held budget (ok tt, t) f h next = next t h
  continue-Held budget (err x, t) f h next = h

  if-Held :
      (budget : ℕ) (b : Bool) (x y : Result (Unit {0}) × T)
      → Held e a n budget x.1
      → Held e a n budget y.1
      → Held e a n budget (if b then x else y).1
  if-Held budget true x y h k = h
  if-Held budget false x y h k = k

  initialize-Held :
      (t : T)
      → Held e a n 0 t
      → n + a.alloc_step < 2 ^ 64
      → Held e a n a.alloc_step (initialize e t).1
  unfolding initialize
  initialize-Held t h room =
      if-Held a.alloc_step t.0.is_initialized (ok tt, t) _ (weaken t 0 a.alloc_step (omega arith) h)
        (continue-Held a.alloc_step (slow_rebase_locked e t) _
          (weaken _ (0 + a.alloc_step) a.alloc_step (omega arith) (slow-Held t 0 h (omega arith)).0)
          (λ t' h'. flag-Held true t' a.alloc_step h'))

  or_slow-Held :
      (budget : ℕ) (out : Result (Unit {0}) × T)
      → n + budget + a.alloc_step < 2 ^ 64
      → Held e a n budget out.1
      → (out.0 ≡ ok tt → out.1.0.base < out.1.0.end)
      → Held e a n (budget + a.alloc_step) (or_slow e out).1
        × ((or_slow e out).0 ≡ ok tt → (or_slow e out).1.0.base < (or_slow e out).1.0.end)
  unfolding or_slow
  or_slow-Held budget (ok tt, t) room h left =
      (weaken t budget (budget + a.alloc_step) (omega arith) h, left)
  or_slow-Held budget (err x, t) room h left = slow-Held t budget h room

  refill-Held :
      (t : T) (budget : ℕ)
      → Held e a n budget t
      → n + budget + 2 * a.alloc_step < 2 ^ 64
      → Held e a n (budget + a.alloc_step + a.alloc_step) (refill e t).1
        × ((refill e t).0 ≡ ok tt → (refill e t).1.0.base < (refill e t).1.0.end)
  unfolding refill
  refill-Held t budget h room = elim (Bool-cases (t.0.base == t.0.end)) [
    | inl empty ↦ rw empty (
        let (h', left) = fast-Held t budget h (omega arith) in
        or_slow-Held (budget + a.alloc_step) (fast_rebase_locked e t) (omega arith) h' left)
    | inr some_left ↦ rw some_left (
      weaken t budget (budget + a.alloc_step + a.alloc_step) (omega arith) h,
      λ _. ground (arith, h.ordered),
    )
  ]

  -- The id given out leaves the range.
  pub next_id-Held :
      (t : T) (budget : ℕ)
      → Held e a n budget t
      → t.0.base < t.0.end
      → n + budget < 2 ^ 64
      → (h : Held e a n budget (next_id e t).1) × ((v : ℕ)
          → (next_id e t).0 ≡ ok v
          → (((a.base ≤ v) × (v < a.end)) ⊎ (n ≤ v))
            × (v < (next_id e t).1.0.base)
            × (v < h.counter))
  unfolding next_id
  next_id-Held t budget h left room =
      let exact : u64 (t.0.base + 1) ≡ t.0.base + 1 = omega (arith, h.below, h.bounded) in
      (
        record {
          counter = h.counter;
          stored = h.stored;
          grows = h.grows;
          bounded = h.bounded;
          same_key = h.same_key;
          same_step = h.same_step;
          ordered = rw exact (omega arith);
          below = h.below;
          reserved = rw exact (λ u l b. h.reserved u (omega arith) b);
        },
        rw exact (λ v g. ground (arith, h.reserved t.0.base, h.below)),
      )

  next_id-Allocated :
      (t : T) (h : Held e a n (3 * a.alloc_step) t)
      → t.0.base < t.0.end
      → n + 3 * a.alloc_step < 2 ^ 64
      → Allocated e a n (next_id e t)
  next_id-Allocated t h left room =
      let (h', given) = next_id-Held t (3 * a.alloc_step) h left room in
      record { holds = h'; given = given }

  failed-Allocated :
      (x : Error) (t : T) (budget : ℕ)
      → budget ≤ 3 * a.alloc_step
      → Held e a n budget t
      → Allocated e a n (err x, t)
  failed-Allocated x t budget l h = record {
    holds = weaken t budget (3 * a.alloc_step) l h;
    given = λ v g. absurd (ground arith);
  }

  after_refill :
      (out : Result (Unit {0}) × T)
      → n + 3 * a.alloc_step < 2 ^ 64
      → Held e a n (3 * a.alloc_step) out.1
      → (out.0 ≡ ok tt → out.1.0.base < out.1.0.end)
      → Allocated e a n (continue out.0 (λ _. next_id e) out.1)
  after_refill (err x, t) room h left = failed-Allocated x t (3 * a.alloc_step) (omega arith) h
  after_refill (ok tt, t) room h left = next_id-Allocated t h (left refl) room

  after_initialize :
      (out : Result (Unit {0}) × T)
      → n + 3 * a.alloc_step < 2 ^ 64
      → Held e a n a.alloc_step out.1
      → Allocated e a n (continue out.0 (λ _. refill e >>= λ _. next_id e) out.1)
  after_initialize (err x, t) room h = failed-Allocated x t a.alloc_step (omega arith) h
  after_initialize (ok tt, t) room h =
      let (h', left) = refill-Held t a.alloc_step h (omega arith) in
      after_refill (refill e t) room (weaken _ _ (3 * a.alloc_step) (omega arith) h') left

-- A call of `Alloc` on a struct whose range lies below the counter, with room for three steps below
-- 2^64: the struct's new range and the id given out come from its old range or from past the
-- counter, the id lies outside the new range, and both lie below the new counter.
pub alloc-Allocated :
    (e : Etcd) (laws : EtcdLaws e) (a : AllocatorImpl) (s : e.State) (n : ℕ)
    → 0 < a.alloc_step
    → n + 3 * a.alloc_step < 2 ^ 64
    → Stored e s a.key n
    → a.base ≤ a.end
    → a.end ≤ n
    → Allocated e a n (alloc e (a, s))
unfolding alloc
alloc-Allocated e laws a s n positive room st low high =
    after_initialize e laws a n positive (initialize e (a, s)) room (
      initialize-Held e laws a n positive (a, s)
        (record {
          counter = n;
          stored = st;
          grows = omega arith;
          bounded = omega arith;
          same_key = refl;
          same_step = refl;
          ordered = low;
          below = high;
          reserved = λ u l b. inl (l, b);
        })
        (omega arith))
