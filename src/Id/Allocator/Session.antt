-- ===== src/Id/Allocator/Session.antt =====
-- A call of `Alloc` of server/id/id_impl.go, one call of etcd a step: the mutex is that of one struct, so
-- between two steps other processes may move the counter.
pub mod Laws
pub mod Alone
use ceresmeta.Etcd.{Etcd}
use ceresmeta.Id.Allocator.{AllocatorImpl, is_exhausted, rebase_from, fast_rebase_locked, next_id}
use ceresmeta.Common.{
  if◌then◌else◌, nat_eq, Result, ok, err, ℕ, zero, suc, true, Option, none, some, List, Bytes,
}

-- Where a call stands, with the response of `kv.Get` that it holds there.
pub data Phase : Type 0 where
  idle : Phase  -- before a call of `Alloc`
  read_first : Result (List Bytes) → Phase  -- after the Get of an allocator that is not initialized
  initialized : Phase  -- before the test of `isExhausted`
  fast_failed : Phase  -- after the fast rebase has failed
  read_again : Result (List Bytes) → Phase  -- after the Get that follows

pub data Progress : Type 0 where
  going : Phase → Progress
  done : Result ℕ → Progress

-- A call that has ended leaves the process idle.
abbrev pub phase_of : Progress → Phase
phase_of (going p) = p
phase_of (done r) = idle

abbrev pub result_of : Progress → Option (Result ℕ)
result_of (going p) = none
result_of (done r) = some r

module _ (e : Etcd) where
  abbrev pub Turn : Type 0
  Turn = Progress × (AllocatorImpl × e.State)

  abbrev pub give : AllocatorImpl × e.State → Turn
  give t = (done (next_id e t).0, (next_id e t).1)

  abbrev pub after_first : Result (Unit {0}) × (AllocatorImpl × e.State) → Turn
  after_first (err x, t) = (done (err x), t)
  after_first (ok u, (a, s)) = (going initialized, (record a { is_initialized = true }, s))

  abbrev pub after_fast : Result (Unit {0}) × (AllocatorImpl × e.State) → Turn
  after_fast (err x, t) = (going fast_failed, t)
  after_fast (ok u, t) = give t

  abbrev pub after_again : Result (Unit {0}) × (AllocatorImpl × e.State) → Turn
  after_again (err x, t) = (done (err x), t)
  after_again (ok u, t) = give t

  -- One step: at most one Get, or one transaction.
  pub advance : Phase → AllocatorImpl × e.State → Turn
  advance idle (a, s) =
      if a.is_initialized
      then (going initialized, (a, s))
      else (going (read_first (e.get a.key s).0), (a, (e.get a.key s).1))
  advance (read_first r) (a, s) = after_first (rebase_from e a (r, s))
  advance initialized (a, s) =
      if is_exhausted a then after_fast (fast_rebase_locked e (a, s)) else give (a, s)
  advance fast_failed (a, s) = (going (read_again (e.get a.key s).0), (a, (e.get a.key s).1))
  advance (read_again r) (a, s) = after_again (rebase_from e a (r, s))

  -- The steps of one call with no other process in between.
  pub settle : ℕ → Turn → Option (Result ℕ × (AllocatorImpl × e.State))
  unfolding advance
  settle zero (going p, t) = none
  settle zero (done r, t) = some (r, t)
  settle (suc n) (going p, t) = settle n (advance p t)
  settle (suc n) (done r, t) = some (r, t)
