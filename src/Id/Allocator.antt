-- ===== src/Id/Allocator.antt =====
-- server/id/id_impl.go: the allocator that reserves ranges of ids through a counter in etcd.
pub mod Rebase
pub mod Step
pub mod Session
pub mod System
use ceresmeta.Common.{
  ltb, if◌then◌else◌, u64, ◌==◌, nat_eq, Result, ok, err, Exec, raise, modify, ◌>>=◌, ◌>>◌, ℕ, ◌+◌,
  Bool, true, false, List, [], ◌∷◌, txn_put_end_id, alloc_id, kv_get_response,
  collect_not_supported, Bytes,
}
use ceresmeta.Etcd.{Etcd, key_missing, value_equals, put}
use ceresmeta.Id.Codec.{encode_id, decode_id}

pub record AllocatorImpl : Type 0 where
  pub base : ℕ
  pub end : ℕ
  pub key : Bytes
  pub alloc_step : ℕ
  pub is_initialized : Bool

pub new_allocator_impl : Bytes → ℕ → AllocatorImpl
new_allocator_impl key step = record {
  base = 0;
  end = 0;
  key = key;
  alloc_step = step;
  is_initialized = false;
}

pub is_exhausted : AllocatorImpl → Bool
is_exhausted a = a.base == a.end

-- The methods act on the struct and on the store; the mutex makes `alloc` one step of the struct.
module _ (e : Etcd) where
  abbrev pub Alloc : Type 0 → Type 0
  Alloc A = Exec (AllocatorImpl × e.State) A

  -- What follows the commit: `a'` is the struct after a transaction that succeeds.
  committed :
      AllocatorImpl
      → AllocatorImpl
      → Result Bool × e.State
      → Result (Unit {0}) × (AllocatorImpl × e.State)
  committed a a' (err x, s) = (err x, (a, s))
  committed a a' (ok false, s) = (err txn_put_end_id, (a, s))
  committed a a' (ok true, s) = (ok tt, (a', s))

  first_do_rebase_locked : Alloc (Unit {0})
  unfolding committed
  first_do_rebase_locked (a, s) =
      committed a (record a { end = a.alloc_step })
        (e.txn (key_missing a.key ∷ []) (put a.key (encode_id a.alloc_step) ∷ []) s)

  do_rebase_locked : ℕ → Alloc (Unit {0})
  unfolding committed
  do_rebase_locked curr_end (a, s) =
      let new_end = u64 (curr_end + a.alloc_step) in
      if ltb curr_end a.base
      then (err alloc_id, (a, s))
      else committed a (record a { base = curr_end; end = new_end })
          (e.txn (value_equals a.key (encode_id curr_end) ∷ []) (put a.key (encode_id new_end) ∷ [])
            s)

  -- The cases of the response of `kv.Get`.
  pub rebase_from :
      AllocatorImpl → Result (List Bytes) × e.State → Result (Unit {0}) × (AllocatorImpl × e.State)
  rebase_from a (err x, s) = (err x, (a, s))
  rebase_from a (ok [], s) = first_do_rebase_locked (a, s)
  rebase_from a (ok (v ∷ []), s) = do_rebase_locked (decode_id v) (a, s)
  rebase_from a (ok (v ∷ w ∷ vs), s) = (err kv_get_response, (a, s))

  pub slow_rebase_locked : Alloc (Unit {0})
  unfolding rebase_from
  slow_rebase_locked (a, s) = rebase_from a (e.get a.key s)

  pub fast_rebase_locked : Alloc (Unit {0})
  fast_rebase_locked (a, s) = do_rebase_locked a.end (a, s)

  -- The first part of `Alloc`: an initialized allocator.
  initialize : Alloc (Unit {0})
  initialize (a, s) =
      if a.is_initialized
      then (ok tt, (a, s))
      else (slow_rebase_locked >>= λ _.
            modify (λ (a', s'). (record a' { is_initialized = true }, s')))
          (a, s)

  -- On a failure of the fast rebase the slow one is tried.
  or_slow :
      Result (Unit {0}) × (AllocatorImpl × e.State) → Result (Unit {0}) × (AllocatorImpl × e.State)
  or_slow (ok _, t) = (ok tt, t)
  or_slow (err _, t) = slow_rebase_locked t

  -- The second part: an allocator with an id left.
  refill : Alloc (Unit {0})
  unfolding or_slow is_exhausted
  refill (a, s) = if is_exhausted a then or_slow (fast_rebase_locked (a, s)) else (ok tt, (a, s))

  -- The last part: `ret := a.base; a.base++`.
  pub next_id : Alloc ℕ
  next_id (a, s) = (ok a.base, (record a { base = u64 (a.base + 1) }, s))

  pub alloc : Alloc ℕ
  unfolding initialize refill next_id
  alloc = do initialize; refill; next_id

  pub collect : ℕ → Alloc (Unit {0})
  collect id = raise collect_not_supported
