-- ===== src/Id/Allocator/Session/Alone.antt =====
-- The steps of a call, when no other process is in between, are the call.
use ceresmeta.Etcd.{Etcd}
use ceresmeta.Id.Allocator.{
  AllocatorImpl, is_exhausted, rebase_from, slow_rebase_locked, fast_rebase_locked, initialize,
  Alloc, or_slow, refill, next_id, alloc,
}
use ceresmeta.Id.Allocator.Session.{
  idle, read_first, initialized, going, give, after_first, after_fast, after_again, advance, settle,
}
use ceresmeta.Common.{
  nat_eq, Bool-cases, Result, ok, err, modify, continue, ◌>>=◌, ℕ, suc, ◌≡◌, refl, sym, ap, ◌∙◌,
  inl, inr, true, false, Option, some,
}

module _ (e : Etcd) where
  abbrev Out : Type 0
  Out = Result (Unit {0}) × (AllocatorImpl × e.State)

  settle-again :
      (n : ℕ) (out : Out)
      → settle e (suc n) (after_again e out) ≡ some (continue out.0 (λ u. next_id e) out.1)
  unfolding settle
  settle-again n (err x, t) = refl
  settle-again n (ok u, t) = refl

  settle-fast :
      (n : ℕ) (out : Out)
      → settle e (suc (suc (suc n))) (after_fast e out)
        ≡ some (continue (or_slow e out).0 (λ u. next_id e) (or_slow e out).1)
  unfolding settle advance or_slow slow_rebase_locked
  settle-fast n (err x, (a, s)) = settle-again n (rebase_from e a (e.get a.key s))
  settle-fast n (ok u, t) = refl

  advance-give :
      (a : AllocatorImpl) (s : e.State)
      → is_exhausted a ≡ false
      → advance e initialized (a, s) ≡ give e (a, s)
  unfolding advance
  advance-give a s h = rw h refl

  advance-fast :
      (a : AllocatorImpl) (s : e.State)
      → is_exhausted a ≡ true
      → advance e initialized (a, s) ≡ after_fast e (fast_rebase_locked e (a, s))
  unfolding advance
  advance-fast a s h = rw h refl

  refill-fast :
      (a : AllocatorImpl) (s : e.State)
      → is_exhausted a ≡ true
      → refill e (a, s) ≡ or_slow e (fast_rebase_locked e (a, s))
  unfolding refill
  refill-fast a s h = rw h refl

  refill-full :
      (a : AllocatorImpl) (s : e.State) → is_exhausted a ≡ false → refill e (a, s) ≡ (ok tt, (a, s))
  unfolding refill
  refill-full a s h = rw h refl

  abbrev and_next : Out → Option (Result ℕ × (AllocatorImpl × e.State))
  and_next out = some (continue out.0 (λ (u : Unit {0}). next_id e) out.1)

  settle-initialized :
      (n : ℕ) (a : AllocatorImpl) (s : e.State)
      → settle e (suc (suc (suc (suc n)))) (going initialized, (a, s)) ≡ and_next (refill e (a, s))
  unfolding settle
  settle-initialized n a s = elim (Bool-cases (is_exhausted a)) [
    | inl h ↦
        ap (settle e (suc (suc (suc n)))) (advance-fast a s h)
        ∙ settle-fast n (fast_rebase_locked e (a, s))
        ∙ ap and_next (sym (refill-fast a s h))
    | inr h ↦
        ap (settle e (suc (suc (suc n)))) (advance-give a s h)
        ∙ ap and_next (sym (refill-full a s h))
  ]

  abbrev and_refill : Out → Option (Result ℕ × (AllocatorImpl × e.State))
  and_refill out =
      some (continue out.0 (λ (u : Unit {0}). refill e >>= λ (u : Unit {0}). next_id e) out.1)

  abbrev flag : Unit {0} → Alloc e (Unit {0})
  flag u = modify (λ (a, s). (record a { is_initialized = true }, s))

  settle-first :
      (n : ℕ) (out : Out)
      → settle e (suc (suc (suc (suc n)))) (after_first e out)
        ≡ and_refill (continue out.0 flag out.1)
  unfolding settle
  settle-first n (err x, t) = refl
  settle-first n (ok u, (a, s)) = settle-initialized n (record a { is_initialized = true }) s

  initialize-done :
      (a : AllocatorImpl) (s : e.State)
      → a.is_initialized ≡ true
      → (initialize e (a, s) ≡ (ok tt, (a, s)))
        × (advance e idle (a, s) ≡ (going initialized, (a, s)))
  unfolding initialize advance
  initialize-done a s h = (rw h refl, rw h refl)

  initialize-slow :
      (a : AllocatorImpl) (s : e.State)
      → a.is_initialized ≡ false
      → let r = e.get a.key s in
        (initialize e (a, s) ≡ continue (rebase_from e a r).0 flag (rebase_from e a r).1)
        × (advance e idle (a, s) ≡ (going (read_first r.0), (a, r.1)))
  unfolding initialize advance slow_rebase_locked
  initialize-slow a s h = (rw h refl, rw h refl)

  alloc-initialize : (t : AllocatorImpl × e.State) → some (alloc e t) ≡ and_refill (initialize e t)
  unfolding alloc
  alloc-initialize t = refl

  -- With no other process in between, the steps of a call are `alloc`.
  pub settle-alloc :
      (t : AllocatorImpl × e.State) → settle e 5 (advance e idle t) ≡ some (alloc e t)
  unfolding settle advance
  settle-alloc (a, s) = elim (Bool-cases a.is_initialized) [
    | inl h ↦
        let (x, y) = initialize-done a s h in
        ap (settle e 5) y
        ∙ settle-initialized 1 a s
        ∙ ap and_refill (sym x)
        ∙ sym (alloc-initialize (a, s))
    | inr h ↦
        let (x, y) = initialize-slow a s h in
        let r = e.get a.key s in
        ap (settle e 5) y
        ∙ settle-first 0 (rebase_from e a r)
        ∙ ap and_refill (sym x)
        ∙ sym (alloc-initialize (a, s))
  ]
