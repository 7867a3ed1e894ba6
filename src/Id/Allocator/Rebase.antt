-- ===== src/Id/Allocator/Rebase.antt =====
-- The rebases of server/id/id_impl.go against the counter that the store holds.
use ceresmeta.Common.{
  ltb, if◌then◌else◌, u64, nat_eq, Bool-cases, Error, Result, ok, err, ℕ, ◌+◌, ◌^◌, ◌≤◌, ◌<◌, ◌≡◌,
  refl, sym, ap, ◌⊎◌, inl, inr, Bool, true, false, none, some, List, [], ◌∷◌, arith, txn_put_end_id,
  alloc_id, kv_get_response, Bytes, bytes_eq, bytes_eq_refl, bytes_eq_sound,
}
use ceresmeta.Etcd.{Etcd, EtcdLaws, Cmp, key_missing, value_equals, put, all_hold}
use ceresmeta.Id.Codec.{encode_id, decode_id, decode_id-encode_id}
use ceresmeta.Id.Allocator.{
  AllocatorImpl, committed, first_do_rebase_locked, do_rebase_locked, rebase_from,
  slow_rebase_locked, fast_rebase_locked,
}

pub encode_id-injective : (n m : ℕ) → n < 2 ^ 64 → m < 2 ^ 64 → encode_id n ≡ encode_id m → n ≡ m
encode_id-injective n m h k p =
    cc (decode_id-encode_id n h, decode_id-encode_id m k, ap decode_id p)

-- The store holds the counter `n` at the key; a missing key stands for 0.
abbrev pub Stored : (e : Etcd) → e.State → Bytes → ℕ → Type 0
Stored e s k n = (e.content s k ≡ some (encode_id n)) ⊎ ((e.content s k ≡ none) × (n ≡ 0))

-- A response to the read of a counter that was not above `n`.
abbrev pub IsRead : ℕ → Result (List Bytes) → Type 0
IsRead n r = (v : Bytes) → r ≡ ok (v ∷ []) → (c : ℕ) × (c ≤ n) × (v ≡ encode_id c)

-- What a rebase does: it fails with the struct as it was, or it reserves the ids from the counter
-- on. The counter stays or passes the reserved ids; after a failure too, if the commit was lost.
pub record Rebased (e : Etcd) (a : AllocatorImpl) (n : ℕ)
    (out : Result (Unit {0}) × (AllocatorImpl × e.State)) : Type 0 where
  pub counter : ℕ
  pub stored : Stored e out.1.1 a.key counter
  pub grows : n ≤ counter
  pub bounded : counter ≤ n + a.alloc_step
  pub outcome :
      ((x : Error) × (out.0 ≡ err x) × (out.1.0 ≡ a))
      ⊎ ((out.0 ≡ ok tt)
          × (out.1.0 ≡ record a { base = n; end = n + a.alloc_step })
          × (counter ≡ n + a.alloc_step))

module _ (e : Etcd) (laws : EtcdLaws e) where
  abbrev Out : Type 0
  Out = Result (Unit {0}) × (AllocatorImpl × e.State)

  committed-cases :
      (a a' : AllocatorImpl) (p : Result Bool × e.State)
      → ((x : Error) × (p.0 ≡ err x) × (committed e a a' p ≡ (err x, (a, p.1))))
        ⊎ ((p.0 ≡ ok false) × (committed e a a' p ≡ (err txn_put_end_id, (a, p.1))))
        ⊎ ((p.0 ≡ ok true) × (committed e a a' p ≡ (ok tt, (a', p.1))))
  unfolding committed
  committed-cases a a' (err x, s) = inl (x, refl, refl)
  committed-cases a a' (ok false, s) = inr (inl (refl, refl))
  committed-cases a a' (ok true, s) = inr (inr (refl, refl))

  fail :
      (a : AllocatorImpl) (n m : ℕ) (x : Error) (s : e.State)
      → Stored e s a.key m
      → n ≤ m
      → m ≤ n + a.alloc_step
      → Rebased e a n (err x, (a, s))
  fail a n m x s st l u = record {
    counter = m;
    stored = st;
    grows = l;
    bounded = u;
    outcome = inl (x, refl, refl);
  }

  -- The counter after a put.
  put-Stored :
      (k : Bytes) (t : ℕ) (s s' : e.State)
      → e.content s' k ≡ (if bytes_eq k k then some (encode_id t) else e.content s k)
      → Stored e s' k t
  put-Stored k t s s' h = inl (rw bytes_eq_refl at h)

  Stored-keeps :
      (k : Bytes) (n : ℕ) (s s' : e.State)
      → e.content s' k ≡ e.content s k
      → Stored e s k n
      → Stored e s' k n
  Stored-keeps k n s s' h st = rw h st

  -- A transaction that guards the counter `n` and puts the next one.
  committed-Rebased :
      (a a' : AllocatorImpl) (cs : List Cmp) (s : e.State) (n t : ℕ)
      → Stored e s a.key n
      → (all_hold cs (e.content s) ≡ true
          → (a' ≡ record a { base = n; end = n + a.alloc_step }) × (t ≡ n + a.alloc_step))
      → Rebased e a n (committed e a a' (e.txn cs (put a.key (encode_id t) ∷ []) s))
  committed-Rebased a a' cs s n t st good =
      let os = put a.key (encode_id t) ∷ [] in
      let k = a.key in
      elim (committed-cases a a' (e.txn cs os s)) [
        | inl (x, failed, c) ↦ rw c (elim (laws.txn_fails cs os s x failed) [
          | inl same ↦ fail a n n x _ (Stored-keeps k n s _ (same k) st) (omega arith) (omega arith)
          | inr (guarded, wrote) ↦
              fail a n t x _ (put-Stored k t s _ (wrote k)) (omega (arith, (good guarded).1))
                (omega (arith, (good guarded).1))
        ])
        | inr (inl (failed, c)) ↦ rw c (
            fail a n n txn_put_end_id _
              (Stored-keeps k n s _ (laws.txn_writes cs os s false k failed) st) (omega arith)
              (omega arith))
        | inr (inr (done, c)) ↦
            let guarded = sym (laws.txn_ok cs os s true done) in
            let (reserved, next) = good guarded in
            rw c (record {
              counter = t;
              stored = put-Stored k t s _ (laws.txn_writes cs os s true k done);
              grows = omega (arith, next);
              bounded = omega (arith, next);
              outcome = inr (refl, reserved, next);
            })
      ]

  -- The guard of a rebase from `c` holds only at the counter `c`.
  guard_counter :
      (k : Bytes) (s : e.State) (n c : ℕ)
      → Stored e s k n
      → n < 2 ^ 64
      → c < 2 ^ 64
      → all_hold (value_equals k (encode_id c) ∷ []) (e.content s) ≡ true
      → n ≡ c
  guard_counter k s n c (inl there) h h' g =
      encode_id-injective n c h h'
        (bytes_eq_sound (encode_id n) (encode_id c) (ground (arith, there)))
  guard_counter k s n c (inr missing) h h' g = absurd (ground (arith, missing))

  do_rebase_locked-Rebased :
      (a : AllocatorImpl) (s : e.State) (n c : ℕ)
      → Stored e s a.key n
      → n + a.alloc_step < 2 ^ 64
      → c + a.alloc_step < 2 ^ 64
      → Rebased e a n (do_rebase_locked e c (a, s))
  unfolding do_rebase_locked
  do_rebase_locked-Rebased a s n c st room room' = elim (Bool-cases (ltb c a.base)) [
    | inl low ↦ rw low (fail a n n alloc_id s st (omega arith) (omega arith))
    | inr fits ↦ rw fits (
        committed-Rebased a (record a { base = c; end = u64 (c + a.alloc_step) })
          (value_equals a.key (encode_id c) ∷ []) s n (u64 (c + a.alloc_step)) st
          (λ g.
            let same = guard_counter a.key s n c st (omega arith) (omega arith) g in
            (ground arith, omega arith)))
  ]

  missing_counter :
      (k : Bytes) (s : e.State) (n : ℕ)
      → Stored e s k n
      → all_hold (key_missing k ∷ []) (e.content s) ≡ true
      → n ≡ 0
  missing_counter k s n (inl there) g = absurd (ground (arith, there))
  missing_counter k s n (inr missing) g = missing.1

  first_do_rebase_locked-Rebased :
      (a : AllocatorImpl) (s : e.State) (n : ℕ)
      → Stored e s a.key n
      → a.base ≤ n
      → Rebased e a n (first_do_rebase_locked e (a, s))
  unfolding first_do_rebase_locked
  first_do_rebase_locked-Rebased a s n st low =
      committed-Rebased a (record a { end = a.alloc_step }) (key_missing a.key ∷ []) s n
        a.alloc_step st
        (λ g. let empty = missing_counter a.key s n st g in (ground arith, omega arith))

  -- A rebase from a response: the counter may have passed what was read.
  pub rebase_from-Rebased :
      (a : AllocatorImpl) (s : e.State) (n : ℕ) (r : Result (List Bytes))
      → Stored e s a.key n
      → a.base ≤ n
      → n + a.alloc_step < 2 ^ 64
      → IsRead n r
      → Rebased e a n (rebase_from e a (r, s))
  unfolding rebase_from
  rebase_from-Rebased a s n (err x) st low room read = fail a n n x s st (omega arith) (omega arith)
  rebase_from-Rebased a s n (ok []) st low room read = first_do_rebase_locked-Rebased a s n st low
  rebase_from-Rebased a s n (ok (v ∷ [])) st low room read =
      let (c, l, same) = read v refl in
      rw same (
        rw (decode_id-encode_id c (omega arith))
          (do_rebase_locked-Rebased a s n c st room (omega arith)))
  rebase_from-Rebased a s n (ok (v ∷ w ∷ vs)) st low room read =
      fail a n n kv_get_response s st (omega arith) (omega arith)

  -- A read that returns is of the counter.
  pub get-IsRead : (k : Bytes) (s : e.State) (n : ℕ) → Stored e s k n → IsRead n (e.get k s).0
  get-IsRead k s n (inl there) v h =
      (n, omega arith, ground (arith, laws.get_ok k s (v ∷ []) h, there))
  get-IsRead k s n (inr missing) v h = absurd (ground (arith, laws.get_ok k s (v ∷ []) h, missing))

  pub get-Stored : (k : Bytes) (s : e.State) (n : ℕ) → Stored e s k n → Stored e (e.get k s).1 k n
  get-Stored k s n st = Stored-keeps k n s (e.get k s).1 (laws.get_keeps k k s) st

  -- A rebase from the counter that it reads.
  pub slow_rebase_locked-Rebased :
      (a : AllocatorImpl) (s : e.State) (n : ℕ)
      → Stored e s a.key n
      → a.base ≤ n
      → n + a.alloc_step < 2 ^ 64
      → Rebased e a n (slow_rebase_locked e (a, s))
  unfolding slow_rebase_locked
  slow_rebase_locked-Rebased a s n st low room =
      let p = e.get a.key s in
      rebase_from-Rebased a p.1 n p.0 (get-Stored a.key s n st) low room (get-IsRead a.key s n st)

  -- A rebase from the end that the struct remembers.
  pub fast_rebase_locked-Rebased :
      (a : AllocatorImpl) (s : e.State) (n : ℕ)
      → Stored e s a.key n
      → a.end ≤ n
      → n + a.alloc_step < 2 ^ 64
      → Rebased e a n (fast_rebase_locked e (a, s))
  unfolding fast_rebase_locked
  fast_rebase_locked-Rebased a s n st low room =
      do_rebase_locked-Rebased a s n a.end st room (omega arith)
