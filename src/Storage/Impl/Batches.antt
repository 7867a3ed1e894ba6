-- ===== src/Storage/Impl/Batches.antt =====
-- The loop of CreateShardViews over the batches.
use ceresmeta.Etcd.{Etcd, EtcdLaws, Cmp, Op}
use ceresmeta.Storage.{ShardView}
use ceresmeta.Storage.Impl.{
  MetaStorageImpl, shard_view_ops, create_n_shard_views, create_batches, create_shard_views,
}
use ceresmeta.Common.{
  nat_eq, Bool-cases, Option-cases, length, take, drop, err, ℕ, zero, suc, ◌*◌, ◌≤◌, ◌<◌, ◌≡◌, ◌∙◌,
  ◌≢◌, inl, inr, some, List, [], ◌∷◌, arith, Result-cases, out_of_fuel,
}

-- Each view of a batch has two conditions and two operations.
shard_view_ops-length :
    (e : Etcd) (m : MetaStorageImpl) (c : ℕ) (views : List ShardView) (cs : List Cmp) (os : List Op)
    → shard_view_ops e m c views ≡ some (cs, os)
    → (length cs ≡ 2 * length views) × (length os ≡ 2 * length views)
unfolding shard_view_ops
shard_view_ops-length e m c [] cs os h = ground arith
shard_view_ops-length e m c (view ∷ views) cs os h =
    elim (Option-cases (m.shard_view.marshal view)) [
      | inl q ↦ ground (arith, h, q)
      | inr (b, q) ↦ elim (Option-cases (shard_view_ops e m c views)) [
        | inl p ↦ ground (arith, h, q, p)
        | inr ((cs1, os1), p) ↦
            let (x, y) = shard_view_ops-length e m c views cs1 os1 p in
            ground (arith, h, q, p, x, y)
      ]
    ]

length-drop : {A : Type 0} (n : ℕ) (xs : List A) → length (drop n xs) ≤ length xs
length-drop zero xs = ground arith
length-drop (suc n) [] = ground arith
length-drop (suc n) (x ∷ xs) = ground (arith, length-drop n xs)

drop_shorter :
    {A : Type 0} (n : ℕ) (x : A) (xs : List A) → 0 < n → length (drop n (x ∷ xs)) < length (x ∷ xs)
drop_shorter zero x xs h = absurd (omega arith)
drop_shorter (suc n) x xs h = omega (arith, length-drop n xs)

module _ (e : Etcd) (laws : EtcdLaws e) (m : MetaStorageImpl) where
  n_views-fuel :
      (c : ℕ) (views : List ShardView) (t : e.State)
      → (create_n_shard_views e m c views t).0 ≢ err out_of_fuel
  unfolding create_n_shard_views
  n_views-fuel c views t h = elim (Option-cases (shard_view_ops e m c views)) [
    | inl q ↦ cc (rw q at h)
    | inr ((cs, os), q) ↦ elim (Result-cases (e.txn cs os t).0) [
      | inr (x, f) ↦
          let same : x ≡ out_of_fuel = cc (rw (q, f) at h) in
          rw same at (laws.txn_error cs os t x f)
      | inl (d, f) ↦ elim (Bool-cases d) [
        | inl p ↦ cc (rw (q, f, p) at h)
        | inr p ↦ cc (rw (q, f, p) at h)
      ]
    ]
  ]

  batches-fuel :
      (rounds c : ℕ) (views : List ShardView) (t : e.State)
      → length views ≤ rounds
      → 0 < m.max_ops_per_txn
      → (create_batches e m rounds c views t).0 ≢ err out_of_fuel
  unfolding create_batches
  batches-fuel rounds c [] t h g p = cc
  batches-fuel zero c (view ∷ views) t h g p = absurd (omega arith)
  batches-fuel (suc rounds) c (view ∷ views) t h g p =
      let batch = take m.max_ops_per_txn (view ∷ views) in
      let later = drop m.max_ops_per_txn (view ∷ views) in
      let shorter = drop_shorter m.max_ops_per_txn view views g in
      elim (Result-cases (create_n_shard_views e m c batch t).0) [
        | inr (x, f) ↦ n_views-fuel c batch t (f ∙ rw f at p)
        | inl (u, f) ↦
            batches-fuel rounds c later (create_n_shard_views e m c batch t).1 (omega arith) g
              (rw f at p)
      ]

  -- The loop of CreateShardViews ends within as many rounds as there are views, when a batch takes one
  -- view or more.
  pub create_shard_views-ends :
      (c : ℕ) (views : List ShardView) (t : e.State)
      → 0 < m.max_ops_per_txn
      → (create_shard_views e m c views t).0 ≢ err out_of_fuel
  unfolding create_shard_views
  create_shard_views-ends c views t h = batches-fuel (length views) c views t (omega arith) h
