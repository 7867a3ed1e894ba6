-- ===== src/Id/Reusable/Alloc.antt =====
-- What the two methods of server/id/reusable_id_impl.go promise.
use ceresmeta.Common.{
  ◌==◌, nat_eq, length, elem, ℕ, zero, suc, ◌+◌, ◌^◌, ◌≤◌, ◌<◌, ◌≡◌, refl, true, false, ◌||◌,
  Option, none, some, List, [], ◌∷◌, arith,
}
use ceresmeta.Id.Reusable.{ReusableAllocator, alloc, collect, remove, last_index}
use ceresmeta.Id.Reusable.Holes.{
  Ascending, hole, insert_at, find-hole, insert-insert_at, hole-le-length, hole-ge, hole-free,
  hole_least, elem-insert_at, insert_at-Ascending, drop-insert_at,
}

-- The ids in use are strictly ascending from the least id on.
abbrev pub IsValid : ReusableAllocator → Type 0
IsValid a = Ascending a.min_id a.exist_ids

-- The allocation, over the plain search and insertion.
pub alloc_lem :
    (a : ReusableAllocator)
    → IsValid a
    → let (v, i) = hole a.min_id a.exist_ids in
      alloc a ≡ (v, record a { exist_ids = insert_at v i a.exist_ids })
unfolding alloc
alloc_lem a h =
    rw (find-hole a.min_id a.exist_ids h)
      (rw (insert-insert_at _ _ a.exist_ids (hole-le-length a.min_id a.exist_ids)))

-- From a valid allocator the id given out is at least the least id, was not in use, and every
-- smaller id from the least one on is in use.
pub alloc_fresh :
    (a : ReusableAllocator)
    → IsValid a
    → (a.min_id ≤ (alloc a).0)
      × (elem (alloc a).0 a.exist_ids ≡ false)
      × ((u : ℕ) → a.min_id ≤ u → u < (alloc a).0 → elem u a.exist_ids ≡ true)
alloc_fresh a h =
    rw (alloc_lem a h)
      (hole-ge _ _ h, hole-free _ _ h, λ u l b. hole_least a.min_id u a.exist_ids h l b)

-- From a valid allocator whose new id has a successor below 2^64, an allocation leaves a valid
-- allocator, whose ids are the old ones and the new one.
pub alloc-IsValid :
    (a : ReusableAllocator)
    → IsValid a
    → (alloc a).0 + 1 < 2 ^ 64
    → IsValid (alloc a).1
      × ((u : ℕ) → elem u (alloc a).1.exist_ids ≡ ((alloc a).0 == u) || elem u a.exist_ids)
alloc-IsValid a h room =
    let room' = rw (alloc_lem a h) at room in
    rw (alloc_lem a h)
      (insert_at-Ascending a.min_id a.exist_ids h room', λ u. elem-insert_at u _ _ a.exist_ids)

last_index-none :
    (v i : ℕ) (s : List ℕ) (found : Option ℕ) → elem v s ≡ false → last_index v i s found ≡ found
unfolding last_index
last_index-none v i [] found h = refl
last_index-none v i (x ∷ s) found h = ground (arith, last_index-none v (i + 1) s found)

last_index-insert_at :
    (v i k : ℕ) (s : List ℕ) (found : Option ℕ)
    → elem v s ≡ false
    → i ≤ length s
    → last_index v k (insert_at v i s) found ≡ some (k + i)
unfolding last_index
last_index-insert_at v zero k s found h l = ground (arith, last_index-none v (k + 1) s (some k))
last_index-insert_at v (suc i) k [] found h l = absurd (omega arith)
last_index-insert_at v (suc i) k (x ∷ s) found h l =
    ground (arith, last_index-insert_at v i (k + 1) s found)

remove-insert_at :
    (v i : ℕ) (s : List ℕ)
    → elem v s ≡ false
    → i ≤ length s
    → remove v (insert_at v i s) ≡ some (s, i)
unfolding remove
remove-insert_at v i s h l = ground (arith, last_index-insert_at v i 0 s none, drop-insert_at v i s)

-- Taking the id back at once restores a valid allocator.
pub collect-alloc : (a : ReusableAllocator) → IsValid a → collect (alloc a).0 (alloc a).1 ≡ some a
unfolding collect
collect-alloc a h = rw (alloc_lem a h) (
    rw (
      remove-insert_at _ _ a.exist_ids (hole-free a.min_id a.exist_ids h)
          (hole-le-length a.min_id a.exist_ids),
      collect,
    ))
