-- ===== src/Id/Tests.antt =====
-- Runs of the allocators of server/id, and the theorems at them.
use ceresmeta.Common.{
  ◌==◌, nat_eq, elem, ℕ, ◌<◌, ◌≡◌, refl, inr, true, false, ◌||◌, Option, none, List, [], ◌∷◌, arith,
  Bytes,
}
use ceresmeta.Etcd.Memory.{memory_etcd, memory_etcd_laws}
use ceresmeta.Id.Allocator.{AllocatorImpl, new_allocator_impl}
use ceresmeta.Id.Allocator
use ceresmeta.Id.Allocator.Rebase.{Stored}
use ceresmeta.Id.Allocator.Step.{Allocated, alloc-Allocated}
use ceresmeta.Id.Allocator.System.{
  Event, advances, restart, World, Distinct, run, fresh, run-Distinct,
}
use ceresmeta.Id.Reusable.{ReusableAllocator, alloc}
use ceresmeta.Id.Reusable.Alloc.{IsValid, alloc-IsValid}

abbrev key : Bytes
key = 105 ∷ 100 ∷ []

abbrev empty_store : Bytes → Option Bytes
empty_store k = none

abbrev both : ℕ → ℕ → List Event → List Event
both i j vs = advances i ∷ advances j ∷ vs

-- Both processes read that the key is missing before either writes it; process 0 wins and gives two ids,
-- process 1 fails, reads again and goes on, and then process 0 restarts.
abbrev calls : List Event
calls =
    both 0 1
      (both 0 1 (both 0 1 (both 0 1 (both 0 1 (both 0 1 (restart 0 ∷ both 0 1 (both 0 0 [])))))))

abbrev last_world : World memory_etcd
last_world = run memory_etcd key 2 calls (fresh memory_etcd key 2 empty_store)

run-Distinct_example :
    Distinct last_world.issued
    × ((m : ℕ) × Stored memory_etcd last_world.store key m
        × ((u : ℕ) → elem u last_world.issued ≡ true → u < m))
run-Distinct_example =
    run-Distinct memory_etcd memory_etcd_laws key 2 0 empty_store calls (omega arith)
      (inr (refl, refl)) (omega arith)

abbrev unused : AllocatorImpl
unused = record { base = 0; end = 0; key = key; alloc_step = 2; is_initialized = false }

alloc-Allocated_example :
    Allocated memory_etcd unused 0 (Allocator.alloc memory_etcd (unused, empty_store))
alloc-Allocated_example =
    alloc-Allocated memory_etcd memory_etcd_laws unused empty_store 0 (omega arith) (omega arith)
      (inr (refl, refl)) (omega arith) (omega arith)

abbrev gap : ReusableAllocator
gap = record { min_id = 1; exist_ids = 1 ∷ 2 ∷ 4 ∷ 7 ∷ [] }

gap-IsValid : IsValid gap
gap-IsValid = omega arith

alloc-gap : (alloc gap).0 ≡ 3
unfolding alloc
alloc-gap = refl

alloc-IsValid_example :
    IsValid (alloc gap).1
    × ((u : ℕ) → elem u (alloc gap).1.exist_ids ≡ ((alloc gap).0 == u) || elem u gap.exist_ids)
alloc-IsValid_example = alloc-IsValid gap gap-IsValid (omega (arith, alloc-gap))
