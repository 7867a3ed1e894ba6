-- ===== src/Id/Reusable.antt =====
-- server/id/reusable_id_impl.go: the allocator that gives out the least free id and takes ids back.
pub mod Holes
pub mod Alloc
use ceresmeta.Common.{
  ltb, if◌then◌else◌, u64, ◌==◌, nat_eq, length, take, drop, set, sort, ℕ, ◌+◌, Option, none, some,
  List, [], ◌∷◌, ◌++◌,
}

pub record ReusableAllocator : Type 0 where
  pub min_id : ℕ
  pub exist_ids : List ℕ

-- The loop over `i`, at the element `x = s[i]` with `r` behind it.
scan : ℕ → ℕ → List ℕ → ℕ × ℕ
scan i x [] = (u64 (x + 1), i + 1)
scan i x (y ∷ r) =
    let rest = scan (i + 1) y r in if u64 (x + 1) == y then rest else (u64 (x + 1), i + 1)

pub find_min_hole_value_and_index : ℕ → List ℕ → ℕ × ℕ
unfolding scan
find_min_hole_value_and_index lo [] = (lo, 0)
find_min_hole_value_and_index lo (x ∷ []) = if ltb lo x then (lo, 0) else (u64 (x + 1), 1)
find_min_hole_value_and_index lo (x ∷ y ∷ r) = if ltb lo x then (lo, 0) else scan 0 x (y ∷ r)

-- `append(s[:i+1], s[i:]...)`, and the write at `i`.
pub insert : ℕ → ℕ → List ℕ → List ℕ
insert v i s = if length s == i then s ++ v ∷ [] else set (take (i + 1) s ++ drop i s) i v

-- The index of the last element that is `v`; `none` is the source's -1.
last_index : ℕ → ℕ → List ℕ → Option ℕ → Option ℕ
last_index v i [] found = found
last_index v i (x ∷ s) found = last_index v (i + 1) s (if x == v then some i else found)

-- `none` is the panic of `s[:-1]`.
pub remove : ℕ → List ℕ → Option (List ℕ × ℕ)
unfolding last_index
remove v s = elim (last_index v 0 s none) [
  | none ↦ none
  | some i ↦ some (take i s ++ drop (i + 1) s, i)
]

pub new_reusable_allocator : List ℕ → ℕ → ReusableAllocator
new_reusable_allocator ids lo = record { min_id = lo; exist_ids = sort ids }

-- Both methods return a nil error; the mutex makes each one step.
unfoldable pub alloc : ReusableAllocator → ℕ × ReusableAllocator
unfolding find_min_hole_value_and_index insert
alloc a =
    let (v, i) = find_min_hole_value_and_index a.min_id a.exist_ids in
    (v, record a { exist_ids = insert v i a.exist_ids })

pub collect : ℕ → ReusableAllocator → Option ReusableAllocator
unfolding remove
collect id a = elim (remove id a.exist_ids) [
  | none ↦ none
  | some (s, _) ↦ some (record a { exist_ids = s })
]
