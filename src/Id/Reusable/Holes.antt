-- ===== src/Id/Reusable/Holes.antt =====
-- The search of server/id/reusable_id_impl.go for the least free id, against a plain recursion.
use ceresmeta.Common.{
  ltb, if◌then◌else◌, ◌==◌, nat_eq, Bool-cases, length, take, drop, elem, ℕ, zero, suc, ◌+◌, ◌^◌,
  ◌≤◌, ◌<◌, ◌≡◌, refl, inl, inr, true, false, ◌||◌, List, [], ◌∷◌, ◌++◌, arith,
}
use ceresmeta.Id.Reusable.{scan, find_min_hole_value_and_index, insert}

-- Strictly ascending, from `lo` on, with room for the successor of every element.
abbrev pub Ascending : ℕ → List ℕ → Type 0
Ascending lo [] = Unit
Ascending lo (x ∷ xs) = (lo ≤ x) × (x + 1 < 2 ^ 64) × Ascending (x + 1) xs

-- The least value from `lo` on that is missing, and the number of elements below it.
abbrev pub hole : ℕ → List ℕ → ℕ × ℕ
hole lo [] = (lo, 0)
hole lo (x ∷ xs) = let (v, i) = hole (x + 1) xs in if ltb lo x then (lo, 0) else (v, suc i)

-- Puts `v` before the element `i`.
abbrev pub insert_at : ℕ → ℕ → List ℕ → List ℕ
insert_at v zero s = v ∷ s
insert_at v (suc i) [] = v ∷ []
insert_at v (suc i) (x ∷ s) = x ∷ insert_at v i s

scan-hole :
    (i x : ℕ) (r : List ℕ)
    → x + 1 < 2 ^ 64
    → Ascending (x + 1) r
    → scan i x r ≡ ((hole (x + 1) r).0, i + 1 + (hole (x + 1) r).1)
unfolding scan
scan-hole i x [] h a = ground arith
scan-hole i x (y ∷ r) h a = ground (arith, scan-hole (i + 1) y r)

pub find-hole :
    (lo : ℕ) (s : List ℕ) → Ascending lo s → find_min_hole_value_and_index lo s ≡ hole lo s
unfolding find_min_hole_value_and_index
find-hole lo [] a = refl
find-hole lo (x ∷ []) a = ground arith
find-hole lo (x ∷ y ∷ r) a = ground (arith, scan-hole 0 x (y ∷ r))

pub insert-insert_at : (v i : ℕ) (s : List ℕ) → i ≤ length s → insert v i s ≡ insert_at v i s
unfolding insert
insert-insert_at v zero [] h = refl
insert-insert_at v (suc i) [] h = absurd (omega arith)
insert-insert_at v zero (x ∷ s) h = ground arith
insert-insert_at v (suc i) (x ∷ s) h = ground (arith, insert-insert_at v i s)

pub hole-le-length : (lo : ℕ) (s : List ℕ) → (hole lo s).1 ≤ length s
hole-le-length lo [] = omega arith
hole-le-length lo (x ∷ s) = ground (arith, hole-le-length (x + 1) s)

pub hole-ge : (lo : ℕ) (s : List ℕ) → Ascending lo s → lo ≤ (hole lo s).0
hole-ge lo [] a = omega arith
hole-ge lo (x ∷ s) a = ground (arith, hole-ge (x + 1) s)

-- Nothing below the bound is in an ascending list.
pub elem_below : (lo u : ℕ) (s : List ℕ) → Ascending lo s → u < lo → elem u s ≡ false
elem_below lo u [] a h = refl
elem_below lo u (x ∷ s) a h = ground (arith, elem_below (x + 1) u s)

pub hole-free : (lo : ℕ) (s : List ℕ) → Ascending lo s → elem (hole lo s).0 s ≡ false
hole-free lo [] a = refl
hole-free lo (x ∷ s) a =
    ground (arith, hole-free (x + 1) s, hole-ge (x + 1) s, elem_below (x + 1) lo s)

pub hole_least :
    (lo u : ℕ) (s : List ℕ) → Ascending lo s → lo ≤ u → u < (hole lo s).0 → elem u s ≡ true
hole_least lo u [] a l h = absurd (omega arith)
hole_least lo u (x ∷ s) a l h = ground (arith, hole_least (x + 1) u s)

pub elem-insert_at : (u v i : ℕ) (s : List ℕ) → elem u (insert_at v i s) ≡ (v == u) || elem u s
elem-insert_at u v zero s = refl
elem-insert_at u v (suc i) [] = refl
elem-insert_at u v (suc i) (x ∷ s) = ground (arith, elem-insert_at u v i s)

pub insert_at-Ascending :
    (lo : ℕ) (s : List ℕ)
    → Ascending lo s
    → (hole lo s).0 + 1 < 2 ^ 64
    → Ascending lo (insert_at (hole lo s).0 (hole lo s).1 s)
insert_at-Ascending lo [] a h = ground arith
insert_at-Ascending lo (x ∷ s) a h = elim (Bool-cases (ltb lo x)) [
  | inl below ↦ rw below (omega arith, ground arith, (ground arith, a.1, a.2))
  | inr at ↦ rw at (a.0, a.1, insert_at-Ascending (x + 1) s a.2 (ground arith))
]

-- Removing at the place of insertion undoes it.
pub drop-insert_at :
    (v i : ℕ) (s : List ℕ)
    → i ≤ length s
    → take i (insert_at v i s) ++ drop (i + 1) (insert_at v i s) ≡ s
drop-insert_at v zero s h = refl
drop-insert_at v (suc i) [] h = absurd (omega arith)
drop-insert_at v (suc i) (x ∷ s) h = ground (arith, drop-insert_at v i s)
