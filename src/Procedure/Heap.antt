-- ===== src/Procedure/Heap.antt =====
-- container/heap of the Go library, over a slice whose order is by a number.
pub mod Counts
pub mod Order
use ceresmeta.Common.{
  ltb, leb, if◌then◌else◌, ◌==◌, nat_eq, length, take, get_elem?, set, ℕ, zero, suc, ◌+◌, ◌-◌, ◌*◌,
  ◌/◌, Bool, ◌&&◌, ◌||◌, not, none, some, List, [], ◌∷◌, ◌++◌,
}

module _ {ℓ} {A : Type ℓ} where
  unfoldable pub swap : List A → ℕ → ℕ → List A
  swap xs i j = elim (get_elem? xs i) [
    | none ↦ xs
    | some x ↦ elim (get_elem? xs j) [ none ↦ xs | some y ↦ set (set xs i y) j x ]
  ]

  module _ (rank : A → ℕ) where
    abbrev pub rank_at : List A → ℕ → ℕ
    rank_at xs i = elim (get_elem? xs i) [ none ↦ 0 | some x ↦ rank x ]

    abbrev pub less : List A → ℕ → ℕ → Bool
    less xs i j = ltb (rank_at xs i) (rank_at xs j)

    -- `up`: the index falls with each round.
    unfoldable pub up : ℕ → ℕ → List A → List A
    unfolding swap
    up zero j xs = xs
    up (suc rounds) j xs =
        let i = (j - 1) / 2 in
        let higher = up rounds i (swap xs i j) in if i == j || not (less xs j i) then xs else higher

    -- The child that comes first, of two below the end or of one.
    abbrev pub first_child : ℕ → ℕ → List A → ℕ
    first_child n i xs =
        if ltb (2 * i + 2) n && less xs (2 * i + 2) (2 * i + 1) then 2 * i + 2 else 2 * i + 1

    -- `down`: the index grows with each round, and is below n.
    unfoldable pub down : ℕ → ℕ → ℕ → List A → List A
    unfolding swap
    down zero n i xs = xs
    down (suc rounds) n i xs =
        let j = first_child n i xs in
        let lower = down rounds n j (swap xs i j) in
        if leb n (2 * i + 1) || not (less xs j i) then xs else lower

    -- `heap.Push`
    unfoldable pub push_heap : A → List A → List A
    unfolding up
    push_heap x xs = up (length xs) (length xs) (xs ++ x ∷ [])

    -- `heap.Pop`, whose result the callers do not use.
    unfoldable pub pop_heap : List A → List A
    unfolding down
    pop_heap xs = let n = length xs - 1 in take n (down n n 0 (swap xs 0 n))
