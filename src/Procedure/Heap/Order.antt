-- ===== src/Procedure/Heap/Order.antt =====
-- container/heap keeps the order of the heap.
use ceresmeta.Procedure.Heap.{swap, rank_at, less, up, first_child, down, push_heap, pop_heap}
use ceresmeta.Procedure.Heap.Counts.{get-swap, length-swap, length-up, first_child-bounds}
use ceresmeta.Common.{
  leb, if◌then◌else◌, ◌==◌, nat_eq, Bool-cases, length, take, length-append, ℕ, zero, suc, ◌+◌, ◌-◌,
  ◌*◌, ◌/◌, ◌≤◌, ◌<◌, ◌≡◌, refl, ap, ◌∙◌, ◌⊎◌, inl, inr, true, false, ◌||◌, not, Option, none, some,
  List, [], ◌∷◌, ◌++◌, arith,
}

abbrev pub parent : ℕ → ℕ
parent k = (k - 1) / 2

module _ {ℓ} {A : Type ℓ} (rank : A → ℕ) where
  -- Below n, each element stands behind its parent.
  abbrev pub IsHeap : ℕ → List A → Type 0
  IsHeap n xs = (k : ℕ) → 0 < k → k < n → rank_at rank xs (parent k) ≤ rank_at rank xs k

  rank-swap :
      (xs : List A) (i j k : ℕ)
      → i < length xs
      → j < length xs
      → rank_at rank (swap xs i j) k ≡ (
          if j == k
          then rank_at rank xs i
          else if i == k
          then rank_at rank xs j
          else rank_at rank xs k)
  rank-swap xs i j k hi hj =
      let e =
        ap (λ (o : Option A). elim o as (λ _. ℕ) [ none ↦ 0 | some x ↦ rank x ])
          (get-swap xs i j k hi hj) in
      elim (Bool-cases (j == k)) [
        | inl p ↦ e ∙ rw p refl
        | inr p ↦ elim (Bool-cases (i == k)) [
          | inl q ↦ e ∙ rw (p, q) refl
          | inr q ↦ e ∙ rw (p, q) refl
        ]
      ]

  up-IsHeap :
      (rounds j : ℕ) (xs : List A)
      → j < length xs
      → j ≤ rounds
      → ((k : ℕ)
          → 0 < k
          → k < length xs
          → (k == j) ≡ false
          → rank_at rank xs (parent k) ≤ rank_at rank xs k)
      → ((k : ℕ)
          → 0 < k
          → k < length xs
          → (parent k == j) ≡ true
          → 0 < j
          → rank_at rank xs (parent j) ≤ rank_at rank xs k)
      → IsHeap (length xs) (up rank rounds j xs)
  unfolding up
  up-IsHeap zero j xs hj hr above below = λ k p q. above k p q (ground arith)
  up-IsHeap (suc rounds) j xs hj hr above below =
      elim (Bool-cases ((parent j == j) || not (less rank xs j (parent j)))) [
        | inl stop ↦ rw (stop, up) (λ k p q. ground (arith, above k p q, stop))
        | inr go ↦
            let i = parent j in
            let r = rank-swap xs i j in
            let ij : i < j = ground arith in
            let il : i < length xs = omega arith in
            let later =
              up-IsHeap rounds i (swap xs i j) (omega (arith, length-swap xs i j)) (omega arith)
                (λ k p q d.
                  let q' : k < length xs = omega (arith, length-swap xs i j) in
                  ground (arith, go, r k il hj, r (parent k) il hj, above k p q', below k p q'))
                (λ k p q d b.
                  let q' : k < length xs = omega (arith, length-swap xs i j) in
                  ground (arith, go, r k il hj, r (parent i) il hj, above k p q', above i b il)) in
            rw (go, up) (rw (length-swap xs i j) at later)
      ]

  first_child-least :
      (n i k : ℕ) (xs : List A)
      → 0 < k
      → k < n
      → (parent k == i) ≡ true
      → rank_at rank xs (first_child rank n i xs) ≤ rank_at rank xs k
  first_child-least n i k xs p q e =
      let either : (k ≡ 2 * i + 1) ⊎ (k ≡ 2 * i + 2) = ground arith in
      elim either [ inl f ↦ rw f (ground arith) | inr f ↦ rw f (ground (arith, f)) ]

  parent-first_child : (n i : ℕ) (xs : List A) → parent (first_child rank n i xs) ≡ i
  parent-first_child n i xs = ground arith

  -- A round of `down` with the child j of i that comes first.
  sink :
      (n i j : ℕ) (xs : List A)
      → n ≤ length xs
      → i < j
      → j < n
      → (parent j ≡ i)
      → rank_at rank xs j < rank_at rank xs i
      → ((k : ℕ) → 0 < k → k < n → (parent k == i) ≡ true → rank_at rank xs j ≤ rank_at rank xs k)
      → ((k : ℕ)
          → 0 < k
          → k < n
          → (parent k == i) ≡ false
          → rank_at rank xs (parent k) ≤ rank_at rank xs k)
      → ((k : ℕ)
          → 0 < k
          → k < n
          → (parent k == i) ≡ true
          → 0 < i
          → rank_at rank xs (parent i) ≤ rank_at rank xs k)
      → ((k : ℕ)
          → 0 < k
          → k < n
          → (parent k == j) ≡ false
          → rank_at rank (swap xs i j) (parent k) ≤ rank_at rank (swap xs i j) k)
        × ((k : ℕ)
            → 0 < k
            → k < n
            → (parent k == j) ≡ true
            → 0 < j
            → rank_at rank (swap xs i j) (parent j) ≤ rank_at rank (swap xs i j) k)
  sink n i j xs hn ij jn pj lt least above below =
      let r = rank-swap xs i j in
      let il : i < length xs = omega arith in
      let jl : j < length xs = omega arith in
      (
        λ k p q d. ground (
          arith,
          r k il jl,
          r (parent k) il jl,
          least k p q,
          above k p q,
          below j (omega arith) jn,
        ),
        λ k p q d b. ground (arith, r k il jl, r (parent j) il jl, above k p q),
      )

  down-IsHeap :
      (rounds n i : ℕ) (xs : List A)
      → n ≤ length xs
      → n ≤ rounds + i
      → ((k : ℕ)
          → 0 < k
          → k < n
          → (parent k == i) ≡ false
          → rank_at rank xs (parent k) ≤ rank_at rank xs k)
      → ((k : ℕ)
          → 0 < k
          → k < n
          → (parent k == i) ≡ true
          → 0 < i
          → rank_at rank xs (parent i) ≤ rank_at rank xs k)
      → IsHeap n (down rank rounds n i xs)
  unfolding down
  down-IsHeap zero n i xs hn hr above below = λ k p q. above k p q (ground arith)
  down-IsHeap (suc rounds) n i xs hn hr above below =
      let j = first_child rank n i xs in
      elim (Bool-cases (leb n (2 * i + 1) || not (less rank xs j i))) [
        | inl stop ↦ rw (stop, down) (λ k p q. stopped k p q stop)
        | inr go ↦
            let bounds = first_child-bounds rank n i xs (ground arith) in
            let both =
              sink n i j xs hn bounds.0 bounds.1 (parent-first_child n i xs) (ground arith)
                (λ k p q. first_child-least n i k xs p q) above below in
            rw (go, down)
              (down-IsHeap rounds n j (swap xs i j) (omega (arith, length-swap xs i j))
                (omega (arith, bounds.0)) both.0 both.1)
      ]
    where
      stopped :
          (k : ℕ)
          → 0 < k
          → k < n
          → (leb n (2 * i + 1) || not (less rank xs (first_child rank n i xs) i)) ≡ true
          → rank_at rank xs (parent k) ≤ rank_at rank xs k
      stopped k p q stop = elim (Bool-cases (parent k == i)) [
        | inr other ↦ above k p q other
        | inl here ↦
            let same : parent k ≡ i = ground arith in
            let m = first_child-least n i k xs p q here in
            let short : leb n (2 * i + 1) ≡ false = ground arith in
            rw same (ground (arith, stop, short, m))
      ]

  rank_at-append :
      (xs ys : List A) (k : ℕ) → k < length xs → rank_at rank (xs ++ ys) k ≡ rank_at rank xs k
  rank_at-append [] ys k h = absurd (omega arith)
  rank_at-append (x ∷ xs) ys zero h = refl
  rank_at-append (x ∷ xs) ys (suc k) h = rank_at-append xs ys k (omega arith)

  rank_at-take :
      (n : ℕ) (xs : List A) (k : ℕ) → k < n → rank_at rank (take n xs) k ≡ rank_at rank xs k
  rank_at-take zero xs k h = absurd (omega arith)
  rank_at-take (suc n) [] k h = refl
  rank_at-take (suc n) (x ∷ xs) zero h = refl
  rank_at-take (suc n) (x ∷ xs) (suc k) h = rank_at-take n xs k (omega arith)

  length-take : (n : ℕ) (xs : List A) → length (take n xs) ≤ n
  length-take zero xs = omega arith
  length-take (suc n) [] = omega arith
  length-take (suc n) (x ∷ xs) = omega (arith, length-take n xs)

  pub push_heap-IsHeap :
      (x : A) (xs : List A)
      → IsHeap (length xs) xs
      → IsHeap (length (push_heap rank x xs)) (push_heap rank x xs)
  unfolding push_heap
  push_heap-IsHeap x xs h =
      let n = length xs in
      let one_more = length-append xs (x ∷ []) in
      let r = rank_at-append xs (x ∷ []) in
      let made =
        up-IsHeap n n (xs ++ x ∷ []) (omega (arith, one_more)) (omega arith)
          (λ k p q d.
            let kn : k < n = ground (arith, one_more) in
            omega (arith, h k p kn, r k kn, r (parent k) (omega arith)))
          (λ k p q d b. absurd (ground (arith, one_more))) in
      λ k p q. made k p (omega (arith, length-up rank n n (xs ++ x ∷ [])))

  pub pop_heap-IsHeap :
      (xs : List A) → IsHeap (length xs) xs → IsHeap (length (pop_heap rank xs)) (pop_heap rank xs)
  unfolding pop_heap
  pop_heap-IsHeap xs h =
      let n = length xs - 1 in
      let ys = swap xs 0 n in
      let made =
        down-IsHeap n n 0 ys (omega (arith, length-swap xs 0 n)) (omega arith)
          (λ k p q d.
            let zl : 0 < length xs = omega arith in
            let nl : n < length xs = omega arith in
            ground (
              arith,
              h k p (omega arith),
              rank-swap xs 0 n k zl nl,
              rank-swap xs 0 n (parent k) zl nl,
            ))
          (λ k p q d b. absurd (omega arith)) in
      let zs = down rank n n 0 ys in
      λ k p q.
        let kn : k < n = omega (arith, length-take n zs) in
        omega
          (arith, made k p kn, rank_at-take n zs k kn, rank_at-take n zs (parent k) (omega arith))
