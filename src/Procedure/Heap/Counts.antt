-- ===== src/Procedure/Heap/Counts.antt =====
-- container/heap keeps the elements of the slice.
use ceresmeta.Procedure.Heap.{swap, up, first_child, down, push_heap, pop_heap}
use ceresmeta.Common.{
  leb, if◌then◌else◌, ◌==◌, nat_eq, Bool-cases, Option-cases, length, take, get_elem?, set,
  beq_refl, ℕ, zero, suc, ◌+◌, ◌-◌, ◌*◌, ◌/◌, ◌≤◌, ◌<◌, ◌≡◌, refl, sym, ap, ◌∙◌, ◌⊎◌, inl, inr,
  Bool, true, false, none, some, List, [], ◌∷◌, ◌++◌, arith,
}

-- How many elements pass a test.
abbrev pub count {ℓ} : {A : Type ℓ} → (A → Bool) → List A → ℕ
count f [] = 0
count f (x ∷ xs) = if f x then suc (count f xs) else count f xs

abbrev pub bit : Bool → ℕ
bit b = if b then 1 else 0

module _ {ℓ} {A : Type ℓ} where
  count-set :
      (f : A → Bool) (xs : List A) (i : ℕ) (x y : A)
      → get_elem? xs i ≡ some x
      → count f (set xs i y) + bit (f x) ≡ count f xs + bit (f y)
  count-set f [] i x y h = absurd (cc)
  count-set f (z ∷ xs) zero x y h = ground arith
  count-set f (z ∷ xs) (suc i) x y h = ground (arith, count-set f xs i x y h)

  get-set :
      (xs : List A) (i j : ℕ) (x y : A)
      → get_elem? xs i ≡ some x
      → get_elem? xs j ≡ some y
      → get_elem? (set xs i y) j ≡ some y
  get-set [] i j x y h g = absurd (cc)
  get-set (z ∷ xs) zero zero x y h g = refl
  get-set (z ∷ xs) zero (suc j) x y h g = g
  get-set (z ∷ xs) (suc i) zero x y h g = ground arith
  get-set (z ∷ xs) (suc i) (suc j) x y h g = get-set xs i j x y h g

  pub length-set : (xs : List A) (i : ℕ) (y : A) → length (set xs i y) ≡ length xs
  length-set [] i y = refl
  length-set (z ∷ xs) zero y = refl
  length-set (z ∷ xs) (suc i) y = omega (arith, length-set xs i y)

  swap_eq :
      (xs : List A) (i j : ℕ) (x y : A)
      → get_elem? xs i ≡ some x
      → get_elem? xs j ≡ some y
      → swap xs i j ≡ set (set xs i y) j x
  unfolding swap
  swap_eq xs i j x y e g = rw (e, g, swap) refl

  swap_out :
      (xs : List A) (i j : ℕ) → (get_elem? xs i ≡ none) ⊎ (get_elem? xs j ≡ none) → swap xs i j ≡ xs
  unfolding swap
  swap_out xs i j (inl e) = rw (e, swap) refl
  swap_out xs i j (inr g) = elim (Option-cases (get_elem? xs i)) [
    | inl e ↦ rw (e, swap) refl
    | inr (x, e) ↦ rw (e, g, swap) refl
  ]

  pub count-swap : (f : A → Bool) (xs : List A) (i j : ℕ) → count f (swap xs i j) ≡ count f xs
  count-swap f xs i j = elim (Option-cases (get_elem? xs i)) [
    | inl e ↦ rw (swap_out xs i j (inl e)) refl
    | inr (x, e) ↦ elim (Option-cases (get_elem? xs j)) [
      | inl g ↦ rw (swap_out xs i j (inr g)) refl
      | inr (y, g) ↦
          let p = count-set f xs i x y e in
          let q = count-set f (set xs i y) j y x (get-set xs i j x y e g) in
          rw (swap_eq xs i j x y e g) (omega (arith, p, q))
    ]
  ]

  pub length-swap : (xs : List A) (i j : ℕ) → length (swap xs i j) ≡ length xs
  length-swap xs i j = elim (Option-cases (get_elem? xs i)) [
    | inl e ↦ rw (swap_out xs i j (inl e)) refl
    | inr (x, e) ↦ elim (Option-cases (get_elem? xs j)) [
      | inl g ↦ rw (swap_out xs i j (inr g)) refl
      | inr (y, g) ↦
          rw (swap_eq xs i j x y e g)
            (omega (arith, length-set (set xs i y) j x, length-set xs i y))
    ]
  ]

  pub count-append : (f : A → Bool) (xs ys : List A) → count f (xs ++ ys) ≡ count f xs + count f ys
  count-append f [] ys = omega arith
  count-append f (x ∷ xs) ys = ground (arith, count-append f xs ys)

  -- The elements but the last.
  count-take_last :
      (f : A → Bool) (n : ℕ) (xs : List A) (x : A)
      → length xs ≡ suc n
      → get_elem? xs n ≡ some x
      → count f (take n xs) + bit (f x) ≡ count f xs
  count-take_last f n [] x h g = absurd (cc)
  count-take_last f zero (y ∷ []) x h g = ground arith
  count-take_last f zero (y ∷ z ∷ xs) x h g = absurd (omega arith)
  count-take_last f (suc n) (y ∷ xs) x h g = ground (arith, count-take_last f n xs x)

  get-set_same : (xs : List A) (i : ℕ) (y : A) → i < length xs → get_elem? (set xs i y) i ≡ some y
  get-set_same [] i y h = absurd (omega arith)
  get-set_same (z ∷ xs) zero y h = refl
  get-set_same (z ∷ xs) (suc i) y h = get-set_same xs i y (omega arith)

  get-set_other :
      (xs : List A) (i j : ℕ) (y : A) → (i == j) ≡ false → get_elem? (set xs i y) j ≡ get_elem? xs j
  get-set_other [] i j y h = refl
  get-set_other (z ∷ xs) zero zero y h = absurd (ground arith)
  get-set_other (z ∷ xs) zero (suc j) y h = refl
  get-set_other (z ∷ xs) (suc i) zero y h = refl
  get-set_other (z ∷ xs) (suc i) (suc j) y h = get-set_other xs i j y (ground arith)

  pub get_some : (xs : List A) (i : ℕ) → i < length xs → (x : A) × (get_elem? xs i ≡ some x)
  get_some [] i h = absurd (omega arith)
  get_some (x ∷ xs) zero h = (x, refl)
  get_some (x ∷ xs) (suc i) h = get_some xs i (omega arith)

  -- What stands at each index after a swap.
  pub get-swap :
      (xs : List A) (i j k : ℕ)
      → i < length xs
      → j < length xs
      → get_elem? (swap xs i j) k
        ≡ (if j == k then get_elem? xs i else if i == k then get_elem? xs j else get_elem? xs k)
  get-swap xs i j k hi hj =
      let (x, e) = get_some xs i hi in
      let (y, g) = get_some xs j hj in
      let ys = set xs i y in
      rw (swap_eq xs i j x y e g) (elim (Bool-cases (j == k)) [
        | inl p ↦
            let same : j ≡ k = ground arith in
            let here = get-set_same ys j x (omega (arith, length-set xs i y, hj)) in
            ap (get_elem? (set ys j x)) (sym same) ∙ here ∙ rw p (sym e)
        | inr p ↦ elim (Bool-cases (i == k)) [
          | inl q ↦
              let same : i ≡ k = ground arith in
              get-set_other ys j k x p
              ∙ ap (get_elem? ys) (sym same)
              ∙ get-set_same xs i y hi
              ∙ rw (p, q) (sym g)
          | inr q ↦ get-set_other ys j k x p ∙ get-set_other xs i k y q ∙ rw (p, q) refl
        ]
      ])

  pub length-count : (xs : List A) → length xs ≡ count (λ x. true) xs
  length-count [] = refl
  length-count (x ∷ xs) = omega (arith, length-count xs)

  module _ (rank : A → ℕ) where
    pub count-up :
        (f : A → Bool) (rounds j : ℕ) (xs : List A) → count f (up rank rounds j xs) ≡ count f xs
    unfolding up
    count-up f zero j xs = refl
    count-up f (suc rounds) j xs =
        let i = (j - 1) / 2 in
        let r = count-up f rounds i (swap xs i j) in ground (arith, r, count-swap f xs i j)

    pub count-down :
        (f : A → Bool) (rounds n i : ℕ) (xs : List A)
        → count f (down rank rounds n i xs) ≡ count f xs
    unfolding down
    count-down f zero n i xs = refl
    count-down f (suc rounds) n i xs =
        let j = first_child rank n i xs in
        let r = count-down f rounds n j (swap xs i j) in ground (arith, r, count-swap f xs i j)

    pub count-push_heap :
        (f : A → Bool) (x : A) (xs : List A)
        → count f (push_heap rank x xs) ≡ count f xs + bit (f x)
    unfolding push_heap
    count-push_heap f x xs =
        ground
          (arith, count-up f (length xs) (length xs) (xs ++ x ∷ []), count-append f xs (x ∷ []))

    pub first_child-bounds :
        (n i : ℕ) (xs : List A)
        → leb n (2 * i + 1) ≡ false
        → (i < first_child rank n i xs) × (first_child rank n i xs < n)
    first_child-bounds n i xs h = ground arith

    pub length-up : (rounds j : ℕ) (xs : List A) → length (up rank rounds j xs) ≡ length xs
    length-up rounds j xs =
        length-count (up rank rounds j xs)
        ∙ count-up (λ x. true) rounds j xs
        ∙ sym (length-count xs)

    pub length-down : (rounds n i : ℕ) (xs : List A) → length (down rank rounds n i xs) ≡ length xs
    length-down rounds n i xs =
        length-count (down rank rounds n i xs)
        ∙ count-down (λ x. true) rounds n i xs
        ∙ sym (length-count xs)

    -- The order of the slice from its end on is left as it is.
    down-above :
        (rounds n i k : ℕ) (xs : List A)
        → n ≤ k
        → i < n
        → n ≤ length xs
        → get_elem? (down rank rounds n i xs) k ≡ get_elem? xs k
    unfolding down
    down-above zero n i k xs h g l = refl
    down-above (suc rounds) n i k xs h g l = elim (Bool-cases (leb n (2 * i + 1))) [
      | inl p ↦ rw (p, down) refl
      | inr p ↦
          let j = first_child rank n i xs in
          let (up_i, down_j) = first_child-bounds n i xs p in
          let r =
            down-above rounds n j k (swap xs i j) h down_j (omega (arith, length-swap xs i j, l)) in
          let sw = get-swap xs i j k (omega arith) (omega arith) in ground (arith, r, sw)
    ]

    pub count-pop_heap :
        (f : A → Bool) (x : A) (xs : List A)
        → get_elem? xs 0 ≡ some x
        → count f (pop_heap rank xs) + bit (f x) ≡ count f xs
    unfolding pop_heap
    count-pop_heap f x [] h = absurd (cc)
    count-pop_heap f x (z ∷ []) h = ground arith
    count-pop_heap f x (z ∷ y ∷ zs) h =
        let xs = z ∷ y ∷ zs in
        let n = suc (length zs) in
        let less_one : suc (suc (length zs)) - 1 ≡ n = omega arith in
        let ys = swap xs 0 n in
        let zs' = down rank n n 0 ys in
        let top =
          down-above n n 0 n ys (omega arith) (omega arith) (omega (arith, length-swap xs 0 n)) in
        let sw = get-swap xs 0 n n (omega arith) (omega arith) in
        let at_end : get_elem? zs' n ≡ some x = top ∙ sw ∙ rw (beq_refl n) h in
        let last = count-take_last f n zs' x (length-down n n 0 ys ∙ length-swap xs 0 n) at_end in
        rw less_one (last ∙ count-down f n n 0 ys ∙ count-swap f xs 0 n)
