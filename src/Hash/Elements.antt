-- ===== src/Hash/Elements.antt =====
-- Elements of lists: of sorted ones, of joined ones, and by their index.
use ceresmeta.Common.{
  ◌==◌, nat_eq, Bool-cases, length, get_elem?, elem, insert_sorted, sort, ℕ, zero, suc, ◌<◌, ◌≡◌,
  refl, inl, inr, true, ◌||◌, some, List, [], ◌∷◌, ◌++◌, arith, Bytes, bytes_eq, text_eq,
}
use ceresmeta.Hash.{insert_name, sort_names}

-- Sorting keeps the elements and their number.
pub elem-insert_sorted : (u a : ℕ) (l : List ℕ) → elem u (insert_sorted a l) ≡ (a == u) || elem u l
elem-insert_sorted u a [] = refl
elem-insert_sorted u a (x ∷ l) = ground (arith, elem-insert_sorted u a l)

pub elem-sort : (u : ℕ) (l : List ℕ) → elem u (sort l) ≡ elem u l
elem-sort u [] = refl
elem-sort u (x ∷ l) = ground (arith, elem-sort u l, elem-insert_sorted u x (sort l))

pub elem-get_elem? :
    (u : ℕ) (l : List ℕ) → elem u l ≡ true → (i : ℕ) × (i < length l) × (get_elem? l i ≡ some u)
elem-get_elem? u [] h = absurd (cc)
elem-get_elem? u (x ∷ l) h = elim (Bool-cases (x == u)) [
  | inl here ↦ (0, omega arith, ground arith)
  | inr later ↦ let (i, b, e) = elem-get_elem? u l (ground arith) in (suc i, omega arith, e)
]

pub get_elem?-elem : (u i : ℕ) (l : List ℕ) → get_elem? l i ≡ some u → elem u l ≡ true
get_elem?-elem u i [] h = absurd (cc)
get_elem?-elem u zero (x ∷ l) h = ground arith
get_elem?-elem u (suc i) (x ∷ l) h = ground (arith, get_elem?-elem u i l h)

pub get_elem?-lt : (i : ℕ) (l : List ℕ) → i < length l → (u : ℕ) × (get_elem? l i ≡ some u)
get_elem?-lt i [] h = absurd (omega arith)
get_elem?-lt zero (x ∷ l) h = (x, refl)
get_elem?-lt (suc i) (x ∷ l) h = get_elem?-lt i l (omega arith)

pub elem-append : (u : ℕ) (l m : List ℕ) → elem u (l ++ m) ≡ elem u l || elem u m
elem-append u [] m = refl
elem-append u (x ∷ l) m = ground (arith, elem-append u l m)

pub elem-insert_name :
    (u a : Bytes) (l : List Bytes) → elem u (insert_name a l) ≡ bytes_eq a u || elem u l
unfolding insert_name
elem-insert_name u a [] = refl
elem-insert_name u a (x ∷ l) = ground (arith, elem-insert_name u a l)

pub elem-sort_names : (u : Bytes) (l : List Bytes) → elem u (sort_names l) ≡ elem u l
unfolding sort_names
elem-sort_names u [] = refl
elem-sort_names u (x ∷ l) = ground (arith, elem-sort_names u l, elem-insert_name u x (sort_names l))
