-- ===== src/Topology/Removal.antt =====
-- The loops of RemoveTable of server/cluster/metadata/topology_manager.go.
use ceresmeta.Topology.Update.{kept_for, kept_tables, compact_element, compact_from, compact}
use ceresmeta.Common.{
  if◌then◌else◌, ◌==◌, nat_eq, length, take, get_elem?, elem, ℕ, zero, suc, ◌+◌, ◌<◌, ◌≡◌, refl,
  Bool, true, false, ◌&&◌, ◌||◌, not, some, List, [], ◌∷◌, ◌++◌, arith,
}

-- The ids without one.
abbrev pub without : ℕ → List ℕ → List ℕ
without d [] = []
without d (t ∷ ts) = let rest = without d ts in if t == d then rest else t ∷ rest

-- With one id to remove, the loops keep exactly the others.
pub kept_tables-one : (d : ℕ) (ts : List ℕ) → kept_tables ts (d ∷ []) ≡ without d ts
unfolding kept_tables kept_for
kept_tables-one d [] = refl
kept_tables-one d (t ∷ ts) = ground (arith, kept_tables-one d ts)

pub elem-without : (u d : ℕ) (ts : List ℕ) → elem u (without d ts) ≡ (not (u == d) && elem u ts)
elem-without u d [] = ground arith
elem-without u d (t ∷ ts) = ground (arith, elem-without u d ts)

pub elem-append : (u : ℕ) (xs ys : List ℕ) → elem u (xs ++ ys) ≡ (elem u xs || elem u ys)
elem-append u [] ys = refl
elem-append u (x ∷ xs) ys = ground (arith, elem-append u xs ys)

-- Whether some id to remove is another.
abbrev pub has_other : ℕ → List ℕ → Bool
has_other t [] = false
has_other t (d ∷ ds) = not (t == d) || has_other t ds

elem-kept_for : (u t : ℕ) (ds : List ℕ) → elem u (kept_for t ds) ≡ ((t == u) && has_other t ds)
unfolding kept_for
elem-kept_for u t [] = ground arith
elem-kept_for u t (d ∷ ds) = ground (arith, elem-kept_for u t ds)

-- An id stays on the shard exactly when it was there and some id to remove is another one.
pub elem-kept_tables :
    (u : ℕ) (ts ds : List ℕ) → elem u (kept_tables ts ds) ≡ (elem u ts && has_other u ds)
unfolding kept_tables
elem-kept_tables u [] ds = refl
elem-kept_tables u (t ∷ ts) ds = ground (
  arith,
  elem-append u (kept_for t ds) (kept_tables ts ds),
  elem-kept_for u t ds,
  elem-kept_tables u ts ds,
)

compact_element-absent :
    (ds : List ℕ) (v i : ℕ) (a : List ℕ) (len : ℕ)
    → elem v ds ≡ false
    → compact_element ds v i a len ≡ some (a, len)
unfolding compact_element
compact_element-absent [] v i a len h = refl
compact_element-absent (d ∷ ds) v i a len h = ground (arith, compact_element-absent ds v i a len)

get_elem?-in :
    (a : List ℕ) (i : ℕ) → i < length a → (v : ℕ) × (get_elem? a i ≡ some v) × (elem v a ≡ true)
get_elem?-in [] i h = absurd (omega arith)
get_elem?-in (x ∷ a) zero h = (x, refl, ground arith)
get_elem?-in (x ∷ a) (suc i) h =
    let (v, p, q) = get_elem?-in a i (omega arith) in (v, p, ground arith)

take-length : (a : List ℕ) → take (length a) a ≡ a
take-length [] = refl
take-length (x ∷ a) = rw (take-length a) refl

compact_from-absent :
    (ds : List ℕ) (rounds i : ℕ) (a : List ℕ)
    → rounds + i ≡ length a
    → ((v : ℕ) → elem v a ≡ true → elem v ds ≡ false)
    → compact_from ds rounds i a (length a) ≡ some a
unfolding compact_from
compact_from-absent ds zero i a h apart = rw (take-length a) refl
compact_from-absent ds (suc rounds) i a h apart =
    let (v, p, q) = get_elem?-in a i (omega arith) in
    rw (compact_from, p, compact_element-absent ds v i a (length a) (apart v q))
      (compact_from-absent ds rounds (i + 1) a (omega arith) apart)

-- The last loop changes nothing when no id to remove is left in the slice.
pub compact-absent :
    (ds ts : List ℕ) → ((v : ℕ) → elem v ts ≡ true → elem v ds ≡ false) → compact ds ts ≡ some ts
unfolding compact
compact-absent ds ts apart = compact_from-absent ds (length ts) 0 ts (omega arith) apart

pub compact-one :
    (d : ℕ) (ts : List ℕ) → compact (d ∷ []) (kept_tables ts (d ∷ [])) ≡ some (without d ts)
compact-one d ts =
    rw (kept_tables-one d ts)
      (compact-absent (d ∷ []) (without d ts) (λ v h. ground (arith, elem-without v d ts)))
