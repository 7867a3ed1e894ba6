-- ===== src/Procedure/CreatePartitionTable/Pending.antt =====
-- The names that the goroutines of create_partition_table.go have still to create.
use ceresmeta.Procedure.CreatePartitionTable.Tasks.{Task, all_finished, has_returned}
use ceresmeta.Common.{
  nat_eq, Bool-cases, get_elem?, set, elem, ℕ, zero, suc, ◌≡◌, refl, ◌⊎◌, inl, inr, Bool, true,
  false, ◌||◌, some, List, [], ◌∷◌, arith, Bytes, text_eq,
}

-- A goroutine has still to create a table of the name.
unfoldable pub is_pending : Bytes → List Task → Bool
is_pending n [] = false
is_pending n (t ∷ ts) = elem n t.names || is_pending n ts

pub pending_set :
    (n : Bytes) (ts : List Task) (i : ℕ) (t t' : Task)
    → get_elem? ts i ≡ some t
    → elem n t'.names ≡ true
    → is_pending n (set ts i t') ≡ true
unfolding is_pending
pending_set n [] i t t' h k = ground (arith, h)
pending_set n (x ∷ ts) zero t t' h k = ground (arith, k)
pending_set n (x ∷ ts) (suc i) t t' h k = ground (arith, pending_set n ts i t t' h k)

pub pending_others :
    (n : Bytes) (ts : List Task) (i : ℕ) (t t' : Task)
    → get_elem? ts i ≡ some t
    → is_pending n ts ≡ true
    → (elem n t.names ≡ true) ⊎ (is_pending n (set ts i t') ≡ true)
unfolding is_pending
pending_others n [] i t t' h k = absurd (cc)
pending_others n (x ∷ ts) zero t t' h k = elim (Bool-cases (elem n x.names)) [
  | inl e ↦ inl (let q : x ≡ t = cc in cc)
  | inr e ↦ inr (ground (arith, e, k))
]
pending_others n (x ∷ ts) (suc i) t t' h k = elim (Bool-cases (elem n x.names)) [
  | inl e ↦ inr (ground (arith, e))
  | inr e ↦ elim (pending_others n ts i t t' h (ground (arith, e, k))) [
    | inl q ↦ inl q
    | inr q ↦ inr (ground (arith, q))
  ]
]

no_names :
    (n : Bytes) (ns : List Bytes)
    → (elem n ns ≡ false) ⊎ ((m : Bytes) × (ms : List Bytes) × (ns ≡ m ∷ ms))
no_names n [] = inl refl
no_names n (m ∷ ms) = inr (m, ms, refl)

pub finished_none : (n : Bytes) (ts : List Task) → all_finished ts ≡ true → is_pending n ts ≡ false
unfolding is_pending all_finished
finished_none n [] h = refl
finished_none n (t ∷ ts) h = ground (arith, finished_none n ts, no_names n t.names)

pub returned_none : (n : Bytes) (ts : List Task) → has_returned ts ≡ true → is_pending n ts ≡ false
unfolding is_pending
returned_none n [] h = refl
returned_none n (t ∷ ts) h = finished_none n (t ∷ ts) h
