-- ===== src/EntryLock/Laws.antt =====
-- What the two methods of server/coordinator/lock/entry_lock.go promise.
use ceresmeta.Common.{
  ◌==◌, nat_eq, Bool-cases, elem, insert, delete, lookup-insert, lookup-delete, ℕ, ◌≡◌, refl, inl,
  inr, true, false, ◌&&◌, ◌||◌, not, some, List, [], ◌∷◌, arith, Option, none, Option-cases, Bool,
  sym, ap, ◌∙◌,
}
use ceresmeta.EntryLock.{
  EntryLock, held, some_held, take_all, try_lock, all_held, release_all, unlock,
}

held-insert : (l : EntryLock) (k j : ℕ) → held (insert k tt l) j ≡ (k == j) || held l j
unfolding held
held-insert l k j = ground (arith, lookup-insert k j tt l)

held-delete : (l : EntryLock) (k j : ℕ) → held (delete k l) j ≡ not (k == j) && held l j
unfolding held
held-delete l k j = ground (arith, lookup-delete k j l)

held-take_all :
    (ks : List ℕ) (l : EntryLock) (j : ℕ) → held (take_all ks l) j ≡ elem j ks || held l j
unfolding take_all
held-take_all [] l j = refl
held-take_all (k ∷ ks) l j = ground (arith, held-take_all ks (insert k tt l) j, held-insert l k j)

held-release_all :
    (ks : List ℕ) (l : EntryLock) (j : ℕ) → held (release_all ks l) j ≡ not (elem j ks) && held l j
unfolding release_all
held-release_all [] l j = ground arith
held-release_all (k ∷ ks) l j =
    ground (arith, held-release_all ks (delete k l) j, held-delete l k j)

some_held-false :
    (ks : List ℕ) (l : EntryLock) (j : ℕ)
    → some_held ks l ≡ false
    → elem j ks ≡ true
    → held l j ≡ false
unfolding some_held
some_held-false [] l j h m = cc
some_held-false (k ∷ ks) l j h m = ground (arith, some_held-false ks l j)

some_held-true :
    (ks : List ℕ) (l : EntryLock)
    → some_held ks l ≡ true
    → (j : ℕ) × (elem j ks ≡ true) × (held l j ≡ true)
unfolding some_held
some_held-true [] l h = cc
some_held-true (k ∷ ks) l h = elim (Bool-cases (held l k)) [
  | inl here ↦ (k, ground arith, here)
  | inr there ↦ let (j, m, e) = some_held-true ks l (ground arith) in (j, ground arith, e)
]

all_held_of_elem :
    (ks : List ℕ) (l : EntryLock)
    → ((j : ℕ) → elem j ks ≡ true → held l j ≡ true)
    → all_held ks l ≡ true
unfolding all_held
all_held_of_elem [] l h = refl
all_held_of_elem (k ∷ ks) l h =
    ground (arith, h k, all_held_of_elem ks l (λ j m. h j (ground arith)))

-- A request that succeeds found none of its locks held, and adds exactly its locks to those held.
pub try_lock_success :
    (ks : List ℕ) (l : EntryLock)
    → (try_lock ks l).0 ≡ true
    → ((j : ℕ) → elem j ks ≡ true → held l j ≡ false)
      × ((j : ℕ) → held (try_lock ks l).1 j ≡ elem j ks || held l j)
unfolding try_lock
try_lock_success ks l h =
    (λ j m. ground (arith, some_held-false ks l j), λ j. ground (arith, held-take_all ks l j))

-- A request that fails asked for a lock that is held, and changes nothing.
pub try_lock_failure :
    (ks : List ℕ) (l : EntryLock)
    → (try_lock ks l).0 ≡ false
    → ((try_lock ks l).1 ≡ l) × ((j : ℕ) × (elem j ks ≡ true) × (held l j ≡ true))
unfolding try_lock
try_lock_failure ks l h = (ground arith, some_held-true ks l (ground arith))

-- After a request that succeeds, releasing the same locks does not panic, and leaves held exactly
-- what was held before the request.
pub unlock-try_lock :
    (ks : List ℕ) (l : EntryLock)
    → (try_lock ks l).0 ≡ true
    → (l' : EntryLock) × (unlock ks (try_lock ks l).1 ≡ some l') × ((j : ℕ) → held l' j ≡ held l j)
unfolding unlock
unlock-try_lock ks l h =
    let (free, taken) = try_lock_success ks l h in
    (
      release_all ks (try_lock ks l).1,
      ground (arith, all_held_of_elem ks (try_lock ks l).1 (λ j m. ground (arith, taken j))),
      λ j. ground (arith, held-release_all ks (try_lock ks l).1 j, taken j, free j),
    )

-- Calls in the order in which the mutex lets them through.
pub data LockCall : Type 0 where
  tries unlocks : List ℕ → LockCall

-- `none` is a panic.
abbrev pub call : LockCall → EntryLock → Option EntryLock
call (tries ks) l = some (try_lock ks l).1
call (unlocks ks) l = unlock ks l

abbrev pub calls : List LockCall → Option EntryLock → Option EntryLock
calls [] l = l
calls (c ∷ cs) none = none
calls (c ∷ cs) (some l) = calls cs (call c l)

abbrev pub releases : ℕ → List LockCall → Bool
releases j [] = false
releases j (tries ks ∷ cs) = releases j cs
releases j (unlocks ks ∷ cs) = elem j ks || releases j cs

try_lock-held :
    (ks : List ℕ) (l : EntryLock) (j : ℕ) → held l j ≡ true → held (try_lock ks l).1 j ≡ true
unfolding try_lock
try_lock-held ks l j h = elim (Bool-cases (some_held ks l)) [
  | inl e ↦ rw e h
  | inr e ↦ rw e (ground (arith, held-take_all ks l j))
]

unlock-held :
    (ks : List ℕ) (l l' : EntryLock) (j : ℕ)
    → unlock ks l ≡ some l'
    → elem j ks ≡ false
    → held l j ≡ true
    → held l' j ≡ true
unfolding unlock
unlock-held ks l l' j e n h = elim (Bool-cases (all_held ks l)) [
  | inl a ↦
      let same : release_all ks l ≡ l' = cc (rw a at e) in
      rw (sym same) (ground (arith, held-release_all ks l j))
  | inr a ↦ absurd (cc (rw a at e))
]

calls-none : (cs : List LockCall) → calls cs none ≡ none
calls-none [] = refl
calls-none (c ∷ cs) = refl

-- A lock that no call releases stays held.
calls-held :
    (cs : List LockCall) (l l' : EntryLock) (j : ℕ)
    → calls cs (some l) ≡ some l'
    → releases j cs ≡ false
    → held l j ≡ true
    → held l' j ≡ true
calls-held [] l l' j e n h = let same : l ≡ l' = cc in rw (sym same) h
calls-held (tries ks ∷ cs) l l' j e n h =
    calls-held cs (try_lock ks l).1 l' j e n (try_lock-held ks l j h)
calls-held (unlocks ks ∷ cs) l l' j e n h = elim (Option-cases (unlock ks l)) [
  | inl a ↦ absurd (cc (sym (calls-none cs), a, e))
  | inr (m, a) ↦
      calls-held cs m l' j (ap (calls cs) (sym a) ∙ e) (ground arith)
        (unlock-held ks l m j a (ground arith) h)
]

-- After a request that succeeds, and any calls of TryLock and Unlock that do not panic, a request that
-- succeeds has no lock in common with the first that was not released in between.
pub try_lock_exclusive :
    (ks js : List ℕ) (l l' : EntryLock) (cs : List LockCall)
    → (try_lock ks l).0 ≡ true
    → calls cs (some (try_lock ks l).1) ≡ some l'
    → (try_lock js l').0 ≡ true
    → (j : ℕ) → elem j ks ≡ true
    → releases j cs ≡ false
    → elem j js ≡ false
try_lock_exclusive ks js l l' cs h e h' j m n =
    let taken : held (try_lock ks l).1 j ≡ true = ground (arith, (try_lock_success ks l h).1 j) in
    let still = calls-held cs (try_lock ks l).1 l' j e n taken in
    ground (arith, (try_lock_success js l' h').0 j)

-- The release of one lock that is held.
pub unlock_one :
    (k : ℕ) (l : EntryLock)
    → held l k ≡ true
    → (l' : EntryLock) × (unlock (k ∷ []) l ≡ some l')
      × ((j : ℕ) → held l' j ≡ not (k == j) && held l j)
unfolding unlock
unlock_one k l h = (
  release_all (k ∷ []) l,
  ground (arith, all_held_of_elem (k ∷ []) l (λ j m. ground arith)),
  λ j. ground (arith, held-release_all (k ∷ []) l j),
)
