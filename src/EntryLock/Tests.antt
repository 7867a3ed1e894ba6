-- ===== src/EntryLock/Tests.antt =====
-- Runs of the lock of server/coordinator/lock/entry_lock.go, and the theorems at them.
use ceresmeta.Common.{nat_eq, elem, delete, insert, ℕ, ◌≡◌, refl, true, false, some, List, [], ◌∷◌}
use ceresmeta.EntryLock.{EntryLock, held, try_lock, unlock}
use ceresmeta.EntryLock.Laws.{LockCall, tries, unlocks, calls, unlock-try_lock, try_lock_exclusive}

abbrev wanted : List ℕ
wanted = 1 ∷ 2 ∷ []

-- Shard 3 is locked by another procedure.
abbrev busy : EntryLock
busy = (3, tt) ∷ []

granted : (try_lock wanted busy).0 ≡ true
unfolding try_lock held
granted = refl

refused : (try_lock (2 ∷ 3 ∷ []) busy).0 ≡ false
unfolding try_lock held
refused = refl

-- Another request is refused, one is granted, and lock 2 is released.
abbrev between : List LockCall
between = tries (2 ∷ 3 ∷ []) ∷ tries (4 ∷ []) ∷ unlocks (2 ∷ []) ∷ []

abbrev later : EntryLock
later = (3, tt) ∷ (1, tt) ∷ (4, tt) ∷ []

between-calls : calls between (some (try_lock wanted busy).1) ≡ some later
unfolding try_lock unlock held insert delete
between-calls = refl

granted_next : (try_lock (2 ∷ 5 ∷ []) later).0 ≡ true
unfolding try_lock held
granted_next = refl

unlock-try_lock_example :
    (l' : EntryLock) × (unlock wanted (try_lock wanted busy).1 ≡ some l')
    × ((j : ℕ) → held l' j ≡ held busy j)
unlock-try_lock_example = unlock-try_lock wanted busy granted

try_lock_exclusive_example : elem {A = ℕ} 1 (2 ∷ 5 ∷ []) ≡ false
try_lock_exclusive_example =
    try_lock_exclusive wanted (2 ∷ 5 ∷ []) busy later between granted between-calls granted_next 1
      refl refl
