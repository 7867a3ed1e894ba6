-- ===== src/EntryLock.antt =====
-- server/coordinator/lock/entry_lock.go: one lock for each shard, taken all together or not at all.
pub mod Laws
mod Tests
use ceresmeta.Common.{
  if◌then◌else◌, nat_eq, Map, lookup, insert, delete, ℕ, Bool, true, false, ◌&&◌, ◌||◌, Option,
  none, some, List, [], ◌∷◌,
}

-- The set `map[uint64]struct{}`; the mutex of the struct makes each method one step.
abbrev pub EntryLock : Type 0
EntryLock = Map ℕ (Unit {0})

pub new_entry_lock : EntryLock
new_entry_lock = []

unfoldable pub held : EntryLock → ℕ → Bool
unfolding lookup
held l k = elim (lookup k l) [ none ↦ false | some _ ↦ true ]

some_held : List ℕ → EntryLock → Bool
some_held [] l = false
some_held (k ∷ ks) l = held l k || some_held ks l

take_all : List ℕ → EntryLock → EntryLock
take_all [] l = l
take_all (k ∷ ks) l = take_all ks (insert k tt l)

pub try_lock : List ℕ → EntryLock → Bool × EntryLock
unfolding some_held take_all
try_lock locks l = if some_held locks l then (false, l) else (true, take_all locks l)

all_held : List ℕ → EntryLock → Bool
all_held [] l = true
all_held (k ∷ ks) l = held l k && all_held ks l

release_all : List ℕ → EntryLock → EntryLock
release_all [] l = l
release_all (k ∷ ks) l = release_all ks (delete k l)

-- `none` is the panic on a lock that is not held, before anything is released.
pub unlock : List ℕ → EntryLock → Option EntryLock
unfolding all_held release_all
unlock locks l = if all_held locks l then some (release_all locks l) else none
