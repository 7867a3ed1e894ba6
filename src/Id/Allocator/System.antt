-- ===== src/Id/Allocator/System.antt =====
-- Several processes, each with its own struct of server/id/id_impl.go over one counter in etcd: any
-- interleaving of the steps of their calls, each at most one call of etcd, and restarts that forget a
-- struct and the call that is under way.
use ceresmeta.Common.{
  if◌then◌else◌, ◌==◌, nat_eq, Bool-cases, length, elem, Result, ok, err, ℕ, ◌+◌, ◌*◌, ◌^◌, ◌≤◌,
  ◌<◌, ◌≡◌, refl, sym, ◌≢◌, ◌⊎◌, inl, inr, Bool, true, false, Option, none, some, List, [], ◌∷◌,
  arith, Bytes,
}
use ceresmeta.Etcd.{Etcd, EtcdLaws}
use ceresmeta.Id.Allocator.{AllocatorImpl, new_allocator_impl}
use ceresmeta.Id.Allocator.Rebase.{Stored}
use ceresmeta.Id.Allocator.Session.{Phase, idle, phase_of, result_of, advance}
use ceresmeta.Id.Allocator.Session.Laws.{HasRead, grow-HasRead, advance-Advanced}

pub data Event : Type 0 where
  advances restart : ℕ → Event

-- The structs of the processes, where their calls stand, the store, and the ids given out, the latest first.
pub record World (e : Etcd) : Type 0 where
  pub procs : ℕ → AllocatorImpl
  pub phases : ℕ → Phase
  pub store : e.State
  pub issued : List ℕ

abbrev pub update {ℓ} : {A : Type ℓ} → (ℕ → A) → ℕ → A → ℕ → A
update f i a j = if i == j then a else f j

abbrev pub note : Option (Result ℕ) → List ℕ → List ℕ
note none l = l
note (some (ok v)) l = v ∷ l
note (some (err x)) l = l

-- No element occurs twice.
abbrev pub Distinct : List ℕ → Type 0
Distinct [] = Unit
Distinct (x ∷ xs) = (elem x xs ≡ false) × Distinct xs

abbrev pub In : AllocatorImpl → ℕ → Type 0
In a u = (a.base ≤ u) × (u < a.end)

updated :
    {A : Type 0} (P : A → Type 0) (f : ℕ → A) (i : ℕ) (a : A) (j : ℕ)
    → P a
    → P (f j)
    → P (update f i a j)
updated P f i a j h k = elim (Bool-cases (i == j)) [ inl e ↦ rw e h | inr e ↦ rw e k ]

module _ (e : Etcd) (key : Bytes) (width : ℕ) where
  pub step : Event → World e → World e
  step (advances i) w =
      let (p, (a, s)) = advance e (w.phases i) (w.procs i, w.store) in
      record {
        procs = update w.procs i a;
        phases = update w.phases i (phase_of p);
        store = s;
        issued = note (result_of p) w.issued;
      }
  step (restart i) w = record w {
    procs = update w.procs i (new_allocator_impl key width);
    phases = update w.phases i idle;
  }

  pub run : List Event → World e → World e
  unfolding step
  run [] w = w
  run (v ∷ vs) w = run vs (step v w)

  abbrev pub fresh : e.State → World e
  fresh s = record {
    procs = λ i. new_allocator_impl key width;
    phases = λ i. idle;
    store = s;
    issued = [];
  }

  -- The counter `n` bounds all ranges, which are apart from one another and from the ids given out.
  pub record Inv (n : ℕ) (w : World e) : Type 0 where
    pub stored : Stored e w.store key n
    pub same_key : (i : ℕ) → (w.procs i).key ≡ key
    pub same_step : (i : ℕ) → (w.procs i).alloc_step ≡ width
    pub has_read : (i : ℕ) → HasRead n (w.phases i)
    pub ordered : (i : ℕ) → (w.procs i).base ≤ (w.procs i).end
    pub below : (i : ℕ) → (w.procs i).end ≤ n
    pub apart : (i j u : ℕ) → i ≢ j → In (w.procs i) u → In (w.procs j) u → ⊥
    pub issued_below : (u : ℕ) → elem u w.issued ≡ true → u < n
    pub issued_free : (i u : ℕ) → elem u w.issued ≡ true → In (w.procs i) u → ⊥
    pub distinct : Distinct w.issued

  fresh-Inv : (s : e.State) (n : ℕ) → Stored e s key n → Inv n (fresh s)
  unfolding new_allocator_impl
  fresh-Inv s n st = record {
    stored = st;
    same_key = λ i. refl;
    same_step = λ i. refl;
    has_read = λ i. tt;
    ordered = λ i. omega arith;
    below = λ i. omega arith;
    apart = λ i j u d x y. omega arith;
    issued_below = λ u h. cc;
    issued_free = λ i u h x. omega arith;
    distinct = tt;
  }

  restart-Inv : (n i : ℕ) (w : World e) → Inv n w → Inv n (step (restart i) w)
  unfolding new_allocator_impl step
  restart-Inv n i w h = record {
    stored = h.stored;
    same_key = λ j. ground (arith, h.same_key j);
    same_step = λ j. ground (arith, h.same_step j);
    has_read = λ j. updated (HasRead n) w.phases i idle j tt (h.has_read j);
    ordered = λ j. ground (arith, h.ordered j);
    below = λ j. ground (arith, h.below j);
    apart = λ j k u d x y. ground (arith, h.apart j k u d);
    issued_below = h.issued_below;
    issued_free = λ j u m x. ground (arith, h.issued_free j u m);
    distinct = h.distinct;
  }

elem-note :
    (r : Option (Result ℕ)) (l : List ℕ) (u : ℕ)
    → elem u (note r l) ≡ true
    → (r ≡ some (ok u)) ⊎ (elem u l ≡ true)
elem-note none l u h = inr h
elem-note (some (ok v)) l u h = ground arith
elem-note (some (err x)) l u h = inr h

note-Distinct :
    (r : Option (Result ℕ)) (l : List ℕ)
    → ((v : ℕ) → r ≡ some (ok v) → elem v l ≡ false)
    → Distinct l
    → Distinct (note r l)
note-Distinct none l h d = d
note-Distinct (some (ok v)) l h d = (h v refl, d)
note-Distinct (some (err x)) l h d = d

move_key :
    (e : Etcd) (s : e.State) (n : ℕ) (k k' : Bytes) → k ≡ k' → Stored e s k n → Stored e s k' n
move_key e s n k k' p st = rw p at st

not_true : (b : Bool) → (b ≡ true → ⊥) → b ≡ false
not_true true h = absurd (h refl)
not_true false h = refl

module _ (e : Etcd) (laws : EtcdLaws e) (key : Bytes) (width : ℕ) (positive : 0 < width) where
  -- One step of one process.
  advances-Inv :
      (n i : ℕ) (w : World e)
      → Inv e key width n w
      → n + width < 2 ^ 64
      → (m : ℕ) × (m ≤ n + width) × Inv e key width m (step e key width (advances i) w)
  unfolding step
  advances-Inv n i w h room =
      let a = w.procs i in
      let turn = advance e (w.phases i) (a, w.store) in
      let out = turn.1 in
      let issued = result_of turn.0 in
      let st = move_key e w.store n key a.key (sym (h.same_key i)) h.stored in
      let got =
        advance-Advanced e laws a w.store n (omega (arith, h.same_step i))
          (omega (arith, h.same_step i)) st (h.ordered i) (h.below i) (w.phases i) (h.has_read i) in
      let held = got.holds in
      let a' = out.0 in
      (
        held.counter,
        omega (arith, held.bounded, h.same_step i),
        record {
          stored = move_key e out.1 held.counter a.key key (h.same_key i) held.stored;
          same_key = λ j. ground (arith, h.same_key j, h.same_key i, held.same_key);
          same_step = λ j. ground (arith, h.same_step j, h.same_step i, held.same_step);
          has_read = λ j.
              updated (HasRead held.counter) w.phases i (phase_of turn.0) j got.has_read
                (grow-HasRead n held.counter (w.phases j) held.grows (h.has_read j));
          ordered = λ j. ground (arith, h.ordered j, held.ordered);
          below = λ j. ground (arith, h.below j, held.below, held.grows);
          apart = λ j k u d x y. ground (
            arith,
            h.apart j k u d,
            h.apart i k u,
            h.apart j i u,
            held.reserved u,
            h.below j,
            h.below k,
          );
          issued_below = λ u m. elim (elem-note issued w.issued u m) [
            | inl new ↦ (got.given u new).2
            | inr old ↦ omega (arith, h.issued_below u old, held.grows)
          ];
          issued_free = λ j u m x. elim (elem-note issued w.issued u m) [
            | inl new ↦ ground (arith, got.given u new, h.apart i j u, h.below j)
            | inr old ↦ ground (
              arith,
              held.reserved u,
              h.issued_free i u old,
              h.issued_free j u old,
              h.issued_below u old,
            )
          ];
          distinct =
              note-Distinct issued w.issued
                (λ v g. not_true (elem v w.issued) (λ old.
                  ground (arith, got.given v g, h.issued_free i v old, h.issued_below v old)))
                h.distinct;
        },
      )

  -- Each event leaves room for the others.
  run-Inv :
      (n : ℕ) (vs : List Event) (w : World e)
      → Inv e key width n w
      → n + width * length vs < 2 ^ 64
      → (m : ℕ) × Inv e key width m (run e key width vs w)
  unfolding run
  run-Inv n [] w h room = (n, h)
  run-Inv n (advances i ∷ vs) w h room =
      let (m, l, h') = advances-Inv n i w h (grind arith) in
      run-Inv m vs (step e key width (advances i) w) h' (grind arith)
  run-Inv n (restart i ∷ vs) w h room =
      run-Inv n vs (step e key width (restart i) w) (restart-Inv e key width n i w h) (grind arith)

-- Processes start with empty structs over a store that holds the counter `n`. After any interleaving of
-- the steps of their calls, each at most one Get or one transaction of etcd, and of restarts, that leaves
-- room for one width a step below 2^64, whatever the calls of etcd return, no id has been given out twice,
-- and every id given out lies below the counter that the store then holds.
pub run-Distinct :
    (e : Etcd) (laws : EtcdLaws e) (key : Bytes) (width n : ℕ) (s : e.State) (vs : List Event)
    → 0 < width
    → Stored e s key n
    → n + width * length vs < 2 ^ 64
    → let w = run e key width vs (fresh e key width s) in
      Distinct w.issued
      × ((m : ℕ) × Stored e w.store key m × ((u : ℕ) → elem u w.issued ≡ true → u < m))
run-Distinct e laws key width n s vs positive st room =
    let (m, h) =
      run-Inv e laws key width positive n vs (fresh e key width s) (fresh-Inv e key width s n st)
        room in
    (h.distinct, (m, h.stored, h.issued_below))
