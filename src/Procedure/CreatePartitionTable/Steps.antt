-- ===== src/Procedure/CreatePartitionTable/Steps.antt =====
-- A step of a goroutine of create_partition_table.go: the tables that are there after it.
use ceresmeta.Storage.{Table, Storage}
use ceresmeta.TableManager.{IdAllocator, get_table}
use ceresmeta.TableManager.Laws.{create_table_ok}
use ceresmeta.ClusterMetadata.{World, create_table_metadata, add_table_topology}
use ceresmeta.ClusterMetadata.Parts.{create_table_metadata_inv, add_table_topology_inv}
use ceresmeta.Procedure.Calls.{Dispatch}
use ceresmeta.Procedure.Ddl.{
  CreateTableReq, build_create_table_request, Both, create_table_on_shard,
}
use ceresmeta.Procedure.CreateTable.Laws.{create_on_shard-cluster}
use ceresmeta.Procedure.CreatePartitionTable.Tasks.{
  Stage, waiting, created, dispatched, Task, after_first, create_next, step_at, step,
}
use mathlib.Core.Path.{subst}
use ceresmeta.Common.{
  u64, ◌==◌, nat_eq, Bool-cases, get_elem?, set, elem, Result, ok, ℕ, zero, suc, ◌+◌, ◌≡◌, refl,
  sym, ap, ◌∙◌, ◌⊎◌, inl, inr, true, none, some, List, [], ◌∷◌, arith, Bytes, bytes_eq,
  bytes_eq_sound, text_eq, Result-cases,
}

module _ (s : Storage) (sa ta : IdAllocator) (d : Dispatch) (req : CreateTableReq) where
  abbrev pub B : Type 0
  B = Both s sa ta d

  abbrev pub IsFound : Bytes → B → Type 0
  IsFound n b = (t : Table) × (get_table req.schema_name n b.0.0 ≡ ok (some t))

  -- The table that a goroutine is working on has been created.
  abbrev pub IsHeadFound : B → Stage → List Bytes → Type 0
  IsHeadFound b waiting ns = Unit {0}
  IsHeadFound b _ [] = Unit {0}
  IsHeadFound b _ (n ∷ ns) = IsFound n b

  abbrev pub IsOk : B → Task → Type 0
  IsOk b t = IsHeadFound b t.stage t.names

  unfoldable pub AreOk : B → List Task → Type 0
  AreOk b [] = Unit {0}
  AreOk b (t ∷ ts) = IsOk b t × AreOk b ts

  abbrev pub Grows : B → B → Type 0
  Grows b b' = (n : Bytes) → IsFound n b → IsFound n b'

  head-Grows :
      (b b' : B) (g : Stage) (ns : List Bytes)
      → Grows b b'
      → IsHeadFound b g ns
      → IsHeadFound b' g ns
  head-Grows b b' waiting ns k h = tt
  head-Grows b b' (created t) [] k h = tt
  head-Grows b b' (created t) (n ∷ ns) k h = k n h
  head-Grows b b' (dispatched t v) [] k h = tt
  head-Grows b b' (dispatched t v) (n ∷ ns) k h = k n h

  all-Grows : (b b' : B) (ts : List Task) → Grows b b' → AreOk b ts → AreOk b' ts
  unfolding AreOk
  all-Grows b b' [] g h = tt
  all-Grows b b' (t ∷ ts) g h = (head-Grows b b' t.stage t.names g h.0, all-Grows b b' ts g h.1)

  pub set-AreOk :
      (b b' : B) (ts : List Task) (i : ℕ) (t' : Task)
      → Grows b b'
      → IsOk b' t'
      → AreOk b ts
      → AreOk b' (set ts i t')
  unfolding AreOk
  set-AreOk b b' [] i t' g k h = tt
  set-AreOk b b' (t ∷ ts) zero t' g k h = (k, all-Grows b b' ts g h.1)
  set-AreOk b b' (t ∷ ts) (suc i) t' g k h =
      (head-Grows b b' t.stage t.names g h.0, set-AreOk b b' ts i t' g k h.1)

  pub get-AreOk :
      (b : B) (ts : List Task) (i : ℕ) (t : Task) → get_elem? ts i ≡ some t → AreOk b ts → IsOk b t
  unfolding AreOk
  get-AreOk b [] i t e h = absurd (cc)
  get-AreOk b (x ∷ ts) zero t e h = let q : x ≡ t = cc in subst (λ (y : Task). IsOk b y) q h.0
  get-AreOk b (x ∷ ts) (suc i) t e h = get-AreOk b ts i t e h.1

  -- A table that is created is found, and so are those that were.
  metadata-Grows :
      (now : ℕ) (n : Bytes) (b : B) (tb : Table)
      → let call = create_table_metadata s sa ta now req.schema_name n none b.0 in
        call.0 ≡ ok tb
        → (get_table req.schema_name n call.1.0 ≡ ok (some tb)) × Grows b (call.1, b.1)
  metadata-Grows now n b tb h =
      let w = b.0 in
      let (made, after) = create_table_metadata_inv s sa ta now req.schema_name n none w tb h in
      let (absent, _, found, others) =
        create_table_ok s sa ta now req.schema_name n none (w.0, (w.1.1.0, w.1.1.1)) tb made in
      (
        rw after found,
        λ m k. elim (Bool-cases (n == m)) [
          | inl e ↦ let q : n ≡ m = bytes_eq_sound n m e in (tb, rw after (cc))
          | inr e ↦ (k.0, rw after (rw (others m e) k.1))
        ],
      )

  -- What a step of a goroutine does: no table is lost, its own is there, and a name that it had is
  -- still to be made or found.
  unfoldable pub IsStep : B → Task → B → Task → Type 0
  IsStep b t b' t' =
      Grows b b'
      × (IsOk b' t'
          × ((n : Bytes) → elem n t.names ≡ true → (elem n t'.names ≡ true) ⊎ IsFound n b'))

  IsStep-waiting :
      (now : ℕ) (t : Task) (ns : List Bytes) (b : B) (t' : Task)
      → t.names ≡ ns
      → t.stage ≡ waiting
      → (create_next s sa ta d req now t ns b).0 ≡ ok t'
      → IsStep b t (create_next s sa ta d req now t ns b).1 t'
  unfolding IsStep
  IsStep-waiting now t [] b t' e g h =
      let q : t ≡ t' = cc in
      subst (λ (y : Task). IsStep b t b y) q (λ n k. k, (rw g tt, λ n k. inl k))
  IsStep-waiting now t (n ∷ ns) b t' e g h =
      elim (Result-cases (create_table_metadata s sa ta now req.schema_name n none b.0).0) [
        | inr (x, f) ↦ absurd (ground (arith, f))
        | inl (tb, f) ↦
            let (found, grows) = metadata-Grows now n b tb f in
            let q : record t { stage = created tb } ≡ t' = ground (arith, f) in
            subst (λ (y : Task). IsStep b t (create_next s sa ta d req now t (n ∷ ns) b).1 y) q
              (rw f (grows, (rw e (tb, found), λ m k. inl k)))
      ]

  moved-IsHeadFound :
      (b b' : B) (tb : Table) (v : ℕ) (ns : List Bytes)
      → Grows b b'
      → IsHeadFound b (created tb) ns
      → IsHeadFound b' (dispatched tb v) ns
  moved-IsHeadFound b b' tb v [] g h = tt
  moved-IsHeadFound b b' tb v (n ∷ ns) g h = g n h

  IsStep-created :
      (now : ℕ) (t : Task) (tb : Table) (b : B) (t' : Task)
      → t.stage ≡ created tb
      → IsOk b t
      → (step_at s sa ta d req now t (created tb) b).0 ≡ ok t'
      → IsStep b t (step_at s sa ta d req now t (created tb) b).1 t'
  unfolding IsStep
  IsStep-created now t tb b t' g k h =
      let call =
        create_table_on_shard s sa ta d t.shard_id
          (build_create_table_request tb
            (record { shard_id = t.shard_id; latest_version = t.version }) req)
          b in
      let same =
        create_on_shard-cluster s sa ta d t.shard_id
          (build_create_table_request tb
            (record { shard_id = t.shard_id; latest_version = t.version }) req)
          b in
      elim (Result-cases call.0) [
        | inr (x, f) ↦ absurd (ground (arith, f))
        | inl (v, f) ↦
            let q : record t { stage = dispatched tb v } ≡ t' = ground (arith, f) in
            subst (λ (y : Task). IsStep b t (step_at s sa ta d req now t (created tb) b).1 y) q
              (rw f (
                λ n e. rw same e,
                (
                  moved-IsHeadFound b call.1 tb v t.names (λ n e. rw same e) (rw g at k),
                  λ n e. inl e,
                ),
              ))
      ]

  head-IsFound :
      (b : B) (ns : List Bytes) (tb : Table) (v : ℕ) (n : Bytes)
      → IsHeadFound b (dispatched tb v) ns
      → elem n ns ≡ true
      → (elem n (after_first ns) ≡ true) ⊎ IsFound n b
  head-IsFound b [] tb v n h k = absurd (cc)
  head-IsFound b (m ∷ ns) tb v n h k = elim (Bool-cases (bytes_eq m n)) [
    | inl e ↦ let q = bytes_eq_sound m n e in inr (h.0, (let r = h.1 in cc))
    | inr e ↦ inl (ground (arith, e, k))
  ]

  IsStep-dispatched :
      (now : ℕ) (t : Task) (tb : Table) (v : ℕ) (b : B) (t' : Task)
      → t.stage ≡ dispatched tb v
      → IsOk b t
      → (step_at s sa ta d req now t (dispatched tb v) b).0 ≡ ok t'
      → IsStep b t (step_at s sa ta d req now t (dispatched tb v) b).1 t'
  unfolding IsStep
  IsStep-dispatched now t tb v b t' g k h =
      let u : ceresmeta.ClusterMetadata.ShardVersionUpdate = record {
        shard_id = t.shard_id;
        latest_version = v;
      } in
      let call = add_table_topology s sa ta now u tb b.0 in
      elim (Result-cases call.0) [
        | inr (x, f) ↦ absurd (ground (arith, f))
        | inl (y, f) ↦
            let (_, after) = add_table_topology_inv s sa ta now u tb b.0 f in
            let q : record t {
              version = u64 (t.version + 1);
              names = after_first t.names;
              stage = waiting;
            }
                ≡ t' =
              ground (arith, f) in
            subst (λ (y : Task). IsStep b t (step_at s sa ta d req now t (dispatched tb v) b).1 y) q
              (rw f (
                λ n e. rw after e,
                (
                  tt,
                  λ n e. elim (head-IsFound b t.names tb v n (rw g at k) e) [
                    | inl z ↦ inl z
                    | inr z ↦ inr (z.0, rw after z.1)
                  ],
                ),
              ))
      ]

  stages :
      (g : Stage)
      → (g ≡ waiting)
        ⊎ (((tb : Table) × (g ≡ created tb)) ⊎ ((tb : Table) × (v : ℕ) × (g ≡ dispatched tb v)))
  stages waiting = inl refl
  stages (created tb) = inr (inl (tb, refl))
  stages (dispatched tb v) = inr (inr (tb, v, refl))

  pub step-IsStep :
      (now : ℕ) (t : Task) (b : B) (t' : Task)
      → IsOk b t
      → (step s sa ta d req now t b).0 ≡ ok t'
      → IsStep b t (step s sa ta d req now t b).1 t'
  unfolding step
  step-IsStep now t b t' k h =
      let at =
        λ (g : Stage) (q : t.stage ≡ g). ap (λ (y : Stage). step_at s sa ta d req now t y b) q in
      let from =
        λ (g : Stage) (q : t.stage ≡ g)
            (r : (step_at s sa ta d req now t g b).0 ≡ ok t'
              → IsStep b t (step_at s sa ta d req now t g b).1 t').
          subst (λ (x : Result Task × B). IsStep b t x.1 t') (sym (at g q))
            (r (ap (λ (x : Result Task × B). x.0) (sym (at g q)) ∙ h)) in
      elim (stages t.stage) [
        | inl g ↦ from waiting g (IsStep-waiting now t t.names b t' refl g)
        | inr (inl (tb, g)) ↦ from (created tb) g (IsStep-created now t tb b t' g k)
        | inr (inr (tb, v, g)) ↦ from (dispatched tb v) g (IsStep-dispatched now t tb v b t' g k)
      ]
