-- ===== src/Procedure/CreatePartitionTable/SubTables.antt =====
-- The sub tables of create_partition_table.go are there when its second callback has returned.
use ceresmeta.Procedure.CreatePartitionTable.{
  CreatePartitionTable, Whole, RawData, group_names, create_data_tables_callback,
}
use ceresmeta.ClusterMetadata.{ShardVersionUpdate}
use ceresmeta.ClusterMetadata.Routes.{ShardNodeWithVersion}
use ceresmeta.Procedure.Calls.{ProcedureStorage}
use ceresmeta.Procedure.Ddl.{Observer, get_sub_table_names}
use ceresmeta.Procedure.CreatePartitionTable.Tasks.{task_of}
use ceresmeta.Procedure.CreatePartitionTable.Laws.{run-IsFound}
use ceresmeta.Topology.{or_nil}
use ceresmeta.Storage.{Table, Storage}
use ceresmeta.TableManager.{IdAllocator, get_table}
use ceresmeta.Procedure.Calls.{Dispatch}
use ceresmeta.Procedure.Ddl.{CreateTableReq}
use ceresmeta.Procedure.CreatePartitionTable.Pending.{is_pending}
use ceresmeta.Procedure.CreatePartitionTable.Steps.{B, AreOk}
use ceresmeta.Common.{
  ◌==◌, nat_eq, Bool-cases, nat_beq_iff, length, elem, Map, lookup, insert, Result, ok, ℕ, ◌≡◌,
  refl, ◌⊎◌, inl, inr, Bool, true, false, ◌||◌, some, List, [], ◌∷◌, ◌++◌, map, arith, Bytes,
  bytes_eq, text_eq, nat_beq_iff,
}

-- Some shard has a table of the name.
unfoldable pub has_name : Bytes → Map ℕ (List Bytes) → Bool
has_name n [] = false
has_name n ((k, ns) ∷ m) = elem n ns || has_name n m

has_name-insert :
    (n : Bytes) (k : ℕ) (ns : List Bytes) (m : Map ℕ (List Bytes))
    → elem n ns ≡ true
    → has_name n (insert k ns m) ≡ true
unfolding has_name insert
has_name-insert n k ns [] h = ground (arith, h)
has_name-insert n k ns ((j, ms) ∷ m) h = ground (arith, h, has_name-insert n k ns m h)

has_name-keep :
    (n : Bytes) (k : ℕ) (ns : List Bytes) (m : Map ℕ (List Bytes))
    → has_name n m ≡ true
    → (elem n (or_nil (lookup k m)) ≡ true → elem n ns ≡ true)
    → has_name n (insert k ns m) ≡ true
unfolding has_name insert lookup
has_name-keep n k ns [] h g = absurd (cc)
has_name-keep n k ns ((j, ms) ∷ m) h g = elim (Bool-cases (j == k)) [
  | inl e ↦ elim (Bool-cases (elem n ms)) [
    | inl f ↦ let z = g (ground (arith, e, f)) in ground (arith, e, z)
    | inr f ↦ ground (arith, e, f, h)
  ]
  | inr e ↦ elim (Bool-cases (elem n ms)) [
    | inl f ↦ ground (arith, e, f)
    | inr f ↦
        let ih = has_name-keep n k ns m (ground (arith, f, h)) (λ z. g (ground (arith, e, z))) in
        ground (arith, e, ih)
  ]
]

elem-snoc : (n x : Bytes) (ns : List Bytes) → elem n (ns ++ x ∷ []) ≡ (elem n ns || bytes_eq x n)
elem-snoc n x [] = ground arith
elem-snoc n x (y ∷ ns) = ground (arith, elem-snoc n x ns)

has_name-group :
    (n : Bytes) (xs : List ShardNodeWithVersion) (ns : List Bytes) (m : Map ℕ (List Bytes))
    → length xs ≡ length ns
    → (elem n ns ≡ true) ⊎ (has_name n m ≡ true)
    → has_name n (group_names xs ns m) ≡ true
unfolding group_names
has_name-group n [] [] m l h = elim h [ inl q ↦ absurd (cc) | inr q ↦ q ]
has_name-group n [] (y ∷ ns) m l h = absurd (omega arith)
has_name-group n (x ∷ xs) [] m l h = absurd (omega arith)
has_name-group n (x ∷ xs) (y ∷ ns) m l h = has_name-group n xs ns _ (omega arith) (
    let old = or_nil (lookup x.shard_info.id m) in
    elim h [
      | inr q ↦ inr (
          has_name-keep n x.shard_info.id (old ++ y ∷ []) m q
            (λ z. ground (arith, elem-snoc n y old, z)))
      | inl q ↦ elim (Bool-cases (bytes_eq y n)) [
        | inl e ↦ inr (
            has_name-insert n x.shard_info.id (old ++ y ∷ []) m
              (ground (arith, elem-snoc n y old, e)))
        | inr e ↦ inl (ground (arith, e, q))
      ]
    ])

module _ (versions : Map ℕ ℕ) (s : Storage) (sa ta : IdAllocator) (d : Dispatch)
    (req : CreateTableReq) where
  new_tasks-AreOk :
      (b : B s sa ta d req) (m : Map ℕ (List Bytes))
      → AreOk s sa ta d req b (map (task_of versions) m)
  unfolding AreOk
  new_tasks-AreOk b [] = tt
  new_tasks-AreOk b ((k, ns) ∷ m) = (tt, new_tasks-AreOk b m)

new_tasks-pending :
    (versions : Map ℕ ℕ) (n : Bytes) (m : Map ℕ (List Bytes))
    → is_pending n (map (task_of versions) m) ≡ has_name n m
unfolding is_pending has_name
new_tasks-pending versions n [] = refl
new_tasks-pending versions n ((k, ns) ∷ m) = rw (new_tasks-pending versions n m) refl

module _ (s : Storage) (sa ta : IdAllocator) (d : Dispatch)
    (o : Observer (Table × ShardVersionUpdate)) (ps : ProcedureStorage)
    (marshal : RawData → Result Bytes) (now : ℕ) (schedule : List (ℕ × ℕ))
    (p : CreatePartitionTable) where
  -- However the goroutines take their turns: where the second callback returns, each sub table of the
  -- request is in the table manager under its name.
  pub create_data_tables_ok :
      (w : Whole s sa ta d o ps marshal) (n : Bytes)
      → (create_data_tables_callback s sa ta d o ps marshal now schedule p w).0 ≡ ok tt
      → elem n (get_sub_table_names p.params.source_req.partition_table_info) ≡ true
      → let w' = (create_data_tables_callback s sa ta d o ps marshal now schedule p w).1 in
        (t : Table) × (get_table p.params.source_req.schema_name n w'.0.0.0 ≡ ok (some t))
  unfolding create_data_tables_callback
  create_data_tables_ok w n h k =
      let names = get_sub_table_names p.params.source_req.partition_table_info in
      elim (Bool-cases (length p.params.sub_tables_shards == length names)) [
        | inr e ↦ absurd (ground (arith, e))
        | inl e ↦
            let len = (nat_beq_iff (length p.params.sub_tables_shards) (length names)).0 e in
            let groups = group_names p.params.sub_tables_shards names [] in
            let versions = p.related_version_info.shard_with_version in
            let req = p.params.source_req in
            rw e (
              run-IsFound s sa ta d req schedule (map (task_of versions) groups) w.0 n
                (new_tasks-AreOk versions s sa ta d req w.0 groups)
                (inl (
                  rw (new_tasks-pending versions n groups)
                    (has_name-group n p.params.sub_tables_shards names [] len (inl k))))
                (rw e at h))
      ]
