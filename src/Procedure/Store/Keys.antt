-- ===== src/Procedure/Store/Keys.antt =====
-- The keys of the procedures in etcd.
use ceresmeta.Id.Codec.{encode_id, value, value-encode_id}
use ceresmeta.Storage.Paths.{is_name, AllNames}
use ceresmeta.Storage.KeyPath.Distinct.{path_join_eq, fmt_id-is_name, fmt_id_eq, names_eq}
use ceresmeta.Procedure.{
  Kind, kind_create, kind_delete, kind_transfer_leader, kind_migrate, kind_split, kind_merge,
  kind_scatter, kind_create_table, kind_drop_table, kind_create_partition_table,
  kind_drop_partition_table,
}
use ceresmeta.Procedure.Store.{kind_number, key_names, EtcdStorageImpl, generate_key_path}
use ceresmeta.Common.{
  ◌==◌, nat_eq, ℕ, zero, suc, ◌≡◌, refl, sym, ap, ◌∙◌, Bool, true, false, ◌∷◌, arith, Bytes,
  bytes_eq, bytes_eq_sound, eq-false_of_not,
}

kind_of : ℕ → Kind
kind_of zero = kind_create
kind_of (suc zero) = kind_delete
kind_of (suc (suc zero)) = kind_transfer_leader
kind_of (suc (suc (suc zero))) = kind_migrate
kind_of (suc (suc (suc (suc zero)))) = kind_split
kind_of (suc (suc (suc (suc (suc zero))))) = kind_merge
kind_of (suc (suc (suc (suc (suc (suc zero)))))) = kind_scatter
kind_of (suc (suc (suc (suc (suc (suc (suc zero))))))) = kind_create_table
kind_of (suc (suc (suc (suc (suc (suc (suc (suc zero)))))))) = kind_drop_table
kind_of (suc (suc (suc (suc (suc (suc (suc (suc (suc zero))))))))) = kind_create_partition_table
kind_of (suc (suc (suc (suc (suc (suc (suc (suc (suc (suc n)))))))))) = kind_drop_partition_table

kind_of-kind_number : (k : Kind) → kind_of (kind_number k) ≡ k
unfolding kind_of
kind_of-kind_number kind_create = refl
kind_of-kind_number kind_delete = refl
kind_of-kind_number kind_transfer_leader = refl
kind_of-kind_number kind_migrate = refl
kind_of-kind_number kind_split = refl
kind_of-kind_number kind_merge = refl
kind_of-kind_number kind_scatter = refl
kind_of-kind_number kind_create_table = refl
kind_of-kind_number kind_drop_table = refl
kind_of-kind_number kind_create_partition_table = refl
kind_of-kind_number kind_drop_partition_table = refl

kind-is_name : (k : Kind) → is_name (encode_id (kind_number k)) ≡ true
unfolding encode_id
kind-is_name kind_create = refl
kind-is_name kind_delete = refl
kind-is_name kind_transfer_leader = refl
kind-is_name kind_migrate = refl
kind-is_name kind_split = refl
kind-is_name kind_merge = refl
kind-is_name kind_scatter = refl
kind-is_name kind_create_table = refl
kind-is_name kind_drop_table = refl
kind-is_name kind_create_partition_table = refl
kind-is_name kind_drop_partition_table = refl

key_names-AllNames : (c i : ℕ) (k : Kind) (b : Bool) → AllNames (key_names c i k b)
key_names-AllNames c i k true =
    (refl, (refl, (fmt_id-is_name c, (kind-is_name k, (fmt_id-is_name i, tt)))))
key_names-AllNames c i k false =
    (refl, (refl, (fmt_id-is_name c, (kind-is_name k, (fmt_id-is_name i, tt)))))

-- Equal numbers of kinds are those of one kind.
kind_eq :
    (k l : Kind) → bytes_eq (encode_id (kind_number k)) (encode_id (kind_number l)) ≡ true → k ≡ l
kind_eq k l h =
    let same = bytes_eq_sound (encode_id (kind_number k)) (encode_id (kind_number l)) h in
    let p = ap (value 0) same in
    let q = sym (value-encode_id (kind_number k)) ∙ p ∙ value-encode_id (kind_number l) in
    sym (kind_of-kind_number k) ∙ ap kind_of q ∙ kind_of-kind_number l

-- Keys are equal only for one kind, one id and one place.
module _ (m : EtcdStorageImpl) (c : ℕ) (root : Bytes) (rooted : m.root_path ≡ c ∷ root) where
  key_eq :
      (i j : ℕ) (k l : Kind) (a b : Bool)
      → bytes_eq (generate_key_path m i k a) (generate_key_path m j l b)
        ≡ names_eq (key_names m.cluster_id i k a) (key_names m.cluster_id j l b)
  unfolding generate_key_path
  key_eq i j k l a b = rw rooted (
      path_join_eq c root _ _ _ _ (key_names-AllNames m.cluster_id i k a)
        (key_names-AllNames m.cluster_id j l b))

  pub key_place :
      (i j : ℕ) (k l : Kind) (a b : Bool)
      → (a ≡ b → ⊥)
      → bytes_eq (generate_key_path m i k a) (generate_key_path m j l b) ≡ false
  key_place i j k l true true h = absurd (h refl)
  key_place i j k l true false h = key_eq i j k l true false
  key_place i j k l false true h = key_eq i j k l false true
  key_place i j k l false false h = absurd (h refl)

  pub key_other :
      (i j : ℕ) (k l : Kind) (a b : Bool)
      → ((k ≡ l) × (i ≡ j) → ⊥)
      → bytes_eq (generate_key_path m i k a) (generate_key_path m j l b) ≡ false
  key_other i j k l a b h = eq-false_of_not _ (λ t.
      let q = sym (key_eq i j k l a b) ∙ t in
      let p : bytes_eq (encode_id (kind_number k)) (encode_id (kind_number l)) ≡ true =
        ground arith in
      let r : (i == j) ≡ true = ground (arith, fmt_id_eq i j) in h (kind_eq k l p, ground arith))
