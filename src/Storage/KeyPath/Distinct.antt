-- ===== src/Storage/KeyPath/Distinct.antt =====
-- Keys of etcd are equal only for equal names below the root.
use ceresmeta.Id.Codec.{encode_id, value, value-encode_id, elem-encode_id}
use ceresmeta.Storage.Paths.{
  path_join, join, split, split-join, AllNames, is_name, path_join-names, root_prefix,
}
use ceresmeta.Storage.KeyPath.{
  fmt_id, pad, latest_version, below, cluster_view_name, shard_view_name, schema_name, table_name,
  table_name_to_id_name, make_table_key, make_name_to_id_key, make_cluster_view_latest_version_key,
  make_cluster_view_key, make_shard_view_latest_version_key, make_shard_view_key,
}
use ceresmeta.Common.{
  ◌==◌, nat_eq, Bool-cases, length, elem, ℕ, zero, suc, ◌+◌, ◌-◌, ◌≤◌, ◌<◌, ◌≡◌, refl, sym, ap, ◌∙◌,
  inl, inr, Bool, true, false, ◌&&◌, List, [], ◌∷◌, ◌++◌, arith, Bytes, bytes_eq, bytes_eq_refl,
  bytes_eq_sound, text_eq, eq-false_of_not,
}

value-pad : (k : ℕ) (d : Bytes) → value 0 (pad k d) ≡ value 0 d
unfolding pad
value-pad zero d = refl
value-pad (suc k) d = value-pad k d

length-pad : (k : ℕ) (d : Bytes) → length (pad k d) ≡ k + length d
unfolding pad
length-pad zero d = omega arith
length-pad (suc k) d = omega (arith, length-pad k d)

elem-pad : (c k : ℕ) (d : Bytes) → c < 48 → elem c (pad k d) ≡ elem c d
unfolding pad
elem-pad c zero d h = refl
elem-pad c (suc k) d h = ground (arith, elem-pad c k d)

value-fmt_id : (n : ℕ) → value 0 (fmt_id n) ≡ n
unfolding fmt_id
value-fmt_id n = value-pad (20 - length (encode_id n)) (encode_id n) ∙ value-encode_id n

length-fmt_id : (n : ℕ) → 20 ≤ length (fmt_id n)
unfolding fmt_id
length-fmt_id n = omega (arith, length-pad (20 - length (encode_id n)) (encode_id n))

fmt_id-no_slash : (n : ℕ) → elem b'/' (fmt_id n) ≡ false
unfolding fmt_id
fmt_id-no_slash n =
    elem-pad b'/' (20 - length (encode_id n)) (encode_id n) (omega arith)
    ∙ elem-encode_id n b'/' (omega arith)

-- A text of twenty bytes or more is none of the short ones.
long-ne : (s t : Bytes) → length t < length s → bytes_eq s t ≡ false
long-ne [] t h = absurd (omega arith)
long-ne (c ∷ s) [] h = refl
long-ne (c ∷ s) (d ∷ t) h = ground (arith, long-ne s t)

bytes_eq_sym : (s t : Bytes) → bytes_eq s t ≡ bytes_eq t s
bytes_eq_sym [] [] = refl
bytes_eq_sym [] (b ∷ t) = refl
bytes_eq_sym (a ∷ s) [] = refl
bytes_eq_sym (a ∷ s) (b ∷ t) = ground (arith, bytes_eq_sym s t)

pub fmt_id-is_name : (n : ℕ) → is_name (fmt_id n) ≡ true
fmt_id-is_name n = ground (
  arith,
  long-ne (fmt_id n) [],
  long-ne (fmt_id n) (b'.' ∷ []),
  long-ne (fmt_id n) (b'.' ∷ b'.' ∷ []),
  length-fmt_id n,
  fmt_id-no_slash n,
)

pub fmt_id_eq : (m n : ℕ) → bytes_eq (fmt_id m) (fmt_id n) ≡ (m == n)
fmt_id_eq m n = elim (Bool-cases (m == n)) [
  | inl e ↦ let p : m ≡ n = ground arith in rw e (rw p (bytes_eq_refl (fmt_id n)))
  | inr e ↦ rw e (
      eq-false_of_not (bytes_eq (fmt_id m) (fmt_id n)) (λ h.
        let p = ap (value 0) (bytes_eq_sound (fmt_id m) (fmt_id n) h) in
        ground (arith, value-fmt_id m, value-fmt_id n)))
]

pub fmt_id-latest_version : (n : ℕ) → bytes_eq (fmt_id n) latest_version ≡ false
fmt_id-latest_version n = long-ne (fmt_id n) latest_version (omega (arith, length-fmt_id n))

pub latest_version-fmt_id : (n : ℕ) → bytes_eq latest_version (fmt_id n) ≡ false
latest_version-fmt_id n = bytes_eq_sym latest_version (fmt_id n) ∙ fmt_id-latest_version n

abbrev pub names_eq : List Bytes → List Bytes → Bool
names_eq [] [] = true
names_eq (p ∷ ps) (q ∷ qs) = bytes_eq p q && names_eq ps qs
names_eq _ _ = false

names_eq_sound : (ps qs : List Bytes) → names_eq ps qs ≡ true → ps ≡ qs
names_eq_sound [] [] h = refl
names_eq_sound [] (q ∷ qs) h = cc
names_eq_sound (p ∷ ps) [] h = cc
names_eq_sound (p ∷ ps) (q ∷ qs) h = ground (arith, bytes_eq_sound p q, names_eq_sound ps qs)

names_eq_refl : (ps : List Bytes) → names_eq ps ps ≡ true
names_eq_refl [] = refl
names_eq_refl (p ∷ ps) = ground (arith, bytes_eq_refl p, names_eq_refl ps)

append_cancel : (p a b : Bytes) → p ++ a ≡ p ++ b → a ≡ b
append_cancel [] a b h = h
append_cancel (x ∷ p) a b h = append_cancel p a b (cc)

-- Two keys below one root are equal exactly when their names are.
pub path_join_eq :
    (c : ℕ) (root : Bytes) (x y : Bytes) (xs ys : List Bytes)
    → AllNames (x ∷ xs)
    → AllNames (y ∷ ys)
    → bytes_eq (path_join ((c ∷ root) ∷ x ∷ xs)) (path_join ((c ∷ root) ∷ y ∷ ys))
      ≡ names_eq (x ∷ xs) (y ∷ ys)
path_join_eq c root x y xs ys hx hy =
    rw (path_join-names c root x xs hx, path_join-names c root y ys hy)
      (elim (Bool-cases (names_eq (x ∷ xs) (y ∷ ys))) [
        | inl e ↦ rw e (
            rw (names_eq_sound (x ∷ xs) (y ∷ ys) e)
              (bytes_eq_refl (root_prefix (c ∷ root) ++ join (y ∷ ys))))
        | inr e ↦ rw e (
            eq-false_of_not _ (λ h.
              let p = append_cancel (root_prefix (c ∷ root)) _ _ (bytes_eq_sound _ _ h) in
              let q = sym (split-join x xs hx) ∙ ap split p ∙ split-join y ys hy in
              let r = ap (λ zs. names_eq (x ∷ xs) zs) q in
              cc (sym (names_eq_refl (x ∷ xs)) ∙ r ∙ e)))
      ])

-- The keys of the views.
module _ (c : ℕ) (root : Bytes) where
  abbrev r : Bytes
  r = c ∷ root

  cluster_names :
      (a : ℕ) (v : Bytes) → is_name v ≡ true → AllNames (below a (cluster_view_name ∷ v ∷ []))
  cluster_names a v h = (refl, (refl, (fmt_id-is_name a, (refl, (h, tt)))))

  shard_names :
      (a k : ℕ) (v : Bytes)
      → is_name v ≡ true
      → AllNames (below a (shard_view_name ∷ fmt_id k ∷ v ∷ []))
  shard_names a k v h = (refl, (refl, (fmt_id-is_name a, (refl, (fmt_id-is_name k, (h, tt))))))

  pub cluster_view_key_eq :
      (a b : ℕ) (v w : Bytes)
      → is_name v ≡ true
      → is_name w ≡ true
      → bytes_eq (make_cluster_view_key r a v) (make_cluster_view_key r b w)
        ≡ ((a == b) && bytes_eq v w)
  unfolding make_cluster_view_key
  cluster_view_key_eq a b v w hv hw =
      path_join_eq c root _ _ _ _ (cluster_names a v hv) (cluster_names b w hw)
      ∙ ground (arith, fmt_id_eq a b)

  pub shard_view_key_eq :
      (a b k j : ℕ) (v w : Bytes)
      → is_name v ≡ true
      → is_name w ≡ true
      → bytes_eq (make_shard_view_key r a k v) (make_shard_view_key r b j w)
        ≡ ((a == b) && ((k == j) && bytes_eq v w))
  unfolding make_shard_view_key
  shard_view_key_eq a b k j v w hv hw =
      path_join_eq c root _ _ _ _ (shard_names a k v hv) (shard_names b j w hw)
      ∙ ground (arith, fmt_id_eq a b, fmt_id_eq k j)

  pub cluster_key-shard_key :
      (a b k : ℕ) (v w : Bytes)
      → is_name v ≡ true
      → is_name w ≡ true
      → bytes_eq (make_cluster_view_key r a v) (make_shard_view_key r b k w) ≡ false
  unfolding make_cluster_view_key make_shard_view_key
  cluster_key-shard_key a b k v w hv hw =
      path_join_eq c root _ _ _ _ (cluster_names a v hv) (shard_names b k w hw) ∙ ground arith

  pub shard_key-cluster_key :
      (a b k : ℕ) (v w : Bytes)
      → is_name v ≡ true
      → is_name w ≡ true
      → bytes_eq (make_shard_view_key r b k w) (make_cluster_view_key r a v) ≡ false
  shard_key-cluster_key a b k v w hv hw =
      bytes_eq_sym (make_shard_view_key r b k w) (make_cluster_view_key r a v)
      ∙ cluster_key-shard_key a b k v w hv hw

  -- The keys of a table, and of the id of its name, are those of no view.
  table_names :
      (a s t : ℕ) → AllNames (below a (schema_name ∷ fmt_id s ∷ table_name ∷ fmt_id t ∷ []))
  table_names a s t =
      (refl, (refl, (fmt_id-is_name a, (refl, (fmt_id-is_name s, (refl, (fmt_id-is_name t, tt)))))))

  id_names :
      (a s : ℕ) (n : Bytes)
      → is_name n ≡ true
      → AllNames (below a (schema_name ∷ fmt_id s ∷ table_name_to_id_name ∷ n ∷ []))
  id_names a s n h = (refl, (refl, (fmt_id-is_name a, (refl, (fmt_id-is_name s, (refl, (h, tt)))))))

  pub table_key-cluster_key :
      (a s t b : ℕ) (v : Bytes)
      → is_name v ≡ true
      → bytes_eq (make_table_key r a s t) (make_cluster_view_key r b v) ≡ false
  unfolding make_table_key make_cluster_view_key
  table_key-cluster_key a s t b v hv =
      path_join_eq c root _ _ _ _ (table_names a s t) (cluster_names b v hv) ∙ ground arith

  pub table_key-shard_key :
      (a s t b k : ℕ) (v : Bytes)
      → is_name v ≡ true
      → bytes_eq (make_table_key r a s t) (make_shard_view_key r b k v) ≡ false
  unfolding make_table_key make_shard_view_key
  table_key-shard_key a s t b k v hv =
      path_join_eq c root _ _ _ _ (table_names a s t) (shard_names b k v hv) ∙ ground arith

  pub name_key-cluster_key :
      (a s b : ℕ) (n v : Bytes)
      → is_name n ≡ true
      → is_name v ≡ true
      → bytes_eq (make_name_to_id_key r a s n) (make_cluster_view_key r b v) ≡ false
  unfolding make_name_to_id_key make_cluster_view_key
  name_key-cluster_key a s b n v hn hv =
      path_join_eq c root _ _ _ _ (id_names a s n hn) (cluster_names b v hv) ∙ ground arith

  pub name_key-shard_key :
      (a s b k : ℕ) (n v : Bytes)
      → is_name n ≡ true
      → is_name v ≡ true
      → bytes_eq (make_name_to_id_key r a s n) (make_shard_view_key r b k v) ≡ false
  unfolding make_name_to_id_key make_shard_view_key
  name_key-shard_key a s b k n v hn hv =
      path_join_eq c root _ _ _ _ (id_names a s n hn) (shard_names b k v hv) ∙ ground arith

-- The keys of the latest versions are those of the version `latest_version`.
pub latest_version_key :
    (root : Bytes) (a : ℕ)
    → make_cluster_view_latest_version_key root a ≡ make_cluster_view_key root a latest_version
unfolding make_cluster_view_latest_version_key make_cluster_view_key
latest_version_key root a = refl

pub shard_latest_version_key :
    (root : Bytes) (a k : ℕ)
    → make_shard_view_latest_version_key root a k ≡ make_shard_view_key root a k latest_version
unfolding make_shard_view_latest_version_key make_shard_view_key
shard_latest_version_key root a k = refl
