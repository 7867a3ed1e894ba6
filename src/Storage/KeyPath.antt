-- ===== src/Storage/KeyPath.antt =====
-- server/storage/key_path.go: the keys of etcd.
pub mod Distinct
use Prim.Native.Char.{code}
use Prim.Native.String.{String}
use ceresmeta.Id.Codec.{encode_id}
use ceresmeta.Storage.Paths.{path_join, split}
use ceresmeta.Common.{
  nat_eq, length, ℕ, zero, suc, ◌-◌, Option, none, some, List, [], ◌∷◌, Bytes, text_eq,
}

abbrev pub codes : String → Bytes
codes String.[] = []
codes (String.◌∷◌ c s) = code c ∷ codes s

pad : ℕ → Bytes → Bytes
pad zero d = d
pad (suc k) d = b'0' ∷ pad k d

-- `fmt.Sprintf("%020d", id)`
pub fmt_id : ℕ → Bytes
unfolding pad
fmt_id n = pad (20 - length (encode_id n)) (encode_id n)

abbrev version_name : Bytes
version_name = codes "v1"

abbrev cluster_name : Bytes
cluster_name = codes "cluster"

abbrev pub schema_name : Bytes
schema_name = codes "schema"

abbrev pub table_name : Bytes
table_name = codes "table"

abbrev pub table_name_to_id_name : Bytes
table_name_to_id_name = codes "table_name_to_id"

abbrev node_name : Bytes
node_name = codes "node"

abbrev pub cluster_view_name : Bytes
cluster_view_name = codes "cluster_view"

abbrev pub shard_view_name : Bytes
shard_view_name = codes "shard_view"

abbrev pub latest_version : Bytes
latest_version = codes "latest_version"

abbrev info_name : Bytes
info_name = codes "info"

-- The parts below the root that each key starts with, for a cluster.
abbrev pub below : ℕ → List Bytes → List Bytes
below c ps = version_name ∷ cluster_name ∷ fmt_id c ∷ ps

unfoldable pub make_schema_key : Bytes → ℕ → ℕ → Bytes
make_schema_key root c s = path_join (root ∷ below c (schema_name ∷ info_name ∷ fmt_id s ∷ []))

unfoldable pub make_cluster_key : Bytes → ℕ → Bytes
make_cluster_key root c = path_join (root ∷ version_name ∷ cluster_name ∷ info_name ∷ fmt_id c ∷ [])

unfoldable pub make_cluster_view_latest_version_key : Bytes → ℕ → Bytes
make_cluster_view_latest_version_key root c =
    path_join (root ∷ below c (cluster_view_name ∷ latest_version ∷ []))

-- The version is a text.
unfoldable pub make_cluster_view_key : Bytes → ℕ → Bytes → Bytes
make_cluster_view_key root c v = path_join (root ∷ below c (cluster_view_name ∷ v ∷ []))

unfoldable pub make_shard_view_version_key : Bytes → ℕ → Bytes
make_shard_view_version_key root c = path_join (root ∷ below c (shard_view_name ∷ []))

unfoldable pub make_shard_view_latest_version_key : Bytes → ℕ → ℕ → Bytes
make_shard_view_latest_version_key root c k =
    path_join (root ∷ below c (shard_view_name ∷ fmt_id k ∷ latest_version ∷ []))

-- `sequences[len(sequences)-2]`
abbrev before_last : List Bytes → Option Bytes
before_last [] = none
before_last (p ∷ []) = none
before_last (p ∷ q ∷ []) = some p
before_last (p ∷ q ∷ r ∷ ps) = before_last (q ∷ r ∷ ps)

-- `none` is an index out of range.
unfoldable pub decode_shard_view_version_key : Bytes → Option Bytes
decode_shard_view_version_key key = before_last (split key)

unfoldable pub make_shard_view_key : Bytes → ℕ → ℕ → Bytes → Bytes
make_shard_view_key root c k v = path_join (root ∷ below c (shard_view_name ∷ fmt_id k ∷ v ∷ []))

unfoldable pub make_node_key : Bytes → ℕ → Bytes → Bytes
make_node_key root c name = path_join (root ∷ below c (node_name ∷ name ∷ []))

unfoldable pub make_table_key : Bytes → ℕ → ℕ → ℕ → Bytes
make_table_key root c s t =
    path_join (root ∷ below c (schema_name ∷ fmt_id s ∷ table_name ∷ fmt_id t ∷ []))

unfoldable pub make_name_to_id_key : Bytes → ℕ → ℕ → Bytes → Bytes
make_name_to_id_key root c s name =
    path_join (root ∷ below c (schema_name ∷ fmt_id s ∷ table_name_to_id_name ∷ name ∷ []))
