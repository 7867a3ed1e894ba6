-- ===== src/Procedure/Store/Tests.antt =====
-- The procedures in etcd on the store in memory.
use ceresmeta.Etcd.Memory.{memory_etcd, memory_etcd_laws}
use ceresmeta.EtcdUtil.{get_value}
use ceresmeta.Procedure.{
  kind_create, kind_delete, kind_transfer_leader, kind_migrate, kind_split, kind_merge,
  kind_scatter, kind_create_table, kind_drop_table, kind_create_partition_table,
  kind_drop_partition_table, state_init, state_running, state_finished, state_failed,
  state_cancelled,
}
use ceresmeta.Procedure.Calls.{Meta}
use ceresmeta.Procedure.Store.{
  EtcdStorageImpl, normal_key_path, deleted_key_path, create_or_update, delete, mark_deleted,
}
use ceresmeta.Procedure.Store.Laws.{OthersKept, mark_deleted-create_or_update}
use ceresmeta.Procedure.Store.Deletes.{delete_ok}
use ceresmeta.Common.{
  nat_eq, ok, ◌≡◌, refl, ◌⊎◌, Option, none, some, [], ◌∷◌, arith, Bytes, bytes_eq_refl,
}

-- A codec for the transfers that wait.
abbrev marshal : Meta → Option Bytes
marshal a = elim a.kind [
  | kind_transfer_leader ↦ elim a.state [
    | state_init ↦ some (a.id ∷ a.raw_data)
    | state_running ↦ none
    | state_finished ↦ none
    | state_failed ↦ none
    | state_cancelled ↦ none
  ]
  | kind_create ↦ none
  | kind_delete ↦ none
  | kind_migrate ↦ none
  | kind_split ↦ none
  | kind_merge ↦ none
  | kind_scatter ↦ none
  | kind_create_table ↦ none
  | kind_drop_table ↦ none
  | kind_create_partition_table ↦ none
  | kind_drop_partition_table ↦ none
]

abbrev unmarshal : Bytes → Option Meta
unmarshal [] = none
unmarshal (i ∷ d) =
    some (record { id = i; kind = kind_transfer_leader; state = state_init; raw_data = d })

back : (a : Meta) (v : Bytes) → marshal a ≡ some v → unmarshal v ≡ some a
back a v h = ground arith

abbrev impl : EtcdStorageImpl
impl = record {
  codec = record { marshal = marshal; unmarshal = unmarshal };
  cluster_id = 1;
  root_path = b'/' ∷ b'm' ∷ [];
  scan_rounds = 3;
}

abbrev transfer : Meta
transfer = record { id = 7; kind = kind_transfer_leader; state = state_init; raw_data = 1 ∷ 2 ∷ [] }

abbrev nothing : Bytes → Option Bytes
nothing k = none

abbrev stored : Bytes → Option Bytes
stored = (create_or_update memory_etcd impl transfer nothing).1

marked : (mark_deleted memory_etcd impl kind_transfer_leader 7 stored).0 ≡ ok tt
unfolding create_or_update mark_deleted get_value
marked = let h = bytes_eq_refl (normal_key_path impl kind_transfer_leader 7) in rw h refl

mark_deleted-create_or_update_example :
    let s' = (mark_deleted memory_etcd impl kind_transfer_leader 7 stored).1 in
    (s' (normal_key_path impl kind_transfer_leader 7) ≡ none)
    × ((v : Bytes) × (s' (deleted_key_path impl kind_transfer_leader 7) ≡ some v)
        × (unmarshal v ≡ some transfer))
    × OthersKept memory_etcd impl kind_transfer_leader 7 nothing s'
unfolding create_or_update mark_deleted
mark_deleted-create_or_update_example =
    mark_deleted-create_or_update memory_etcd memory_etcd_laws impl b'/' (b'm' ∷ []) refl back
      transfer nothing refl marked

delete_ok_example :
    ((delete memory_etcd impl kind_transfer_leader 7 stored).1
        (normal_key_path impl kind_transfer_leader 7)
      ≡ none)
    × (((delete memory_etcd impl kind_transfer_leader 7 stored).1
            (deleted_key_path impl kind_transfer_leader 7)
          ≡ none)
        ⊎ ((delete memory_etcd impl kind_transfer_leader 7 stored).1
              (deleted_key_path impl kind_transfer_leader 7)
            ≡ stored (deleted_key_path impl kind_transfer_leader 7)))
    × OthersKept memory_etcd impl kind_transfer_leader 7 stored
        (delete memory_etcd impl kind_transfer_leader 7 stored).1
unfolding delete
delete_ok_example =
    delete_ok memory_etcd memory_etcd_laws impl b'/' (b'm' ∷ []) refl kind_transfer_leader 7 stored
      refl
