-- ===== src/Etcd/Memory.antt =====
-- A store in memory that never fails, to show that the laws of the etcd client can be met.
use ceresmeta.Common.{
  if◌then◌else◌, nat_eq, Bool-cases, Error, ok, err, ◌≡◌, refl, inl, inr, other_error,
}
use ceresmeta.Etcd.{Etcd, EtcdLaws, Content, apply, all_hold, apply_all, to_list}

-- A store that is a function cannot list its keys.
abbrev unreadable : Error
unreadable = other_error 0

abbrev pub memory_etcd : Etcd
memory_etcd = record {
  State = Content;
  content = λ s. s;
  get = λ k s. (ok (to_list (s k)), s);
  txn = λ cs os s. (ok (all_hold cs s), if all_hold cs s then apply_all os s else s);
  exec = λ o s. (ok tt, apply o s);
  get_range = λ a b n s. (err unreadable, s);
  get_prefix = λ a s. (err unreadable, s);
}

ok_of {ℓ} : {A : Type ℓ} {a b : A} → ok a ≡ ok b → b ≡ a
ok_of h = cc

pub memory_etcd_laws : EtcdLaws memory_etcd
memory_etcd_laws = record {
  get_ok = λ k s kvs h. ok_of h;
  get_keeps = λ k j s. refl;
  txn_ok = λ cs os s b h. ok_of h;
  txn_writes = λ cs os s b j h. elim (Bool-cases (all_hold cs s)) [
    | inl e ↦ rw (ok_of h, e) refl
    | inr e ↦ rw (ok_of h, e) refl
  ];
  txn_fails = λ cs os s x h. absurd (cc);
  txn_error = λ cs os s x h. absurd (cc);
  exec_ok = λ o s j h. refl;
  exec_fails = λ o s x h. absurd (cc);
  get_range_keeps = λ a b j n s. refl;
  get_prefix_keeps = λ a j s. refl;
}
