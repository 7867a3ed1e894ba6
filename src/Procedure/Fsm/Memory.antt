-- ===== src/Procedure/Fsm/Memory.antt =====
-- A state machine, nodes and a storage of procedures in memory, for the tests.
use ceresmeta.Procedure.Fsm.{Fsm, FsmLaws}
use ceresmeta.Procedure.Calls.{Dispatch, DispatchLaws, Meta, ProcedureStorage}
use ceresmeta.Common.{
  if◌then◌else◌, ◌==◌, nat_eq, Result, ok, err, Exec, ℕ, ◌+◌, refl, Bool, true, false, ◌&&◌, Option,
  none, some, List, ◌∷◌, arith, other_error, Bytes, bytes_eq_refl, bytes_eq_sound, text_eq,
}

abbrev moved :
    {E S W : Type 0} → (E → Exec W (Unit {0})) → E → S → W → Option S → (Result (Unit {0}) × S) × W
moved callbacks e src w none = ((err (other_error 0), src), w)
moved callbacks e src w (some dst) = (((callbacks e w).0, dst), (callbacks e w).1)

abbrev pub fsm : Fsm
fsm = record { event = λ events callbacks e src w. moved callbacks e src w (events e src) }

pub fsm_laws : FsmLaws fsm
fsm_laws = record {
  event_moves = λ events callbacks e src dst w h d. rw h refl;
  event_refused = λ events callbacks e src w h. (other_error 0, rw h refl);
}

-- The open shards of each node; the version after a table has been created or dropped.
abbrev pub OpenShards : Type 0
OpenShards = Bytes → ℕ → Bool

abbrev pub nodes : Dispatch
nodes = record {
  State = OpenShards;
  open_shard = λ a i s. (ok tt, λ b j. if b == a && j == i.id then true else s b j);
  close_shard = λ a k s. (ok tt, λ b j. if b == a && j == k then false else s b j);
  create_table_on_shard = λ a r s. (ok (r.curr_shard_info.version + 1), s);
  drop_table_on_shard = λ a r s. (ok (r.curr_shard_info.version + 1), s);
  serves = λ s. s;
}

pub nodes_laws : DispatchLaws nodes
nodes_laws = record {
  close_shard_ok = λ a k s h. ground (arith, bytes_eq_refl a);
  close_shard_opens_none = λ a b k j s h. ground (arith, bytes_eq_sound b a);
  open_shard_ok = λ a i s h. ground (arith, bytes_eq_refl a);
  open_shard_opens_one = λ a b i j s h. ground (arith, bytes_eq_sound b a);
}

abbrev pub stored : ProcedureStorage
stored = record { Stored = List Meta; create_or_update = λ m l. (ok tt, m ∷ l) }
