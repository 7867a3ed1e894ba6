-- ===== src/Procedure/TransferLeader/Laws.antt =====
-- The runs of transfer_leader.go: which nodes have the shard open.
use ceresmeta.Storage.{ShardView, leader, status_unknown}
use ceresmeta.ClusterMetadata.{ShardInfo}
use ceresmeta.Procedure.{State, state_running}
use ceresmeta.Procedure.Calls.{Dispatch, DispatchLaws, ProcedureStorage}
use ceresmeta.Procedure.Fsm.{Fsm, FsmLaws, Run}
use ceresmeta.Procedure.Fsm as Loop
use ceresmeta.Procedure.Fsm.Script.{IsPath, script, loop-script, rounds}
use ceresmeta.Procedure.Fsm.Outcome.{Ends, any_error-Ends, always-Ends, finish-Ends, round-Ends}
use ceresmeta.Procedure.TransferLeader.{
  FsmState, begin, close_old_leader, open_new_leader, finish, Event, event_close_old_leader,
  event_open_new_leader, event_finish, transfer_leader_events, Params, RawData, World, persist,
  close_old_leader_callback, open_new_shard_callback, callbacks, machine, start,
}
use ceresmeta.Common.{
  ◌==◌, nat_eq, Bool-cases, Option-cases, lookup, Result, ok, err, ◌≡◌, refl, inl, inr, true, false,
  List, [], ◌∷◌, arith, Bytes, text_eq,
}

abbrev pub path : List (Event × FsmState)
path =
    (event_close_old_leader, close_old_leader)
    ∷ (event_open_new_leader, open_new_leader)
    ∷ (event_finish, finish)
    ∷ []

module _ (d : Dispatch) (s : ProcedureStorage) (marshal : RawData → Result Bytes) (p : Params) where
  pub path-IsPath : IsPath (machine d s marshal p) begin path
  unfolding IsPath transfer_leader_events
  path-IsPath =
      (refl, (refl, ((λ e. cc), (refl, (refl, ((λ e. cc), (refl, (refl, ((λ e. cc), refl)))))))))

  -- Storing a procedure makes no call to a node.
  pub persist-nodes :
      (c : FsmState) (t : State) (w : World d s marshal) → (persist d s marshal p c t w).1.0 ≡ w.0
  unfolding persist
  persist-nodes c t w = ground arith

abbrev new_shard : Params → ShardView → ShardInfo
new_shard p v = record {
  id = p.shard_id;
  role = leader;
  version = v.version;
  status = status_unknown;
}

module _ (d : Dispatch) (s : ProcedureStorage) (marshal : RawData → Result Bytes) where
  -- The shard is open at the old leader only, where there is one.
  abbrev pub IsHeldByOld : Params → World d s marshal → Type 0
  IsHeldByOld p w =
      (b : Bytes)
      → d.serves w.0 b p.shard_id ≡ true
      → (b ≡ p.old_leader_node_name) × ((p.old_leader_node_name == []) ≡ false)

  abbrev IsClosed : Params → World d s marshal → Type 0
  IsClosed p w = (b : Bytes) → d.serves w.0 b p.shard_id ≡ true → ⊥

  -- The shard is open at the new leader, and at no other node.
  abbrev pub IsHeldByNew : Params → World d s marshal → Type 0
  IsHeldByNew p w =
      (d.serves w.0 p.new_leader_node_name p.shard_id ≡ true)
      × ((b : Bytes) → d.serves w.0 b p.shard_id ≡ true → b ≡ p.new_leader_node_name)

  -- The shard is open at one node at most.
  abbrev pub HasOneLeader : Params → World d s marshal → Type 0
  HasOneLeader p w =
      (a b : Bytes) → d.serves w.0 a p.shard_id ≡ true → d.serves w.0 b p.shard_id ≡ true → a ≡ b

  module _ (l : DispatchLaws d) (p : Params) where
    -- A close that has failed may have closed the shard.
    closed_from :
        (b : Bytes) (w : World d s marshal)
        → d.serves (d.close_shard p.old_leader_node_name p.shard_id w.0).1 b p.shard_id ≡ true
        → IsHeldByOld p w
        → b ≡ p.old_leader_node_name
    closed_from b w g h =
        (h b (l.close_shard_opens_none p.old_leader_node_name b p.shard_id p.shard_id w.0 g)).0

    closed :
        (x : Result (Unit {0}) × d.State) (w : World d s marshal)
        → x ≡ d.close_shard p.old_leader_node_name p.shard_id w.0
        → IsHeldByOld p w
        → Ends {A = Unit {0}} {W = World d s marshal}
            (x.0, (x.1, w.1))
            (IsClosed p)
            (HasOneLeader p)
    closed (ok u, n) w e h = λ b g.
        let q = closed_from b w (cc) h in
        let r = l.close_shard_ok p.old_leader_node_name p.shard_id w.0 (cc) in cc
    closed (err x, n) w e h =
        λ a b g k. let q = closed_from a w (cc) h in let r = closed_from b w (cc) h in cc

    close-Ends :
        (w : World d s marshal)
        → IsHeldByOld p w
        → Ends (close_old_leader_callback d s marshal p w) (IsClosed p) (HasOneLeader p)
    unfolding close_old_leader_callback
    close-Ends w h = elim (Bool-cases (p.old_leader_node_name == [])) [
      | inl e ↦ rw e (λ b g. let q = (h b g).1 in cc)
      | inr e ↦ rw e (closed (d.close_shard p.old_leader_node_name p.shard_id w.0) w refl h)
    ]

    opened_from :
        (b : Bytes) (i : ShardInfo) (w : World d s marshal)
        → i.id ≡ p.shard_id
        → d.serves (d.open_shard p.new_leader_node_name i w.0).1 b p.shard_id ≡ true
        → IsClosed p w
        → b ≡ p.new_leader_node_name
    opened_from b i w k g h =
        elim (l.open_shard_opens_one p.new_leader_node_name b i p.shard_id w.0 g) [
          | inl q ↦ absurd (h b q)
          | inr q ↦ q.0
        ]

    opened :
        (i : ShardInfo) (x : Result (Unit {0}) × d.State) (w : World d s marshal)
        → i.id ≡ p.shard_id
        → x ≡ d.open_shard p.new_leader_node_name i w.0
        → IsClosed p w
        → Ends {A = Unit {0}} {W = World d s marshal}
            (x.0, (x.1, w.1))
            (IsHeldByNew p)
            (HasOneLeader p)
    opened i (ok u, n) w k e h = (
      let r = l.open_shard_ok p.new_leader_node_name i w.0 (cc) in cc,
      λ b g. opened_from b i w k (cc) h,
    )
    opened i (err x, n) w k e h =
        λ a b g g'. let q = opened_from a i w k (cc) h in let r = opened_from b i w k (cc) h in cc

    open-Ends :
        (w : World d s marshal)
        → IsClosed p w
        → Ends (open_new_shard_callback d s marshal p w) (IsHeldByNew p) (HasOneLeader p)
    unfolding open_new_shard_callback
    open-Ends w h = elim (Option-cases (lookup p.shard_id p.topology.shard_views_mapping)) [
      | inl e ↦ rw (e, open_new_shard_callback) (λ a b g k. absurd (h a g))
      | inr (v, e) ↦
          rw (e, open_new_shard_callback)
            (opened (new_shard p v) (d.open_shard p.new_leader_node_name (new_shard p v) w.0) w refl
              refl h)
    ]

    held_by_old-HasOneLeader : (w : World d s marshal) → IsHeldByOld p w → HasOneLeader p w
    held_by_old-HasOneLeader w h a b g k = let q = (h a g).0 in let r = (h b k).0 in cc

    held_by_new-HasOneLeader : (w : World d s marshal) → IsHeldByNew p w → HasOneLeader p w
    held_by_new-HasOneLeader w h a b g k = let q = h.1 a g in let r = h.1 b k in cc

    -- Storing keeps what holds of the nodes.
    stored :
        (N P : d.State → Type 0) (c : FsmState) (t : State) (w : World d s marshal)
        → ((n : d.State) → N n → P n)
        → N w.0
        → Ends (persist d s marshal p c t w) (λ v. N v.0) (λ v. P v.0)
    stored N P c t w weaken h =
        always-Ends (persist d s marshal p c t w) (λ v. N v.0) (λ v. P v.0) (λ v. weaken v.0)
          (rw (persist-nodes d s marshal p c t w) h)

module _ (f : Fsm) (fl : FsmLaws f) (d : Dispatch) (s : ProcedureStorage)
    (marshal : RawData → Result Bytes) (p : Params) where
  pub start-script :
      (r : Run FsmState (World d s marshal))
      → r.current ≡ begin
      → start d s marshal f p r
        ≡ script (machine d s marshal p) path (record r { state = state_running })
  unfolding start Loop.start rounds
  start-script r h =
      loop-script f fl (machine d s marshal p) path 0 (record r { state = state_running })
        (rw h (path-IsPath d s marshal p))

  -- A transfer that is started with the shard open at the old leader only, if there is one, ends with
  -- the shard open at the new leader and no other node where `Start` succeeds, and at one node at
  -- most where it fails, wherever that is.
  pub start-HasOneLeader :
      DispatchLaws d
      → (r : Run FsmState (World d s marshal)) → r.current ≡ begin
      → IsHeldByOld d s marshal p r.world
      → Ends
          (start d s marshal f p r)
          (λ q. IsHeldByNew d s marshal p q.world)
          (λ q. HasOneLeader d s marshal p q.world)
  unfolding callbacks
  start-HasOneLeader l r c h =
      let m = machine d s marshal p in
      let Old = IsHeldByOld d s marshal p in
      let New = IsHeldByNew d s marshal p in
      let One = HasOneLeader d s marshal p in
      let Closed = IsClosed d s marshal p in
      rw (start-script r c) (
        round-Ends m Old One Closed New event_close_old_leader close_old_leader _
          (record r { state = state_running })
          (λ c t w k.
            stored d s marshal l p (λ n. Old (n, w.1)) (λ n. One (n, w.1)) c t w
              (λ n. (held_by_old-HasOneLeader d s marshal l p) (n, w.1)) k)
          (λ w k.
            any_error-Ends (m.callbacks event_close_old_leader w) Closed One
              (close-Ends d s marshal l p w k))
          (λ q k.
            round-Ends m Closed One New New event_open_new_leader open_new_leader _ q
              (λ c t w k.
                stored d s marshal l p (λ n. Closed (n, w.1)) (λ n. One (n, w.1)) c t w
                  (λ n g a b i j. absurd (g a i)) k)
              (λ w k.
                any_error-Ends (m.callbacks event_open_new_leader w) New One
                  (open-Ends d s marshal l p w k))
              (λ q k.
                round-Ends m New One New New event_finish finish [] q
                  (λ c t w k.
                    stored d s marshal l p (λ n. New (n, w.1)) (λ n. One (n, w.1)) c t w
                      (λ n. (held_by_new-HasOneLeader d s marshal l p) (n, w.1)) k)
                  (λ w k. k)
                  (λ q k.
                    finish-Ends m New One New q
                      (λ c t w k. any_error-Ends (m.persist c t w) New One (
                        stored d s marshal l p (λ n. New (n, w.1)) (λ n. One (n, w.1)) c t w
                          (λ n. held_by_new-HasOneLeader d s marshal l p (n, w.1)) k))
                      k)
                  k)
              k)
          h)
