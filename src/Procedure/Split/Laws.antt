-- ===== src/Procedure/Split/Laws.antt =====
-- The runs of split.go: what the nodes are asked for.
use ceresmeta.Storage.{Storage}
use ceresmeta.TableManager.{IdAllocator}
use ceresmeta.Procedure.{State, state_running}
use ceresmeta.Procedure.Calls.{Dispatch, DispatchLaws, ProcedureStorage}
use ceresmeta.Procedure.Fsm.{Fsm, FsmLaws, Run}
use ceresmeta.Procedure.Fsm as Loop
use ceresmeta.Procedure.Fsm.Script.{IsPath, script, loop-script, rounds}
use ceresmeta.Procedure.Fsm.Outcome.{Ends, any_error-Ends, always-Ends, finish-Ends, round-Ends}
use ceresmeta.Procedure.Split.{
  FsmState, begin, create_new_shard_view, update_shard_tables, open_new_shard, finish, Event,
  event_create_new_shard_view, event_update_shard_tables, event_open_new_shard, event_finish,
  split_events, Params, RawData, Whole, persist, new_shard, create_shard_view_callback,
  update_shard_tables_callback, open_shard_callback, callbacks, machine, start,
}
use ceresmeta.Common.{
  nat_eq, Error, Result, ok, err, ℕ, ◌≡◌, refl, ◌⊎◌, inl, inr, true, List, [], ◌∷◌, arith, Bytes,
  text_eq,
}

abbrev pub path : List (Event × FsmState)
path =
    (event_create_new_shard_view, create_new_shard_view)
    ∷ (event_update_shard_tables, update_shard_tables)
    ∷ (event_open_new_shard, open_new_shard)
    ∷ (event_finish, finish)
    ∷ []

module _ (s : Storage) (sa ta : IdAllocator) (d : Dispatch) (ps : ProcedureStorage)
    (marshal : RawData → Result Bytes) (now later : ℕ) (p : Params) where
  abbrev W : Type 0
  W = Whole s sa ta d ps marshal

  path-IsPath : IsPath (machine s sa ta d ps marshal now later p) begin path
  unfolding IsPath split_events
  path-IsPath = (
    refl,
    (
      refl,
      (
        (λ e. cc),
        (refl, (refl, ((λ e. cc), (refl, (refl, ((λ e. cc), (refl, (refl, ((λ e. cc), refl))))))))),
      ),
    ),
  )

  persist-nodes :
      (c : FsmState) (t : State) (w : W) → (persist s sa ta d ps marshal p c t w).1.0.1 ≡ w.0.1
  unfolding persist
  persist-nodes c t w = ground arith

  -- The nodes are as they were.
  abbrev IsUntouched : d.State → W → Type 0
  IsUntouched n w = w.0.1 ≡ n

  -- No shard is open but those that were, and the new one at the target.
  abbrev pub HasOpened : d.State → W → Type 0
  HasOpened n w =
      (b : Bytes) (j : ℕ)
      → d.serves w.0.1 b j ≡ true
      → (d.serves n b j ≡ true) ⊎ ((b ≡ p.target_node_name) × (j ≡ p.new_shard_id))

  -- And the new shard is open at the target.
  abbrev pub IsOpen : d.State → W → Type 0
  IsOpen n w = (d.serves w.0.1 p.target_node_name p.new_shard_id ≡ true) × HasOpened n w

  untouched-HasOpened : (n : d.State) (w : W) → IsUntouched n w → HasOpened n w
  untouched-HasOpened n w h b j k = inl (cc)

  opened_one :
      (l : DispatchLaws d) (n : d.State) (b : Bytes) (j : ℕ) (w : W)
      → IsUntouched n w
      → d.serves (d.open_shard p.target_node_name (new_shard p) w.0.1).1 b j ≡ true
      → (d.serves n b j ≡ true) ⊎ ((b ≡ p.target_node_name) × (j ≡ p.new_shard_id))
  opened_one l n b j w h k =
      elim (l.open_shard_opens_one p.target_node_name b (new_shard p) j w.0.1 k) [
        | inl q ↦ inl (cc)
        | inr q ↦ inr q
      ]

  opened :
      (l : DispatchLaws d) (n : d.State) (x : Result (Unit {0}) × d.State) (w : W)
      → x ≡ d.open_shard p.target_node_name (new_shard p) w.0.1
      → IsUntouched n w
      → Ends {A = Unit {0}} {W = W} (x.0, ((w.0.0, x.1), w.1)) (IsOpen n) (HasOpened n)
  opened l n (ok u, m) w e h = (
    let r = l.open_shard_ok p.target_node_name (new_shard p) w.0.1 (cc) in cc,
    λ b j k. opened_one l n b j w h (cc),
  )
  opened l n (err x, m) w e h = λ b j k. opened_one l n b j w h (cc)

  -- A call that leaves the nodes alone, with predicates on the nodes.
  keeps-Ends :
      (N P : d.State → Type 0) (x : Result (Unit {0}) × W) (n : d.State)
      → x.1.0.1 ≡ n
      → ((m : d.State) → N m → P m)
      → N n
      → Ends x (λ v. N v.0.1) (λ v. Error → P v.0.1)
  keeps-Ends N P (ok u, w) n e weaken h = rw e h
  keeps-Ends N P (err x, w) n e weaken h = λ y. rw e (weaken n h)

  store-Ends :
      (N P : d.State → Type 0) (c : FsmState) (t : State) (w : W)
      → ((m : d.State) → N m → P m)
      → N w.0.1
      → Ends (persist s sa ta d ps marshal p c t w) (λ v. N v.0.1) (λ v. P v.0.1)
  store-Ends N P c t w weaken h =
      always-Ends (persist s sa ta d ps marshal p c t w) (λ v. N v.0.1) (λ v. P v.0.1)
        (λ v. weaken v.0.1) (rw (persist-nodes c t w) h)

module _ (f : Fsm) (fl : FsmLaws f) (s : Storage) (sa ta : IdAllocator) (d : Dispatch)
    (l : DispatchLaws d) (ps : ProcedureStorage) (marshal : RawData → Result Bytes) (now later : ℕ)
    (p : Params) where
  pub split_start-script :
      (r : Run FsmState (Whole s sa ta d ps marshal))
      → r.current ≡ begin
      → start s sa ta d ps marshal now later p f r
        ≡ script
            (machine s sa ta d ps marshal now later p)
            path
            (record r { state = state_running })
  unfolding start Loop.start rounds
  split_start-script r h =
      loop-script f fl (machine s sa ta d ps marshal now later p) path 0
        (record r { state = state_running }) (rw h (path-IsPath s sa ta d ps marshal now later p))

  abbrev W2 : Type 0
  W2 = Whole s sa ta d ps marshal

  abbrev m : Loop.Machine Event FsmState W2
  m = machine s sa ta d ps marshal now later p

  -- From the opening of the shard on.
  opening-Ends :
      (n : d.State) (q : Run FsmState W2)
      → q.world.0.1 ≡ n
      → Ends
          (script m ((event_open_new_shard, open_new_shard) ∷ (event_finish, finish) ∷ []) q)
          (λ v. IsOpen s sa ta d ps marshal now later p n v.world)
          (λ v. HasOpened s sa ta d ps marshal now later p n v.world)
  unfolding callbacks open_shard_callback
  opening-Ends n q h =
      let Same = λ (k : d.State). k ≡ n in
      let Open =
        λ (k : d.State). IsOpen s sa ta d ps marshal now later p n ((q.world.0.0, k), q.world.1) in
      let Few = λ (k : d.State).
        HasOpened s sa ta d ps marshal now later p n ((q.world.0.0, k), q.world.1) in
      round-Ends m (λ w. Same w.0.1) (λ w. Few w.0.1) (λ w. Open w.0.1) (λ w. Open w.0.1)
        event_open_new_shard open_new_shard ((event_finish, finish) ∷ []) q
        (λ c t w k.
          store-Ends s sa ta d ps marshal now later p Same Few c t w
            (λ i e.
              untouched-HasOpened s sa ta d ps marshal now later p n ((q.world.0.0, i), q.world.1)
                e)
            k)
        (λ w k.
          any_error-Ends (m.callbacks event_open_new_shard w) (λ v. Open v.0.1) (λ v. Few v.0.1)
            (opened s sa ta d ps marshal now later p l n
              (d.open_shard p.target_node_name (new_shard p) w.0.1) w refl k))
        (λ q2 k.
          round-Ends m (λ w. Open w.0.1) (λ w. Few w.0.1) (λ w. Open w.0.1) (λ w. Open w.0.1)
            event_finish finish [] q2
            (λ c t w k. store-Ends s sa ta d ps marshal now later p Open Few c t w (λ i e. e.1) k)
            (λ w k. k)
            (λ q3 k.
              finish-Ends m (λ w. Open w.0.1) (λ w. Few w.0.1) (λ w. Open w.0.1) q3
                (λ c t w k.
                  any_error-Ends (m.persist c t w) (λ v. Open v.0.1) (λ v. Few v.0.1)
                    (store-Ends s sa ta d ps marshal now later p Open Few c t w (λ i e. e.1) k))
                k)
            k)
        h

  -- A split that is started at its first state and succeeds leaves the new shard open at the target,
  -- and no shard open at a node that was not before but that one; where it fails, no shard but that
  -- one has been opened.
  pub split_start-HasOpened :
      (r : Run FsmState (Whole s sa ta d ps marshal))
      → r.current ≡ begin
      → Ends
          (start s sa ta d ps marshal now later p f r)
          (λ q. IsOpen s sa ta d ps marshal now later p r.world.0.1 q.world)
          (λ q. HasOpened s sa ta d ps marshal now later p r.world.0.1 q.world)
  unfolding callbacks create_shard_view_callback update_shard_tables_callback open_shard_callback
  split_start-HasOpened r c =
      let n = r.world.0.1 in
      let Same = λ (k : d.State). k ≡ n in
      let Few = λ (k : d.State).
        HasOpened s sa ta d ps marshal now later p n ((r.world.0.0, k), r.world.1) in
      let weaken = λ (k : d.State) (e : k ≡ n).
        untouched-HasOpened s sa ta d ps marshal now later p n ((r.world.0.0, k), r.world.1) e in
      let first = record r { state = state_running } in
      rw (split_start-script r c) (
        round-Ends m (λ w. Same w.0.1) (λ w. Few w.0.1) (λ w. Same w.0.1)
          (λ w. IsOpen s sa ta d ps marshal now later p n w) event_create_new_shard_view
          create_new_shard_view _ first
          (λ c t w k. store-Ends s sa ta d ps marshal now later p Same Few c t w weaken k)
          (λ w k.
            keeps-Ends s sa ta d ps marshal now later p Same Few
              (m.callbacks event_create_new_shard_view w) n k weaken refl)
          (λ q k.
            round-Ends m (λ w. Same w.0.1) (λ w. Few w.0.1) (λ w. Same w.0.1)
              (λ w. IsOpen s sa ta d ps marshal now later p n w) event_update_shard_tables
              update_shard_tables _ q
              (λ c t w k. store-Ends s sa ta d ps marshal now later p Same Few c t w weaken k)
              (λ w k.
                keeps-Ends s sa ta d ps marshal now later p Same Few
                  (m.callbacks event_update_shard_tables w) n k weaken refl)
              (λ q2 k. opening-Ends n q2 k) k)
          refl)
