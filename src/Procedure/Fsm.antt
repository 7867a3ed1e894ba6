-- ===== src/Procedure/Fsm.antt =====
-- server/coordinator/procedure: the loop that the `Start` methods of the directories ddl and operation
-- share, over the library of state machines (github.com/looplab/fsm), which is a parameter.
-- A callback is given the one argument that `Start` passes, so `GetRequestFromEvent` does not fail.
pub mod Script
pub mod Outcome
pub mod Ends
pub mod Memory
use ceresmeta.Procedure.{State, state_running, state_failed, state_finished}
use ceresmeta.Common.{
  nat_eq, Error, Result, ok, err, Exec, ◌>>=◌, ℕ, zero, suc, ◌≡◌, Option, none, some, out_of_fuel,
}

-- `Event`: the events by name and current state, the callbacks, the event and the current state.
pub record Fsm : Type 1 where
  pub event :
      {E S W : Type 0}
      → (E → S → Option S)
      → (E → Exec W (Unit {0}))
      → E
      → S
      → W
      → (Result (Unit {0}) × S) × W

-- What its documentation says: a callback named by the event runs after the state has changed, and
-- the error it cancels with is returned; an event with no transition from the state is an error.
pub record FsmLaws (f : Fsm) : Type 1 where
  pub event_moves :
      {E S W : Type 0} (events : E → S → Option S) (callbacks : E → Exec W (Unit {0})) (e : E)
      (src dst : S) (w : W)
      → events e src ≡ some dst
      → (src ≡ dst → ⊥)
      → f.event events callbacks e src w ≡ (((callbacks e w).0, dst), (callbacks e w).1)
  pub event_refused :
      {E S W : Type 0} (events : E → S → Option S) (callbacks : E → Exec W (Unit {0})) (e : E)
      (src : S) (w : W)
      → events e src ≡ none
      → (x : Error) × (f.event events callbacks e src w ≡ ((err x, src), w))

-- The fields of a procedure that change while it runs, and the rest of the world.
pub record Run (S W : Type 0) : Type 0 where
  pub current : S
  pub state : State
  pub world : W

module _ {S W : Type 0} where
  -- `updateStateWithLock`
  abbrev pub update_state : State → Exec (Run S W) (Unit {0})
  update_state s r = (ok tt, record r { state = s })

  -- Of `event`: the state has moved also when the callback has failed.
  abbrev pub after_event :
      (Error → W → W) → (Result (Unit {0}) × S) × W → State → Result (Unit {0}) × Run S W
  after_event on_failed ((ok u, s), w) p = (ok u, record { current = s; state = p; world = w })
  after_event on_failed ((err x, s), w) p =
      (err x, record { current = s; state = state_failed; world = on_failed x w })

  abbrev pub on_world : {A : Type 0} → Exec W A → Exec (Run S W) A
  on_world f r = let (x, w) = f r.world in (x, record r { world = w })

  abbrev pub after_last :
      (Error → W → W) → Result (Unit {0}) × Run S W → Result (Unit {0}) × Run S W
  after_last on_failed (ok u, r) = (ok u, r)
  after_last on_failed (err x, r) = (err x, record r { world = on_failed x r.world })

-- What differs between the procedures: the table of events, the callbacks, the event that the loop
-- sends in a state (none in the last one), what is stored, and the callback on failure.
pub record Machine (E S W : Type 0) : Type 0 where
  pub events : E → S → Option S
  pub callbacks : E → Exec W (Unit {0})
  pub switch : S → Option E
  pub persist : S → State → Exec W (Unit {0})
  pub on_failed : Error → W → W

module _ {E S W : Type 0} (m : Machine E S W) where
  unfoldable pub persist_now : Exec (Run S W) (Unit {0})
  persist_now r = on_world (m.persist r.current r.state) r

  -- The last state: `StateFinished` is set and then stored.
  unfoldable pub finish : Exec (Run S W) (Unit {0})
  unfolding persist_now
  finish r = after_last m.on_failed (persist_now (record r { state = state_finished }))

module _ (f : Fsm) {E S W : Type 0} (m : Machine E S W) where
  unfoldable pub send : E → Exec (Run S W) (Unit {0})
  send e r = after_event m.on_failed (f.event m.events m.callbacks e r.current r.world) r.state

  -- The loop of `Start`, its rounds counted down.
  unfoldable pub loop : ℕ → Exec (Run S W) (Unit {0})
  unfolding persist_now finish send
  loop zero r = (err out_of_fuel, r)
  loop (suc n) r = elim (m.switch r.current) [
    | none ↦ finish m r
    | some e ↦ (persist_now m >>= λ _. send e >>= λ _. loop n) r
  ]

  unfoldable pub start : ℕ → Exec (Run S W) (Unit {0})
  unfolding loop
  start n r = loop n (record r { state = state_running })
