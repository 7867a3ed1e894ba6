-- ===== src/Procedure/Fsm/Ends.antt =====
-- The loop of `Start` against a relation that says what it stores and calls, and how it ends.
use ceresmeta.Procedure.{state_running, state_failed, state_finished}
use ceresmeta.Procedure.Fsm.{
  Fsm, FsmLaws, Run, Machine, persist_now, finish, start, after_event, after_last,
}
use ceresmeta.Procedure.Fsm.Script.{script, call, IsPath, rounds, loop-script}
use ceresmeta.Common.{
  nat_eq, Error, Result, ok, err, ◌>>◌, ℕ, ◌≡◌, refl, none, List, [], ◌∷◌, continue,
}

-- The run along a path, from the state `c` of the state machine. Before each event the procedure is
-- stored as running; after the last one it is stored as finished. The run stops at the first error: one of
-- the storage leaves the state of the procedure as it was stored, and one of a callback leaves it failed
-- in the next state of the state machine.
pub data Runs {E S W : Type 0} (m : Machine E S W)
    : List (E × S) → S → W → Result (Unit {0}) × Run S W → Type 0 where
  last_stored :
      {c : S} {w w' : W}
      → m.persist c state_finished w ≡ (ok tt, w')
      → Runs m [] c w (ok tt, record { current = c; state = state_finished; world = w' })
  last_not_stored :
      {c : S} {w w' : W} {x : Error}
      → m.persist c state_finished w ≡ (err x, w')
      → Runs m [] c w
          (err x, record { current = c; state = state_finished; world = m.on_failed x w' })
  not_stored :
      {e : E} {c dst : S} {ps : List (E × S)} {w w' : W} {x : Error}
      → m.persist c state_running w ≡ (err x, w')
      → Runs m
          ((e, dst) ∷ ps)
          c
          w
          (err x, record { current = c; state = state_running; world = w' })
  call_failed :
      {e : E} {c dst : S} {ps : List (E × S)} {w w1 w2 : W} {x : Error}
      → m.persist c state_running w ≡ (ok tt, w1)
      → m.callbacks e w1 ≡ (err x, w2)
      → Runs m
          ((e, dst) ∷ ps)
          c
          w
          (err x, record { current = dst; state = state_failed; world = m.on_failed x w2 })
  called :
      {e : E} {c dst : S} {ps : List (E × S)} {w w1 w2 : W} {out : Result (Unit {0}) × Run S W}
      → m.persist c state_running w ≡ (ok tt, w1)
      → m.callbacks e w1 ≡ (ok tt, w2)
      → Runs m ps dst w2 out
      → Runs m ((e, dst) ∷ ps) c w out

-- A finished procedure, in a last state of the state machine.
abbrev pub IsDone : {E S W : Type 0} → Machine E S W → Run S W → Type 0
IsDone m q = (q.state ≡ state_finished) × (m.switch q.current ≡ none)

module _ {E S W : Type 0} (m : Machine E S W) where
  abbrev running : S → W → Run S W
  running c w = record { current = c; state = state_running; world = w }

  last-Runs :
      (c : S) (w : W) (p : Result (Unit {0}) × W)
      → m.persist c state_finished w ≡ p
      → Runs m [] c w (
          after_last m.on_failed (p.0, record { current = c; state = state_finished; world = p.1 }))
  last-Runs c w (ok tt, w') h = last_stored h
  last-Runs c w (err x, w') h = last_not_stored h

  call-Runs :
      (e : E) (c dst : S) (ps : List (E × S)) (w w1 : W) (p : Result (Unit {0}) × W)
      → m.persist c state_running w ≡ (ok tt, w1)
      → m.callbacks e w1 ≡ p
      → ((w2 : W) → Runs m ps dst w2 (script m ps (running dst w2)))
      → let after = after_event m.on_failed ((p.0, dst), p.1) state_running in
        Runs m ((e, dst) ∷ ps) c w (continue after.0 (λ (u : Unit {0}). script m ps) after.1)
  call-Runs e c dst ps w w1 (ok tt, w2) h k rest = called h k (rest w2)
  call-Runs e c dst ps w w1 (err x, w2) h k rest = call_failed h k

  store-Runs :
      (e : E) (c dst : S) (ps : List (E × S)) (w : W) (p : Result (Unit {0}) × W)
      → m.persist c state_running w ≡ p
      → ((w2 : W) → Runs m ps dst w2 (script m ps (running dst w2)))
      → Runs m
          ((e, dst) ∷ ps)
          c
          w
          (continue p.0 (λ (u : Unit {0}). call m e dst >> script m ps) (running c p.1))
  unfolding call
  store-Runs e c dst ps w (ok tt, w1) h rest =
      call-Runs e c dst ps w w1 (m.callbacks e w1) h refl rest
  store-Runs e c dst ps w (err x, w') h rest = not_stored h

  script-Runs : (ps : List (E × S)) (c : S) (w : W) → Runs m ps c w (script m ps (running c w))
  unfolding script persist_now finish
  script-Runs [] c w = last-Runs c w (m.persist c state_finished w) refl
  script-Runs ((e, dst) ∷ ps) c w =
      store-Runs e c dst ps w (m.persist c state_running w) refl (λ w2. script-Runs ps dst w2)

  Runs-IsDone :
      (ps : List (E × S)) (c : S) (w : W) (out : Result (Unit {0}) × Run S W)
      → IsPath m c ps
      → Runs m ps c w out
      → out.0 ≡ ok tt
      → IsDone m out.1
  unfolding IsPath
  Runs-IsDone _ c w _ path (last_stored h) e = (refl, path)
  Runs-IsDone _ c w _ path (last_not_stored h) e = absurd (cc)
  Runs-IsDone _ c w _ path (not_stored h) e = absurd (cc)
  Runs-IsDone _ c w _ path (call_failed h k) e = absurd (cc)
  Runs-IsDone _ c w out path (called {ps = ps} {w2 = w2} h k rest) e =
      Runs-IsDone ps _ w2 out path.1.1.1 rest e

-- For a machine whose events lead from the current state along a path to its last one, the loop of
-- `Start`, with any number of rounds from one for each event and one more on, runs along the path: it
-- stores the procedure as running before each event, calls the events in their order, stores it as
-- finished, and stops at the first error, which it returns. An error of a callback leaves the procedure
-- failed; an error of storing it leaves it running, or finished at the last. Where the loop succeeds, the
-- procedure is finished and the state machine in a last state.
pub start-Runs :
    (f : Fsm) (fl : FsmLaws f) {E S W : Type 0} (m : Machine E S W) (ps : List (E × S)) (n : ℕ)
    (r : Run S W)
    → IsPath m r.current ps
    → let done = start f m (rounds ps n) r in
      Runs m ps r.current r.world done × (done.0 ≡ ok tt → IsDone m done.1)
unfolding start
start-Runs f fl m ps n r h =
    let q = loop-script f fl m ps n (record r { state = state_running }) h in
    let run = script-Runs m ps r.current r.world in
    rw q (run, Runs-IsDone m ps r.current r.world _ h run)
