-- ===== src/Procedure/Fsm/Outcome.antt =====
-- What holds of a run at its end, by rules for one call and one round.
use ceresmeta.Procedure.{State, state_finished}
use ceresmeta.Procedure.Fsm.{Run, Machine, persist_now, finish, after_event, after_last}
use ceresmeta.Procedure.Fsm.Script.{script, call}
use ceresmeta.Common.{nat_eq, Error, Result, ok, err, Exec, continue, ◌>>◌, List, [], ◌∷◌}

-- What holds of the state where a call has returned, and where it has failed.
abbrev pub Ends {ℓ κ} :
    {A : Type ℓ} {W : Type κ} → Result A × W → (W → Type 0) → (W → Type 0) → Type 0
Ends (ok a, w) P Q = P w
Ends (err e, w) P Q = Q w

pub Ends-bind {ℓ κ μ} :
    {A : Type ℓ} {B : Type κ} {W : Type μ} (x : Result A × W) (next : A → Exec W B)
    (P Q R : W → Type 0)
    → Ends x P Q
    → ((a : A) (w : W) → P w → Ends (next a w) R Q)
    → Ends (continue x.0 next x.1) R Q
Ends-bind (ok a, w) next P Q R h k = k a w h
Ends-bind (err e, w) next P Q R h k = h

pub any_error-Ends {ℓ κ} :
    {A : Type ℓ} {W : Type κ} (x : Result A × W) (P Q : W → Type 0)
    → Ends x P Q
    → Ends x P (λ w. Error → Q w)
any_error-Ends (ok a, w) P Q h = h
any_error-Ends (err e, w) P Q h = λ x. h

-- What holds however a call has ended.
pub always-Ends {ℓ κ} :
    {A : Type ℓ} {W : Type κ} (x : Result A × W) (P Q : W → Type 0)
    → ((w : W) → P w → Q w)
    → P x.1
    → Ends x P Q
always-Ends (ok a, w) P Q k h = h
always-Ends (err e, w) P Q k h = k w h

module _ {S W : Type 0} where
  world-Ends :
      (x : Result (Unit {0}) × W) (r : Run S W) (P Q : W → Type 0)
      → Ends x P Q
      → Ends {A = Unit {0}} {W = Run S W}
          (x.0, record r { world = x.1 })
          (λ v. P v.world)
          (λ v. Q v.world)
  world-Ends (ok u, w) r P Q h = h
  world-Ends (err e, w) r P Q h = h

  after_event-Ends :
      (failed : Error → W → W) (x : Result (Unit {0}) × W) (dst : S) (t : State) (P Q : W → Type 0)
      → Ends x P (λ v. (e : Error) → Q (failed e v))
      → Ends (after_event failed ((x.0, dst), x.1) t) (λ v. P v.world) (λ v. Q v.world)
  after_event-Ends failed (ok u, w) dst t P Q h = h
  after_event-Ends failed (err e, w) dst t P Q h = h e

  after_last-Ends :
      (failed : Error → W → W) (x : Result (Unit {0}) × W) (r : Run S W) (P Q : W → Type 0)
      → Ends x P (λ v. (e : Error) → Q (failed e v))
      → Ends (after_last failed (x.0, record r { world = x.1 })) (λ v. P v.world) (λ v. Q v.world)
  after_last-Ends failed (ok u, w) r P Q h = h
  after_last-Ends failed (err e, w) r P Q h = h e

module _ {S W : Type 0} {E : Type 0} (m : Machine E S W) where
  -- The last round.
  pub finish-Ends :
      (P Q Z : W → Type 0) (r : Run S W)
      → ((c : S) (s : State) (w : W)
          → P w
          → Ends (m.persist c s w) Z (λ v. (x : Error) → Q (m.on_failed x v)))
      → P r.world
      → Ends (script m [] r) (λ q. Z q.world) (λ q. Q q.world)
  unfolding script finish persist_now
  finish-Ends P Q Z r keeps h =
      after_last-Ends m.on_failed (m.persist r.current state_finished r.world)
        (record r { state = state_finished }) Z Q (keeps r.current state_finished r.world h)

  -- One round: the world is in `P` before it, and in `R` where its callback has returned.
  pub round-Ends :
      (P Q R Z : W → Type 0) (e : E) (dst : S) (ps : List (E × S)) (r : Run S W)
      → ((c : S) (s : State) (w : W) → P w → Ends (m.persist c s w) P Q)
      → ((w : W) → P w → Ends (m.callbacks e w) R (λ v. (x : Error) → Q (m.on_failed x v)))
      → ((q : Run S W) → R q.world → Ends (script m ps q) (λ v. Z v.world) (λ v. Q v.world))
      → P r.world
      → Ends (script m ((e, dst) ∷ ps) r) (λ v. Z v.world) (λ v. Q v.world)
  unfolding script call persist_now
  round-Ends P Q R Z e dst ps r keeps calls rest h =
      Ends-bind (persist_now m r) (λ (u : Unit {0}). call m e dst >> script m ps) (λ v. P v.world)
        (λ v. Q v.world) (λ v. Z v.world)
        (world-Ends (m.persist r.current r.state r.world) r P Q (keeps r.current r.state r.world h))
        (λ (u : Unit {0}) q k.
          Ends-bind (call m e dst q) (λ (u : Unit {0}). script m ps) (λ v. R v.world)
            (λ v. Q v.world) (λ v. Z v.world)
            (after_event-Ends m.on_failed (m.callbacks e q.world) dst q.state R Q (calls q.world k))
            (λ (u : Unit {0}) q2 k2. rest q2 k2))
