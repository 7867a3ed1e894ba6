-- ===== src/Procedure/Fsm/Script.antt =====
-- The loop of `Start` along the path of its states, as a straight line of calls.
use ceresmeta.Procedure.Fsm.{
  Fsm, FsmLaws, Run, Machine, persist_now, finish, send, loop, after_event,
}
use ceresmeta.Common.{
  nat_eq, Result, ok, err, Exec, continue, ◌>>◌, ℕ, suc, ◌≡◌, refl, none, some, List, [], ◌∷◌,
  arith,
}

module _ {E S W : Type 0} (m : Machine E S W) where
  -- The path from a state to the last one: each event and the state it leads to.
  unfoldable pub IsPath : S → List (E × S) → Type 0
  IsPath s [] = m.switch s ≡ none
  IsPath s ((e, dst) ∷ ps) =
      (m.switch s ≡ some e) × ((m.events e s ≡ some dst) × ((s ≡ dst → ⊥) × IsPath dst ps))

  -- The callback of an event, which leaves the procedure in the next state.
  unfoldable pub call : E → S → Exec (Run S W) (Unit {0})
  call e dst r =
      after_event m.on_failed (((m.callbacks e r.world).0, dst), (m.callbacks e r.world).1) r.state

  -- What is stored and called, in order.
  unfoldable pub script : List (E × S) → Exec (Run S W) (Unit {0})
  unfolding call persist_now finish
  script [] = finish m
  script ((e, dst) ∷ ps) = do persist_now m; call e dst; script ps

module _ {S W : Type 0} {E : Type 0} (m : Machine E S W) where
  -- The state machine stays where it is while the procedure is stored.
  persist-current : (r : Run S W) → (persist_now m r).1.current ≡ r.current
  unfolding persist_now
  persist-current r = refl

  call-current :
      (e : E) (dst : S) (r : Run S W) (u : Unit {0})
      → (call m e dst r).0 ≡ ok u
      → (call m e dst r).1.current ≡ dst
  unfolding call
  call-current e dst r u h = ground (arith)

-- Two continuations that agree where the first call has ended.
continue_congr :
    {A B W : Type 0} (x : Result A) (w : W) (f g : A → Exec W B)
    → ((a : A) → x ≡ ok a → f a w ≡ g a w)
    → continue x f w ≡ continue x g w
continue_congr (ok a) w f g h = h a refl
continue_congr (err e) w f g h = refl

-- The rounds of the loop: one for each event, the last, and those to spare.
unfoldable pub rounds {ℓ} : {A : Type ℓ} → List A → ℕ → ℕ
rounds [] n = suc n
rounds (p ∷ ps) n = suc (rounds ps n)

module _ (f : Fsm) (l : FsmLaws f) {E S W : Type 0} (m : Machine E S W) where
  send-call :
      (e : E) (dst : S) (r : Run S W)
      → m.events e r.current ≡ some dst
      → (r.current ≡ dst → ⊥)
      → send f m e r ≡ call m e dst r
  unfolding send call
  send-call e dst r h d = rw (l.event_moves m.events m.callbacks e r.current dst r.world h d) refl

  loop-step :
      (e : E) (dst : S) (ps : List (E × S)) (n : ℕ) (r : Run S W)
      → m.switch r.current ≡ some e
      → ((w : Run S W) → w.current ≡ r.current → send f m e w ≡ call m e dst w)
      → ((w : Run S W) → w.current ≡ dst → loop f m n w ≡ script m ps w)
      → loop f m (suc n) r ≡ script m ((e, dst) ∷ ps) r
  unfolding loop script
  loop-step e dst ps n r s c ih =
      rw (s, loop)
        (continue_congr (persist_now m r).0 (persist_now m r).1 _ _ (λ (a : Unit {0}) p.
          let p1 = persist-current m r in
          let q = c (persist_now m r).1 p1 in
          rw q (
            continue_congr (call m e dst (persist_now m r).1).0 (call m e dst (persist_now m r).1).1
              _ _ (λ (b : Unit {0}) k. ih _ (call-current m e dst (persist_now m r).1 b k)))))

  loop-last : (n : ℕ) (r : Run S W) → m.switch r.current ≡ none → loop f m (suc n) r ≡ finish m r
  unfolding loop
  loop-last n r h = rw (h, loop) refl

  pub loop-script :
      (ps : List (E × S)) (n : ℕ) (r : Run S W)
      → IsPath m r.current ps
      → loop f m (rounds ps n) r ≡ script m ps r
  unfolding loop script IsPath rounds
  loop-script [] n r h = loop-last n r h
  loop-script ((e, dst) ∷ ps) n r h =
      loop-step e dst ps (rounds ps n) r h.0 (λ w k. send-call e dst w (rw k h.1.0) (rw k h.1.1.0))
        (λ w k. loop-script ps n w (rw k h.1.1.1))
