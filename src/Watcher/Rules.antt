-- ===== src/Watcher/Rules.antt =====
-- What a step of stateWatcher leaves true: rules for the sequences that its branches are.
use mandeye_controller.Prelude.{Bool, true, false, ◌≡◌, if◌then◌else◌}
use mandeye_controller.States.{state_eq, usb_io_error}
use mandeye_controller.App.{World}
use mandeye_controller.Watcher.Steps.{
  M, Outcome, done, crashed, aborted, ◌>>=◌, ◌>>◌, when, modify, get,
}

-- Only a board that aborts on a USB error does so, and only in that state.
abbrev pub MayAbort : {G : Type 0} → World G → Type 0
MayAbort w = (w.board.aborts_on_usb_error ≡ true) × (state_eq w.app_state usb_io_error ≡ true)

abbrev pub Post : {G A : Type 0} → (A → World G → Type 0) → Outcome G A → Type 0
Post Q (done a w) = Q a w
Post Q crashed = ⊥
Post Q (aborted w) = MayAbort w

-- From a world with `P`, the step does not crash, and it ends in one with `Q`.
pub data Runs {G A : Type 0} (P : World G → Type 0) (m : M G A) (Q : A → World G → Type 0)
    : Type 0 where
  runs : ((w : World G) → P w → Post Q (m w)) → Runs P m Q

module _ {G : Type 0} where
  pub run :
      {A : Type 0} {P : World G → Type 0} {m : M G A} {Q : A → World G → Type 0}
      → Runs P m Q
      → (w : World G) → P w
      → Post Q (m w)
  run (runs f) w p = f w p

  bind_outcome :
      {A B : Type 0} (Q : A → World G → Type 0) (R : B → World G → Type 0) (f : A → M G B)
      (o : Outcome G A)
      → Post Q o
      → ((a : A) → Runs (Q a) (f a) R)
      → Post R (elim o [ done a v ↦ f a v | crashed ↦ crashed | aborted v ↦ aborted v ])
  bind_outcome Q R f (done a v) q g = run (g a) v q
  bind_outcome Q R f crashed q g = elim q [ ]
  bind_outcome Q R f (aborted v) q g = q

  pub bind :
      {A B : Type 0} {P : World G → Type 0} {Q : A → World G → Type 0} {R : B → World G → Type 0}
      {m : M G A} {f : A → M G B}
      → Runs P m Q
      → ((a : A) → Runs (Q a) (f a) R)
      → Runs P (◌>>=◌ m f) R
  bind {Q = Q} {R = R} {m = m} {f = f} h g = runs (λ w p. bind_outcome Q R f (m w) (run h w p) g)

  pub seq :
      {B : Type 0} {P Q : World G → Type 0} {R : B → World G → Type 0} {m : M G (Unit {0})}
      {k : M G B}
      → Runs P m (λ _. Q)
      → Runs Q k R
      → Runs P (◌>>◌ m k) R
  seq {Q = Q} {R = R} {m = m} {k = k} h g =
      runs (λ w p. bind_outcome (λ _. Q) R (λ _. k) (m w) (run h w p) (λ _. g))

  pub when_keeps :
      {P : World G → Type 0} (b : Bool) {m : M G (Unit {0})}
      → Runs P m (λ _. P)
      → Runs P (when b m) (λ _. P)
  when_keeps true h = runs (λ w p. run h w p)
  when_keeps false h = runs (λ w p. p)

  pub if_Post :
      {A : Type 0} (Q : A → World G → Type 0) (b : Bool) (o o' : Outcome G A)
      → Post Q o
      → Post Q o'
      → Post Q (if b then o else o')
  if_Post Q true o o' h g = h
  if_Post Q false o o' h g = g

  -- The same for a test that looks at the world.
  pub when_now :
      {P : World G → Type 0} (b : World G → Bool) {m : M G (Unit {0})}
      → Runs P m (λ _. P)
      → Runs P (λ w. when (b w) m w) (λ _. P)
  when_now b h = runs (λ w p. run (when_keeps (b w) h) w p)

  pub if_now :
      {P Q : World G → Type 0} (b : World G → Bool) {m k : M G (Unit {0})}
      → Runs P m (λ _. Q)
      → Runs P k (λ _. Q)
      → Runs P (λ w. if b w then m w else k w) (λ _. Q)
  if_now {Q = Q} b {m = m} {k = k} h g =
      runs (λ w p. if_Post (λ _. Q) (b w) (m w) (k w) (run h w p) (run g w p))

  pub not_taken :
      (Q : Unit {0} → World G → Type 0) (b : Bool) (m : M G (Unit {0})) (w : World G)
      → b ≡ false
      → Q tt w
      → Post Q (when b m w)
  not_taken Q true m w e q = cc
  not_taken Q false m w e q = q

  -- A step that looks at the world and goes on with what it saw.
  pub look :
      {A : Type 0} {P : World G → Type 0} {Q : A → World G → Type 0} (k : World G → M G A)
      → ((v : World G) → Runs P (k v) Q)
      → Runs P (λ w. k w w) Q
  look k h = runs (λ w p. run (h w) w p)

  -- What a step tells of its result holds for the rest.
  pub given :
      {A : Type 0} {C : Type 0} {P : World G → Type 0} {m : M G A} {Q : A → World G → Type 0}
      → (C → Runs P m Q)
      → Runs (λ w. C × P w) m Q
  given h = runs (λ w p. run (h p.0) w p.1)

  pub got : {A : Type 0} {P : World G → Type 0} (f : World G → A) → Runs P (get f) (λ _. P)
  got f = runs (λ w p. p)

  pub modified :
      {P Q : World G → Type 0} (f : World G → World G)
      → ((w : World G) → P w → Q (f w))
      → Runs P (modify f) (λ _. Q)
  modified f h = runs h

  pub weaken :
      {A : Type 0} {P P' : World G → Type 0} {Q Q' : A → World G → Type 0} {m : M G A}
      → ((w : World G) → P w → P' w)
      → ((a : A) (w : World G) → Q' a w → Q a w)
      → Runs P' m Q'
      → Runs P m Q
  weaken {Q = Q} {Q' = Q'} {m = m} before after h =
      runs (λ w p. weaken_outcome Q Q' (m w) after (run h w (before w p)))
    where
      weaken_outcome :
          {A : Type 0} (Q Q' : A → World G → Type 0) (o : Outcome G A)
          → ((a : A) (w : World G) → Q' a w → Q a w)
          → Post Q' o
          → Post Q o
      weaken_outcome Q Q' (done a v) after q = after a v q
      weaken_outcome Q Q' crashed after q = elim q [ ]
      weaken_outcome Q Q' (aborted v) after q = q
