-- ===== src/Watcher/Changes.antt =====
-- Rules for what the steps of stateWatcher do to a world, when they neither crash nor abort.
use mandeye_controller.Prelude.{Bool, true, false, Option, none, some, if◌then◌else◌}
use mandeye_controller.App.{World}
use mandeye_controller.Watcher.Steps.{
  M, Outcome, done, crashed, aborted, ◌>>=◌, ◌>>◌, when, through,
}

-- What holds at the end of a step that neither crashes nor aborts.
abbrev pub Ends : {G A : Type 0} → (World G → Type 0) → Outcome G A → Type 0
Ends Q (done a w) = Q w
Ends Q crashed = Unit
Ends Q (aborted w) = Unit

-- The step relates every world to the one in which it ends.
pub data Does {G A : Type 0} (R : World G → World G → Type 0) (m : M G A) : Type 0 where
  does : ((w : World G) → Ends (R w) (m w)) → Does R m

module _ {G : Type 0} where
  pub ends :
      {A : Type 0} {R : World G → World G → Type 0} {m : M G A}
      → Does R m
      → (w : World G) → Ends (R w) (m w)
  ends (does f) w = f w

  pub Ends-map :
      {A : Type 0} (Q Q' : World G → Type 0) (o : Outcome G A)
      → ((v : World G) → Q v → Q' v)
      → Ends Q o
      → Ends Q' o
  Ends-map Q Q' (done a v) f h = f v h
  Ends-map Q Q' crashed f h = tt
  Ends-map Q Q' (aborted v) f h = tt

  pub does_also :
      {A : Type 0} {R R' : World G → World G → Type 0} {m : M G A}
      → ((w v : World G) → R w v → R' w v)
      → Does R m
      → Does R' m
  does_also {R = R} {R' = R'} {m = m} f h = does (λ w. Ends-map (R w) (R' w) (m w) (f w) (ends h w))

  pub Ends-if :
      {A : Type 0} (Q : World G → Type 0) (b : Bool) (o o' : Outcome G A)
      → Ends Q o
      → Ends Q o'
      → Ends Q (if b then o else o')
  Ends-if Q true o o' h g = h
  Ends-if Q false o o' h g = g

  pub does_if :
      {A : Type 0} {R : World G → World G → Type 0} (b : World G → Bool) {m k : M G A}
      → Does R m
      → Does R k
      → Does R (λ w. if b w then m w else k w)
  does_if {R = R} b {m = m} {k = k} h g =
      does (λ w. Ends-if (R w) (b w) (m w) (k w) (ends h w) (ends g w))

  pub does_look :
      {A : Type 0} {R : World G → World G → Type 0} (k : World G → M G A)
      → ((v : World G) → Does R (k v))
      → Does R (λ w. k w w)
  does_look k h = does (λ w. ends (h w) w)

  pub Ends-through :
      {A B : Type 0} (Q : World G → Type 0) (o : Option A) (f : A → Outcome G B)
      → ((a : A) → Ends Q (f a))
      → Ends Q (through o f)
  Ends-through Q none f h = tt
  Ends-through Q (some a) f h = h a

  module _ (R : World G → World G → Type 0) (same : (w : World G) → R w w)
      (trans : (w v u : World G) → R w v → R v u → R w u) where
    bound :
        {A B : Type 0} (f : A → M G B) (w : World G) (o : Outcome G A)
        → Ends (R w) o
        → ((a : A) → Does R (f a))
        → Ends (R w) (elim o [ done a v ↦ f a v | crashed ↦ crashed | aborted v ↦ aborted v ])
    bound f w (done a v) h g = Ends-map (R v) (R w) (f a v) (λ u. trans w v u h) (ends (g a) v)
    bound f w crashed h g = tt
    bound f w (aborted v) h g = tt

    pub does_bind :
        {A B : Type 0} {m : M G A} {f : A → M G B}
        → Does R m
        → ((a : A) → Does R (f a))
        → Does R (◌>>=◌ m f)
    does_bind {m = m} {f = f} h g = does (λ w. bound f w (m w) (ends h w) g)

    pub does_seq :
        {B : Type 0} {m : M G (Unit {0})} {k : M G B} → Does R m → Does R k → Does R (◌>>◌ m k)
    does_seq {m = m} {k = k} h g = does (λ w. bound (λ _. k) w (m w) (ends h w) (λ _. g))

    pub does_when :
        (b : World G → Bool) {m : M G (Unit {0})} → Does R m → Does R (λ w. when (b w) m w)
    does_when b h = does_if b h (does same)
