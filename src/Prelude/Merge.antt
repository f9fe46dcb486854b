-- ===== src/Prelude/Merge.antt =====
-- Two sequences of steps in one order: the interleavings, and what holds of all or of one step.
use mathlib.Core.List.{List, [], ◌∷◌, ◌++◌}
use mathlib.Core.Logic.{inl, inr}
use mandeye_controller.Prelude.Lists.{All, Among}

-- The third list holds the elements of the first two, each in its order.
pub data Merge {ℓ} {A : Type ℓ} : List A → List A → List A → Type ℓ where
  done : Merge [] [] []
  left : {a : A} {xs ys zs : List A} → Merge xs ys zs → Merge (a ∷ xs) ys (a ∷ zs)
  right : {a : A} {xs ys zs : List A} → Merge xs ys zs → Merge xs (a ∷ ys) (a ∷ zs)

pub Merge-All {ℓ κ} :
    {A : Type ℓ} (P : A → Type κ) {xs ys zs : List A}
    → Merge xs ys zs
    → All P xs
    → All P ys
    → All P zs
Merge-All P done h k = tt
Merge-All P (left m) h k = (h.0, Merge-All P m h.1 k)
Merge-All P (right m) h k = (k.0, Merge-All P m h k.1)

pub Among-left : {A : Type 0} (a : A) {xs ys zs : List A} → Merge xs ys zs → Among a xs → Among a zs
Among-left a done h = absurd h
Among-left a (left m) (inl e) = inl e
Among-left a (left m) (inr h) = inr (Among-left a m h)
Among-left a (right m) h = inr (Among-left a m h)

pub Among-right :
    {A : Type 0} (a : A) {xs ys zs : List A} → Merge xs ys zs → Among a ys → Among a zs
Among-right a done h = absurd h
Among-right a (left m) h = inr (Among-right a m h)
Among-right a (right m) (inl e) = inl e
Among-right a (right m) (inr h) = inr (Among-right a m h)

-- One after the other.
pub Merge-append {ℓ} : {A : Type ℓ} (xs ys : List A) → Merge xs ys (xs ++ ys)
Merge-append [] [] = done
Merge-append [] (y ∷ ys) = right (Merge-append [] ys)
Merge-append (x ∷ xs) ys = left (Merge-append xs ys)
