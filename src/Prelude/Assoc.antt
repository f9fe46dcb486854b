-- ===== src/Prelude/Assoc.antt =====
-- std::unordered_map with integer keys as an association list: `insert` is `m[k] = v`.
use Prim.Native.Nat.{ℕ}
use mathlib.Core.Path.{◌≡◌, refl}
use mathlib.Core.Option.{Option, none, some}
use mathlib.Core.List.{List, [], ◌∷◌}
use native.Mathlib.Omega.{arith}
use mandeye_controller.Prelude.Tests.{◌==◌, if◌then◌else◌, Bool-cases}
use mandeye_controller.Prelude.Lists.{All, Among}
use mathlib.Core.Logic.{◌≢◌, inl, inr}

module _ {ℓ} {V : Type ℓ} where
  -- `find`.
  unfoldable pub lookup : (key : ℕ) (entries : List (ℕ × V)) → Option V
  lookup key [] = none
  lookup key ((other, value) ∷ rest) =
      let later = lookup key rest in if other == key then some value else later

  unfoldable pub insert : (key : ℕ) (value : V) (entries : List (ℕ × V)) → List (ℕ × V)
  insert key value [] = (key, value) ∷ []
  insert key value ((other, old) ∷ rest) =
      let later = insert key value rest in
      if other == key then (key, value) ∷ rest else (other, old) ∷ later

  -- A written key reads its new value, and every other key what it read before.
  pub lookup-insert :
      (written key : ℕ) (value : V) (entries : List (ℕ × V))
      → lookup key (insert written value entries)
        ≡ (if written == key then some value else lookup key entries)
  unfolding lookup insert
  lookup-insert written key value [] = refl
  lookup-insert written key value ((other, old) ∷ rest) =
      ground (arith, lookup-insert written key value rest)

-- What a fresh `m[k]` reads: a value-initialised number.
abbrev pub or_zero : Option ℕ → ℕ
or_zero none = 0
or_zero (some n) = n

module _ {ℓ} {V : Type ℓ} where
  -- No key stands twice.
  unfoldable pub IsUnique : List (ℕ × V) → Type ℓ
  IsUnique [] = Unit
  IsUnique ((k, v) ∷ m) = (lookup k m ≡ none) × IsUnique m

  pub insert-IsUnique : (k : ℕ) (v : V) (m : List (ℕ × V)) → IsUnique m → IsUnique (insert k v m)
  unfolding IsUnique insert lookup
  insert-IsUnique k v [] h = (refl, tt)
  insert-IsUnique k v ((j, w) ∷ m) h =
      ground (arith, insert-IsUnique k v m h.1, lookup-insert k j v m)

  All-insert_absent {κ μ} :
      (P : ℕ × V → Type κ) (Q : ℕ × V → Type μ) (k : ℕ) (m : List (ℕ × V))
      → lookup k m ≡ none
      → ((j : ℕ) (w : V) → j ≢ k → P (j, w) → Q (j, w))
      → All P m
      → All Q m
  unfolding lookup
  All-insert_absent P Q k [] e keep h = tt
  All-insert_absent P Q k ((j, w) ∷ m) e keep h = elim (Bool-cases (j == k)) [
    | inl t ↦ absurd (ground arith)
    | inr f ↦ (keep j w (ground arith) h.0, All-insert_absent P Q k m (ground arith) keep h.1)
  ]

  -- After `m[k] = v` the entry for `k` is new and the others are old.
  pub All-insert {κ μ} :
      (P : ℕ × V → Type κ) (Q : ℕ × V → Type μ) (k : ℕ) (v : V) (m : List (ℕ × V))
      → IsUnique m
      → ((j : ℕ) (w : V) → j ≢ k → P (j, w) → Q (j, w))
      → Q (k, v)
      → All P m
      → All Q (insert k v m)
  unfolding insert IsUnique
  All-insert P Q k v [] u keep q h = (q, tt)
  All-insert P Q k v ((j, w) ∷ m) u keep q h = elim (Bool-cases (j == k)) [
    | inl t ↦ rw t (q, All-insert_absent P Q k m (ground (arith, u.0)) keep h.1)
    | inr f ↦ rw f (keep j w (ground arith) h.0, All-insert P Q k v m u.1 keep q h.1)
  ]

module _ {V : Type 0} where
  pub Among-lookup : (k : ℕ) (v : V) (m : List (ℕ × V)) → lookup k m ≡ some v → Among (k, v) m
  unfolding lookup
  Among-lookup k v [] e = cc
  Among-lookup k v ((j, w) ∷ m) e = elim (Bool-cases (j == k)) [
    | inl t ↦ inl (ground arith)
    | inr f ↦ inr (Among-lookup k v m (ground arith))
  ]
