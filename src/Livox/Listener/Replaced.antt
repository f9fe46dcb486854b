-- ===== src/Livox/Listener/Replaced.antt =====
-- ReplaceAll of code/LivoxClient.cpp against a reading from left to right.
use mandeye_controller.Prelude.{
  ℕ, zero, suc, ◌+◌, ◌-◌, ◌<◌, ◌≡◌, refl, sym, ap, ◌∙◌, true, false, Option, none, some, [], ◌∷◌,
  ◌++◌, append_assoc, length, length-append, take, drop, take-append, drop-append, if◌then◌else◌,
  Text, is_empty, starts_with, starts_with_rest, Bool-cases, inl, inr, arith, ltb,
}
use mathlib.Core.Option
use mandeye_controller.Livox.Listener.{find_in, find, replace, replace_loop, replace_all}

-- Every occurrence that the reading from the left meets is put otherwise; `skip` characters of one
-- are still to be left out.
unfoldable pub replaced : Text → Text → ℕ → Text → Text
replaced from to skip [] = []
replaced from to (suc skip) (c ∷ s) = replaced from to skip s
replaced from to zero (c ∷ s) =
    let after = replaced from to (length from - 1) s in
    let later = replaced from to 0 s in if starts_with from (c ∷ s) then to ++ after else c ∷ later

replaced-skip :
    (from to xs ys : Text) → replaced from to (length xs) (xs ++ ys) ≡ replaced from to 0 ys
unfolding replaced
replaced-skip from to [] ys = refl
replaced-skip from to (x ∷ xs) ys = replaced-skip from to xs ys

regroup : (a b c d : Text) → a ++ (b ++ c ++ d) ≡ a ++ b ++ c ++ d
regroup a b c d = simp (append_assoc)

-- `first :: others` is what is looked for.
module _ (first : ℕ) (others to : Text) where
  -- The text has no occurrence, or it is known where the first one stands.
  First : Text → Option ℕ → Type 0
  First s none = replaced (first ∷ others) to 0 s ≡ s
  First s (some at) =
      (before : Text) × (after : Text) × (s ≡ before ++ (first ∷ others) ++ after)
      × (length before ≡ at)
      × (replaced (first ∷ others) to 0 s ≡ before ++ to ++ replaced (first ∷ others) to 0 after)

  First-suc :
      (c : ℕ) (s : Text) (o : Option ℕ)
      → starts_with (first ∷ others) (c ∷ s) ≡ false
      → First s o
      → First (c ∷ s) (Option.map suc o)
  unfolding First replaced
  First-suc c s none other h = rw other (ap (◌∷◌ c) h)
  First-suc c s (some at) other (before, after, e, n, r) =
      (c ∷ before, after, ap (◌∷◌ c) e, ap suc n, rw other (ap (◌∷◌ c) r))

  replaced-here :
      (s after : Text)
      → s ≡ first ∷ (others ++ after)
      → starts_with (first ∷ others) s ≡ true
      → replaced (first ∷ others) to 0 s ≡ to ++ replaced (first ∷ others) to 0 after
  unfolding replaced
  replaced-here s after e here =
      let same = rw e at here in
      let count : length (first ∷ others) - 1 ≡ length others = omega arith in
      rw (e, same)
        (ap (λ k. to ++ replaced (first ∷ others) to k (others ++ after)) count
          ∙ ap (λ t. to ++ t) (replaced-skip (first ∷ others) to others after))

  First-zero : (s : Text) → starts_with (first ∷ others) s ≡ true → First s (some 0)
  unfolding First replaced
  First-zero s here =
      let (after, e) = starts_with_rest (first ∷ others) s here in
      ([], after, e, refl, replaced-here s after e here)

  find_in-First : (s : Text) → First s (find_in (first ∷ others) s)
  unfolding find_in First replaced
  find_in-First [] = refl
  find_in-First (c ∷ s) = elim (Bool-cases (starts_with (first ∷ others) (c ∷ s))) [
    | inl here ↦ rw here (First-zero (c ∷ s) here)
    | inr other ↦ rw other (First-suc c s (find_in (first ∷ others) s) other (find_in-First s))
  ]

  -- What is looked for is found behind what is done.
  find-behind :
      (done rest : Text)
      → find (first ∷ others) (length done) (done ++ rest)
        ≡ Option.map (λ p. length done + p) (find_in (first ∷ others) rest)
  unfolding find
  find-behind done rest =
      let within : ltb (length (done ++ rest)) (length done) ≡ false =
        ground (arith, length-append done rest) in
      rw (within, drop-append done rest) refl

  -- The text after one replacement.
  replace-behind :
      (done before after : Text)
      → replace
          (length done + length before)
          (length (first ∷ others))
          to
          (done ++ before ++ (first ∷ others) ++ after)
        ≡ (done ++ before ++ to) ++ after
  replace-behind done before after =
      let looked : Text = first ∷ others in
      let at : length done + length before ≡ length (done ++ before) =
        sym (length-append done before) in
      let behind : length done + length before + length looked ≡ length (done ++ before ++ looked) =
        sym (length-append (done ++ before) looked ∙ ap (λ n. n + length looked) (sym at)) in
      let kept : take (length (done ++ before)) (done ++ before ++ looked ++ after)
          ≡ done ++ before =
        ap (take (length (done ++ before))) (append_assoc (done ++ before) looked after)
        ∙ take-append (done ++ before) (looked ++ after) in
      let left : drop (length done + length before + length looked)
            (done ++ before ++ looked ++ after)
          ≡ after =
        ap (λ n. drop n (done ++ before ++ looked ++ after)) behind
        ∙ drop-append (done ++ before ++ looked) after in
      ap
        (λ n.
          take n (done ++ before ++ looked ++ after)
          ++ (to
              ++ drop (length done + length before + length looked)
                  (done ++ before ++ looked ++ after)))
        at
      ∙ (ap
            (λ t.
              t
              ++ (to
                  ++ drop (length done + length before + length looked)
                      (done ++ before ++ looked ++ after)))
            kept
          ∙ (ap (λ t. (done ++ before) ++ (to ++ t)) left
              ∙ sym (append_assoc (done ++ before) to after)))

  replace_found :
      (fuel : ℕ) (done rest : Text) (o : Option ℕ)
      → find_in (first ∷ others) rest ≡ o
      → First rest o
      → length rest < suc fuel
      → ((done rest : Text)
          → length rest < fuel
          → replace_loop fuel (first ∷ others) to (length done) (done ++ rest)
            ≡ some (done ++ replaced (first ∷ others) to 0 rest))
      → replace_loop (suc fuel) (first ∷ others) to (length done) (done ++ rest)
        ≡ some (done ++ replaced (first ∷ others) to 0 rest)
  unfolding replace_loop First
  replace_found fuel done rest none found h fewer ih =
      rw (replace_loop, find-behind done rest, found) (ap (λ t. some (done ++ t)) (sym h))
  replace_found fuel done rest (some at) found (before, after, e, n, r) fewer ih =
      let looked : Text = first ∷ others in
      let ready : Text = done ++ before ++ to in
      let start : length done + at + length to ≡ length ready =
        omega (arith, n, length-append {0} (done ++ before) to, length-append {0} done before) in
      let text : replace (length done + at) (length looked) to (done ++ rest) ≡ ready ++ after =
        ap (λ m. replace (length done + m) (length looked) to (done ++ rest)) (sym n)
        ∙ (ap (λ t. replace (length done + length before) (length looked) to (done ++ t)) e
            ∙ (ap (replace (length done + length before) (length looked) to)
                  (regroup done before looked after)
                ∙ replace-behind done before after)) in
      let shorter : length after < fuel = omega (
        arith,
        fewer,
        ap length e,
        length-append {0} (before ++ looked) after,
        length-append {0} before looked,
      ) in
      rw (replace_loop, find-behind done rest, found)
        (ap
            (λ k.
              replace_loop fuel looked to k
                (replace (length done + at) (length looked) to (done ++ rest)))
            start
          ∙ (ap (replace_loop fuel looked to (length ready)) text
              ∙ (ih ready after shorter
                  ∙ ap some (
                      sym (regroup done before to (replaced looked to 0 after))
                      ∙ ap (λ t. done ++ t) (sym r)))))

  replace_loop-replaced :
      (fuel : ℕ) (done rest : Text)
      → length rest < fuel
      → replace_loop fuel (first ∷ others) to (length done) (done ++ rest)
        ≡ some (done ++ replaced (first ∷ others) to 0 rest)
  replace_loop-replaced zero done rest fewer = elim fewer [ ]
  replace_loop-replaced (suc fuel) done rest fewer =
      replace_found fuel done rest (find_in (first ∷ others) rest) refl (find_in-First rest) fewer
        (replace_loop-replaced fuel)

-- When what is looked for is not empty, ReplaceAll ends, with fuel above the text's length, and its
-- result is the text read once from the left, in which each occurrence that is met is put otherwise
-- and nothing that was put in is looked at again.
pub replace_all-replaced :
    (fuel : ℕ) (s from to : Text)
    → is_empty from ≡ false
    → length s < fuel
    → replace_all fuel s from to ≡ some (replaced from to 0 s)
unfolding replace_all
replace_all-replaced fuel s [] to there fewer = cc
replace_all-replaced fuel s (first ∷ others) to there fewer =
    replace_loop-replaced first others to fuel [] s fewer
