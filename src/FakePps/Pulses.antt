-- ===== src/FakePps/Pulses.antt =====
-- When the lines of code/fake_pps.cpp rise and fall, and what is sent after each pulse.
use mandeye_controller.Prelude.{
  ℕ, zero, suc, ◌+◌, ◌*◌, ◌/◌, ◌≤◌, ◌≡◌, refl, sym, ap, ◌∙◌, List, [], ◌∷◌, ◌++◌, map, append_assoc,
  arith, ltb, if◌then◌else◌,
}
use mandeye_controller.FakePps.{
  Tm, get_timestamp_from_sec, produce_nmea, Action, sleep_until, sleep_for, set_value, write,
  release, one_second, seconds, clean_up, one_second_thread,
}

-- The actions with the milliseconds at which they happen, when only sleeping takes time.
unfoldable pub timeline : ℕ → List Action → List (ℕ × Action)
timeline clock [] = []
timeline clock (sleep_until t ∷ actions) = timeline (if ltb clock t then t else clock) actions
timeline clock (sleep_for d ∷ actions) = timeline (clock + d) actions
timeline clock (set_value l v ∷ actions) = (clock, set_value l v) ∷ timeline clock actions
timeline clock (write p s ∷ actions) = (clock, write p s) ∷ timeline clock actions
timeline clock (release l ∷ actions) = (clock, release l) ∷ timeline clock actions

-- What the lines get when the thread ends: each is LOW and then given back.
unfoldable pub given_back : ℕ → List ℕ → List (ℕ × Action)
given_back t [] = []
given_back t (l ∷ ls) = (t, set_value l 0) ∷ (t, release l) ∷ given_back t ls

module _ (gmtime : ℕ → Tm) (ports lines : List ℕ) where
  -- Every line is HIGH for the first 100 ms of the second `s`; then the sentence goes to every port,
  -- with the time of the second after.
  unfoldable pub pulse : ℕ → List (ℕ × Action)
  pulse s =
      map (λ l. (s * 1000, set_value l 1)) lines
      ++ (map (λ l. (s * 1000 + 100, set_value l 0)) lines
          ++ map
              (λ p.
                (s * 1000 + 100, write p (produce_nmea (get_timestamp_from_sec gmtime (s + 1)))))
              ports)

  unfoldable pub pulses : (n s : ℕ) → List (ℕ × Action)
  pulses zero s = []
  pulses (suc n) s = pulse s ++ pulses n (s + 1)

  timeline-clean_up :
      (t : ℕ) (ls : List ℕ) → timeline t (clean_up gmtime ports lines ls) ≡ given_back t ls
  unfolding timeline clean_up given_back
  timeline-clean_up t [] = refl
  timeline-clean_up t (l ∷ ls) =
      ap (λ m. (t, set_value l 0) ∷ (t, release l) ∷ m) (timeline-clean_up t ls)

  timeline-set :
      (clock v : ℕ) (ls : List ℕ) (rest : List Action)
      → timeline clock (map (λ l. set_value l v) ls ++ rest)
        ≡ map (λ l. (clock, set_value l v)) ls ++ timeline clock rest
  unfolding timeline
  timeline-set clock v [] rest = refl
  timeline-set clock v (l ∷ ls) rest =
      ap (◌∷◌ (clock, set_value l v)) (timeline-set clock v ls rest)

  timeline-write :
      (clock : ℕ) (s : List ℕ) (ps : List ℕ) (rest : List Action)
      → timeline clock (map (λ p. write p s) ps ++ rest)
        ≡ map (λ p. (clock, write p s)) ps ++ timeline clock rest
  unfolding timeline
  timeline-write clock s [] rest = refl
  timeline-write clock s (p ∷ ps) rest =
      ap (◌∷◌ (clock, write p s)) (timeline-write clock s ps rest)

  -- Sleeping until a time that has not passed.
  wake : (clock t : ℕ) → clock ≤ t → (if ltb clock t then t else clock) ≡ t
  wake clock t h = ground arith

  timeline-sleep_until :
      (clock t : ℕ) (rest : List Action)
      → clock ≤ t
      → timeline clock (sleep_until t ∷ rest) ≡ timeline t rest
  unfolding timeline
  timeline-sleep_until clock t rest h = ap (λ c. timeline c rest) (wake clock t h)

  timeline-sleep_for :
      (clock d : ℕ) (rest : List Action)
      → timeline clock (sleep_for d ∷ rest) ≡ timeline (clock + d) rest
  unfolding timeline
  timeline-sleep_for clock d rest = refl

  timeline-sentence :
      (t s : ℕ) (text : List ℕ) (rest : List Action)
      → t ≤ s * 1000
      → timeline t (map (λ p. write p text) ports ++ (sleep_until (s * 1000) ∷ rest))
        ≡ map (λ p. (t, write p text)) ports ++ timeline (s * 1000) rest
  timeline-sentence t s text rest h =
      timeline-write t text ports (sleep_until (s * 1000) ∷ rest)
      ∙ ap (λ m. map (λ p. (t, write p text)) ports ++ m) (timeline-sleep_until t (s * 1000) rest h)

  timeline-one_second :
      (clock s : ℕ) (rest : List Action)
      → clock ≤ s * 1000
      → timeline clock ((one_second gmtime ports lines (s * 1000)).0 ++ rest)
        ≡ pulse s ++ timeline ((s + 1) * 1000) rest
  unfolding one_second pulse
  timeline-one_second clock s rest h =
      let high : List Action = map (λ l. set_value l 1) lines in
      let low : List Action = map (λ l. set_value l 0) lines in
      let next : s * 1000 + 1000 ≡ (s + 1) * 1000 = omega arith in
      let second : (s + 1) * 1000 / 1000 ≡ s + 1 = omega arith in
      let text = produce_nmea (get_timestamp_from_sec gmtime (s + 1)) in
      let sent : List Action = map (λ p. write p text) ports in
      let risen : List (ℕ × Action) = map (λ l. (s * 1000, set_value l 1)) lines in
      let fallen : List (ℕ × Action) = map (λ l. (s * 1000 + 100, set_value l 0)) lines in
      rw
        (
          timeline-sleep_until clock (s * 1000) _ h,
          next,
          second,
          append_assoc high _ rest,
          timeline-set (s * 1000) 1 lines,
          timeline-sleep_for,
          append_assoc low _ rest,
          timeline-set (s * 1000 + 100) 0 lines,
          append_assoc sent _ rest,
          timeline-sentence (s * 1000 + 100) (s + 1) text rest (omega arith),
          append_assoc risen,
          append_assoc fallen,
        )
        refl

  seconds-suc :
      (n s : ℕ) (rest : List Action)
      → seconds gmtime ports lines (suc n) (s * 1000) ++ rest
        ≡ (one_second gmtime ports lines (s * 1000)).0
          ++ (seconds gmtime ports lines n ((s + 1) * 1000) ++ rest)
  unfolding seconds one_second
  seconds-suc n s rest =
      let next : s * 1000 + 1000 ≡ (s + 1) * 1000 = omega arith in
      append_assoc (one_second gmtime ports lines (s * 1000)).0 _ rest
      ∙ ap
          (λ t.
            (one_second gmtime ports lines (s * 1000)).0
            ++ (seconds gmtime ports lines n t ++ rest))
          next

  no_seconds :
      (s : ℕ) (rest : List Action)
      → timeline ((s + 1) * 1000) (seconds gmtime ports lines 0 ((s + 1) * 1000) ++ rest)
        ≡ timeline ((s + 1 + 0) * 1000) rest
  unfolding seconds
  no_seconds s rest = ap (λ t. timeline t rest) (omega arith)

  timeline-seconds :
      (n clock s : ℕ) (rest : List Action)
      → clock ≤ s * 1000
      → timeline clock (seconds gmtime ports lines (suc n) (s * 1000) ++ rest)
        ≡ pulses (suc n) s ++ timeline ((s + 1 + n) * 1000) rest
  unfolding pulses
  timeline-seconds zero clock s rest h =
      ap (timeline clock) (seconds-suc 0 s rest)
      ∙ timeline-one_second clock s _ h
      ∙ ap (λ m. pulse s ++ m) (no_seconds s rest)
      ∙ sym (append_assoc (pulse s) [] _)
  timeline-seconds (suc n) clock s rest h =
      let last : (s + 1 + 1 + n) * 1000 ≡ (s + 1 + suc n) * 1000 = omega arith in
      ap (timeline clock) (seconds-suc (suc n) s rest)
      ∙ timeline-one_second clock s _ h
      ∙ ap (λ m. pulse s ++ m) (timeline-seconds n ((s + 1) * 1000) (s + 1) rest (omega arith))
      ∙ sym (append_assoc (pulse s) (pulses (suc n) (s + 1)) _)
      ∙ ap (λ t. pulses (suc (suc n)) s ++ timeline t rest) last

  -- From any reading of the clock, and for any number of passes but none, the lines rise at the
  -- whole seconds after it, one after the other and none left out, and fall 100 ms later; the
  -- sentence then sent names the second after the pulse; and the lines are LOW and given back at
  -- the last wake-up.
  pub one_second_thread-pulses :
      (now n : ℕ)
      → timeline now (one_second_thread gmtime ports lines now (suc n))
        ≡ pulses (suc n) (now / 1000 + 1) ++ given_back ((now / 1000 + 1 + 1 + n) * 1000) lines
  unfolding one_second_thread
  one_second_thread-pulses now n =
      let first : (now + 1000) / 1000 * 1000 ≡ (now / 1000 + 1) * 1000 = omega arith in
      ap
        (λ t.
          timeline now (seconds gmtime ports lines (suc n) t ++ clean_up gmtime ports lines lines))
        first
      ∙ timeline-seconds n now (now / 1000 + 1) (clean_up gmtime ports lines lines) (omega arith)
      ∙ ap (λ m. pulses (suc n) (now / 1000 + 1) ++ m)
          (timeline-clean_up ((now / 1000 + 1 + 1 + n) * 1000) lines)
