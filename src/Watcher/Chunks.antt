-- ===== src/Watcher/Chunks.antt =====
-- The numbers of the chunks that stateWatcher saves.
use mandeye_controller.Prelude.{
  ℕ, ◌+◌, ◌≤◌, ◌<◌, ◌≡◌, refl, sym, ap, ◌∙◌, Bool, some, List, [], ◌∷◌, ◌++◌, append-nil,
  append_assoc, All, All-append, arith,
}
use mandeye_controller.Hardware.{Led, button_stop_scan, button_continous_scanning}
use mandeye_controller.Gpio
use mandeye_controller.Livox.{Doubles}
use mandeye_controller.Gnss.{Minmea}
use mandeye_controller.App.{
  World, File, Event, apply, apply_all, press, request_start, request_stop, request_stop_scan,
  livox_made, gnss_made, gpio_made, publisher_made, lidar_failed, livox_event, gnss_line,
  clock_advances, laz_saves, disk_opens, led_set, callback_added, livox_started,
  trigger_continous_scanning, trigger_stop_scan, start_scan, stop_scan, ms,
}
use mandeye_controller.Watcher.Steps.{done, set_led, next_batch, sleep, now, sync, beep}
use mandeye_controller.Watcher.Saving.{next_chunk}
use mandeye_controller.Watcher.Changes.{Does, does, ends, Ends-through, Ends-if}

abbrev pub Same : {G : Type 0} → World G → World G → Type 0
Same w v = (v.files ≡ w.files) × (next_chunk v ≡ next_chunk w)

-- Files are added whose numbers are those from `w`'s next chunk up to `v`'s.
abbrev pub Adds : {G : Type 0} → World G → World G → Type 0
Adds w v =
    (next_chunk w ≤ next_chunk v)
    × ((new : List File) × ((v.files ≡ w.files ++ new)
          × All (λ f. (next_chunk w ≤ f.chunk) × (f.chunk < next_chunk v)) new))

-- Files of the number `c` are added.
abbrev pub Under : {G : Type 0} → ℕ → World G → World G → Type 0
Under c w v =
    (next_chunk v ≡ next_chunk w)
    × ((new : List File) × ((v.files ≡ w.files ++ new) × All (λ f. f.chunk ≡ c) new))

-- Files are added and a chunk is counted, if its number is `c`.
abbrev pub Counts : {G : Type 0} → ℕ → World G → World G → Type 0
Counts c w v = c ≡ next_chunk w → Adds w v × (next_chunk w < next_chunk v)

All-map {ℓ} :
    {A : Type ℓ} (P Q : A → Type 0) (xs : List A) → ((a : A) → P a → Q a) → All P xs → All Q xs
All-map P Q [] f h = tt
All-map P Q (x ∷ xs) f (h, t) = (f x h, All-map P Q xs f t)

appended {ℓ} :
    {A : Type ℓ} (xs ys zs new more : List A)
    → ys ≡ xs ++ new
    → zs ≡ ys ++ more
    → zs ≡ xs ++ (new ++ more)
appended xs ys zs new more e e' = e' ∙ ap (λ l. l ++ more) e ∙ append_assoc xs new more

module _ {G : Type 0} where
  pub Same-Adds : (w v : World G) → Same w v → Adds w v
  Same-Adds w v (e, n) = (omega arith, ([], (e ∙ sym (append-nil w.files), tt)))

  pub Same-Under : (c : ℕ) (w v : World G) → Same w v → Under c w v
  Same-Under c w v (e, n) = (n, ([], (e ∙ sym (append-nil w.files), tt)))

  pub Same-refl : (w : World G) → Same w w
  Same-refl w = (refl, refl)

  Same-trans : (w v u : World G) → Same w v → Same v u → Same w u
  Same-trans w v u (e, n) (e', n') = (e' ∙ e, n' ∙ n)

  pub Adds-refl : (w : World G) → Adds w w
  Adds-refl w = Same-Adds w w (Same-refl w)

  pub Adds-trans : (w v u : World G) → Adds w v → Adds v u → Adds w u
  Adds-trans w v u (n, (new, (e, h))) (m, (more, (e', k))) = (
    omega arith,
    (
      new ++ more,
      (
        appended w.files v.files u.files new more e e',
        All-append _ new more (All-map _ _ new (λ f (a, b). (a, omega arith)) h)
            (All-map _ _ more (λ f (a, b). (omega arith, b)) k),
      ),
    ),
  )

  pub Under-trans : (c : ℕ) (w v u : World G) → Under c w v → Under c v u → Under c w u
  Under-trans c w v u (n, (new, (e, h))) (m, (more, (e', k))) = (
    m ∙ n,
    (new ++ more, (appended w.files v.files u.files new more e e', All-append _ new more h k)),
  )

  -- Others, after files of the number `c`, when the chunk is counted among them.
  pub Under-then :
      (c : ℕ) (w v u : World G)
      → c ≡ next_chunk w
      → Under c w v
      → Counts c v u
      → Adds w u × (next_chunk w < next_chunk u)
  Under-then c w v u this (n, (new, (e, h))) counts =
      let ((m, (more, (e', k))), grown) = counts (this ∙ sym n) in
      (
        (
          omega arith,
          (
            new ++ more,
            (
              appended w.files v.files u.files new more e e',
              All-append _ new more (All-map _ _ new (λ f q. (omega arith, omega arith)) h)
                  (All-map _ _ more (λ f (a, b). (omega arith, b)) k),
            ),
          ),
        ),
        omega arith,
      )

  trigger_stop_scan-Same : (w : World G) → Same w (trigger_stop_scan w).1
  unfolding trigger_stop_scan
  trigger_stop_scan-Same w = (ground arith, ground arith)

  start_scan-Same : (w : World G) → Same w (start_scan w).1
  unfolding start_scan
  start_scan-Same w = (ground arith, ground arith)

  stop_scan-Same : (w : World G) → Same w (stop_scan w).1
  unfolding stop_scan
  stop_scan-Same w = (ground arith, ground arith)

  trigger_continous_scanning-Same : (w : World G) → Same w (trigger_continous_scanning w).1
  unfolding trigger_continous_scanning
  trigger_continous_scanning-Same w = (ground arith, ground arith)

module _ {G : Type 0} ⦃fl : Doubles⦄ ⦃mm : Minmea G⦄ where
  apply-Same : (e : Event G) (w : World G) → Same w (apply e w)
  unfolding apply
  apply-Same (press button_stop_scan) w = trigger_stop_scan-Same w
  apply-Same (press button_continous_scanning) w = trigger_continous_scanning-Same w
  apply-Same request_start w = start_scan-Same w
  apply-Same request_stop w = stop_scan-Same w
  apply-Same request_stop_scan w = trigger_stop_scan-Same w
  apply-Same (livox_made c) w = Same-refl w
  apply-Same (gnss_made c) w = Same-refl w
  apply-Same (gpio_made c) w = Same-refl w
  apply-Same publisher_made w = Same-refl w
  apply-Same lidar_failed w = Same-refl w
  apply-Same (livox_event e) w = Same-refl w
  apply-Same (gnss_line line millis) w = Same-refl w
  apply-Same (clock_advances n) w = Same-refl w
  apply-Same (laz_saves b) w = Same-refl w
  apply-Same (disk_opens b) w = Same-refl w
  apply-Same (led_set l state) w = Same-refl w
  apply-Same (callback_added b name) w = Same-refl w
  apply-Same (livox_started ok) w = Same-refl w

  apply_all-Same : (es : List (Event G)) (w : World G) → Same w (apply_all es w)
  unfolding apply_all
  apply_all-Same [] w = Same-refl w
  apply_all-Same (e ∷ es) w =
      Same-trans w (apply e w) (apply_all es (apply e w)) (apply-Same e w)
        (apply_all-Same es (apply e w))

  batch_at :
      (s : List (List (Event G))) (w : World G)
      → Same w (elim s [ [] ↦ w | es ∷ rest ↦ apply_all es (record w { schedule = rest }) ])
  batch_at [] w = Same-refl w
  batch_at (es ∷ rest) w = apply_all-Same es (record w { schedule = rest })

  pub sleep-Same : (millis : ℕ) → Does {G = G} Same (sleep millis)
  unfolding sleep next_batch
  sleep-Same millis = does (λ w. batch_at w.schedule (record w { clock = w.clock + ms millis }))

  pub now-Same : Does {G = G} Same now
  unfolding now next_batch
  now-Same = does (λ w. batch_at w.schedule w)

  pub sync-Same : Does {G = G} Same sync
  unfolding sync next_batch
  sync-Same = does (λ w. batch_at w.schedule w)

  pub set_led-Same : (l : Led) (state : Bool) → Does {G = G} Same (set_led l state)
  unfolding set_led
  set_led-Same l state = does (λ w.
      Ends-through (Same w) w.gpio _
        λ c. Ends-through (Same w) (Gpio.set_led l state c) _ λ d. Same-refl w)

  pub beep-Same : (ds : List ℕ) → Does {G = G} Same (beep ds)
  unfolding beep
  beep-Same ds = does (λ w. Ends-through (Same w) w.gpio _ λ c.
      Ends-if (Same w) c.use_simulated_gpio (done tt w) _ (Same-refl w)
        (ends (sleep-Same _) (record w { gpio = some (Gpio.beep ds c) })))
