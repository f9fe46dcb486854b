-- ===== src/Watcher/Saves.antt =====
-- Retrieving, saving and the logs of the lidar.
use mandeye_controller.Prelude.{
  ℕ, ◌≡◌, refl, true, Option, none, some, List, [], ◌∷◌, Text, is_some,
}
use mandeye_controller.Livox
use mandeye_controller.Livox.{Doubles, Point, Imu, get_serial_number_to_lidar_id_mapping}
use mandeye_controller.Gnss
use mandeye_controller.Gnss.{Minmea}
use mandeye_controller.States.{States}
use mandeye_controller.App.{World, Content, laz, status, lidar_sn}
use mandeye_controller.Watcher.Steps.{done, through, modify, sync, ◌>>◌}
use mandeye_controller.Watcher.Saving.{
  save_pointcloud_data, save_imu_data, save_status_data, save_lidar_list, retrieve_lidar,
  retrieve_gnss, retrieve_gnss_raw, start_lidar_log, stop_lidar_log, start_gnss_log, stop_gnss_log,
  save_lidar, save_gnss_data, save_gnss_raw_data, write_file, stream_file,
}
use mandeye_controller.Watcher.Rules.{Runs, runs, run, Post, seq, bind, got, when_now, when_keeps}
use mandeye_controller.Watcher.Safe.{IsReady, Logs, Mode, Demand, present, logging, between_rounds}
use mandeye_controller.Watcher.Keeps.{Safe}
use mandeye_controller.Watcher.Primitives.{beep-Safe, now-Safe, sync-Safe}

pub Filled : Option (List Point) × Option (List Imu) → Type 0
Filled buffers = (is_some buffers.0 ≡ true) × (is_some buffers.1 ≡ true)

Logs-some : (l : Option Livox.Client) → Logs l → is_some l ≡ true
unfolding Logs
Logs-some none h = elim h [ ]
Logs-some (some c) h = refl

pub Demand-some :
    (k : Mode) (s : States) (l : Option Livox.Client) → Demand k s l → is_some l ≡ true
unfolding Demand
Demand-some present s l h = h
Demand-some logging s l h = Logs-some l h
Demand-some between_rounds s l h = h.0

module _ {G : Type 0} ⦃fl : Doubles⦄ ⦃mm : Minmea G⦄ where
  -- The lidar's client `l` of `w`, put in by hand.
  retrieve_at :
      (l : Option Livox.Client) (w : World G)
      → IsReady w.board w.gpio
      → Logs l
      → Post
          (λ buffers v. Filled buffers × Safe logging v)
          (through l (λ c.
            let (buffers, d) = Livox.retrieve_data c in done buffers (record w { livox = some d })))
  unfolding Livox.retrieve_data Safe Demand Filled Logs
  retrieve_at none w leds h = elim h [ ]
  retrieve_at (some c) w leds h = (h, (leds, (refl, refl)))

  -- What is retrieved while the lidar logs is no null pointer.
  pub retrieve_lidar-Safe :
      Runs {G = G} (Safe logging) retrieve_lidar (λ buffers w. Filled buffers × Safe logging w)
  unfolding retrieve_lidar Safe Demand
  retrieve_lidar-Safe = runs (λ w h. retrieve_at w.livox w h.0 h.1)

  start_at :
      (l : Option Livox.Client) (w : World G)
      → IsReady w.board w.gpio
      → is_some l ≡ true
      → Post
          (λ (_ : Unit {0}) v. Safe logging v)
          (through l (λ c. done tt (record w { livox = some (Livox.start_log c) })))
  unfolding Livox.start_log Safe Demand Logs
  start_at none w leds h = cc
  start_at (some c) w leds h = (leds, (refl, refl))

  pub start_lidar_log-Safe : Runs {G = G} (Safe present) start_lidar_log (λ _. Safe logging)
  unfolding start_lidar_log Safe Demand
  start_lidar_log-Safe = runs (λ w h. start_at w.livox w h.0 h.1)

  stop_at :
      (l : Option Livox.Client) (w : World G)
      → IsReady w.board w.gpio
      → is_some l ≡ true
      → Post
          (λ (_ : Unit {0}) v. Safe present v)
          (through l (λ c. done tt (record w { livox = some (Livox.stop_log c) })))
  unfolding Livox.stop_log Safe Demand
  stop_at none w leds h = cc
  stop_at (some c) w leds h = (leds, refl)

  pub stop_lidar_log-Safe : Runs {G = G} (Safe logging) stop_lidar_log (λ _. Safe present)
  unfolding stop_lidar_log Safe Demand
  stop_lidar_log-Safe = runs (λ w h. stop_at w.livox w h.0 (Logs-some w.livox h.1))

  gnss_at :
      (k : Mode) (g : Option (Gnss.Client G)) (w : World G)
      (f : Gnss.Client G → List Text × Gnss.Client G)
      → Safe k w
      → Post
          (λ (_ : List Text) v. Safe k v)
          (elim g [
            | none ↦ done [] w
            | some c ↦ let (lines, d) = f c in done lines (record w { gnss = some d })
          ])
  unfolding Safe
  gnss_at k none w f h = h
  gnss_at k (some c) w f h = h

  pub retrieve_gnss-Safe : (k : Mode) → Runs {G = G} (Safe k) retrieve_gnss (λ _. Safe k)
  unfolding retrieve_gnss
  retrieve_gnss-Safe k = runs (λ w h. gnss_at k w.gnss w Gnss.retrieve_data h)

  pub retrieve_gnss_raw-Safe : (k : Mode) → Runs {G = G} (Safe k) retrieve_gnss_raw (λ _. Safe k)
  unfolding retrieve_gnss_raw
  retrieve_gnss_raw-Safe k = runs (λ w h. gnss_at k w.gnss w Gnss.retrieve_raw_data h)

  pub start_gnss_log-Safe : (k : Mode) → Runs {G = G} (Safe k) start_gnss_log (λ _. Safe k)
  unfolding start_gnss_log Safe
  start_gnss_log-Safe k = runs (λ w h. h)

  pub stop_gnss_log-Safe : (k : Mode) → Runs {G = G} (Safe k) stop_gnss_log (λ _. Safe k)
  unfolding stop_gnss_log Safe
  stop_gnss_log-Safe k = runs (λ w h. h)

  save_pointcloud_data-Safe :
      (k : Mode) (points : Option (List Point)) (directory : Text) (chunk : ℕ)
      → is_some points ≡ true
      → Runs {G = G} (Safe k) (save_pointcloud_data points directory chunk) (λ _. Safe k)
  unfolding save_pointcloud_data Safe
  save_pointcloud_data-Safe k none directory chunk h = cc
  save_pointcloud_data-Safe k (some points) directory chunk h = bind (now-Safe k) λ start.
      bind (got (λ w. w.laz_works)) λ works.
        seq
          (when_keeps works {m = modify (write_file directory chunk (laz points))}
            (runs (λ w p. p)))
          (seq (sync-Safe k) (
            bind (now-Safe k) λ finish. bind (got (λ w. w.board)) λ board. when_keeps works (
              when_keeps board.beeps_on_save
                (when_now (λ w. is_some w.gpio) (beep-Safe k (50 ∷ 100 ∷ 50 ∷ 100 ∷ []))))))

  streamed-Safe :
      (k : Mode) (directory : Text) (chunk : ℕ) (content : Content)
      → Runs {G = G} (Safe k) (do stream_file directory chunk content; sync) (λ _. Safe k)
  unfolding Safe
  streamed-Safe k directory chunk content =
      seq (when_now (λ w. w.disk_works) (runs (λ w p. p))) (sync-Safe k)

  save_imu_data-Safe :
      (k : Mode) (samples : Option (List Imu)) (directory : Text) (chunk : ℕ)
      → is_some samples ≡ true
      → Runs {G = G} (Safe k) (save_imu_data samples directory chunk) (λ _. Safe k)
  unfolding save_imu_data Safe
  save_imu_data-Safe k none directory chunk h = cc
  save_imu_data-Safe k (some samples) directory chunk h = streamed-Safe k directory chunk _

  list_at :
      (k : Mode) (l : Option Livox.Client) (directory : Text) (chunk : ℕ) (w : World G)
      → Safe k w
      → is_some l ≡ true
      → Post
          (λ (_ : Unit {0}) v. Safe k v)
          (through l (λ c.
            (do
              stream_file directory chunk (lidar_sn (get_serial_number_to_lidar_id_mapping c))
              sync)
              w))
  list_at k none directory chunk w h there = cc
  list_at k (some c) directory chunk w h there = run (streamed-Safe k directory chunk _) w h

  save_status_data-Safe :
      (k : Mode) (directory : Text) (chunk : ℕ)
      → Runs {G = G} (Safe k) (save_status_data directory chunk) (λ _. Safe k)
  unfolding save_status_data Safe
  save_status_data-Safe k directory chunk =
      bind (got (λ w. w.app_state)) λ state. streamed-Safe k directory chunk (status state)

  save_lidar_list-Safe :
      (k : Mode) (directory : Text) (chunk : ℕ)
      → Runs {G = G} (Safe k) (save_lidar_list directory chunk) (λ _. Safe k)
  unfolding save_lidar_list Safe
  save_lidar_list-Safe k directory chunk =
      runs (λ w p. list_at k w.livox directory chunk w p (Demand-some k w.app_state w.livox p.1))

  -- Saving dereferences no null pointer, if the buffers are none and there is a lidar.
  pub save_lidar-Safe :
      (k : Mode) (buffers : Option (List Point) × Option (List Imu)) (directory : Text) (chunk : ℕ)
      → Filled buffers
      → Runs {G = G} (Safe k) (save_lidar buffers directory chunk) (λ _. Safe k)
  unfolding save_lidar Filled
  save_lidar-Safe k (points, samples) directory chunk (h, g) =
      seq (save_pointcloud_data-Safe k points directory chunk h) (
        seq (save_imu_data-Safe k samples directory chunk g)
          (seq (save_status_data-Safe k directory chunk) (save_lidar_list-Safe k directory chunk)))

  pub save_gnss_data-Safe :
      (k : Mode) (lines : List Text) (directory : Text) (chunk : ℕ)
      → Runs {G = G} (Safe k) (save_gnss_data lines directory chunk) (λ _. Safe k)
  unfolding save_gnss_data Safe
  save_gnss_data-Safe k lines directory chunk =
      when_now (λ w. is_some w.gnss) (streamed-Safe k directory chunk _)

  pub save_gnss_raw_data-Safe :
      (k : Mode) (lines : List Text) (directory : Text) (chunk : ℕ)
      → Runs {G = G} (Safe k) (save_gnss_raw_data lines directory chunk) (λ _. Safe k)
  unfolding save_gnss_raw_data Safe
  save_gnss_raw_data-Safe k lines directory chunk =
      when_now (λ w. is_some w.gnss) (streamed-Safe k directory chunk _)
