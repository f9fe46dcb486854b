-- ===== src/Watcher/Counting.antt =====
-- The files of one chunk and the counting of it.
use mandeye_controller.Prelude.{
  ℕ, ◌+◌, ◌≡◌, ◌≤◌, ◌<◌, refl, sym, ◌∙◌, append-nil, Bool, false, Option, none, some, List, [], ◌∷◌,
  Text, is_some, arith, if◌then◌else◌,
}
use mandeye_controller.States.{idle, usb_io_error}
use mandeye_controller.Hardware.{Board, led_gpio_stop_scan, led_gpio_copy_data}
use mandeye_controller.Livox.{Doubles, Point, Imu, get_serial_number_to_lidar_id_mapping}
use mandeye_controller.Gnss.{Minmea}
use mandeye_controller.App.{World, Content, laz, status, lidar_sn}
use mandeye_controller.Watcher.Steps.{
  M, Outcome, done, crashed, aborted, ◌>>=◌, ◌>>◌, when, get, modify, become, sync, set_led,
  if_gpio,
}
use mandeye_controller.Watcher.Saving.{
  next_chunk, is_empty, save_pointcloud_data, save_imu_data, save_status_data, save_lidar_list,
  save_lidar, save_gnss_data, save_gnss_raw_data, stream_file,
}
use mandeye_controller.Watcher.Scanning.{save_chunk}
use mandeye_controller.Watcher.Changes.{
  Ends, Does, does, ends, Ends-map, Ends-through, does_also, Ends-if, does_seq, does_bind,
  does_when,
}
use mandeye_controller.Watcher.Chunks.{
  Same, Adds, Under, Same-Under, Same-refl, Adds-trans, Under-trans, Under-then, Counts,
  set_led-Same, beep-Same, now-Same, sync-Same,
}
use mandeye_controller.Watcher.Adding.{seq, when_now, enter, wrote, led}

module _ {G : Type 0} ⦃fl : Doubles⦄ ⦃mm : Minmea G⦄ where
  later :
      (w v u : World G)
      → next_chunk w < next_chunk v
      → next_chunk v ≤ next_chunk u
      → next_chunk w < next_chunk u
  later w v u a b = omega arith

  one_more : (w : World G) → w.chunks_cs + 1 + w.chunks_ss ≡ next_chunk w + 1
  one_more w = omega arith

  one_more_stop : (w : World G) → w.chunks_cs + (w.chunks_ss + 1) ≡ next_chunk w + 1
  one_more_stop w = omega arith

  module _ (c : ℕ) where
    under : {A : Type 0} {m : M G A} → Does Same m → Does (Under c) m
    under h = does_also (Same-Under c) h

    Under-refl : (w : World G) → Under c w w
    Under-refl w = Same-Under c w w (Same-refl w)

    when-Under :
        (b : World G → Bool) {m : M G (Unit {0})}
        → Does (Under c) m
        → Does (Under c) (λ w. when (b w) m w)
    when-Under b h = does_when (Under c) Under-refl (Under-trans c) b h

    seq-Under :
        {B : Type 0} {m : M G (Unit {0})} {k : M G B}
        → Does (Under c) m
        → Does (Under c) k
        → Does (Under c) (◌>>◌ m k)
    seq-Under h g = does_seq (Under c) Under-refl (Under-trans c) h g

    bind-Under :
        {A B : Type 0} {m : M G A} {f : A → M G B}
        → Does (Under c) m
        → ((a : A) → Does (Under c) (f a))
        → Does (Under c) (◌>>=◌ m f)
    bind-Under h g = does_bind (Under c) Under-refl (Under-trans c) h g

    save_pointcloud_data-Under :
        (points : Option (List Point)) (directory : Text)
        → Does {G = G} (Under c) (save_pointcloud_data points directory c)
    unfolding save_pointcloud_data
    save_pointcloud_data-Under none directory = does (λ w. tt)
    save_pointcloud_data-Under (some points) directory = bind-Under (under now-Same) λ start.
        bind-Under {m = get (λ w. w.laz_works)} (does Under-refl) λ works.
          seq-Under (when-Under (λ _. works) (wrote directory c (laz points))) (
            seq-Under (under sync-Same) (
              bind-Under (under now-Same) λ finish.
                bind-Under {m = get (λ w. w.board)} (does Under-refl) λ (board : Board).
                  when-Under (λ _. works)
                    (when-Under (λ _. board.beeps_on_save)
                      (when-Under (λ w. is_some w.gpio)
                        (under (beep-Same (50 ∷ 100 ∷ 50 ∷ 100 ∷ [])))))))

    streamed-Under :
        (directory : Text) (content : Content)
        → Does {G = G} (Under c) (do stream_file directory c content; sync)
    streamed-Under directory content =
        seq-Under (when-Under (λ w. w.disk_works) (wrote directory c content)) (under sync-Same)

    save_imu_data-Under :
        (samples : Option (List Imu)) (directory : Text)
        → Does {G = G} (Under c) (save_imu_data samples directory c)
    unfolding save_imu_data
    save_imu_data-Under none directory = does (λ w. tt)
    save_imu_data-Under (some samples) directory = streamed-Under directory _

    save_status_data-Under :
        (directory : Text) → Does {G = G} (Under c) (save_status_data directory c)
    unfolding save_status_data
    save_status_data-Under directory =
        bind-Under {m = get (λ w. w.app_state)} (does Under-refl)
          λ state. streamed-Under directory (status state)

    save_lidar_list-Under :
        (directory : Text) → Does {G = G} (Under c) (save_lidar_list directory c)
    unfolding save_lidar_list
    save_lidar_list-Under directory = does (λ w.
        Ends-through (Under c w) w.livox _ λ l.
          ends (streamed-Under directory (lidar_sn (get_serial_number_to_lidar_id_mapping l))) w)

    save_lidar-Under :
        (buffers : Option (List Point) × Option (List Imu)) (directory : Text)
        → Does {G = G} (Under c) (save_lidar buffers directory c)
    unfolding save_lidar
    save_lidar-Under (points, samples) directory =
        seq-Under (save_pointcloud_data-Under points directory) (
          seq-Under (save_imu_data-Under samples directory)
            (seq-Under (save_status_data-Under directory) (save_lidar_list-Under directory)))

    save_gnss_data-Under :
        (lines : List Text) (directory : Text)
        → Does {G = G} (Under c) (save_gnss_data lines directory c)
    unfolding save_gnss_data
    save_gnss_data-Under lines directory =
        when-Under (λ w. is_some w.gnss) (streamed-Under directory _)

    save_gnss_raw_data-Under :
        (lines : List Text) (directory : Text)
        → Does {G = G} (Under c) (save_gnss_raw_data lines directory c)
    unfolding save_gnss_raw_data
    save_gnss_raw_data-Under lines directory =
        when-Under (λ w. is_some w.gnss) (streamed-Under directory _)

    From-map :
        (w v : World G) (o : Outcome G (Unit {0}))
        → Under c w v
        → Ends (Counts c v) o
        → Ends (Counts c w) o
    From-map w v o q h =
        Ends-map (Counts c v) (Counts c w) o (λ u r this. Under-then c w v u this q r) h

    from_at :
        (k : M G (Unit {0})) (w : World G) (o : Outcome G (Unit {0}))
        → Ends (Under c w) o
        → Does (Counts c) k
        → Ends (Counts c w) (elim o [ done a v ↦ k v | crashed ↦ crashed | aborted v ↦ aborted v ])
    from_at k w (done a v) q g = From-map w v (k v) q (ends g v)
    from_at k w crashed q g = tt
    from_at k w (aborted v) q g = tt

    -- Files of the number `c` are added, and then others and the chunk is counted.
    seq_from :
        {m k : M G (Unit {0})} → Does (Under c) m → Does (Counts c) k → Does (Counts c) (◌>>◌ m k)
    seq_from {m = m} {k = k} h g = does (λ w. from_at k w (m w) (ends h w) g)

    -- The chunk is counted.
    count :
        (f : World G → World G)
        → ((w : World G) → ((f w).files ≡ w.files) × (next_chunk (f w) ≡ next_chunk w + 1))
        → Does (Counts c) (modify f)
    count f h = does (λ w this.
        let (same, more) = h w in
        ((omega arith, ([], (same ∙ sym (append-nil w.files), tt))), omega arith))

    then_at :
        (k : M G (Unit {0})) (w : World G) (o : Outcome G (Unit {0}))
        → Ends (Counts c w) o
        → Does Adds k
        → Ends (Counts c w) (elim o [ done a v ↦ k v | crashed ↦ crashed | aborted v ↦ aborted v ])
    then_at k w (done a v) q g =
        Ends-map (Adds v) (Counts c w) (k v)
          (λ u r this. (Adds-trans w v u (q this).0 r, later w v u (q this).1 r.0)) (ends g v)
    then_at k w crashed q g = tt
    then_at k w (aborted v) q g = tt

    seq_counted :
        {m k : M G (Unit {0})} → Does (Counts c) m → Does Adds k → Does (Counts c) (◌>>◌ m k)
    seq_counted {m = m} {k = k} h g = does (λ w. then_at k w (m w) (ends h w) g)

    -- Without a directory nothing is saved.
    pub or_fail :
        (directory : Text) {m : M G (Unit {0})}
        → Does (Counts c) m
        → (w : World G) → c ≡ next_chunk w
        → Ends (Adds w) (if is_empty directory then become usb_io_error w else m w)
    or_fail directory {m = m} h w this =
        Ends-if (Adds w) (is_empty directory) (become usb_io_error w) (m w)
          (ends (enter usb_io_error) w)
          (Ends-map (Counts c w) (Adds w) (m w) (λ v q. (q this).0) (ends h w))

    pub save_chunk-Counts :
        (lidar : Option (List Point) × Option (List Imu)) (gnss raw : List Text) (directory : Text)
        → Does {G = G} (Counts c) (save_chunk lidar gnss raw directory c)
    unfolding save_chunk
    save_chunk-Counts lidar gnss raw directory = seq_from (save_lidar-Under lidar directory) (
        seq_from (save_gnss_data-Under gnss directory) (
          seq_from (save_gnss_raw_data-Under raw directory) (
            seq_from (under (set_led-Same led_gpio_copy_data false))
              (count (λ w. record w { chunks_cs = w.chunks_cs + 1 }) λ w. (refl, one_more w)))))

    pub last_chunk-Counts :
        (lidar : Option (List Point) × Option (List Imu)) (gnss : List Text) (directory : Text)
        → Does {G = G} (Counts c) (do
          save_lidar lidar directory c
          save_gnss_data gnss directory c
          modify (λ v. record v { chunks_cs = v.chunks_cs + 1 })
          set_led led_gpio_copy_data false
          become idle)
    last_chunk-Counts lidar gnss directory = seq_from (save_lidar-Under lidar directory) (
        seq_from (save_gnss_data-Under gnss directory) (
          seq_counted
            (count (λ v. record v { chunks_cs = v.chunks_cs + 1 }) λ w. (refl, one_more w))
            (seq (led led_gpio_copy_data false) (enter idle))))

    pub stop_scan-Counts :
        (lidar : Option (List Point) × Option (List Imu)) (gnss : List Text) (directory : Text)
        → Does {G = G} (Counts c) (do
          save_lidar lidar directory c
          save_gnss_data gnss directory c
          modify (λ v. record v { chunks_ss = v.chunks_ss + 1 })
          if_gpio do set_led led_gpio_copy_data false; set_led led_gpio_stop_scan false
          become idle)
    stop_scan-Counts lidar gnss directory = seq_from (save_lidar-Under lidar directory) (
        seq_from (save_gnss_data-Under gnss directory) (
          seq_counted
            (count (λ v. record v { chunks_ss = v.chunks_ss + 1 }) λ w. (refl, one_more_stop w))
            (seq
              (when_now (λ w. is_some w.gpio)
                (seq (led led_gpio_copy_data false) (led led_gpio_stop_scan false)))
              (enter idle))))
