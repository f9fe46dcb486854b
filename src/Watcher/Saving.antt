-- ===== src/Watcher/Saving.antt =====
-- code/main.cpp: what stateWatcher retrieves from the clients, and the files that it saves.
use mandeye_controller.Prelude.{
  ℕ, ◌+◌, Bool, true, false, Option, none, some, List, [], ◌∷◌, ◌++◌, ltb, if◌then◌else◌, Text,
  is_some,
}
use mandeye_controller.Livox
use mandeye_controller.Livox.{Doubles, Point, Imu, get_serial_number_to_lidar_id_mapping}
use mandeye_controller.Gnss
use mandeye_controller.Gnss.{Minmea}
use mandeye_controller.App.{World, Content, laz, imu_csv, status, lidar_sn, gnss_csv, nmea, on_some}
use mandeye_controller.Watcher.Steps.{
  ◌>>=◌, ◌>>◌, M, done, through, when, modify, get, now, sync, if_gpio, beep, crash,
}

-- The rows of an IMU file: samples with no stamp are left out.
unfoldable pub stamped_rows : List Imu → List Imu
stamped_rows [] = []
stamped_rows (p ∷ ps) = let rest = stamped_rows ps in if ltb 0 p.timestamp then p ∷ rest else rest

abbrev pub is_empty : Text → Bool
is_empty [] = true
is_empty (c ∷ s) = false

-- The chunk number of the next files.
abbrev pub next_chunk : {G : Type 0} → World G → ℕ
next_chunk w = w.chunks_cs + w.chunks_ss

abbrev pub write_file : {G : Type 0} → Text → ℕ → Content → World G → World G
write_file directory chunk content w = record w {
  files = w.files ++ record { directory = directory; chunk = chunk; content = content } ∷ [];
}

-- A file that an ofstream writes: a stream that does not open is not noticed.
abbrev pub stream_file : {G : Type 0} → Text → ℕ → Content → M G (Unit {0})
stream_file directory chunk content w =
    when w.disk_works (modify (write_file directory chunk content)) w

module _ {G : Type 0} ⦃fl : Doubles⦄ ⦃mm : Minmea G⦄ where
  -- A null buffer is dereferenced.
  unfoldable pub save_pointcloud_data : Option (List Point) → Text → ℕ → M G (Unit {0})
  save_pointcloud_data none directory chunk = crash
  save_pointcloud_data (some points) directory chunk = do
    start ← now
    works ← get (λ w. w.laz_works)
    when works (modify (write_file directory chunk (laz points)))
    sync
    finish ← now
    board ← get (λ w. w.board)
    when works (when board.beeps_on_save (if_gpio (beep (50 ∷ 100 ∷ 50 ∷ 100 ∷ []))))

  unfoldable pub save_imu_data : Option (List Imu) → Text → ℕ → M G (Unit {0})
  unfolding stamped_rows
  save_imu_data none directory chunk = crash
  save_imu_data (some samples) directory chunk = do
    stream_file directory chunk (imu_csv (stamped_rows samples))
    sync

  unfoldable pub save_status_data : Text → ℕ → M G (Unit {0})
  save_status_data directory chunk = do
    state ← get (λ w. w.app_state)
    stream_file directory chunk (status state)
    sync

  -- getSerialNumberToLidarIdMapping and saveLidarList.
  unfoldable pub save_lidar_list : Text → ℕ → M G (Unit {0})
  save_lidar_list directory chunk w = through w.livox (λ c.
      (do stream_file directory chunk (lidar_sn (get_serial_number_to_lidar_id_mapping c)); sync) w)

  -- `livoxCLientPtr->retrieveData()`.
  unfoldable pub retrieve_lidar : M G (Option (List Point) × Option (List Imu))
  retrieve_lidar w =
      through w.livox (λ c.
        let (buffers, d) = Livox.retrieve_data c in done buffers (record w { livox = some d }))

  -- `gnssClientPtr->retrieveData()`, or an empty deque without a client.
  unfoldable pub retrieve_gnss : M G (List Text)
  retrieve_gnss w = elim w.gnss [
    | none ↦ done [] w
    | some c ↦ let (lines, d) = Gnss.retrieve_data c in done lines (record w { gnss = some d })
  ]

  unfoldable pub retrieve_gnss_raw : M G (List Text)
  retrieve_gnss_raw w = elim w.gnss [
    | none ↦ done [] w
    | some c ↦ let (lines, d) = Gnss.retrieve_raw_data c in done lines (record w { gnss = some d })
  ]

  unfoldable pub start_lidar_log : M G (Unit {0})
  start_lidar_log w = through w.livox (λ c. done tt (record w { livox = some (Livox.start_log c) }))

  unfoldable pub stop_lidar_log : M G (Unit {0})
  stop_lidar_log w = through w.livox (λ c. done tt (record w { livox = some (Livox.stop_log c) }))

  unfoldable pub start_gnss_log : M G (Unit {0})
  start_gnss_log = modify (λ w. record w { gnss = on_some Gnss.start_log w.gnss })

  unfoldable pub stop_gnss_log : M G (Unit {0})
  stop_gnss_log = modify (λ w. record w { gnss = on_some Gnss.stop_log w.gnss })

  -- The files of one chunk that every mode saves, then the GNSS ones.
  unfoldable pub save_lidar : Option (List Point) × Option (List Imu) → Text → ℕ → M G (Unit {0})
  save_lidar (points, samples) directory chunk = do
    save_pointcloud_data points directory chunk
    save_imu_data samples directory chunk
    save_status_data directory chunk
    save_lidar_list directory chunk

  unfoldable pub save_gnss_data : List Text → Text → ℕ → M G (Unit {0})
  save_gnss_data lines directory chunk w =
      when (is_some w.gnss) (do stream_file directory chunk (gnss_csv lines); sync) w

  unfoldable pub save_gnss_raw_data : List Text → Text → ℕ → M G (Unit {0})
  save_gnss_raw_data lines directory chunk w =
      when (is_some w.gnss) (do stream_file directory chunk (nmea lines); sync) w
