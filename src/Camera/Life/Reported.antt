-- ===== src/Camera/Life/Reported.antt =====
-- The configuration that extras/libcamera reports, posted back.
use mandeye_controller.Prelude.{ℕ, ◌≡◌, refl, true, some, List, Text, text_eq}
use mandeye_controller.Camera.{
  internal, stop, start, arm, slave_mode, read_trigger, mode_of, capture, release_pps_gpio,
}
use mandeye_controller.Camera.Controls.{Values}
use mandeye_controller.Camera.Life.{
  Setting, Life, Answers, Request, get_camera_config, post, start_life, start_camera, stop_life,
  answered, capture_life,
}
use mandeye_controller.Camera.Life.Lasting.{IsHeld, post-IsHeld}

module _ ⦃vs : Values⦄ where
  -- What a POST of the reported configuration leaves: the camera runs at its old rate, in the mode
  -- INTERNAL whatever its mode was, with each control that was set still set.
  pub post-reported :
      (picamera : List (Text × Setting)) (a : Answers) (now wall_ns : ℕ) (l : Life)
      → l.has_manager ≡ true
      → a.has_camera ≡ true
      → (m : Life) × ((post
              (record {
                config = get_camera_config picamera l;
                answers = a;
                now = now;
                wall_ns = wall_ns;
              })
              l
            ≡ some (true, m))
          × ((m.wrapper.trigger_mode ≡ internal)
              × ((m.wrapper.rate_ms ≡ l.wrapper.rate_ms)
                  × ((m.wrapper.running ≡ true)
                      × ((k : ℕ)
                          → IsHeld k l.wrapper.control_list
                          → IsHeld k m.wrapper.control_list)))))
  unfolding post get_camera_config stop_life start_life start_camera answered capture_life start arm
      slave_mode read_trigger mode_of capture stop release_pps_gpio text_eq
  post-reported picamera a now wall_ns l manager there =
      let r : Request = record {
        config = get_camera_config picamera l;
        answers = a;
        now = now;
        wall_ns = wall_ns;
      } in
      let sent : (m : Life) × ((post r l ≡ some (true, m))
            × ((m.wrapper.trigger_mode ≡ internal)
                × ((m.wrapper.rate_ms ≡ l.wrapper.rate_ms) × (m.wrapper.running ≡ true)))) =
        rw (manager, there) (_, (refl, (refl, (refl, refl)))) in
      let (m, (e, (mode, (rate, running)))) = sent in
      (m, (e, (mode, (rate, (running, λ k h. post-IsHeld r k l m true e h)))))
