-- ===== src/Camera/Life/Posts.antt =====
-- Sequences of configurations that are posted to extras/libcamera/main.cpp.
use mandeye_controller.Prelude.{
  ℕ, ◌≡◌, refl, ap, ◌∙◌, Bool, true, false, not, ◌&&◌, Option, none, some, List, [], ◌∷◌, is_some,
  Bool-cases, inl, inr, if◌then◌else◌,
}
use mandeye_controller.Prelude.Options.{◌>>=◌}
use mandeye_controller.Camera.{TriggerConfig, stop}
use mandeye_controller.Camera.Controls.{Values}
use mandeye_controller.Camera.Life.{
  is_throwing, Life, Config, Answers, Request, Started, threw, returned, start_camera, start_life,
  stop_life, answered, capture_life, post, posts,
}

module _ ⦃vs : Values⦄ where
  -- The configurations but the last have a trigger section that is read.
  abbrev pub read_but_last : List Request → Bool
  read_but_last [] = true
  read_but_last (r ∷ []) = true
  read_but_last (r ∷ q ∷ rs) = not (is_throwing r.config.trigger) && read_but_last (q ∷ rs)

  start_camera-manager :
      (c : Config) (t : Option TriggerConfig) (a : Answers) (l : Life)
      → (start_camera c t a l).1.has_manager ≡ true
  unfolding start_camera
  start_camera-manager c t a l = elim (Bool-cases (a.has_camera && is_throwing c.rate_ms)) [
    | inl e ↦ rw e refl
    | inr e ↦ rw e refl
  ]

  start_life-manager :
      (c : Config) (a : Answers) (l : Life)
      → l.has_manager ≡ false
      → (start_life c a l).1.has_manager ≡ not (is_throwing c.trigger)
  unfolding start_life
  start_life-manager c a l h = elim (Bool-cases (is_throwing c.trigger)) [
    | inl e ↦ rw e h
    | inr e ↦ rw e (start_camera-manager c _ a l)
  ]

  answered-manager :
      (now wall_ns : ℕ) (s : Started × Life)
      → (answered now wall_ns s).1.has_manager ≡ s.1.has_manager
  unfolding answered capture_life
  answered-manager now wall_ns (threw, l) = refl
  answered-manager now wall_ns (returned ok, l) = refl

  post-manager :
      (r : Request) (l : Life)
      → l.has_manager ≡ true
      → (ok : Bool) × ((m : Life) × ((post r l ≡ some (ok, m))
            × (m.has_manager ≡ not (is_throwing r.config.trigger))))
  unfolding post stop_life
  post-manager r l h =
      let stopped : Life = record l {
        wrapper = stop l.wrapper;
        has_manager = false;
        camera = false;
        requests = if l.camera then 0 else l.requests;
      } in
      let out = answered r.now r.wall_ns (start_life r.config r.answers stopped) in
      (
        out.0,
        (
          out.1,
          (
            rw h refl,
            answered-manager r.now r.wall_ns (start_life r.config r.answers stopped)
                ∙ start_life-manager r.config r.answers stopped refl,
          ),
        ),
      )

  post-none : (r : Request) (l : Life) → l.has_manager ≡ false → post r l ≡ none
  unfolding post stop_life
  post-none r l h = rw h refl

  after_all :
      (ok : Bool) (o : Option (List Bool × Life))
      → is_some {A = List Bool × Life} (o >>= λ (oks, n). some (ok ∷ oks, n)) ≡ is_some o
  after_all ok none = refl
  after_all ok (some p) = refl

  -- From a camera whose manager is there, a sequence of configurations that are posted does not
  -- dereference a null pointer exactly when all but the last have a trigger section that is read
  -- without an exception: after one that throws, the next POST stops a manager that is not there.
  pub posts-read_but_last :
      (rs : List Request) (l : Life)
      → l.has_manager ≡ true
      → is_some (posts rs l) ≡ read_but_last rs
  unfolding posts
  posts-read_but_last [] l h = refl
  posts-read_but_last (r ∷ []) l h = let (ok, (m, (e, manager))) = post-manager r l h in rw e refl
  posts-read_but_last (r ∷ q ∷ rs) l h =
      let (ok, (m, (e, manager))) = post-manager r l h in
      elim (Bool-cases (is_throwing r.config.trigger)) [
        | inl bad ↦ rw (e, post-none q m (manager ∙ ap not bad), bad) refl
        | inr good ↦
            rw (e, good)
              (after_all ok (posts (q ∷ rs) m)
                ∙ posts-read_but_last (q ∷ rs) m (manager ∙ ap not good))
      ]
