-- ===== src/Teleop/Recording.antt =====
-- The recorder of lerobot_recorder.py as the buttons of teleop_mantis.py use it. An exception that
-- leaves `start` would leave `vr_tick` as well; it counts as a refusal here.
use vla_mantis.Base.{
  ◌≡◌, refl, Bool, true, false, not, Option, none, some, if-cases, ltb, not-eq_true,
}
use vla_mantis.Base.Int.{ℤ}
use vla_mantis.Recorder.Episode.{Lerobot, Config, Node, Recorder}
use vla_mantis.Recorder.Camera.{cam_keys}
use vla_mantis.Recorder.Session.{
  Cameras, stale, undecodable, shapes, Answer, started, refused, raised, opened, start_opened,
  start_with, start, close, flush, stop, check_cameras, has_values,
}
use vla_mantis.Teleop.Buttons.{RecorderApi}

module _ (lib : Lerobot) (cfg : Config lib) (n : Node lib) (now : ℤ) where
  abbrev pub is_started : Answer → Bool
  is_started started = true
  is_started refused = false
  is_started raised = false

  close-recording : (r : Recorder lib) → (close lib cfg r).recording ≡ r.recording
  unfolding close
  close-recording r =
      if-cases (λ (x : Recorder lib). x.recording ≡ r.recording) (ltb r.frames cfg.min_frames)
        (λ e. refl) (λ e. refl)

  pub stop-recording : (r : Recorder lib) → (stop lib cfg n r).1.recording ≡ false
  unfolding stop
  stop-recording r =
      if-cases (λ (x : Bool × Recorder lib). x.1.recording ≡ false) (not r.recording)
        (λ e. not-eq_true r.recording e)
        (λ e. close-recording (record (flush lib cfg n r) { recording = false }))

  -- An answer that is no start leaves the recorder as it was.
  abbrev pub Unchanged : Recorder lib → Answer × Recorder lib → Type 0
  Unchanged r x = is_started x.0 ≡ false → x.1.recording ≡ r.recording

  start_opened-Unchanged :
      (r : Recorder lib) (o : Option (Recorder lib)) → Unchanged r (start_opened lib cfg r o)
  start_opened-Unchanged r none e = refl
  start_opened-Unchanged r (some r') e = absurd cc

  start_with-Unchanged : (c : Cameras) (r : Recorder lib) → Unchanged r (start_with lib cfg c r)
  start_with-Unchanged stale r e = refl
  start_with-Unchanged undecodable r e = refl
  start_with-Unchanged (shapes ps) r e = start_opened-Unchanged r (opened lib cfg ps r r.dataset) e

  pub start-Unchanged : (r : Recorder lib) → Unchanged r (start lib cfg n now r)
  unfolding start
  start-Unchanged r =
      if-cases (Unchanged r) r.recording (λ a e. refl)
        (λ a.
          if-cases (Unchanged r) (not r.loaded) (λ b e. refl)
            (λ b.
              if-cases (Unchanged r) (not (has_values lib cfg n)) (λ c e. refl)
                (λ c.
                  start_with-Unchanged (check_cameras lib cfg (cam_keys lib cfg) now r.img_msg) r)))

  abbrev pub episode_recorder : RecorderApi
  episode_recorder = record {
    State = Recorder lib;
    recording = λ r. r.recording;
    start = λ r. (is_started (start lib cfg n now r).0, (start lib cfg n now r).1);
    stop = λ r. (stop lib cfg n r).1;
    stop_recording = stop-recording;
    start_refused = start-Unchanged;
  }
