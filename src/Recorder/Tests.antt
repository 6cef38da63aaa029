-- ===== src/Recorder/Tests.antt =====
-- The recorder of lerobot_recorder.py with two cameras, over a dataset that only counts.
use vla_mantis.Base.{
  ℕ, ◌*◌, ◌≤◌, ◌≡◌, refl, ◌↔◌, ◌≢◌, true, false, none, some, List, [], ◌∷◌, arith, length, String,
}
use vla_mantis.Base.Int.{pos, ◌+ℤ◌, ◌-ℤ◌}
use vla_mantis.Recorder.Image.{Image, codes, channels, recolor, fits, to_rgb}
use vla_mantis.Recorder.Pixels.{pixel, to_rgb-some, pixel-to_rgb}
use vla_mantis.Recorder.Episode.{Recorder, distance}
use vla_mantis.Recorder.Camera.{
  nearest_from, pair_from, measured, robot_values, decode, decode_all, make_frame, add_frame, learn,
  commit_pending, on_image,
}
use vla_mantis.Recorder.Counting.{counting, two_cameras, arm_node, fresh}
use vla_mantis.Recorder.Consistent.{IsConsistent}
use vla_mantis.Recorder.Session.{
  check_cameras, start, close, flush, stop, work, Event, image, press_start, press_stop, step, run,
}
use vla_mantis.Recorder.Runs.{all_saves, run-save_ready}
use vla_mantis.Recorder.Pairing.{IsPaired, pair_from-IsPaired}
use vla_mantis.Recorder.Failing.{rounds, Taken, work-lost_frames, rounds-Taken}

-- Two BGR pixels in a row of eight bytes.
abbrev bgr_image : ℕ → Image
bgr_image ms = record {
  sec = 1;
  nanosec = ms * 1000000;
  height = 1;
  width = 2;
  step = 8;
  encoding = codes "bgr8";
  is_bigendian = false;
  bytes = 1 ∷ 2 ∷ 3 ∷ 4 ∷ 5 ∷ 6 ∷ 0 ∷ 0 ∷ [];
}

abbrev seen : String → ℕ → Event counting two_cameras
seen key ms = image arm_node key (bgr_image ms) (pos 0)

-- An episode of two frames.
abbrev one_episode : List (Event counting two_cameras)
one_episode =
    seen "front" 0
    ∷ seen "wrist" 1
    ∷ press_start arm_node (pos 0)
    ∷ seen "front" 40
    ∷ seen "wrist" 41
    ∷ seen "front" 80
    ∷ seen "wrist" 81
    ∷ press_stop arm_node
    ∷ []

to_rgb-some_example : (to_rgb (bgr_image 0) ≢ none) ↔ (
    (length (bgr_image 0).bytes ≡ (bgr_image 0).height * (bgr_image 0).step)
    × (fits 1 8 (2 * 3) ≡ true))
unfolding channels
to_rgb-some_example = to_rgb-some (bgr_image 0) 3 refl

pixel-to_rgb_example :
    pixel (((3 ∷ 2 ∷ 1 ∷ []) ∷ (6 ∷ 5 ∷ 4 ∷ []) ∷ []) ∷ []) 0 1 ≡ some (6 ∷ 5 ∷ 4 ∷ [])
unfolding to_rgb channels recolor
pixel-to_rgb_example =
    pixel-to_rgb (bgr_image 0) 3 0 1 (((3 ∷ 2 ∷ 1 ∷ []) ∷ (6 ∷ 5 ∷ 4 ∷ []) ∷ []) ∷ []) refl refl
      (omega arith) (omega arith)

one_episode_queued : (run counting two_cameras one_episode fresh).save_q ≡ (7, 2, (7, 2)) ∷ []
unfolding run step start stop close flush work check_cameras on_image commit_pending pair_from learn
    add_frame make_frame decode_all decode robot_values measured nearest_from distance to_rgb
    channels recolor ◌+ℤ◌ ◌-ℤ◌
one_episode_queued = refl

run-save_ready_example :
    (counting.total_episodes 7 ≡ 7)
    × (counting.index (7, 2) ≡ 7)
    × (counting.size (7, 2) ≡ 2)
    × (2 ≤ 2)
unfolding run step start stop close flush work check_cameras on_image commit_pending pair_from learn
    add_frame make_frame decode_all decode robot_values measured nearest_from distance to_rgb
    channels recolor ◌+ℤ◌ ◌-ℤ◌ all_saves
run-save_ready_example =
    run-save_ready counting two_cameras one_episode fresh 7 7 2 (7, 2) [] refl refl refl refl refl
      refl refl

-- The second episode has two frames when the save of the first one fails.
abbrev second : Recorder counting
second = record fresh {
  recording = true;
  episode_index = some 8;
  next_ep_idx = some 8;
  frames = 2;
  dataset = some 7;
  buffer = (8, 2);
  save_q = (7, 3, (7, 3)) ∷ [];
}

work-lost_frames_example :
    ((work counting two_cameras second).recording ≡ true)
    × ((work counting two_cameras second).buffer.1 ≡ 0)
    × ((work counting two_cameras second).frames ≡ 2)
    × ¬ IsConsistent counting two_cameras (work counting two_cameras second)
work-lost_frames_example =
    work-lost_frames counting two_cameras second 7 7 3 (7, 3) [] refl (omega arith) refl refl refl

rounds-Taken_example :
    Taken counting two_cameras second
      (run counting two_cameras (rounds counting two_cameras 1) second)
      []
rounds-Taken_example = rounds-Taken counting two_cameras second

-- The other camera has one image, a millisecond late.
abbrev late_wrist : Recorder counting
late_wrist = record fresh { img_hist = λ k. (pos 1041000000, bgr_image 41) ∷ [] }

pair_from-IsPaired_example :
    IsPaired counting two_cameras
      (pos 1040000000)
      late_wrist
      ("front" ∷ "wrist" ∷ [])
      (("wrist", pos 1041000000, bgr_image 41) ∷ [])
unfolding pair_from nearest_from distance ◌+ℤ◌ ◌-ℤ◌
pair_from-IsPaired_example =
    pair_from-IsPaired counting two_cameras ("front" ∷ "wrist" ∷ []) (pos 1040000000) late_wrist
      (("wrist", pos 1041000000, bgr_image 41) ∷ []) refl
