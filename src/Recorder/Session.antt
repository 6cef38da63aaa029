-- ===== src/Recorder/Session.antt =====
-- Episodes begin, end and are saved: `start`, `stop` and the worker (`_save_loop`, `_save_worker`)
-- of lerobot_recorder.py, and their interleavings with the camera callbacks.
use vla_mantis.Base.{
  ℕ, ◌+◌, Bool, true, false, not, Option, none, some, List, [], ◌∷◌, ◌++◌, String, ltb,
  if◌then◌else◌,
}
use mathlib.Core.Option
use vla_mantis.Base.Int.{ℤ, pos, ◌-ℤ◌, ltb_ℤ}
use vla_mantis.Recorder.Image.{Image}
use vla_mantis.Recorder.Episode.{Pixels, Lerobot, Config, Node, Recorder}
use vla_mantis.Recorder.Camera.{cam_keys, decode, robot_values, commit_pending, on_image}

-- `CAM_STALE_S`
abbrev pub cam_stale : ℤ
cam_stale = pos 1500000000

-- What the checks of `start` find: a reason to refuse, an image that does not decode (the exception
-- leaves `start`), or an image of every camera.
pub data Cameras : Type 0 where
  stale : Cameras
  undecodable : Cameras
  shapes : List (String × Pixels) → Cameras

-- How a call of `start` ends.
pub data Answer : Type 0 where
  started refused raised : Answer

module _ (lib : Lerobot) (cfg : Config lib) where
  open lib use {Buffer, Dataset}

  abbrev with_image : String → Option Pixels → Cameras → Cameras
  with_image key none rest = undecodable
  with_image key (some p) stale = stale
  with_image key (some p) undecodable = undecodable
  with_image key (some p) (shapes ps) = shapes ((key, p) ∷ ps)

  abbrev is_stale : ℤ → Option (ℤ × Image) → Bool
  is_stale now none = true
  is_stale now (some (t, m)) = ltb_ℤ cam_stale (now -ℤ t)

  abbrev decode_last : String → Option (ℤ × Image) → Option Pixels
  decode_last key none = none
  decode_last key (some (t, m)) = decode lib cfg key m

  -- The loop over the cameras.
  unfoldable pub check_cameras : List String → ℤ → (String → Option (ℤ × Image)) → Cameras
  check_cameras [] now imgs = shapes []
  check_cameras (key ∷ keys) now imgs =
      let rest = check_cameras keys now imgs in
      if is_stale now (imgs key) then stale else with_image key (decode_last key (imgs key)) rest

  abbrev pub opened_new : Recorder lib → Option Dataset → Option (Recorder lib)
  opened_new r none = none
  opened_new r (some d) = some (record r { dataset = some d; buffer = lib.first_buffer d })

  -- `self._dataset` opened if it is not open yet; the writer starts on the next episode.
  abbrev pub opened : List (String × Pixels) → Recorder lib → Option Dataset → Option (Recorder lib)
  opened ps r (some d) = some r
  opened ps r none = opened_new r (lib.open_dataset ps)

  abbrev pub first_index : Option ℕ → Option Dataset → Option ℕ
  first_index (some i) d = some i
  first_index none d = Option.map lib.total_episodes d

  abbrev pub begin : Recorder lib → Recorder lib
  begin r =
      let next = first_index r.next_ep_idx r.dataset in
      record r {
        frames = 0;
        pending = none;
        dropped = 0;
        next_ep_idx = next;
        episode_index = next;
        recording = true;
      }

  abbrev pub start_opened : Recorder lib → Option (Recorder lib) → Answer × Recorder lib
  start_opened r none = (refused, r)
  start_opened r (some r') = (started, begin r')

  abbrev pub start_with : Cameras → Recorder lib → Answer × Recorder lib
  start_with stale r = (refused, r)
  start_with undecodable r = (raised, r)
  start_with (shapes ps) r = start_opened r (opened ps r r.dataset)

  abbrev pub has_values : Node lib → Bool
  has_values n = elim (robot_values lib cfg n) [ none ↦ false | some v ↦ true ]

  unfoldable pub start : Node lib → ℤ → Recorder lib → Answer × Recorder lib
  unfolding check_cameras
  start n now r =
      if r.recording
      then (refused, r)
      else if not r.loaded
      then (refused, r)
      else if not (has_values n)
      then (refused, r)
      else start_with (check_cameras (cam_keys lib cfg) now r.img_msg) r

  -- The index that `create_episode_buffer` is called with.
  abbrev pub index_or_zero : Option ℕ → ℕ
  index_or_zero none = 0
  index_or_zero (some i) = i

  -- The end of `stop`: an episode that is too short is discarded, any other one is queued.
  unfoldable pub close : Recorder lib → Recorder lib
  close r =
      let next = index_or_zero r.next_ep_idx in
      if ltb r.frames cfg.min_frames
      then record r { buffer = lib.create_episode_buffer next }
      else record r {
        saving = true;
        next_ep_idx = some (next + 1);
        buffer = lib.create_episode_buffer (next + 1);
        worker_alive = true;
        save_q = r.save_q ++ (index_or_zero r.episode_index, r.frames, r.buffer) ∷ [];
      }

  -- A frame that waits for its partner is committed first, or lost.
  abbrev pub flush_of : Node lib → Option Image → Recorder lib → Recorder lib
  flush_of n none r = r
  flush_of n (some p) r = record (commit_pending lib cfg n r).1 { pending = none }

  unfoldable pub flush : Node lib → Recorder lib → Recorder lib
  flush n r = flush_of n r.pending r

  unfoldable pub stop : Node lib → Recorder lib → Bool × Recorder lib
  stop n r =
      if not r.recording
      then (false, r)
      else (true, close (record (flush n r) { recording = false }))

  abbrev pub saved : Option Dataset → Recorder lib → Recorder lib
  saved none r = record r { saving = false; buffer = lib.clear_episode_buffer r.buffer }
  saved (some d) r = record r { saving = false; dataset = some d }

  abbrev pub save : Option Dataset → Buffer → Option Dataset
  save none b = none
  save (some d) b = lib.save_episode d b

  abbrev pub work_on : List (ℕ × ℕ × Buffer) → Recorder lib → Recorder lib
  work_on [] r = r
  work_on ((idx, n, b) ∷ q) r = saved (save r.dataset b) (record r { save_q = q })

  -- One round of `_save_loop`, with `_save_worker`: the oldest queued episode is saved. Where that
  -- raises, the writer's buffer is cleared.
  unfoldable pub work : Recorder lib → Recorder lib
  work r = work_on r.save_q r

  -- What can happen next: a camera's callback, the operator's button, or the worker.
  pub data Event : Type 0 where
    image : Node lib → String → Image → ℤ → Event
    press_start : Node lib → ℤ → Event
    press_stop : Node lib → Event
    save_next : Event

  unfoldable pub step : Event → Recorder lib → Recorder lib
  step (image n key m now) r = on_image lib cfg n key m now r
  step (press_start n now) r = (start n now r).1
  step (press_stop n) r = (stop n r).1
  step save_next r = work r

  unfoldable pub run : List Event → Recorder lib → Recorder lib
  run [] r = r
  run (e ∷ es) r = run es (step e r)
