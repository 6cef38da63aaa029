-- ===== src/Recorder/Counting.antt =====
-- A dataset that only counts, and a recorder with two cameras over it: what the tests run.
use vla_mantis.Base.{
  ℕ, ◌+◌, ◌≡◌, refl, sym, Bool, true, false, ap, Option, none, some, [], ◌∷◌, length, ◌==◌,
}
use mathlib.Core.Option.{some-injective}
use vla_mantis.Base.Int.{pos}
use vla_mantis.Recorder.Episode.{Lerobot, Config, Node, Recorder}

abbrev pub save_unless : Bool → ℕ → Option ℕ
save_unless true d = none
save_unless false d = some (d + 1)

pub save_unless-total : (three : Bool) (d d' : ℕ) → save_unless three d ≡ some d' → d' ≡ d + 1
save_unless-total true d d' e = absurd cc
save_unless-total false d d' e = some-injective _ _ (sym e)

-- A buffer is its index and its size; an episode of three frames does not save.
abbrev pub counting : Lerobot
counting = record {
  Value = ℕ;
  Frame = ℕ;
  Buffer = ℕ × ℕ;
  Dataset = ℕ;
  median = λ xs. pos 0;
  frame = λ act obs images. some (length images);
  add_frame = λ b f. some (b.0, b.1 + 1);
  open_dataset = λ ps. some 7;
  first_buffer = λ d. (d, 0);
  total_episodes = λ d. d;
  create_episode_buffer = λ i. (i, 0);
  save_episode = λ d b. save_unless (b.1 == 3) d;
  clear_episode_buffer = λ b. (b.0, 0);
  size = λ b. b.1;
  index = λ b. b.0;
  size_add = λ b b' f e. ap (λ x. x.1) (some-injective _ _ (sym e));
  index_add = λ b b' f e. ap (λ x. x.0) (some-injective _ _ (sym e));
  size_first = λ d. refl;
  index_first = λ d. refl;
  size_create = λ i. refl;
  index_create = λ i. refl;
  size_clear = λ b. refl;
  total_save = λ d d' b. save_unless-total (b.1 == 3) d d';
}

abbrev pub two_cameras : Config counting
two_cameras = record {
  arm = "pan_joint" ∷ [];
  grip_joint = none;
  grip_open = 110;
  grip_close = 5;
  color_keys = "front" ∷ "wrist" ∷ [];
  depth_keys = [];
  primary = "front";
  pair_tol = pos 25000000;
  min_frames = 2;
}

abbrev pub arm_node : Node counting
arm_node = record { pos = λ j. some 0; last_cmd = none; grip_want_closed = false }

abbrev pub fresh : Recorder counting
fresh = record {
  recording = false;
  saving = false;
  worker_alive = false;
  loaded = true;
  episode_index = none;
  next_ep_idx = none;
  frames = 0;
  dropped = 0;
  save_q = [];
  dataset = none;
  buffer = (0, 0);
  img_msg = λ k. none;
  img_hist = λ k. [];
  skew_est = λ k. [];
  pending = none;
}
