-- ===== src/Recorder/Episode.antt =====
-- The state of `EpisodeRecorder` in lerobot_recorder.py, its configuration, and what it uses of
-- lerobot. Times are in nanoseconds. What is only logged (skews, frame rates, warnings) is left out.
use text.Mathlib.Text.{◌==◌ as str_eq}
use vla_mantis.Base.{
  ℕ, ◌+◌, ◌-◌, ◌≡◌, Bool, Option, some, List, [], ◌∷◌, ◌++◌, String, length, drop, if◌then◌else◌,
}
use vla_mantis.Base.Int.{ℤ, pos, pos_part, neg_part, ◌-ℤ◌}
use vla_mantis.Recorder.Image.{Image}

-- One decoded image.
pub data Pixels : Type 0 where
  colour : List (List (List ℕ)) → Pixels
  depth : List (List ℕ) → Pixels

-- What the recorder uses of lerobot and numpy. `size` and `index` are the number of frames of an
-- episode buffer and the episode that it is for.
pub record Lerobot : Type 1 where
  pub Value : Type 0
  pub Frame : Type 0
  pub Buffer : Type 0
  pub Dataset : Type 0
  pub median : List ℤ → ℤ
  -- `build_dataset_frame` of the action, of the observation and its images, with the task
  pub frame : List (String × Value) → List (String × Value) → List (String × Pixels) → Option Frame
  pub add_frame : Buffer → Frame → Option Buffer
  pub open_dataset : List (String × Pixels) → Option Dataset
  pub first_buffer : Dataset → Buffer
  pub total_episodes : Dataset → ℕ
  pub create_episode_buffer : ℕ → Buffer
  pub save_episode : Dataset → Buffer → Option Dataset
  pub clear_episode_buffer : Buffer → Buffer
  pub size : Buffer → ℕ
  pub index : Buffer → ℕ
  pub size_add : (b b' : Buffer) (f : Frame) → add_frame b f ≡ some b' → size b' ≡ size b + 1
  pub index_add : (b b' : Buffer) (f : Frame) → add_frame b f ≡ some b' → index b' ≡ index b
  pub size_first : (d : Dataset) → size (first_buffer d) ≡ 0
  pub index_first : (d : Dataset) → index (first_buffer d) ≡ total_episodes d
  pub size_create : (i : ℕ) → size (create_episode_buffer i) ≡ 0
  pub index_create : (i : ℕ) → index (create_episode_buffer i) ≡ i
  pub size_clear : (b : Buffer) → size (clear_episode_buffer b) ≡ 0
  pub total_save :
      (d d' : Dataset) (b : Buffer)
      → save_episode d b ≡ some d'
      → total_episodes d' ≡ total_episodes d + 1

abbrev pub update {ℓ} : {A : Type ℓ} → (String → A) → String → A → String → A
update f k v j = if str_eq j k then v else f j

-- `collections.deque(maxlen=n).append`
abbrev pub push {ℓ} : {A : Type ℓ} → ℕ → List A → A → List A
push n xs x = drop (length (xs ++ x ∷ []) - n) (xs ++ x ∷ [])

-- `abs(a - b)`
unfoldable pub distance : ℤ → ℤ → ℤ
unfolding ◌-ℤ◌
distance a b = let d = a -ℤ b in pos (pos_part d + neg_part d)

module _ (lib : Lerobot) where
  open lib use {Value, Buffer, Dataset}

  -- The configuration, and the constants of the teleop that are read.
  pub record Config : Type 0 where
    pub arm : List String
    pub grip_joint : Option String
    pub grip_open : Value
    pub grip_close : Value
    pub color_keys : List String
    pub depth_keys : List String
    pub primary : String
    pub pair_tol : ℤ
    pub min_frames : ℕ

  -- What is read of the teleop node.
  pub record Node : Type 0 where
    pub pos : String → Option Value
    pub last_cmd : Option (List Value)
    pub grip_want_closed : Bool

  pub record Recorder : Type 0 where
    pub recording : Bool
    pub saving : Bool
    pub worker_alive : Bool
    pub loaded : Bool
    pub episode_index : Option ℕ
    pub next_ep_idx : Option ℕ
    pub frames : ℕ
    pub dropped : ℕ
    pub save_q : List (ℕ × ℕ × Buffer)
    pub dataset : Option Dataset
    -- `dataset.writer.episode_buffer`
    pub buffer : Buffer
    pub img_msg : String → Option (ℤ × Image)
    pub img_hist : String → List (ℤ × Image)
    pub skew_est : String → List ℤ
    pub pending : Option Image
