-- ===== src/Follower/State.antt =====
-- The state of `class MantisFollower` in mantis_follower.py, the interpolated feed of its command,
-- and its collision queries. Dictionaries are functions. What other threads write is read as data.
use vla_mantis.Base.{
  ℕ, Bool, true, false, not, Option, none, some, List, [], ◌∷◌, String, if◌then◌else◌, set,
}
use vla_mantis.Base.Num.{Num, zip_with, scaled, le, minimum, maximum}
use vla_mantis.HomePlanner.{Rng}
use vla_mantis.Recorder.Image.{Image}
use vla_mantis.Teleop.Command.{zip_arm, or_else, full_cmd_of}

-- `PinkIK`, as far as the follower asks it: whether there is collision geometry, the neutral
-- configuration, the index and the limits of a joint, and the margin at a configuration.
pub record Ik (num : Num) : Type 0 where
  pub has_geom : Bool
  pub neutral : List num.F
  pub qindex : String → ℕ
  pub lower : List num.F
  pub upper : List num.F
  pub margin_at : List num.F → num.F → num.F × String

-- `self._seg`
pub record Segment (num : Num) : Type 0 where
  pub q_from : List num.F
  pub q_to : List num.F
  pub t0 : num.F
  pub duration : num.F

-- The teleop's constants, the configuration, and what numpy and PinkIK make of a seed and of the
-- joints that are locked.
pub record Setup (num : Num) : Type 0 where
  pub arm : List String
  pub arm_cmd_joints : List String
  pub safety_filter_joints : List String
  pub use_safety_filter : Bool
  pub home_q : List num.F
  pub home_vel : num.F
  pub home_done_tol : num.F
  pub home_settle_grace : num.F
  pub home_check_step : num.F
  pub meas_gate_frac : num.F
  pub max_joint_lead : num.F
  pub out_vel : num.F
  pub out_kp : num.F
  pub grip_open : num.F
  pub grip_joint : String
  pub camera_topics : List String
  pub connect_timeout : num.F
  pub camera_timeout : num.F
  pub approach_tol : num.F
  pub approach_vel : num.F
  pub gripper_tol : num.F
  -- The homing knobs that `_cfg` reads.
  pub home_planner : Bool
  pub home_gate : Bool
  pub home_allow_partial : Bool
  pub home_floor_scales : List num.F
  pub home_rrt_step : num.F
  pub home_smooth_time_s : num.F
  pub home_total_time_s : num.F
  pub home_max_attempts : ℕ
  pub home_plan_time_s : num.F
  pub home_settle_tol : num.F
  -- `np.random.default_rng(seed)`
  pub default_rng : ℕ → Rng num
  -- `T.PinkIK(..., locked_q=dict(self._locked))`
  pub pink_ik : (String → Option num.F) → Ik num

pub record Follower (num : Num) : Type 0 where
  pub pos : String → Option num.F
  pub parked : String → Option num.F
  pub locked : String → Option num.F
  pub cmd_joints : List String
  pub first_action : Bool
  pub connected : Bool
  pub seg : Option (Segment num)
  pub gap_ema : num.F
  pub last_send_t : Option num.F
  pub grip_sent : Option num.F
  pub ik : Option (Ik num)
  pub img_msg : String → Option Image
  -- Height, width and channels.
  pub img_shape : String → Option (ℕ × ℕ × ℕ)
  -- What went out, the last first: the segments that were set, the targets given to the shaper and
  -- the goals sent to the gripper.
  pub segments : List (Segment num)
  pub targets : List (List num.F)
  pub goals : List num.F

module _ (num : Num) where
  open num use {F, lt, lit, inf, sub, add, div}

  -- The progress `s` of `_segment_value`
  unfoldable pub progress : Segment num → F → F
  progress g now =
      if le num g.duration (lit 0 0)
      then lit 1 0
      else minimum num (lit 1 0) (div (sub now g.t0) g.duration)

  -- `_segment_value`
  unfoldable pub segment_value : Segment num → F → List F × F
  unfolding progress
  segment_value g now =
      let s = progress g now in
      (zip_with num add g.q_from (scaled num s (zip_with num sub g.q_to g.q_from)), s)

  -- `_set_segment`, at a reading of the clock.
  abbrev pub set_segment : F → List F → List F → F → Follower num → Follower num
  set_segment now q_from q_to T st =
      let g : Segment num = record { q_from = q_from; q_to = q_to; t0 = now; duration = T } in
      record st { seg = some g; segments = g ∷ st.segments }

  abbrev pub value_of : Option (Segment num) → F → Option (List F)
  value_of none now = none
  value_of (some g) now = some (segment_value g now).0

  -- `_seg_now`
  abbrev pub seg_now : F → Follower num → Option (List F)
  seg_now now st = value_of st.seg now

  abbrev pub freeze_at : F → Option (List F) → Follower num → Follower num
  freeze_at now none st = st
  freeze_at now (some cur) st = set_segment now cur cur (lit 0 0) st

  -- `_freeze_feed`: it reads the clock for the point, and again for the segment.
  abbrev pub freeze_feed : F → F → Follower num → Follower num
  freeze_feed now now' st = freeze_at now' (seg_now now st) st

  -- `_send_grip`
  abbrev pub send_grip : Bool → F → Follower num → Follower num
  send_grip false width st = st
  send_grip true width st = record st { goals = width ∷ st.goals; grip_sent = some width }

  module _ (cfg : Setup num) where
    -- The value of one joint in `_set_target`.
    abbrev pub target_value : List F → Follower num → String → Option F
    target_value q_arm st j = or_else F (zip_arm F cfg.arm q_arm j) (st.parked j)

    abbrev pub publish : Option (List F) → Follower num → Option (Follower num)
    publish none st = none
    publish (some full) st = some (record st { targets = full ∷ st.targets })

    -- `_set_target`; `none` is its exception.
    unfoldable pub set_target : List F → Follower num → Option (Follower num)
    set_target q_arm st = publish (full_cmd_of F (target_value q_arm st) st.cmd_joints) st

    abbrev pub feed_at : Option (List F) → Follower num → Option (Follower num)
    feed_at none st = some st
    feed_at (some cur) st = set_target cur st

    -- One round of `_feeder`.
    unfoldable pub feed : F → Follower num → Option (Follower num)
    unfolding set_target
    feed now st = feed_at (seg_now now st) st

    abbrev pub model_of : Option (Ik num) → (String → Option F) → Ik num
    model_of none locked = cfg.pink_ik locked
    model_of (some ik) locked = ik

    -- The collision model that `_ensure_ik` returns: built once.
    abbrev pub model : Follower num → Ik num
    model st = model_of st.ik st.locked

    -- `_ensure_ik`
    abbrev pub ensure_ik : Follower num → Follower num
    ensure_ik st = record st { ik = some (model st) }

    -- `_check_step`
    abbrev pub check_step : F
    check_step = maximum num cfg.home_check_step (lit 1 3)

    -- `for j, x in zip(T.ARM, q_arm): q[ik.qindex(j)] = x`
    abbrev pub q_full_from : Ik num → List String → List F → List F → List F
    q_full_from ik [] xs q = q
    q_full_from ik (j ∷ js) [] q = q
    q_full_from ik (j ∷ js) (x ∷ xs) q = q_full_from ik js xs (set q (ik.qindex j) x)

    -- `_q_full`
    abbrev pub q_full : Ik num → List F → List F
    q_full ik q_arm = q_full_from ik cfg.arm q_arm ik.neutral

    abbrev pub margin_in : Option (Ik num) → List F → F → F × String
    margin_in none q_arm floor_scale = (inf, "")
    margin_in (some ik) q_arm floor_scale =
        if not ik.has_geom then (inf, "") else ik.margin_at (q_full ik q_arm) floor_scale

    -- `_margin`
    abbrev pub margin : Follower num → List F → F → F × String
    margin st q_arm floor_scale = margin_in st.ik q_arm floor_scale
