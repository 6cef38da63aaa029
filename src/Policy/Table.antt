-- ===== src/Policy/Table.antt =====
-- The table of dummy_policy_server.py: `build_waypoint_table`, `build_episode_table`, `build_table` and
-- `check_speed`. An array of rows is a list, and what is logged is left out.
use text.Mathlib.Text.{◌==◌ as str_eq}
use vla_mantis.Base.{
  ℕ, Bool, true, false, not, ◌&&◌, ◌||◌, List, [], ◌∷◌, ◌++◌, String, map, max, take, ◌==◌,
  if◌then◌else◌, range_from,
}
use vla_mantis.Base.Num.{Num, gap, zip_with, scaled, maximum}

-- What Python computes with integers and floats beside the interface of the floats: `float(n)`,
-- `int(round(x))`, and the conversion to float32.
pub record Casts (num : Num) : Type 0 where
  pub of_nat : ℕ → num.F
  pub round : num.F → ℕ
  pub f32 : num.F → num.F

-- A waypoint: the seconds to it, its joints in degrees, and the gripper's width.
pub record Waypoint (num : Num) : Type 0 where
  pub duration_s : num.F
  pub q_deg : List num.F
  pub grip_m : num.F

-- `hardcoded_episode`, which is generated.
pub record Episode (num : Num) : Type 0 where
  pub names : List String
  pub fps : ℕ
  pub actions : List (List num.F)

-- `--source`
pub data Source : Type 0 where
  episode waypoints : Source
  other : String → Source

-- The table, or why there is none.
pub data Built (num : Num) : Type 0 where
  built : List (List num.F) → Built num
  other_names : List String → Built num
  other_fps : ℕ → Built num
  bad_source : String → Built num
  no_rows : Built num

-- `names == other`
abbrev pub same_names : List String → List String → Bool
same_names [] [] = true
same_names [] (y ∷ ys) = false
same_names (x ∷ xs) [] = false
same_names (x ∷ xs) (y ∷ ys) = str_eq x y && same_names xs ys

-- The arm's joints come first in a row, then the gripper.
abbrev pub arm_joints : ℕ
arm_joints = 6

abbrev pub action_names : List String
action_names =
    "left_shoulder_pan_joint.pos" ∷ "left_shoulder_lift_joint.pos" ∷ "left_elbow_joint.pos"
    ∷ "left_wrist_1_joint.pos" ∷ "left_wrist_2_joint.pos" ∷ "left_wrist_3_joint.pos" ∷ "gripper.pos"
    ∷ []

module _ (num : Num) (casts : Casts num) where
  open num use {F, lt, lit, add, sub, mul, div, radians}
  open casts use {of_nat, round, f32}

  abbrev pub steps_of : F → ℕ → ℕ
  steps_of duration_s fps = max 1 (round (mul duration_s (of_nat fps)))

  -- One row of a segment: `q_prev + (i / n_steps) * (q_next - q_prev)`, and the gripper.
  abbrev pub row_between : List F → List F → ℕ → F → ℕ → List F
  row_between q_prev q_next n_steps grip_m i =
      zip_with num add q_prev
        (scaled num (div (of_nat i) (of_nat n_steps)) (zip_with num sub q_next q_prev))
      ++ (grip_m ∷ [])

  unfoldable pub segments_from : ℕ → List F → List (Waypoint num) → List (List F)
  segments_from fps q_prev [] = []
  segments_from fps q_prev (w ∷ ws) =
      let q_next = map radians w.q_deg in
      let n_steps = steps_of w.duration_s fps in
      map (row_between q_prev q_next n_steps w.grip_m) (range_from 1 n_steps)
      ++ segments_from fps q_next ws

  -- `build_waypoint_table`; without a waypoint the index raises.
  unfoldable pub build_waypoint_table : ℕ → List (Waypoint num) → Built num
  unfolding segments_from
  build_waypoint_table fps [] = no_rows
  build_waypoint_table fps (w ∷ ws) =
      let q = map radians w.q_deg in
      built (map (map f32) ((q ++ (w.grip_m ∷ [])) ∷ segments_from fps q ws))

  -- `build_episode_table`
  unfoldable pub build_episode_table : ℕ → Episode num → Built num
  build_episode_table fps ep =
      if not (same_names ep.names action_names)
      then other_names ep.names
      else if not (ep.fps == fps)
      then other_fps ep.fps
      else built (map (map f32) ep.actions)

  -- `table[0] + scale * (table - table[0])`
  abbrev pub shrink : F → List (List F) → Built num
  shrink scale [] = no_rows
  shrink scale (first ∷ rows) =
      let row = λ (r : List F).
        map f32 (zip_with num add first (scaled num scale (zip_with num sub r first))) in
      built (row first ∷ map row rows)

  -- `scale != 1.0`
  abbrev pub is_scaled : F → Bool
  is_scaled scale = lt scale (lit 1 0) || lt (lit 1 0) scale

  abbrev pub scale_table : F → Built num → Built num
  scale_table scale (built t) = if is_scaled scale then shrink scale t else built t
  scale_table scale (other_names ns) = other_names ns
  scale_table scale (other_fps n) = other_fps n
  scale_table scale (bad_source s) = bad_source s
  scale_table scale no_rows = no_rows

  abbrev pub table_of : Source → ℕ → Episode num → List (Waypoint num) → Built num
  table_of episode fps ep ws = build_episode_table fps ep
  table_of waypoints fps ep ws = build_waypoint_table fps ws
  table_of (other s) fps ep ws = bad_source s

  -- `build_table`
  unfoldable pub build_table : Source → ℕ → F → Episode num → List (Waypoint num) → Built num
  unfolding build_waypoint_table build_episode_table
  build_table source fps scale ep ws = scale_table scale (table_of source fps ep ws)

  -- The largest move of an arm joint from one row to the next, in radians per second.
  abbrev pub speed : ℕ → List F → List F → F
  speed fps r r' = mul (gap num (take arm_joints r') (take arm_joints r)) (of_nat fps)

  abbrev pub speeds_from : ℕ → List F → List (List F) → List F
  speeds_from fps r [] = []
  speeds_from fps r (r' ∷ rows) = speed fps r r' ∷ speeds_from fps r' rows

  -- `speed.max()`, from its first element on.
  abbrev pub peak_from : F → List F → F
  peak_from m [] = m
  peak_from m (x ∷ xs) = peak_from (maximum num m x) xs

  -- `check_speed`: true where it returns, false where it raises.
  unfoldable pub check_speed : List (List F) → ℕ → F → Bool
  check_speed [] fps max_joint_vel = false
  check_speed (r ∷ []) fps max_joint_vel = false
  check_speed (r ∷ r' ∷ rows) fps max_joint_vel =
      not (lt max_joint_vel (peak_from (speed fps r r') (speeds_from fps r' rows)))
