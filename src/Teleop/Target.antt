-- ===== src/Teleop/Target.antt =====
-- The motion of the target in `vr_tick` of teleop_mantis.py, with `yaw_frame` and `_capture_refs`.
-- Vectors have three entries and matrices nine, row by row. What only the IK tick reads is left out.
use vla_mantis.Base.{
  ℕ, ◌+◌, Bool, true, false, not, ◌&&◌, Option, none, some, List, [], ◌∷◌, map, get_or,
  if◌then◌else◌,
}
use vla_mantis.Base.Num.{Num, zip_with, scaled, le, minimum, maximum}
use vla_mantis.Teleop.Tracking.{Maths, Limits, Tracker, is_degraded, is_fresh}

-- What numpy computes here beside the interface of the floats.
pub record Space (num : Num) : Type 0 where
  pub norm : List num.F → num.F
  pub dot : List num.F → List num.F → num.F
  pub arctan2 : num.F → num.F → num.F
  pub cos : num.F → num.F
  pub sin : num.F → num.F
  pub hypot : num.F → num.F → num.F
  -- `x % y`
  pub modulo : num.F → num.F → num.F
  pub pi : num.F

-- The constants of the configuration, and the shell around the shoulder that the arm reaches.
pub record Mapping (num : Num) : Type 0 where
  pub scale : num.F
  pub axis_map : List ℕ
  pub axis_sign : List num.F
  pub az_gain : num.F
  pub max_target_speed : num.F
  pub max_lead : num.F
  pub antiwind_rate : num.F
  pub antiwind_stuck_speed : num.F
  pub yaw_fallback_sin : num.F
  pub dt : num.F
  pub vr_dt : num.F
  pub shoulder : List num.F
  pub r_min : num.F
  pub r_max : num.F

pub record Motion (num : Num) : Type 0 where
  pub ready : Bool
  pub engaged : Bool
  pub target : List num.F
  pub anchor : List num.F
  pub ref : List num.F
  pub r_ref : List num.F
  pub pose_lost : Bool
  pub degrade_holds : ℕ
  pub axlock_active : Bool
  pub axlock_p0 : List num.F
  pub axlock_u : List num.F
  pub vr_t_last : Option num.F
  pub ee_prev : Option (List num.F)
  pub ee_dt : num.F
  pub antiwind_prog : num.F

module _ (num : Num) (space : Space num) (cfg : Mapping num) where
  open num use {F, lt, lit, neg, add, sub, mul, div}

  abbrev pub at : List F → ℕ → F
  at v i = get_or v i (lit 0 0)

  abbrev pub plus : List F → List F → List F
  plus a b = zip_with num add a b

  abbrev pub minus : List F → List F → List F
  minus a b = zip_with num sub a b

  -- A column of a matrix.
  abbrev pub column : List F → ℕ → List F
  column R j = at R j ∷ at R (3 + j) ∷ at R (6 + j) ∷ []

  -- `R.T @ v`
  abbrev pub transposed : List F → List F → List F
  transposed R v =
      space.dot (column R 0) v ∷ space.dot (column R 1) v ∷ space.dot (column R 2) v ∷ []

  abbrev pub up : List F
  up = lit 0 0 ∷ lit 1 0 ∷ lit 0 0 ∷ []

  abbrev pub sign : F → F
  sign x = if lt (lit 0 0) x then lit 1 0 else if lt x (lit 0 0) then neg (lit 1 0) else lit 0 0

  abbrev pub cross : List F → List F → List F
  cross a b =
      sub (mul (at a 1) (at b 2)) (mul (at a 2) (at b 1))
      ∷ sub (mul (at a 2) (at b 0)) (mul (at a 0) (at b 2))
      ∷ sub (mul (at a 0) (at b 1)) (mul (at a 1) (at b 0))
      ∷ []

  abbrev pub over : List F → F → List F
  over v n = map (λ x. div x n) v

  -- `np.column_stack`
  abbrev pub stacked : List F → List F → List F → List F
  stacked a b c =
      at a 0 ∷ at b 0 ∷ at c 0 ∷ at a 1 ∷ at b 1 ∷ at c 1 ∷ at a 2 ∷ at b 2 ∷ at c 2 ∷ []

  abbrev pub identity : List F
  identity = stacked (lit 1 0 ∷ lit 0 0 ∷ lit 0 0 ∷ []) up (lit 0 0 ∷ lit 0 0 ∷ lit 1 0 ∷ [])

  -- `yaw_frame`
  unfoldable pub yaw_frame : List F → List F
  yaw_frame Rc =
      let nose = map neg (column Rc 2) in
      let level = minus nose (scaled num (space.dot nose up) up) in
      let top = scaled num (neg (sign (space.dot nose up))) (column Rc 1) in
      let fwd = if lt (space.norm level) cfg.yaw_fallback_sin then top else nose in
      let back = minus (scaled num (space.dot fwd up) up) fwd in
      let n = space.norm back in
      let right = cross up (over back n) in
      if lt n (lit 1 6) then identity else stacked (over right (space.norm right)) up (over back n)

  -- `_capture_refs`
  unfoldable pub capture_refs : List F → List F → Motion num → Motion num
  unfolding yaw_frame
  capture_refs cur Rc m = record m {
    ref = cur;
    r_ref = yaw_frame Rc;
    anchor = m.target;
    ee_prev = none;
  }

  -- `dt_vr`
  abbrev pub dt_vr : F → Option F → F
  dt_vr now none = cfg.vr_dt
  dt_vr now (some t) =
      minimum num (maximum num (sub now t) (mul (lit 25 2) cfg.vr_dt)) (mul (lit 4 0) cfg.vr_dt)

  -- The controller's move since the anchor, in the robot's axes.
  abbrev pub mapped : List F → Motion num → List F
  mapped cur m =
      let d = map (at (transposed m.r_ref (minus cur m.ref))) cfg.axis_map in
      plus m.anchor (zip_with num mul (scaled num cfg.scale cfg.axis_sign) d)

  abbrev pub on_axis : Motion num → List F → List F
  on_axis m p =
      plus m.axlock_p0 (scaled num (space.dot (minus p m.axlock_p0) m.axlock_u) m.axlock_u)

  -- The azimuth of the move is scaled around the shoulder.
  unfoldable pub swept : Motion num → List F → List F
  swept m p =
      let arel = minus m.anchor cfg.shoulder in
      let rel0 = minus p cfg.shoulder in
      let az0 = space.arctan2 (at arel 1) (at arel 0) in
      let az = space.arctan2 (at rel0 1) (at rel0 0) in
      let daz_max = div space.pi (maximum num cfg.az_gain (lit 1 0)) in
      let turn = space.modulo (add (sub az az0) space.pi) (mul (lit 2 0) space.pi) in
      let daz = minimum num (maximum num (sub turn space.pi) (neg daz_max)) daz_max in
      let naz = add az0 (mul cfg.az_gain daz) in
      let rh = space.hypot (at rel0 0) (at rel0 1) in
      if lt (lit 1 3) rh
      then plus cfg.shoulder (mul rh (space.cos naz) ∷ mul rh (space.sin naz) ∷ at rel0 2 ∷ [])
      else p

  -- Into the shell that the arm reaches.
  abbrev pub reached : Motion num → List F → List F
  reached m p =
      let rel = minus p cfg.shoulder in
      let r = space.norm rel in
      if lt r (lit 1 6)
      then m.target
      else if lt cfg.r_max r
      then plus cfg.shoulder (scaled num (div cfg.r_max r) rel)
      else if lt r cfg.r_min
      then plus cfg.shoulder (scaled num (div cfg.r_min r) rel)
      else p

  -- `p`, or the point of the line from `from` to it at the distance `limit`.
  unfoldable pub within : F → List F → List F → List F
  within limit from p =
      let v = minus p from in
      let n = space.norm v in if lt limit n then plus from (scaled num (div limit n) v) else p

  -- The point that the controller asks for, and the one that follows from the arm's reach.
  abbrev pub asked : List F → Motion num → List F
  asked cur m = if m.axlock_active then on_axis m (mapped cur m) else mapped cur m

  abbrev pub wanted : List F → Motion num → List F
  wanted cur m = reached m (if m.axlock_active then asked cur m else swept m (asked cur m))

  abbrev pub progress_of : F → List F → List F → Option (List F) → Motion num → Motion num
  progress_of dt ee lead none m = record m {
    ee_prev = some ee;
    ee_dt = lit 0 0;
    antiwind_prog = lit 0 0;
  }
  progress_of dt ee lead (some prev) m =
      let waited = add m.ee_dt dt in
      let ln = space.norm lead in
      let prog = div (space.dot (minus ee prev) (over lead ln)) waited in
      if le num (mul (lit 9 1) cfg.dt) waited
      then record m {
        ee_prev = some ee;
        ee_dt = lit 0 0;
        antiwind_prog = if lt (lit 1 9) ln then prog else m.antiwind_prog;
      }
      else record m { ee_dt = waited }

  -- A target that is held back takes the anchor along, where the arm is stuck. `lead` is the one
  -- before its own limit.
  unfoldable pub unwound : F → List F → List F → List F → List F → Motion num → Motion num
  unwound dt ee lead raw p m =
      let rej = minus p raw in
      let rn = space.norm rej in
      let m' = progress_of dt ee lead m.ee_prev m in
      if not (lt (lit 0 0) cfg.antiwind_rate)
      then m
      else if lt (lit 1 9) rn && lt m'.antiwind_prog cfg.antiwind_stuck_speed
      then record m' {
        anchor =
            plus m'.anchor (scaled num (div (minimum num rn (mul cfg.antiwind_rate dt)) rn) rej);
      }
      else m'

  -- One tick of a target that follows the controller.
  unfoldable pub follow : F → List F → List F → Motion num → Motion num
  unfolding within swept unwound
  follow dt ee cur m =
      let p = within (mul cfg.max_target_speed dt) m.target (wanted cur m) in
      let led = within cfg.max_lead ee p in
      record (unwound dt ee (minus p ee) (asked cur m) led m) { target = led }

  module _ (maths : Maths num) (lim : Limits num) where
    -- The target while the pose is stale or the tracking is degraded.
    abbrev pub hold : Bool → Motion num → Motion num
    hold degraded m =
        let lost : Motion num = record m { pose_lost = true } in
        if m.pose_lost
        then m
        else if degraded
        then record lost { degrade_holds = m.degrade_holds + 1 }
        else lost

    -- The first fresh pose after a loss anchors the target anew.
    abbrev pub recovered : List F → List F → Motion num → Motion num
    recovered cur Rc m =
        if m.pose_lost then capture_refs cur Rc (record m { pose_lost = false }) else m

    abbrev pub follow_pose :
        F → List F → Option (List F) → Option (List F) → Motion num → Motion num
    follow_pose dt ee none Rc m = m
    follow_pose dt ee (some cur) none m = m
    follow_pose dt ee (some cur) (some Rc) m = follow dt ee cur (recovered cur Rc m)

    -- `vr_tick` up to the buttons: `ee` is the grasp point of the arm.
    unfoldable pub move_target : F → List F → Tracker num → Motion num → Motion num
    unfolding follow capture_refs
    move_target now ee t m =
        let dt = dt_vr now m.vr_t_last in
        let m' : Motion num = record m { vr_t_last = some now } in
        if not (m.ready && m.engaged)
        then m'
        else if not (is_fresh num maths lim now t)
        then hold (is_degraded num maths lim now t) m'
        else follow_pose dt ee t.cur t.rotation m'
