-- ===== src/Follower/Action.antt =====
-- `send_action` and `_path_check` of mantis_follower.py.
use vla_mantis.Base.{Bool, true, false, Option, none, some, List, [], ◌∷◌, String, if◌then◌else◌}
use vla_mantis.Base.Num.{Num, gap, le, minimum, maximum}
use vla_mantis.Follower.State.{Setup, Follower, set_segment, seg_now, send_grip, model, ensure_ik}
use vla_mantis.Follower.Waiting.{Round, wait_segment}
use vla_mantis.Follower.Edge.{edge_margin}

-- An action: the value of each joint's key, and of "gripper.pos".
pub record Action (num : Num) : Type 0 where
  pub joints : String → Option num.F
  pub gripper : Option num.F

-- What `send_action` reads: the clock, the measured pose, the clock when the segment is set, the
-- rounds of the wait, and whether the gripper's server is ready.
pub record Reading (num : Num) : Type 0 where
  pub now : num.F
  pub meas : List num.F
  pub seg_t0 : num.F
  pub rounds : List (Round num)
  pub grip_ready : Bool

-- The action went out; a joint has no value in it; or the approach collides. Each with the state that
-- is left.
pub data Sent (num : Num) : Type 0 where
  sent : Follower num → Sent num
  key_error : Follower num → Sent num
  collides : Follower num → Sent num

module _ (num : Num) (cfg : Setup num) where
  open num use {F, lt, lit, add, sub, mul, div}

  -- `[action[f"{j}.pos"] for j in T.ARM]`
  abbrev pub values : (String → Option F) → List String → Option (List F)
  values joints [] = some []
  values joints (j ∷ js) = cons (joints j) (values joints js)
    where
      cons : Option F → Option (List F) → Option (List F)
      cons none vs = none
      cons (some v) none = none
      cons (some v) (some vs) = some (v ∷ vs)

  -- The worst clearance of the straight segment, at the full cushion.
  abbrev pub approach_margin : Follower num → List F → List F → F
  approach_margin st q_from q_to =
      (edge_margin num cfg (model num cfg st) q_from q_to (lit 1 0) (some (lit 0 0))).0

  -- `_path_check` passes.
  abbrev pub path_clear : Follower num → List F → List F → Bool
  path_clear st q_from q_to = le num (lit 0 0) (approach_margin st q_from q_to)

  -- The speed of the approach.
  abbrev pub approach_speed : F
  approach_speed =
      minimum num (minimum num cfg.approach_vel (mul (lit 9 1) cfg.out_vel))
        (mul (mul (lit 5 1) cfg.max_joint_lead) cfg.out_kp)

  -- The first action: a far one is reached by a slow ramp along a checked path, which is waited for.
  abbrev pub first_leg : Reading num → List F → Follower num → Sent num
  first_leg r q st =
      let dist = gap num q r.meas in
      let ready = ensure_ik num cfg st in
      let ramp =
        set_segment num r.seg_t0 r.meas q (div dist (maximum num approach_speed (lit 1 6))) ready in
      if lt cfg.approach_tol dist
      then (if path_clear st r.meas q
          then sent (wait_segment num cfg r.rounds none none (lit 1 0) ramp).1
          else collides ready)
      else sent (set_segment num r.seg_t0 r.meas q (maximum num (div dist (lit 5 1)) (lit 2 2)) st)

  -- `self._gap_ema += 0.3 * (g - self._gap_ema)`
  abbrev pub next_gap : F → Option F → F → F
  next_gap now none ema = ema
  next_gap now (some t) ema =
      add ema (mul (lit 3 1) (sub (minimum num (maximum num (sub now t) (lit 2 2)) (lit 3 1)) ema))

  abbrev pub or_goal : List F → Option (List F) → List F
  or_goal q none = q
  or_goal q (some cur) = cur

  -- Every later action: from where the interpolation is.
  abbrev pub next_leg : Reading num → List F → Follower num → Follower num
  next_leg r q st =
      let ema = next_gap r.now st.last_send_t st.gap_ema in
      set_segment num r.seg_t0 (or_goal q (seg_now num r.now st)) q ema
        (record st { gap_ema = ema })

  abbrev pub grip_moves : F → Option F → Bool
  grip_moves g none = true
  grip_moves g (some old) = lt cfg.gripper_tol (num.abs (sub g old))

  abbrev pub grip_to : Bool → Option F → Follower num → Follower num
  grip_to ready none st = st
  grip_to ready (some g) st = if grip_moves g st.grip_sent then send_grip num ready g st else st

  -- What follows the leg.
  abbrev pub finish : Reading num → Option F → Sent num → Sent num
  finish r g (sent st) = sent (grip_to r.grip_ready g (record st { last_send_t = some r.now }))
  finish r g (key_error st) = key_error st
  finish r g (collides st) = collides st

  abbrev pub leg : Reading num → List F → Follower num → Sent num
  leg r q st =
      if st.first_action
      then first_leg r q (record st { first_action = false })
      else sent (next_leg r q st)

  abbrev pub send_values : Reading num → Option (List F) → Option F → Follower num → Sent num
  send_values r none g st = key_error st
  send_values r (some q) g st = finish r g (leg r q st)

  -- `send_action`
  unfoldable pub send_action : Reading num → Action num → Follower num → Sent num
  send_action r a st = send_values r (values a.joints cfg.arm) a.gripper st
