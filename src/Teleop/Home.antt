-- ===== src/Teleop/Home.antt =====
-- The move to the home pose of `class Bridge` in teleop_mantis.py: `_home_path_clear`,
-- `_plan_home_path`, `_start_home`, `_end_home` and `_home_tick`. The IK's own state, the shared
-- target and logging are left out.
use vla_mantis.Base.{
  ℕ, ◌+◌, Bool, true, false, not, ◌&&◌, Option, none, some, List, [], ◌∷◌, String, map, min, max,
  if◌then◌else◌, length, get_elem?, ltb, ◌==◌,
}
use vla_mantis.Base.Num.{Num, zip_with, scaled, max_abs, gap, minimum, maximum, le}
use vla_mantis.HomePlanner.{HomePlanner, World, margin, monotonic, Rng, Plan, plan}

-- Why a move to home ended.
pub data Ending : Type 0 where
  aborted reached partial unsettled cancelled_by_clutch cancelled_by_button : Ending

module _ (num : Num) where
  open num use {F, add, sub, mul, div, lt, lit, inf, ceil, linspace}

  -- The constants of the configuration, and what is fixed once the node stands: the limits of the
  -- arm, whether there is collision geometry, a shaper and a recorder.
  pub record Setup : Type 0 where
    pub home_q : List F
    pub home_vel : F
    pub check_step : F
    pub use_planner : Bool
    pub plan_time : F
    pub dwell : F
    pub done_tol : F
    pub settle_grace : F
    pub gate_frac : F
    pub max_joint_lead : F
    pub out_vel : F
    pub out_kp : F
    pub lower : List F
    pub upper : List F
    pub has_geom : Bool
    pub has_shaper : Bool
    pub has_recorder : Bool
    -- `self._home_planner()`
    pub planner : HomePlanner num

  pub record Home : Type 0 where
    pub active : Bool
    pub wps : List (List F)
    pub i : ℕ
    pub cur : Option (List F)
    pub scale : F
    pub floor : F
    pub v : F
    pub dwell_t : Option F
    pub done_t : Option F
    pub stop_rec : Bool
    pub gate_t : F
    pub last_cmd : Option (List F)
    pub engaged : Bool
    pub blend_n : ℕ
    pub grip_want_closed : Bool
    pub ending : Option Ending
    -- What was sent with `send_arm`, the last one first, and how often the recorder was stopped.
    pub commands : List (List F)
    pub recorder_stops : ℕ

  module _ (cfg : Setup) where
    -- `np.linspace(0.0, 1.0, min(max(n, 2), 400))` of `_home_path_clear`
    abbrev pub fractions_to_home : List F → List F
    fractions_to_home q = linspace (
        min
          (max
            (ceil (
                div (max_abs num (zip_with num sub cfg.home_q q))
                  (maximum num cfg.check_step (lit 1 3)))
              + 1)
            2)
          400)

    -- The margin at `q_from + s * delta`, at the full cushion.
    abbrev pub margin_to_home : List F → F → F × String
    margin_to_home q s =
        margin num cfg.planner (zip_with num add q (scaled num s (zip_with num sub cfg.home_q q)))
          (lit 1 0)

    unfoldable pub scan_home : List F → List F → F × String → Bool × F × String
    scan_home q [] worst = (true, worst.0, worst.1)
    scan_home q (s ∷ ss) worst =
        let m = margin_to_home q s in
        let now = if lt m.0 worst.0 then m else worst in
        let rest = scan_home q ss now in if lt m.0 (lit 0 0) then (false, now.0, now.1) else rest

    unfoldable pub home_path_clear : List F → Bool × F × String
    home_path_clear q =
        if not cfg.has_geom then (true, inf, "") else scan_home q (fractions_to_home q) (inf, "")

    -- The way home, with the scale and the floor that it was certified at.
    pub record Route : Type 0 where
      pub waypoints : List (List F)
      pub at_scale : F
      pub at_floor : F

    abbrev pub route_of : List F → Option (Plan num) → Option Route
    route_of q none = none
    route_of q (some p) = some (record {
      waypoints = p.waypoints;
      at_scale = p.floor_scale;
      at_floor = minimum num (lit 0 0) (margin num cfg.planner q p.floor_scale).0;
    })

    unfoldable pub plan_home_path : Rng num → List F → World num → Option Route × World num
    plan_home_path rng q w =
        let (t0, w1) = monotonic num w in
        let (got, w2) = plan num cfg.planner rng q cfg.home_q (add t0 cfg.plan_time) 0 w1 in
        if cfg.use_planner then (route_of q got, (monotonic num w2).1) else (none, w)

    abbrev pub straight : Route
    straight = record { waypoints = cfg.home_q ∷ []; at_scale = lit 1 0; at_floor = lit 0 0 }

    unfoldable pub route : Rng num → List F → World num → Option Route × World num
    route rng q w = if (home_path_clear q).0 then (some straight, w) else plan_home_path rng q w

    abbrev pub inside : List F → List F → List F → Bool
    inside (l ∷ lo) (u ∷ hi) (v ∷ vs) =
        le num (sub l (lit 1 6)) v && le num v (add u (lit 1 6)) && inside lo hi vs
    inside lo hi vs = true

    -- The ramp starts where the last command is, unless that is too far from the arm.
    abbrev pub start_pose : List F → Option (List F) → List F
    start_pose q none = q
    start_pose q (some c) =
        if length c == length q && le num (gap num c q) cfg.max_joint_lead then c else q

    abbrev pub speed : F
    speed =
        if cfg.has_shaper
        then minimum num (minimum num cfg.home_vel (mul (lit 9 1) cfg.out_vel))
            (mul (mul (lit 5 1) cfg.max_joint_lead) cfg.out_kp)
        else cfg.home_vel

    abbrev pub take_route : List F → Bool → Option Route → Home → Bool × Home
    take_route q stop none h = (false, h)
    take_route q stop (some r) h = (
      true,
      record h {
        wps = r.waypoints;
        i = 0;
        scale = r.at_scale;
        floor = r.at_floor;
        dwell_t = none;
        v = speed;
        cur = some (start_pose q h.last_cmd);
        done_t = none;
        stop_rec = stop;
        active = true;
        grip_want_closed = false;
      },
    )

    -- `_on_disengage`, where the blend that it starts is taken back.
    abbrev pub frozen : Home → Home
    frozen h = if h.engaged then record h { engaged = false; blend_n = 0 } else h

    -- `_start_home` from its guards on, over the route that it asks for and the world after it.
    -- `ready` is the phase "teleop" with fresh joints, `recording` the recorder's.
    abbrev pub start_on :
        Bool
        → Bool
        → List F
        → Bool
        → World num
        → Home
        → Option Route × World num
        → (Bool × Home) × World num
    start_on ready recording q stop w h (r, w') =
        if h.active
        then ((false, h), w)
        else if not ready
        then ((false, h), w)
        else if not stop && recording
        then ((false, h), w)
        else if not (inside cfg.lower cfg.upper cfg.home_q)
        then ((false, frozen h), w)
        else (take_route q stop r (frozen h), w')

    -- `_start_home`
    unfoldable pub start_home :
        Rng num → Bool → Bool → List F → Bool → World num → Home → (Bool × Home) × World num
    start_home rng ready recording q stop w h = start_on ready recording q stop w h (route rng q w)

    -- `_end_home`
    unfoldable pub end_home : Ending → Home → Home
    end_home why h =
        let h' = record h {
          active = false;
          cur = none;
          done_t = none;
          wps = [];
          i = 0;
          dwell_t = none;
          scale = lit 1 0;
          floor = lit 0 0;
          stop_rec = false;
          blend_n = 0;
          ending = some why;
        } in
        if h.stop_rec && cfg.has_recorder
        then record h' { recorder_stops = h.recorder_stops + 1 }
        else h'

    -- The gate on the measured pose is due in this tick.
    abbrev pub gate_due : F → Home → Bool
    gate_due now h =
        cfg.has_geom && lt (lit 0 0) cfg.gate_frac && not (lt (sub now h.gate_t) (lit 1 2))

    -- The measured pose is inside the gate.
    abbrev pub gate_hit : List F → Home → Bool
    gate_hit q h = lt (margin num cfg.planner q (minimum num cfg.gate_frac h.scale)).0 h.floor

    abbrev pub command : List F → Home → Home
    command q h = record h { cur = some q; last_cmd = some q; commands = q ∷ h.commands }

    abbrev pub moved_by : F → List F → List F
    moved_by s d = map (λ x. mul x s) d

    -- At an intermediate waypoint the ramp waits before it turns.
    abbrev pub turn : F → Option F → Home → Home
    turn now none h = record h { dwell_t = some now }
    turn now (some t) h =
        if not (lt (sub now t) cfg.dwell) then record h { i = h.i + 1; dwell_t = none } else h

    abbrev pub or_now : F → Option F → F
    or_now now none = now
    or_now now (some t) = t

    -- At the last waypoint the ramp waits for the arm.
    abbrev pub arrive : F → List F → List F → Home → Home
    arrive now q tgt h =
        let since = or_now now h.done_t in
        let h' = record h { done_t = some since } in
        if lt (gap num q tgt) cfg.done_tol
        then (if lt (gap num q cfg.home_q) cfg.done_tol
            then end_home reached h'
            else end_home partial h')
        else if lt cfg.settle_grace (sub now since)
        then end_home unsettled h'
        else h'

    abbrev pub advance : F → F → List F → List F → List F → Home → Home
    advance dt now q tgt cur h =
        let delta = zip_with num sub tgt cur in
        let dmax = max_abs num delta in
        let stride = mul h.v dt in
        let there = command tgt h in
        if lt stride dmax
        then command (zip_with num add cur (moved_by (div stride dmax) delta)) h
        else if ltb (h.i + 1) (length h.wps)
        then turn now h.dwell_t there
        else arrive now q tgt there

    -- The target and the ramp's pose are read; `none` is the exception where one is missing.
    abbrev pub advance_to : F → F → List F → Option (List F) → Option (List F) → Home → Option Home
    advance_to dt now q none cur h = none
    advance_to dt now q (some tgt) none h = none
    advance_to dt now q (some tgt) (some cur) h = some (advance dt now q tgt cur h)

    -- `_home_tick`, at a measured pose.
    unfoldable pub home_tick : F → F → List F → Home → Option Home
    home_tick dt now q h =
        let due = gate_due now h in
        let h' = if due then record h { gate_t = now } else h in
        if due && gate_hit q h
        then some (end_home aborted h')
        else advance_to dt now q (get_elem? h.wps h.i) h.cur h'
