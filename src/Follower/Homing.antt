-- ===== src/Follower/Homing.antt =====
-- `_go_home` of mantis_follower.py: attempts to plan, to walk and to settle, each from the measured
-- pose. What it logs is left out.
use vla_mantis.Base.{
  ℕ, zero, suc, ◌+◌, ◌-◌, Bool, true, false, not, ◌&&◌, Option, none, some, List, [], ◌∷◌, String,
  if◌then◌else◌, leb, min, max, length, get_or,
}
use vla_mantis.Base.Num.{Num, gap, le, minimum, maximum}
use vla_mantis.HomePlanner.{World, Plan}
use vla_mantis.Follower.State.{Ik, Setup, Follower, send_grip, model, ensure_ik}
use vla_mantis.Follower.Waiting.{Status, done, timeout, gate, disconnected, Look, settle}
use vla_mantis.Follower.Polyline.{Drive, run_path}
use vla_mantis.Follower.Search.{plan_home}

-- What one attempt reads: the connection, the measured pose, the clock for the total budget and for
-- the search's, the search's own readings, the walk's, the clock and the looks of the settling, the
-- measured pose after it, and the clock where a search without a result doubles its budget.
pub record Attempt (num : Num) : Type 0 where
  pub alive : Bool
  pub meas : List num.F
  pub now : num.F
  pub plan_now : num.F
  pub search : World num
  pub drive : Drive num
  pub settle_now : num.F
  pub looks : List (Look num)
  pub after : List num.F
  pub retry_now : num.F

-- What the attempts carry on. `searches` is what `_plan_home` was asked with: the scale and the seed,
-- the last first.
pub record Tries (num : Num) : Type 0 where
  pub budget : num.F
  pub min_scale : ℕ
  pub prev_gap : Option num.F
  pub frozen : ℕ
  pub searches : List (ℕ × ℕ)

-- What `_go_home` returns, or the exception that it ends with.
pub data Homed : Type 0 where
  returns : Bool → Homed
  outside_limits : Homed
  not_driven : Homed
  exhausted : Homed

-- One attempt ends the loop, or leaves it to the next.
pub data Verdict (num : Num) : Type 0 where
  stop : Homed → Tries num → Follower num → Verdict num
  again : Tries num → Follower num → Verdict num

module _ (num : Num) (cfg : Setup num) where
  open num use {F, lt, lit, add, sub, mul}

  -- `v`
  abbrev pub home_speed : F
  home_speed =
      minimum num (minimum num cfg.home_vel (mul (lit 9 1) cfg.out_vel))
        (mul (mul (lit 5 1) cfg.max_joint_lead) cfg.out_kp)

  -- `min(min_scale + 1, n_scales - 1)`
  abbrev pub relaxed : ℕ → ℕ
  relaxed min_scale = min (min_scale + 1) (length cfg.home_floor_scales - 1)

  -- `prev_gap is not None and gap > prev_gap - 0.02`
  abbrev pub no_gain : F → Option F → Bool
  no_gain dist none = false
  no_gain dist (some prev) = lt (sub prev (lit 2 2)) dist

  abbrev pub is_done : Status → Bool
  is_done done = true
  is_done timeout = false
  is_done gate = false
  is_done disconnected = false

  abbrev pub grace_of : Bool → F
  grace_of complete = if complete then cfg.home_settle_grace else lit 1 0

  -- What follows a plan that was walked and settled.
  abbrev pub judge :
      Attempt num → Plan num → Status → Bool × F → Tries num → Follower num → Verdict num
  judge e p status (arrived, err) l st =
      if arrived
      then stop (returns true) l st
      else if p.complete && is_done status && le num err cfg.home_settle_tol
      then stop (returns false) l st
      else if lt (gap num e.after e.meas) (lit 2 2)
      then (if leb 2 (l.frozen + 1)
          then stop not_driven (record l { frozen = l.frozen + 1 }) st
          else again (record l { frozen = l.frozen + 1 }) st)
      else again l st

  -- What follows a search.
  abbrev pub take_plan :
      F → Attempt num → Option (Plan num) → Tries num → Follower num → Verdict num
  take_plan t_end e none l st =
      again
        (record l {
          budget =
              minimum num (mul (lit 2 0) l.budget) (maximum num (lit 1 0) (sub t_end e.retry_now));
          min_scale = relaxed l.min_scale;
        })
        st
  take_plan t_end e (some p) l st =
      let (status, st') =
        run_path num cfg p.waypoints home_speed (some t_end) p.floor_scale e.drive st in
      judge e p status
        (settle num cfg e.settle_now e.looks cfg.home_q (grace_of p.complete) cfg.home_done_tol) l
        st'

  -- The attempt's tries, once its gap is known.
  abbrev pub tries_at : F → Tries num → Tries num
  tries_at dist l = record l {
    min_scale = if no_gain dist l.prev_gap then relaxed l.min_scale else l.min_scale;
    prev_gap = some dist;
  }

  abbrev pub asked : ℕ → Tries num → Tries num
  asked k l = record l { searches = (l.min_scale, k) ∷ l.searches }

  abbrev pub search_from : F → ℕ → Attempt num → Tries num → Follower num → Verdict num
  search_from t_end k e l st =
      let deadline = minimum num t_end (add e.plan_now l.budget) in
      let (plan, w) =
        plan_home num cfg (model num cfg st) (cfg.default_rng k) e.meas cfg.home_q deadline
          l.min_scale e.search in
      take_plan t_end e plan (asked k l) st

  -- One pass of the loop.
  unfoldable pub attempt : F → ℕ → Attempt num → Tries num → Follower num → Verdict num
  attempt t_end k e l st =
      let dist = gap num cfg.home_q e.meas in
      if not e.alive
      then stop (returns false) l st
      else if le num dist cfg.home_done_tol
      then stop (returns true) l st
      else if le num t_end e.now
      then stop exhausted (tries_at dist l) st
      else search_from t_end k e (tries_at dist l) st

  -- What follows an attempt.
  abbrev pub after_attempt :
      Verdict num
      → (Tries num → Follower num → Homed × Tries num × Follower num)
      → Homed × Tries num × Follower num
  after_attempt (stop h l st) next = (h, l, st)
  after_attempt (again l st) next = next l st

  -- The loop over the attempts that are left, from attempt `k` on.
  unfoldable pub attempts_from :
      ℕ → F → ℕ → (ℕ → Attempt num) → Tries num → Follower num → Homed × Tries num × Follower num
  attempts_from zero t_end k env l st = (exhausted, l, st)
  attempts_from (suc n) t_end k env l st =
      after_attempt (attempt t_end k (env k) l st) (attempts_from n t_end (suc k) env)

  abbrev pub in_limits : Ik num → List String → List F → Bool
  in_limits ik [] vs = true
  in_limits ik (j ∷ js) [] = true
  in_limits ik (j ∷ js) (v ∷ vs) =
      le num (sub (get_or ik.lower (ik.qindex j) (lit 0 0)) (lit 1 6)) v
      && le num v (add (get_or ik.upper (ik.qindex j) (lit 0 0)) (lit 1 6))
      && in_limits ik js vs

  abbrev pub first_tries : Tries num
  first_tries = record {
    budget = cfg.home_plan_time_s;
    min_scale = 0;
    prev_gap = none;
    frozen = 0;
    searches = [];
  }

  -- `_go_home`: `here` is the measured pose at its start, `start` the clock, `ready` whether the
  -- gripper's server is.
  unfoldable pub go_home :
      List F → Bool → F → (ℕ → Attempt num) → Follower num → Homed × Tries num × Follower num
  unfolding attempts_from
  go_home here ready start env st =
      let st1 = ensure_ik num cfg st in
      if le num (gap num cfg.home_q here) cfg.approach_tol
      then (returns true, first_tries, st)
      else if not (in_limits (model num cfg st) cfg.arm cfg.home_q)
      then (outside_limits, first_tries, st1)
      else attempts_from (max 1 cfg.home_max_attempts) (add start cfg.home_total_time_s) 1 env
          first_tries (send_grip num ready cfg.grip_open st1)
