-- ===== src/Teleop/Gripper.antt =====
-- The gripper of `class Bridge` in teleop_mantis.py: `_grip_update`, `send_grip`,
-- `_on_grip_response` and `grip_tick`. Times and widths are floats; the goals that were sent are
-- kept, the last one first. Logging is left out.
use vla_mantis.Base.{
  Bool, true, false, not, ◌&&◌, ◌||◌, Option, none, some, List, [], ◌∷◌, String, if◌then◌else◌,
}
use vla_mantis.Base.Num.{Num}

module _ (num : Num) where
  open num use {F, sub, abs, lt, lit}

  -- The constants of the configuration. `grip_joint` is `none` where it is empty.
  pub record Settings : Type 0 where
    pub grip_open : F
    pub grip_close : F
    pub toggle_debounce : F
    pub retry_period : F
    pub retry_tol : F
    pub buttons_timeout : F
    pub grip_joint : Option String

  pub record Gripper : Type 0 where
    pub want_closed : Bool
    pub click_now : Bool
    pub click_was : Bool
    pub toggle_t : F
    pub sent : Option F
    pub send_t : F
    pub last_w : Option F
    pub btn_t : F
    pub goals : List F

  -- What a tick reads: the clock, the measured joints, and whether the action server is ready.
  pub record Reading : Type 0 where
    pub now : F
    pub joints : String → Option F
    pub server_is_ready : Bool

  -- `want != self._grip_sent`
  abbrev pub differs : F → Option F → Bool
  differs want none = true
  differs want (some s) = lt want s || lt s want

  module _ (cfg : Settings) where
    abbrev pub want : Gripper → F
    want g = if g.want_closed then cfg.grip_close else cfg.grip_open

    -- `send_grip`
    abbrev pub send_grip : F → Reading → Gripper → Bool × Gripper
    send_grip goal rd g =
        if rd.server_is_ready then (true, record g { goals = goal ∷ g.goals }) else (false, g)

    -- The test of a new click.
    abbrev pub toggles : Reading → Gripper → Bool
    toggles rd g = g.click_now && not g.click_was && lt cfg.toggle_debounce (sub rd.now g.toggle_t)

    abbrev pub toggle : Reading → Gripper → Gripper
    toggle rd g =
        let g' =
          if toggles rd g
          then record g { want_closed = not g.want_closed; toggle_t = rd.now }
          else g in
        record g' { click_was = g.click_now }

    abbrev pub first_send : Reading → Bool × Gripper → Gripper
    first_send rd (true, g) = record g { sent = some (want g); send_t = rd.now; last_w = none }
    first_send rd (false, g) = g

    abbrev pub resend : Reading → Bool × Gripper → Gripper
    resend rd (true, g) = record g { send_t = rd.now }
    resend rd (false, g) = g

    abbrev pub moved : F → Option F → F
    moved meas none = lit 1000000000 0
    moved meas (some w) = abs (sub meas w)

    abbrev pub measured_joint : Reading → Option String → Option F
    measured_joint rd none = none
    measured_joint rd (some j) = rd.joints j

    -- An opened gripper that stands still short of its goal is sent the goal again.
    abbrev pub retry : Option F → Reading → Gripper → Gripper
    retry none rd g = g
    retry (some meas) rd g =
        if lt cfg.retry_tol (abs (sub meas cfg.grip_open))
          && lt cfg.retry_period (sub rd.now g.send_t)
        then (let still = lt (moved meas g.last_w) cfg.retry_tol in
            let g' = record g { last_w = some meas } in
            if still
            then resend rd (send_grip cfg.grip_open rd g')
            else record g' { send_t = rd.now })
        else g

    abbrev pub command : Reading → Gripper → Gripper
    command rd g =
        if differs (want g) g.sent
        then first_send rd (send_grip (want g) rd g)
        else if not g.want_closed
        then retry (measured_joint rd cfg.grip_joint) rd g
        else g

    unfoldable pub grip_update : Reading → Gripper → Gripper
    grip_update rd g = command rd (toggle rd g)

    unfoldable pub grip_tick : Reading → Gripper → Gripper
    grip_tick rd g = if lt (sub rd.now g.btn_t) cfg.buttons_timeout then grip_update rd g else g

    -- `_on_grip_response`; a future that raises is no acceptance either.
    unfoldable pub on_grip_response : Bool → Gripper → Gripper
    on_grip_response accepted g = if accepted then g else record g { sent = none }

    -- What can happen next: the buttons are read at a time, the timer fires, the server answers, or
    -- a move to home starts, which opens the gripper.
    pub data Event : Type 0 where
      buttons : Bool → F → Event
      timer : Reading → Event
      response : Bool → Event
      home_starts : Event

    unfoldable pub step : Event → Gripper → Gripper
    step (buttons click t) g = record g { click_now = click; btn_t = t }
    step (timer rd) g = grip_tick rd g
    step home_starts g = record g { want_closed = false }
    step (response accepted) g = on_grip_response accepted g

    unfoldable pub run : List Event → Gripper → Gripper
    run [] g = g
    run (e ∷ es) g = run es (step e g)
