-- ===== src/Teleop/Buttons.antt =====
-- The buttons of `class Bridge` in teleop_mantis.py: the clutch, the episode, the move to home and
-- the axis lock, as `vr_tick` reads them, with `_on_engage`, `_on_disengage` and `_axlock_*`. The
-- recorder is an interface. What is anchored where is left out; how often it is anchored is kept.
use vla_mantis.Base.{ℕ, ◌+◌, ◌≡◌, Bool, true, false, not, ◌&&◌, ◌||◌, List, if◌then◌else◌}
use vla_mantis.Base.Num.{Num}
use vla_mantis.HomePlanner.{World, Rng}
use vla_mantis.Teleop.Home.{
  Setup, Home, Ending, cancelled_by_clutch, cancelled_by_button, start_home, end_home,
}

-- What the buttons use of the recorder.
pub record RecorderApi : Type 1 where
  pub State : Type 0
  pub recording : State → Bool
  pub start : State → Bool × State
  pub stop : State → State
  pub stop_recording : (r : State) → recording (stop r) ≡ false
  pub start_refused : (r : State) → (start r).0 ≡ false → recording (start r).1 ≡ recording r

module _ (num : Num) (api : RecorderApi) (cfg : Setup num) where
  open num use {F, sub, lt}

  -- The constants of the configuration.
  pub record Timing : Type 0 where
    pub pad_bounce : F
    pub pad_debounce : F
    pub menu_debounce : F
    pub home_debounce : F
    pub axlock_debounce : F
    pub axis_lock : Bool
    pub toggle_mode : Bool
    pub home_on_stop : Bool
    pub blend_ticks : ℕ

  pub record Panel : Type 0 where
    pub home : Home num
    pub recorder : api.State
    pub world : World num
    pub pad_was : Bool
    pub menu_was : Bool
    pub home_was : Bool
    pub axlock_was : Bool
    pub pad_t : F
    pub menu_t : F
    pub home_t : F
    pub axlock_t : F
    pub axlock_active : Bool
    pub mark : Bool
    pub captures : ℕ

  -- What one `vr_tick` reads. `teleop` is the phase with fresh joints, `lock_axis` whether the axis
  -- to lock on is no zero.
  pub record Reading : Type 0 where
    pub now : F
    pub pad : Bool
    pub menu : Bool
    pub home_button : Bool
    pub axlock : Bool
    pub ready : Bool
    pub fresh : Bool
    pub teleop : Bool
    pub joints_fresh : Bool
    pub pose : List F
    pub lock_axis : Bool
    pub rng : Rng num

  module _ (tm : Timing) where
    abbrev pub is_recording : Panel → Bool
    is_recording p = cfg.has_recorder && api.recording p.recorder

    abbrev pub on_engage : Panel → Panel
    on_engage p = record p {
      home = record p.home { engaged = true; blend_n = 0 };
      captures = p.captures + 1;
    }

    abbrev pub on_disengage : Reading → Panel → Panel
    on_disengage rd p = record p {
      home = record p.home {
        engaged = false;
        blend_n = if rd.joints_fresh then tm.blend_ticks else p.home.blend_n;
      };
      axlock_active = false;
    }

    abbrev pub stop_recorder : Panel → Panel
    stop_recorder p = if cfg.has_recorder then record p { recorder = api.stop p.recorder } else p

    -- `_end_home`, with the recorder that it may stop.
    abbrev pub finish_home : Ending → Panel → Panel
    finish_home why p =
        let ended = record p { home = end_home num cfg why p.home } in
        if p.home.stop_rec then stop_recorder ended else ended

    -- `_start_home`, with the axis lock that its `_on_disengage` clears.
    abbrev pub begin_home : Reading → Bool → Panel → Bool × Panel
    begin_home rd stop p =
        let ((ok, h), w) =
          start_home num cfg rd.rng rd.teleop (is_recording p) rd.pose stop p.world p.home in
        (
          ok,
          record p {
            home = h;
            world = w;
            axlock_active = if p.home.engaged && not h.engaged then false else p.axlock_active;
          },
        )

    abbrev pub pad_pressed : Reading → Panel → Panel
    pad_pressed rd p =
        let stamped = record p { pad_t = rd.now } in
        if lt (sub rd.now p.pad_t) tm.pad_bounce
        then p
        else if p.home.active
        then finish_home cancelled_by_clutch stamped
        else if p.home.engaged
        then on_disengage rd stamped
        else if lt tm.pad_debounce (sub rd.now p.pad_t) && (rd.ready && rd.fresh)
        then on_engage stamped
        else p

    abbrev pub pad_step : Reading → Panel → Panel
    pad_step rd p = record (if rd.pad && not p.pad_was then pad_pressed rd p else p) {
      pad_was = rd.pad;
    }

    -- The end of an episode: a move to home that stops the recorder at its end, or the stop itself.
    abbrev pub unhomed : Reading → Bool × Panel → Panel
    unhomed rd (true, p) = p
    unhomed rd (false, p) =
        let p' = stop_recorder p in if p'.home.engaged then on_disengage rd p' else p'

    abbrev pub episode_ends : Reading → Panel → Panel
    episode_ends rd p = unhomed rd (if tm.home_on_stop then begin_home rd true p else (false, p))

    abbrev pub answered : Reading → Bool × api.State → Panel → Panel
    answered rd (true, r) p = record p { recorder = r }
    answered rd (false, r) p = on_disengage rd (record p { recorder = r })

    -- The start of an episode: the clutch is engaged first, and let go where the recorder refuses.
    abbrev pub episode_starts : Reading → Panel → Panel
    episode_starts rd p =
        let p' = if not p.home.engaged && (rd.ready && rd.fresh) then on_engage p else p in
        if p'.home.engaged then answered rd (api.start p'.recorder) p' else p'

    abbrev pub menu_pressed : Reading → Panel → Panel
    menu_pressed rd p =
        if not cfg.has_recorder
        then record p { mark = not p.mark }
        else if api.recording p.recorder
        then episode_ends rd p
        else if p.home.active
        then p
        else episode_starts rd p

    abbrev pub menu_step : Reading → Panel → Panel
    menu_step rd p =
        record (if (rd.menu && not p.menu_was) && lt tm.menu_debounce (sub rd.now p.menu_t)
          then menu_pressed rd (record p { menu_t = rd.now })
          else p) { menu_was = rd.menu }

    abbrev pub home_pressed : Reading → Panel → Panel
    home_pressed rd p =
        if p.home.active then finish_home cancelled_by_button p else (begin_home rd false p).1

    abbrev pub home_step : Reading → Panel → Panel
    home_step rd p =
        record (if (rd.home_button && not p.home_was) && lt tm.home_debounce (sub rd.now p.home_t)
          then home_pressed rd (record p { home_t = rd.now })
          else p) { home_was = rd.home_button }

    -- `_axlock_release`
    abbrev pub axlock_release : Reading → Panel → Panel
    axlock_release rd p =
        let off = record p { axlock_active = false } in
        if not p.axlock_active
        then p
        else if p.home.engaged && rd.fresh
        then record off { captures = p.captures + 1 }
        else off

    -- `_axlock_engage`
    abbrev pub axlock_engage : Reading → Panel → Panel
    axlock_engage rd p = if rd.lock_axis then record p { axlock_active = true } else p

    abbrev pub axlock_pressed : Reading → Panel → Panel
    axlock_pressed rd p =
        if p.axlock_active
        then (if tm.toggle_mode then axlock_release rd p else p)
        else if p.home.active || not p.home.engaged
        then p
        else axlock_engage rd p

    abbrev pub axlock_let_go : Reading → Bool → Panel → Panel
    axlock_let_go rd axl p =
        if (p.axlock_active && not tm.toggle_mode) && not axl then axlock_release rd p else p

    abbrev pub axlock_step : Reading → Panel → Panel
    axlock_step rd p =
        let axl = tm.axis_lock && rd.axlock in
        let pressed =
          if (axl && not p.axlock_was) && lt tm.axlock_debounce (sub rd.now p.axlock_t)
          then axlock_pressed rd (record p { axlock_t = rd.now })
          else p in
        record (axlock_let_go rd axl pressed) { axlock_was = axl }

    -- The buttons of one `vr_tick`.
    unfoldable pub press : Reading → Panel → Panel
    press rd p = axlock_step rd (home_step rd (menu_step rd (pad_step rd p)))
