-- ===== src/Teleop/Apart.antt =====
-- Every `vr_tick` of teleop_mantis.py keeps the clutch, the move to home and the recording apart.
use vla_mantis.Base.{
  ◌≡◌, refl, Bool, true, false, not, ◌&&◌, ◌||◌, if◌then◌else◌, if-cases, not-eq_false,
}
use vla_mantis.Base.Num.{Num}
use vla_mantis.Teleop.Home.{Setup, cancelled_by_button}
use vla_mantis.Teleop.Buttons.{
  RecorderApi, Timing, Panel, Reading, on_engage, stop_recorder, pad_step, unhomed, episode_ends,
  answered, episode_starts, menu_pressed, menu_step, home_pressed, home_step, axlock_release,
  axlock_pressed, axlock_let_go, axlock_step, press,
}
use vla_mantis.Teleop.Exclusive.{
  IsExclusive, stop_recorder-IsExclusive, finish_home-IsExclusive, begin_home-IsExclusive,
  on_disengage-IsExclusive, on_engage-IsExclusive, pad_pressed-IsExclusive,
}

or-eq_false : (a b : Bool) → (a || b) ≡ false → (a ≡ false) × (b ≡ false)
or-eq_false true b h = absurd cc
or-eq_false false b h = (refl, h)

module _ (num : Num) (api : RecorderApi) (cfg : Setup num) (tm : Timing num api cfg) where
  open num use {lt, sub}

  abbrev PanelOf : Type 0
  PanelOf = Panel num api cfg

  abbrev Ok : PanelOf → Type 0
  Ok = IsExclusive num cfg api tm

  pad_step-IsExclusive :
      (rd : Reading num api cfg) (p : PanelOf) → Ok p → Ok (pad_step num api cfg tm rd p)
  pad_step-IsExclusive rd p x =
      let y =
        if-cases Ok (rd.pad && not p.pad_was) (λ e. pad_pressed-IsExclusive num cfg api tm rd p x)
          (λ e. x) in
      record { apart = y.apart; locked = y.locked; stops = y.stops }

  unhomed-IsExclusive :
      (rd : Reading num api cfg) (y : Bool × PanelOf) → Ok y.1 → Ok (unhomed num api cfg tm rd y)
  unhomed-IsExclusive rd (true, p) x = x
  unhomed-IsExclusive rd (false, p) x =
      let p' = stop_recorder num api cfg tm p in
      let x' = stop_recorder-IsExclusive num cfg api tm p x in
      if-cases Ok p'.home.engaged (λ e. on_disengage-IsExclusive num cfg api tm rd p' x') (λ e. x')

  episode_ends-IsExclusive :
      (rd : Reading num api cfg) (p : PanelOf) → Ok p → Ok (episode_ends num api cfg tm rd p)
  episode_ends-IsExclusive rd p x = unhomed-IsExclusive rd _ (
      if-cases (λ (y : Bool × PanelOf). Ok y.1) tm.home_on_stop
        (λ h. begin_home-IsExclusive num cfg api tm rd true p x) (λ h. x))

  -- An answer of the recorder, while the arm does not move home.
  answered-IsExclusive :
      (rd : Reading num api cfg) (y : Bool × api.State) (p : PanelOf)
      → p.home.active ≡ false
      → Ok p
      → Ok (answered num api cfg tm rd y p)
  answered-IsExclusive rd (true, r) p a x = record {
    apart = x.apart;
    locked = x.locked;
    stops = λ on. absurd cc;
  }
  answered-IsExclusive rd (false, r) p a x = record {
    apart = λ on. refl;
    locked = λ l. absurd cc;
    stops = λ on. absurd cc;
  }

  episode_starts-IsExclusive :
      (rd : Reading num api cfg) (p : PanelOf)
      → p.home.active ≡ false
      → Ok p
      → Ok (episode_starts num api cfg tm rd p)
  episode_starts-IsExclusive rd p a x =
      let Idle = λ (q : PanelOf). (q.home.active ≡ false) × Ok q in
      let p' =
        if not p.home.engaged && (rd.ready && rd.fresh) then on_engage num api cfg tm p else p in
      let (a', x') : Idle p' =
        if-cases Idle (not p.home.engaged && (rd.ready && rd.fresh))
          (λ e. (a, on_engage-IsExclusive num cfg api tm p a)) (λ e. (a, x)) in
      if-cases Ok p'.home.engaged (λ e. answered-IsExclusive rd (api.start p'.recorder) p' a' x')
        (λ e. x')

  menu_pressed-IsExclusive :
      (rd : Reading num api cfg) (p : PanelOf) → Ok p → Ok (menu_pressed num api cfg tm rd p)
  menu_pressed-IsExclusive rd p x =
      if-cases Ok (not cfg.has_recorder)
        (λ e. record { apart = x.apart; locked = x.locked; stops = x.stops })
        (λ e.
          if-cases Ok (api.recording p.recorder) (λ r. episode_ends-IsExclusive rd p x)
            (λ r. if-cases Ok p.home.active (λ a. x) (λ a. episode_starts-IsExclusive rd p a x)))

  menu_step-IsExclusive :
      (rd : Reading num api cfg) (p : PanelOf) → Ok p → Ok (menu_step num api cfg tm rd p)
  menu_step-IsExclusive rd p x =
      let stamped : PanelOf = record p { menu_t = rd.now } in
      let x' : Ok stamped = record { apart = x.apart; locked = x.locked; stops = x.stops } in
      let y =
        if-cases Ok ((rd.menu && not p.menu_was) && lt tm.menu_debounce (sub rd.now p.menu_t))
          (λ e. menu_pressed-IsExclusive rd stamped x') (λ e. x) in
      record { apart = y.apart; locked = y.locked; stops = y.stops }

  home_pressed-IsExclusive :
      (rd : Reading num api cfg) (p : PanelOf) → Ok p → Ok (home_pressed num api cfg tm rd p)
  home_pressed-IsExclusive rd p x =
      if-cases Ok p.home.active
        (λ a. finish_home-IsExclusive num cfg api tm cancelled_by_button p x)
        (λ a. begin_home-IsExclusive num cfg api tm rd false p x)

  home_step-IsExclusive :
      (rd : Reading num api cfg) (p : PanelOf) → Ok p → Ok (home_step num api cfg tm rd p)
  home_step-IsExclusive rd p x =
      let stamped : PanelOf = record p { home_t = rd.now } in
      let x' : Ok stamped = record { apart = x.apart; locked = x.locked; stops = x.stops } in
      let y =
        if-cases Ok
          ((rd.home_button && not p.home_was) && lt tm.home_debounce (sub rd.now p.home_t))
          (λ e. home_pressed-IsExclusive rd stamped x') (λ e. x) in
      record { apart = y.apart; locked = y.locked; stops = y.stops }

  axlock_release-IsExclusive :
      (rd : Reading num api cfg) (p : PanelOf) → Ok p → Ok (axlock_release num api cfg tm rd p)
  axlock_release-IsExclusive rd p x =
      if-cases Ok (not p.axlock_active) (λ e. x)
        (λ e.
          if-cases Ok (p.home.engaged && rd.fresh)
            (λ f. record { apart = x.apart; locked = λ l. absurd cc; stops = x.stops })
            (λ f. record { apart = x.apart; locked = λ l. absurd cc; stops = x.stops }))

  axlock_pressed-IsExclusive :
      (rd : Reading num api cfg) (p : PanelOf) → Ok p → Ok (axlock_pressed num api cfg tm rd p)
  axlock_pressed-IsExclusive rd p x =
      if-cases Ok p.axlock_active
        (λ l. if-cases Ok tm.toggle_mode (λ t. axlock_release-IsExclusive rd p x) (λ t. x))
        (λ l.
          if-cases Ok (p.home.active || not p.home.engaged) (λ no. x)
            (λ yes.
              if-cases Ok rd.lock_axis
                (λ ax. record {
                  apart = x.apart;
                  locked = λ on.
                      not-eq_false p.home.engaged
                        (or-eq_false p.home.active (not p.home.engaged) yes).1;
                  stops = x.stops;
                })
                (λ ax. x)))

  axlock_let_go-IsExclusive :
      (rd : Reading num api cfg) (axl : Bool) (p : PanelOf)
      → Ok p
      → Ok (axlock_let_go num api cfg tm rd axl p)
  axlock_let_go-IsExclusive rd axl p x =
      if-cases Ok ((p.axlock_active && not tm.toggle_mode) && not axl)
        (λ e. axlock_release-IsExclusive rd p x) (λ e. x)

  axlock_step-IsExclusive :
      (rd : Reading num api cfg) (p : PanelOf) → Ok p → Ok (axlock_step num api cfg tm rd p)
  axlock_step-IsExclusive rd p x =
      let axl = tm.axis_lock && rd.axlock in
      let stamped : PanelOf = record p { axlock_t = rd.now } in
      let x' : Ok stamped = record { apart = x.apart; locked = x.locked; stops = x.stops } in
      let y =
        if-cases Ok ((axl && not p.axlock_was) && lt tm.axlock_debounce (sub rd.now p.axlock_t))
          (λ e. axlock_pressed-IsExclusive rd stamped x') (λ e. x) in
      let z = axlock_let_go-IsExclusive rd axl _ y in
      record { apart = z.apart; locked = z.locked; stops = z.stops }

  -- Whatever the buttons, the clock and the recorder do, a `vr_tick` keeps these: the clutch is never
  -- engaged while the arm moves home, the axis is locked only while the clutch is engaged, and an
  -- episode that goes on while the arm moves home is one that the end of the move stops.
  pub press-IsExclusive :
      (rd : Reading num api cfg) (p : PanelOf) → Ok p → Ok (press num api cfg tm rd p)
  unfolding press
  press-IsExclusive rd p x =
      axlock_step-IsExclusive rd _
        (home_step-IsExclusive rd _ (menu_step-IsExclusive rd _ (pad_step-IsExclusive rd p x)))
