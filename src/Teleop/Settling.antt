-- ===== src/Teleop/Settling.antt =====
-- Clicks of the gripper of teleop_mantis.py are debounced.
use vla_mantis.Base.{
  Bool, true, false, not, ◌&&◌, Option, none, some, List, [], ◌∷◌, if◌then◌else◌, if-cases, ◌≡◌,
  refl, subst, and-eq_true,
}
use vla_mantis.Base.Num.{Num}
use vla_mantis.Teleop.Gripper.{
  Settings, Gripper, Reading, differs, want, toggles, first_send, measured_joint, command,
  grip_update, grip_tick, on_grip_response, Event, buttons, timer, response, home_starts, step,
}
use vla_mantis.Teleop.Settled.{retry-Kept}

module _ (num : Num) (cfg : Settings num) where
  open num use {F, sub, abs, lt, lt_irrefl}

  -- The commands change neither what is wanted nor when it was last toggled.
  record Steady (g g' : Gripper num) : Type 0 where
    pub want_eq : g'.want_closed ≡ g.want_closed
    pub toggle_eq : g'.toggle_t ≡ g.toggle_t

  command-Steady : (rd : Reading num) (g : Gripper num) → Steady g (command num cfg rd g)
  command-Steady rd g =
      if-cases (Steady g) (differs num (want num cfg g) g.sent)
        (λ new.
          if-cases (λ (x : Bool × Gripper num). Steady g (first_send num cfg rd x))
            rd.server_is_ready (λ e. record { want_eq = refl; toggle_eq = refl })
            (λ e. record { want_eq = refl; toggle_eq = refl }))
        (λ known.
          if-cases (Steady g) (not g.want_closed)
            (λ opened.
              let k = retry-Kept num cfg (measured_joint num cfg rd cfg.grip_joint) rd g in
              record { want_eq = k.want_eq; toggle_eq = k.toggle_eq })
            (λ closed. record { want_eq = refl; toggle_eq = refl }))

  abbrev pub differ : Bool → Bool → Bool
  differ true b = not b
  differ false b = b

  -- The time at which an event turned the gripper over, if it did.
  abbrev flip : Event num cfg → Gripper num → Option F
  flip (timer rd) g =
      if differ (grip_tick num cfg rd g).want_closed g.want_closed then some rd.now else none
  flip (buttons click t) g = none
  flip (response accepted) g = none
  flip home_starts g = none

  abbrev cons_time : Option F → List F → List F
  cons_time none ts = ts
  cons_time (some t) ts = t ∷ ts

  -- The times at which ticks of a run turned the gripper over.
  unfoldable pub flip_times : List (Event num cfg) → Gripper num → List F
  flip_times [] g = []
  flip_times (e ∷ es) g = cons_time (flip e g) (flip_times es (step num cfg e g))

  -- Each time is later than the one before by more than the debounce.
  pub data IsDebounced : F → List F → Type 0 where
    no_flip : (t : F) → IsDebounced t []
    flip_at :
        (t u : F) (us : List F)
        → lt cfg.toggle_debounce (sub u t) ≡ true
        → IsDebounced u us
        → IsDebounced t (u ∷ us)

  -- What a tick did: it turned the gripper over, or it left it.
  data Ticked (rd : Reading num) (g g' : Gripper num) : Type 0 where
    turned :
        g'.want_closed ≡ not g.want_closed
        → g'.toggle_t ≡ rd.now
        → lt cfg.toggle_debounce (sub rd.now g.toggle_t) ≡ true
        → Ticked rd g g'
    left : g'.want_closed ≡ g.want_closed → g'.toggle_t ≡ g.toggle_t → Ticked rd g g'

  grip_update-Ticked : (rd : Reading num) (g : Gripper num) → Ticked rd g (grip_update num cfg rd g)
  unfolding grip_update
  grip_update-Ticked rd g =
      if-cases
        (λ (x : Gripper num).
          Ticked rd g (command num cfg rd (record x { click_was = g.click_now })))
        (toggles num cfg rd g)
        (λ e.
          let new = record g {
            want_closed = not g.want_closed;
            toggle_t = rd.now;
            click_was = g.click_now;
          } in
          let s = command-Steady rd new in
          let (click, late) =
            and-eq_true (g.click_now && not g.click_was)
              (lt cfg.toggle_debounce (sub rd.now g.toggle_t)) e in
          turned s.want_eq s.toggle_eq late)
        (λ e.
          let s = command-Steady rd (record g { click_was = g.click_now }) in
          left s.want_eq s.toggle_eq)

  grip_tick-Ticked : (rd : Reading num) (g : Gripper num) → Ticked rd g (grip_tick num cfg rd g)
  unfolding grip_tick
  grip_tick-Ticked rd g =
      if-cases (Ticked rd g) (lt (sub rd.now g.btn_t) cfg.buttons_timeout)
        (λ e. grip_update-Ticked rd g) (λ e. left refl refl)

  differ-not : (b : Bool) → differ (not b) b ≡ true
  differ-not true = refl
  differ-not false = refl

  differ_refl : (b : Bool) → differ b b ≡ false
  differ_refl true = refl
  differ_refl false = refl

  timer-IsDebounced :
      (rd : Reading num) (g : Gripper num) (ts : List F)
      → Ticked rd g (grip_tick num cfg rd g)
      → IsDebounced (grip_tick num cfg rd g).toggle_t ts
      → IsDebounced g.toggle_t (cons_time (flip (timer rd) g) ts)
  timer-IsDebounced rd g ts (turned w t late) h = rw w (
      rw (differ-not g.want_closed)
        (flip_at g.toggle_t rd.now ts late (subst (λ u. IsDebounced u ts) t h)))
  timer-IsDebounced rd g ts (left w t) h =
      rw w (rw (differ_refl g.want_closed) (subst (λ u. IsDebounced u ts) t h))

  -- In every run of clicks, ticks, answers of the server and moves to home, the ticks that turn the
  -- gripper over are each later than the one before, and the first than the last recorded toggle, by
  -- more than the debounce.
  pub flip_times-IsDebounced :
      (es : List (Event num cfg)) (g : Gripper num) → IsDebounced g.toggle_t (flip_times es g)
  unfolding flip_times step on_grip_response
  flip_times-IsDebounced [] g = no_flip g.toggle_t
  flip_times-IsDebounced (timer rd ∷ es) g =
      timer-IsDebounced rd g _ (grip_tick-Ticked rd g)
        (flip_times-IsDebounced es (grip_tick num cfg rd g))
  flip_times-IsDebounced (buttons click t ∷ es) g =
      flip_times-IsDebounced es (record g { click_now = click; btn_t = t })
  flip_times-IsDebounced (home_starts ∷ es) g =
      flip_times-IsDebounced es (record g { want_closed = false })
  flip_times-IsDebounced (response accepted ∷ es) g =
      if-cases (λ (x : Gripper num). IsDebounced g.toggle_t (flip_times es x)) accepted
        (λ e. flip_times-IsDebounced es g)
        (λ e. flip_times-IsDebounced es (record g { sent = none }))
