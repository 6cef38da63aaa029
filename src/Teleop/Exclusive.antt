-- ===== src/Teleop/Exclusive.antt =====
-- What the buttons of teleop_mantis.py keep apart: the clutch, the move to home and the recording.
use vla_mantis.Base.{
  ◌≡◌, refl, Bool, true, false, not, ◌&&◌, Option, none, some, List, if◌then◌else◌, if-cases, sym,
  ◌∙◌, and-eq_false_right, unless-eq_true,
}
use vla_mantis.Base.Num.{Num}
use vla_mantis.HomePlanner.{World, Rng}
use vla_mantis.Teleop.Home.{
  Setup, Home, Ending, cancelled_by_clutch, Route, route, take_route, frozen, inside, start_on,
  start_home, end_home,
}
use vla_mantis.Teleop.Buttons.{
  RecorderApi, Timing, Panel, Reading, is_recording, on_engage, on_disengage, stop_recorder,
  finish_home, begin_home, pad_pressed,
}

-- How `_start_home` answers: it refuses and changes nothing or lets the clutch go, or it begins.
data Begun {num : Num} (stop recording : Bool) (h : Home num) : Bool × Home num → Type 1 where
  refused : Begun stop recording h (false, h)
  let_go :
      (h' : Home num)
      → h.active ≡ false
      → h'.active ≡ false
      → h'.engaged ≡ false
      → Begun stop recording h (false, h')
  began :
      (h' : Home num)
      → h'.active ≡ true
      → h'.engaged ≡ false
      → h'.stop_rec ≡ stop
      → (not stop && recording) ≡ false
      → Begun stop recording h (true, h')

engaged_only : (e e' : Bool) → e ≡ true → e' ≡ false → (e && not e') ≡ false → ⊥
engaged_only true true on off h = cc
engaged_only true false on off h = cc
engaged_only false e' on off h = cc

stop_needed : (stop r : Bool) → (not stop && r) ≡ false → r ≡ true → stop ≡ true
stop_needed true r h on = refl
stop_needed false r h on = absurd cc

module _ (num : Num) (cfg : Setup num) where
  open num use {lt, sub}

  frozen-engaged : (h : Home num) → (frozen num cfg h).engaged ≡ false
  frozen-engaged h = if-cases (λ (x : Home num). x.engaged ≡ false) h.engaged (λ e. refl) (λ e. e)

  frozen-active : (h : Home num) → (frozen num cfg h).active ≡ h.active
  frozen-active h =
      if-cases (λ (x : Home num). x.active ≡ h.active) h.engaged (λ e. refl) (λ e. refl)

  take_route-Begun :
      (q : List num.F) (stop recording : Bool) (o : Option (Route num cfg)) (h : Home num)
      → h.active ≡ false
      → (not stop && recording) ≡ false
      → Begun stop recording h (take_route num cfg q stop o (frozen num cfg h))
  take_route-Begun q stop recording none h a r =
      let_go (frozen num cfg h) a (frozen-active h ∙ a) (frozen-engaged h)
  take_route-Begun q stop recording (some x) h a r = began _ refl (frozen-engaged h) refl r

  start_on-Begun :
      (ready recording : Bool) (q : List num.F) (stop : Bool) (w : World num) (h : Home num)
      (o : Option (Route num cfg)) (w' : World num)
      → Begun stop recording h (start_on num cfg ready recording q stop w h (o, w')).0
  start_on-Begun ready recording q stop w h o w' =
      let P = λ (y : (Bool × Home num) × World num). Begun stop recording h y.0 in
      if-cases P h.active (λ a. refused)
        (λ a.
          if-cases P (not ready) (λ b. refused)
            (λ b.
              if-cases P (not stop && recording) (λ c. refused)
                (λ c.
                  if-cases P (not (inside num cfg cfg.lower cfg.upper cfg.home_q))
                    (λ d. let_go (frozen num cfg h) a (frozen-active h ∙ a) (frozen-engaged h))
                    (λ d. take_route-Begun q stop recording o h a c))))

  start_home-Begun :
      (rng : Rng num) (ready recording : Bool) (q : List num.F) (stop : Bool) (w : World num)
      (h : Home num)
      → Begun stop recording h (start_home num cfg rng ready recording q stop w h).0
  unfolding start_home
  start_home-Begun rng ready recording q stop w h =
      let r = route num cfg rng q w in start_on-Begun ready recording q stop w h r.0 r.1

  -- What `_end_home` leaves.
  record Ended (h h' : Home num) : Type 0 where
    pub idle : h'.active ≡ false
    pub same : h'.engaged ≡ h.engaged

  end_home-Ended : (why : Ending) (h : Home num) → Ended h (end_home num cfg why h)
  unfolding end_home
  end_home-Ended why h =
      if-cases (Ended h) (h.stop_rec && cfg.has_recorder) (λ e. record { idle = refl; same = refl })
        (λ e. record { idle = refl; same = refl })

  module _ (api : RecorderApi) (tm : Timing num api cfg) where
    -- The clutch is never engaged while the arm moves home; the axis is locked only while the
    -- clutch is engaged; and an episode that goes on while the arm moves home ends with the move.
    pub record IsExclusive (p : Panel num api cfg) : Type 0 where
      pub apart : p.home.active ≡ true → p.home.engaged ≡ false
      pub locked : p.axlock_active ≡ true → p.home.engaged ≡ true
      pub stops :
          p.home.active ≡ true → is_recording num api cfg tm p ≡ true → p.home.stop_rec ≡ true

    abbrev pub PanelOf : Type 0
    PanelOf = Panel num api cfg

    idle-IsExclusive :
        (p q : PanelOf)
        → q.home.active ≡ false
        → q.axlock_active ≡ p.axlock_active
        → q.home.engaged ≡ p.home.engaged
        → IsExclusive p
        → IsExclusive q
    idle-IsExclusive p q a l e x = record {
      apart = λ on. absurd cc;
      locked = λ on. e ∙ x.locked (sym l ∙ on);
      stops = λ on. absurd cc;
    }

    pub stop_recorder-IsExclusive :
        (p : PanelOf) → IsExclusive p → IsExclusive (stop_recorder num api cfg tm p)
    stop_recorder-IsExclusive p x =
        if-cases IsExclusive cfg.has_recorder
          (λ e.
            let off =
              and-eq_false_right cfg.has_recorder (api.recording (api.stop p.recorder))
                (api.stop_recording p.recorder) in
            record { apart = x.apart; locked = x.locked; stops = λ on r. absurd cc })
          (λ e. x)

    pub finish_home-IsExclusive :
        (why : Ending) (p : PanelOf)
        → IsExclusive p
        → IsExclusive (finish_home num api cfg tm why p)
    finish_home-IsExclusive why p x =
        let ended : PanelOf = record p { home = end_home num cfg why p.home } in
        let e = end_home-Ended why p.home in
        let x' = idle-IsExclusive p ended e.idle refl e.same x in
        if-cases IsExclusive p.home.stop_rec (λ s. stop_recorder-IsExclusive ended x') (λ s. x')

    Begun-IsExclusive :
        (stop : Bool) (p : PanelOf) (w : World num) (y : Bool × Home num)
        → Begun stop (is_recording num api cfg tm p) p.home y
        → IsExclusive p
        → IsExclusive (record p {
          home = y.1;
          world = w;
          axlock_active = if p.home.engaged && not y.1.engaged then false else p.axlock_active;
        })
    Begun-IsExclusive stop p w _ refused x = record {
      apart = x.apart;
      locked = λ l. x.locked (unless-eq_true p.axlock_active _ l).0;
      stops = x.stops;
    }
    Begun-IsExclusive stop p w _ (let_go h' a a' off) x = record {
      apart = λ on. off;
      locked = λ l.
          let (locked, kept) = unless-eq_true p.axlock_active _ l in
          absurd (engaged_only p.home.engaged h'.engaged (x.locked locked) off kept);
      stops = λ on. absurd cc;
    }
    Begun-IsExclusive stop p w _ (began h' on off s r) x = record {
      apart = λ on. off;
      locked = λ l.
          let (locked, kept) = unless-eq_true p.axlock_active _ l in
          absurd (engaged_only p.home.engaged h'.engaged (x.locked locked) off kept);
      stops = λ on rec. s ∙ stop_needed stop _ r rec;
    }

    pub begin_home-IsExclusive :
        (rd : Reading num api cfg) (stop : Bool) (p : PanelOf)
        → IsExclusive p
        → IsExclusive (begin_home num api cfg tm rd stop p).1
    begin_home-IsExclusive rd stop p x =
        Begun-IsExclusive stop p _ _
          (start_home-Begun rd.rng rd.teleop (is_recording num api cfg tm p) rd.pose stop p.world
            p.home)
          x

    pub on_disengage-IsExclusive :
        (rd : Reading num api cfg) (p : PanelOf)
        → IsExclusive p
        → IsExclusive (on_disengage num api cfg tm rd p)
    on_disengage-IsExclusive rd p x = record {
      apart = λ on. refl;
      locked = λ l. absurd cc;
      stops = x.stops;
    }

    pub on_engage-IsExclusive :
        (p : PanelOf) → p.home.active ≡ false → IsExclusive (on_engage num api cfg tm p)
    on_engage-IsExclusive p a = record {
      apart = λ on. absurd cc;
      locked = λ l. refl;
      stops = λ on. absurd cc;
    }

    pub pad_pressed-IsExclusive :
        (rd : Reading num api cfg) (p : PanelOf)
        → IsExclusive p
        → IsExclusive (pad_pressed num api cfg tm rd p)
    pad_pressed-IsExclusive rd p x =
        let stamped : PanelOf = record p { pad_t = rd.now } in
        let x' : IsExclusive stamped = record {
          apart = x.apart;
          locked = x.locked;
          stops = x.stops;
        } in
        if-cases IsExclusive (lt (sub rd.now p.pad_t) tm.pad_bounce) (λ b. x)
          (λ b.
            if-cases IsExclusive p.home.active
              (λ a. finish_home-IsExclusive cancelled_by_clutch stamped x')
              (λ a.
                if-cases IsExclusive p.home.engaged (λ e. on_disengage-IsExclusive rd stamped x')
                  (λ e.
                    if-cases IsExclusive
                      (lt tm.pad_debounce (sub rd.now p.pad_t) && (rd.ready && rd.fresh))
                      (λ g. on_engage-IsExclusive stamped a) (λ g. x))))
