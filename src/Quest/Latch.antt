-- ===== src/Quest/Latch.antt =====
-- What the publisher of quest_pub.py sends is what the teleop reads, and the click has a hysteresis.
use vla_mantis.Base.{
  Bool, true, false, not, ◌&&◌, Option, none, some, List, [], ◌∷◌, if◌then◌else◌, if-cases, ◌≡◌,
  refl, ap, sym, ◌∙◌, String, and-eq_true, not-eq_true,
}
use vla_mantis.Base.Num.{Num, le, lt-of_lt_of_le}
use vla_mantis.Quest.Publisher.{
  Buttons, is_pressed, Raw, Adb, is_new, is_due, same_time, emit, read_raw, take_pose, poll,
  Mapping, latch, flag, buttons_message, Inputs, is_on, on_vive_buttons,
}

latched_step : (x y : Bool) → not x ≡ (if x then false else if y then true else true)
latched_step true y = refl
latched_step false true = refl
latched_step false false = refl

free_step :
    (x y : Bool) → (x ≡ true → y ≡ false) → y ≡ (if x then false else if y then true else false)
free_step true y h = h refl
free_step false true h = refl
free_step false false h = refl

module _ (num : Num) where
  open num use {F, lt, lit, sub}

  is_on-flag :
      (b : Bool)
      → lt (lit 5 1) (lit 1 0) ≡ true
      → lt (lit 5 1) (lit 0 0) ≡ false
      → is_on num (flag num b) ≡ b
  is_on-flag true h h' = h
  is_on-flag false h h' = h'

  -- The teleop reads from a message of buttons what the publisher put in: the axis, and whether each
  -- of the engage, menu, click, home and axis-lock buttons is pressed, where 0.5 lies between 0 and 1.
  pub on_vive_buttons-buttons_message :
      (m : Mapping num) (btn : Buttons num) (clicked : Bool) (thresh now : F) (s : Inputs num)
      → lt (lit 5 1) (lit 1 0) ≡ true
      → lt (lit 5 1) (lit 0 0) ≡ false
      → on_vive_buttons num thresh now (buttons_message num m btn clicked) s ≡ record {
        btn_t = now;
        trig_now = btn.trigger_analog;
        pad_now = is_pressed num (btn.pressed m.engage);
        menu_now = is_pressed num (btn.pressed m.menu);
        click_now = clicked;
        home_now = is_pressed num (btn.pressed m.home);
        axlock_now = is_pressed num (btn.pressed m.axlock);
      }
  unfolding on_vive_buttons buttons_message
  on_vive_buttons-buttons_message m btn clicked thresh now s h h' =
      let e = λ (b : Bool). is_on-flag b h h' in
      rw
        (
          e (is_pressed num (btn.pressed m.engage)),
          e (is_pressed num (btn.pressed m.menu)),
          e clicked,
          e (is_pressed num (btn.pressed m.home)),
          e (is_pressed num (btn.pressed m.axlock)),
        )
        refl

  -- The latch over a run of values of the axis.
  unfoldable pub latch_run : F → F → Bool → List F → Bool
  latch_run on off l [] = l
  latch_run on off l (a ∷ values) = latch_run on off (latch num on off l a) values

  -- The last value of a run that is outside the band says whether the trigger is clicked; where there
  -- is none, `l` does.
  unfoldable pub last_outside : F → F → Bool → List F → Bool
  last_outside on off l [] = l
  last_outside on off l (a ∷ values) =
      last_outside on off (if lt a off then false else if le num on a then true else l) values

  latch_outside :
      (on off a : F) (l : Bool)
      → lt on off ≡ false
      → latch num on off l a ≡ (if lt a off then false else if le num on a then true else l)
  latch_outside on off a true h = latched_step (lt a off) (le num on a)
  latch_outside on off a false h =
      free_step (lt a off) (le num on a) (λ e. ap not (lt-of_lt_of_le num a off on e h))

  -- Where click_off is not above click_on, the latch is at every moment what the last value outside
  -- the band between them says.
  pub latch_run-last_outside :
      (on off : F) (values : List F) (l : Bool)
      → lt on off ≡ false
      → latch_run on off l values ≡ last_outside on off l values
  unfolding latch_run last_outside
  latch_run-last_outside on off [] l h = refl
  latch_run-last_outside on off (a ∷ values) l h =
      ap (λ b. latch_run on off b values) (latch_outside on off a l h)
      ∙ latch_run-last_outside on off values _ h

  module _ (Pose : Type 0) (same : Pose → Pose → Bool) where
    -- What a poll that gives a pose means: it is the one that was kept last, it was read within the
    -- stale time, and it is new since the last one given or the keepalive has passed since then.
    pub record IsFresh (stale keepalive now : F) (s s' : Adb num Pose same) (p : Pose)
        : Type 0 where
      pub kept : s'.last ≡ some p
      pub recent : lt stale (sub now s'.last_read_t) ≡ false
      pub new_or_late :
          (same_time num Pose same s.emitted_t s'.last_raw_t && lt (sub now s.emitted_at) keepalive)
          ≡ false
      pub noted : (s'.emitted_t ≡ some s'.last_raw_t) × (s'.emitted_at ≡ now)

    emit-IsFresh :
        (stale keepalive now : F) (s : Adb num Pose same) (o : Option Pose) (p : Pose)
        → s.last ≡ o
        → (emit num Pose same stale keepalive now o s).0 ≡ some p
        → IsFresh stale keepalive now s (emit num Pose same stale keepalive now o s).1 p
    emit-IsFresh stale keepalive now s none p e = λ f. absurd cc
    emit-IsFresh stale keepalive now s (some q) p e =
        if-cases
          (λ (x : Option Pose × Adb num Pose same).
            x.0 ≡ some p → IsFresh stale keepalive now s x.1 p)
          (is_due num Pose same stale keepalive now s)
          (λ due f.
            let (recent, late) =
              and-eq_true (not (lt stale (sub now s.last_read_t)))
                (not (
                  same_time num Pose same s.emitted_t s.last_raw_t
                  && lt (sub now s.emitted_at) keepalive))
                due in
            record {
              kept = e ∙ f;
              recent = not-eq_true (lt stale (sub now s.last_read_t)) recent;
              new_or_late = not-eq_true _ late;
              noted = (refl, refl);
            })
          (λ early f. absurd cc)

    record Noted (s s' : Adb num Pose same) : Type 0 where
      pub time_eq : s'.emitted_t ≡ s.emitted_t
      pub at_eq : s'.emitted_at ≡ s.emitted_at

    take_pose-Noted :
        (now : F) (o : Option Pose) (s : Adb num Pose same)
        → Noted s (take_pose num Pose same now o s)
    take_pose-Noted now none s = record { time_eq = refl; at_eq = refl }
    take_pose-Noted now (some p) s =
        if-cases (Noted s) (is_new num Pose same s.last p)
          (λ e. record { time_eq = refl; at_eq = refl })
          (λ e. record { time_eq = refl; at_eq = refl })

    read_raw-Noted :
        (keys : String → String) (now : F) (raw : Option (Raw num Pose same))
        (s : Adb num Pose same)
        → Noted s (read_raw num Pose same keys now raw s).1
    read_raw-Noted keys now none s = record { time_eq = refl; at_eq = refl }
    read_raw-Noted keys now (some r) s = take_pose-Noted now r.transform s

    -- A poll gives a pose only if it is the last one kept, was read within the stale time, and is new
    -- since the last one given or the keepalive has passed since then; the poll takes note of it.
    pub poll-IsFresh :
        (stale keepalive now : F) (keys : String → String) (raw : Option (Raw num Pose same))
        (s : Adb num Pose same) (p : Pose)
        → (poll num Pose same stale keepalive keys now raw s).0 ≡ some p
        → IsFresh stale keepalive now s (poll num Pose same stale keepalive keys now raw s).2 p
    unfolding poll
    poll-IsFresh stale keepalive now keys raw s p e =
        let t = (read_raw num Pose same keys now raw s).1 in
        let k = read_raw-Noted keys now raw s in
        let f = emit-IsFresh stale keepalive now t t.last p refl e in
        let r = (emit num Pose same stale keepalive now t.last t).1.last_raw_t in
        record {
          kept = f.kept;
          recent = f.recent;
          new_or_late =
              sym (
                ap (λ x. same_time num Pose same x r && lt (sub now t.emitted_at) keepalive)
                  k.time_eq
                ∙ ap (λ y. same_time num Pose same s.emitted_t r && lt (sub now y) keepalive)
                    k.at_eq)
              ∙ f.new_or_late;
          noted = f.noted;
        }
