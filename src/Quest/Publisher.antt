-- ===== src/Quest/Publisher.antt =====
-- `AdbBackend._read_raw` and `poll`, `QuestPub._click` and the buttons of `tick` of quest_pub.py,
-- and `on_vive_buttons` of teleop_mantis.py. A pose is opaque; that its matrix is finite and made
-- orthonormal is what the reading says of it. Connecting and logging are left out.
use text.Mathlib.Text.{◌==◌ as str_eq}
use vla_mantis.Base.{
  Bool, true, false, not, ◌&&◌, ◌||◌, Option, none, some, List, [], ◌∷◌, String, if◌then◌else◌,
}
use vla_mantis.Base.Num.{Num, le}

module _ (num : Num) where
  open num use {F, sub, lt, lit}

  -- An entry of the headset's dictionary for the trigger's axis.
  pub data Analog : Type 0 where
    absent : Analog
    scalar : F → Analog
    vector : List F → Analog

  -- The logical buttons: `btn`, of which the entries are Booleans but for the axis.
  pub record Buttons : Type 0 where
    pub trigger_analog : F
    pub pressed : String → Option Bool

  abbrev pub is_pressed : Option Bool → Bool
  is_pressed none = false
  is_pressed (some b) = b

  abbrev pub axis : Analog → F
  axis absent = lit 0 0
  axis (scalar x) = x
  axis (vector []) = lit 0 0
  axis (vector (x ∷ xs)) = x

  module _ (Pose : Type 0) (same : Pose → Pose → Bool) where
    -- What one read of the headset gives: its pose, where it is a finite 4x4 matrix, and its buttons.
    pub record Raw : Type 0 where
      pub transform : Option Pose
      pub analog : Analog
      pub buttons : String → Option Bool

    pub record Adb : Type 0 where
      pub last : Option Pose
      pub last_read_t : F
      pub last_raw_t : F
      pub emitted_t : Option F
      pub emitted_at : F

    abbrev pub is_new : Option Pose → Pose → Bool
    is_new none p = true
    is_new (some l) p = not (same p l)

    -- The pose of a read is kept where it is a new one.
    abbrev pub take_pose : F → Option Pose → Adb → Adb
    take_pose now none s = s
    take_pose now (some p) s =
        let read = record s { last_read_t = now } in
        if is_new s.last p then record read { last = some p; last_raw_t = now } else read

    abbrev pub logical : List String
    logical = "a" ∷ "b" ∷ "thumbstick" ∷ "grip" ∷ "trigger" ∷ []

    abbrev pub among : String → List String → Bool
    among k [] = false
    among k (j ∷ js) = str_eq k j || among k js

    -- `out` of `_read_raw`: a button that the headset does not report counts as released.
    abbrev pub buttons_of : (String → String) → Raw → Buttons
    buttons_of keys r = record {
      trigger_analog = axis r.analog;
      pressed = λ k. if among k logical then some (is_pressed (r.buttons (keys k))) else none;
    }

    -- `_read_raw`; `none` is a read that failed, or one without buttons.
    abbrev pub read_raw : (String → String) → F → Option Raw → Adb → Option Buttons × Adb
    read_raw keys now none s = (none, s)
    read_raw keys now (some r) s = (some (buttons_of keys r), take_pose now r.transform s)

    -- `self._emitted_t == self._last_raw_t`
    abbrev pub same_time : Option F → F → Bool
    same_time none t = false
    same_time (some e) t = not (lt e t || lt t e)

    -- Neither stale, nor sent before within the keepalive.
    abbrev pub is_due : F → F → F → Adb → Bool
    is_due stale keepalive now s =
        not (lt stale (sub now s.last_read_t))
        && not (same_time s.emitted_t s.last_raw_t && lt (sub now s.emitted_at) keepalive)

    abbrev pub emit : F → F → F → Option Pose → Adb → Option Pose × Adb
    emit stale keepalive now none s = (none, s)
    emit stale keepalive now (some p) s =
        if is_due stale keepalive now s
        then (some p, record s { emitted_t = some s.last_raw_t; emitted_at = now })
        else (none, s)

    -- `poll`, once connected.
    unfoldable pub poll :
        F → F → (String → String) → F → Option Raw → Adb → Option Pose × Option Buttons × Adb
    poll stale keepalive keys now raw s =
        let (btn, s') = read_raw keys now raw s in
        let (sample, s'') = emit stale keepalive now s'.last s' in (sample, btn, s'')

  -- The constants of the publisher.
  pub record Mapping : Type 0 where
    pub hw_click : Bool
    pub click_on : F
    pub click_off : F
    pub engage : String
    pub menu : String
    pub home : String
    pub axlock : String

  -- The latch of the soft click.
  abbrev pub latch : F → F → Bool → F → Bool
  latch on off true a = not (lt a off)
  latch on off false a = le num on a

  -- `_click`, with the latch after it.
  abbrev pub click : Mapping → Buttons → Bool → Bool × Bool
  click m btn latched =
      if m.hw_click
      then (is_pressed (btn.pressed "trigger"), latched)
      else (let l = latch m.click_on m.click_off latched btn.trigger_analog in (l, l))

  abbrev pub flag : Bool → F
  flag b = if b then lit 1 0 else lit 0 0

  -- The message of `tick`, at the click that `_click` gives.
  unfoldable pub buttons_message : Mapping → Buttons → Bool → List F
  buttons_message m btn clicked =
      btn.trigger_analog
      ∷ flag (is_pressed (btn.pressed m.engage))
      ∷ flag (is_pressed (btn.pressed m.menu))
      ∷ flag clicked
      ∷ flag (is_pressed (btn.pressed m.home))
      ∷ flag (is_pressed (btn.pressed m.axlock))
      ∷ []

  -- What `on_vive_buttons` keeps.
  pub record Inputs : Type 0 where
    pub btn_t : F
    pub trig_now : F
    pub pad_now : Bool
    pub menu_now : Bool
    pub click_now : Bool
    pub home_now : Bool
    pub axlock_now : Bool

  abbrev pub is_on : F → Bool
  is_on x = lt (lit 5 1) x

  abbrev pub fourth : F → F → List F → Bool
  fourth thresh trig [] = le num thresh trig
  fourth thresh trig (x ∷ rest) = is_on x

  abbrev pub fifth : List F → Bool
  fifth (x ∷ y ∷ rest) = is_on y
  fifth rest = false

  abbrev pub sixth : List F → Bool
  sixth (x ∷ y ∷ z ∷ rest) = is_on z
  sixth rest = false

  -- `on_vive_buttons`, with the threshold on the trigger for messages of three fields.
  unfoldable pub on_vive_buttons : F → F → List F → Inputs → Inputs
  on_vive_buttons thresh now (trig ∷ pad ∷ menu ∷ rest) s = record {
    btn_t = now;
    trig_now = trig;
    pad_now = is_on pad;
    menu_now = is_on menu;
    click_now = fourth thresh trig rest;
    home_now = fifth rest;
    axlock_now = sixth rest;
  }
  on_vive_buttons thresh now d s = s
