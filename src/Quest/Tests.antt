-- ===== src/Quest/Tests.antt =====
-- The publisher of quest_pub.py on a few readings. A pose is a number.
use vla_mantis.Base.{true, false, none, some, [], ◌∷◌, ◌≡◌, refl, ℕ, String, ◌==◌}
use vla_mantis.Base.Int.{◌-ℤ◌}
use vla_mantis.Base.Fixed.{fixed, Fixed}
use vla_mantis.Quest.Publisher.{
  Buttons, scalar, Raw, Adb, poll, Mapping, buttons_message, Inputs, on_vive_buttons,
}
use vla_mantis.Quest.Latch.{
  on_vive_buttons-buttons_message, latch_run, last_outside, latch_run-last_outside, IsFresh,
  poll-IsFresh,
}

abbrev cents : ℕ → Fixed
cents n = fixed.lit n 2

abbrev right_hand : Mapping fixed
right_hand = record {
  hw_click = false;
  click_on = cents 90;
  click_off = cents 60;
  engage = "thumbstick";
  menu = "b";
  home = "a";
  axlock = "grip";
}

abbrev held : Buttons fixed
held = record { trigger_analog = cents 95; pressed = λ k. some true }

abbrev before : Inputs fixed
before = record {
  btn_t = cents 0;
  trig_now = cents 0;
  pad_now = false;
  menu_now = false;
  click_now = false;
  home_now = false;
  axlock_now = false;
}

on_vive_buttons-buttons_message_example :
    on_vive_buttons fixed (cents 99) (cents 10) (buttons_message fixed right_hand held true) before
    ≡ record {
      btn_t = cents 10;
      trig_now = cents 95;
      pad_now = true;
      menu_now = true;
      click_now = true;
      home_now = true;
      axlock_now = true;
    }
on_vive_buttons-buttons_message_example =
    on_vive_buttons-buttons_message fixed right_hand held true (cents 99) (cents 10) before refl
      refl

latch_run-last_outside_example :
    latch_run fixed (cents 90) (cents 60) false (cents 95 ∷ cents 70 ∷ [])
    ≡ last_outside fixed (cents 90) (cents 60) false (cents 95 ∷ cents 70 ∷ [])
latch_run-last_outside_example =
    latch_run-last_outside fixed (cents 90) (cents 60) (cents 95 ∷ cents 70 ∷ []) false refl

-- In the band the click stays.
stays : latch_run fixed (cents 90) (cents 60) false (cents 95 ∷ cents 70 ∷ []) ≡ true
unfolding latch_run
stays = refl

abbrev idle : Adb fixed ℕ ◌==◌
idle = record {
  last = none;
  last_read_t = cents 0;
  last_raw_t = cents 0;
  emitted_t = none;
  emitted_at = cents 0;
}

abbrev reading : Raw fixed ℕ ◌==◌
reading = record { transform = some 5; analog = scalar (cents 10); buttons = λ k. none }

abbrev keys : String → String
keys k = k

poll-IsFresh_example :
    IsFresh fixed ℕ ◌==◌
      (cents 15)
      (cents 5)
      (cents 100)
      idle
      (poll fixed ℕ ◌==◌ (cents 15) (cents 5) keys (cents 100) (some reading) idle).2
      5
unfolding poll ◌-ℤ◌
poll-IsFresh_example =
    poll-IsFresh fixed ℕ ◌==◌ (cents 15) (cents 5) (cents 100) keys (some reading) idle 5 refl
