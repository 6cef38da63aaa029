-- ===== src/Teleop/JointTests.antt =====
-- The joint messages of teleop_mantis.py for one driven joint and one that is parked.
use mathlib.Core.List.{Memᴰ}
use vla_mantis.Base.{◌≡◌, refl, ◌⊎◌, true, false, Option, none, some, String, List, [], ◌∷◌, ℕ}
use vla_mantis.Base.Fixed.{fixed, Fixed}
use vla_mantis.Base.Int.{◌-ℤ◌}
use vla_mantis.Teleop.Command.{IsVector, full_cmd_of}
use vla_mantis.Teleop.Joints.{
  wait, teleop, Wiring, Kinematics, JointState, Joints, targeted, unsent, is_complete, joints_fresh,
  on_joint_states, send, send_arm,
}
use vla_mantis.Teleop.Ready.{run}
use vla_mantis.Teleop.Commanding.{value_of, run-send_arm, run-send_arm_held}

abbrev cents : ℕ → Fixed
cents n = fixed.lit n 2

abbrev wiring : Wiring fixed
wiring = record {
  arm = "left" ∷ [];
  arm_cmd_joints = "left" ∷ "right" ∷ [];
  hold_parked = true;
  joint_timeout = cents 50;
  has_shaper = true;
}

-- The model is the configuration that it was reset to; the grasp is where the joint is.
abbrev kinematics : Kinematics fixed (List Fixed)
kinematics = record {
  pink_ik = λ locked. [];
  locked_ref = λ ik. ("right", cents 0) ∷ [];
  neutral = λ ik. cents 0 ∷ [];
  qindex = λ ik j. 0;
  reset_to = λ q ik. q;
  fk_grasp = λ ik. ik;
}

abbrev started : Joints fixed (List Fixed)
started = record {
  pos = none;
  eff = none;
  js_t = cents 0;
  phase = wait;
  parked_measured = false;
  parked_cmd = λ k. none;
  ik = [];
  home = none;
  target = none;
  anchor = none;
  engaged = false;
  ready = false;
}

abbrev measured : String → ℕ → JointState fixed
measured j n = record { name = j ∷ []; position = cents n ∷ []; effort = [] }

-- The right joint is parked at 0.07, and moves later.
abbrev first : List (Fixed × JointState fixed)
first = (cents 1, measured "left" 3) ∷ (cents 2, measured "right" 7) ∷ []

abbrev later : List (Fixed × JointState fixed)
later = (cents 3, measured "left" 4) ∷ (cents 4, measured "right" 90) ∷ []

abbrev state_of : Option (Joints fixed (List Fixed)) → Joints fixed (List Fixed)
state_of none = started
state_of (some st) = st

abbrev ready : Joints fixed (List Fixed)
ready = state_of (run fixed wiring kinematics first started)

ready_some : run fixed wiring kinematics first started ≡ some ready
unfolding on_joint_states ◌-ℤ◌
ready_some = refl

ready_teleop : ready.phase ≡ teleop
unfolding on_joint_states ◌-ℤ◌
ready_teleop = refl

-- Nothing goes out while the right joint is unknown, and then it is held.
waits : send_arm fixed wiring kinematics started (cents 5 ∷ []) none ≡ unsent
unfolding send_arm full_cmd_of
waits = refl

holds :
    send_arm fixed wiring kinematics ready (cents 5 ∷ []) (some (cents 1 ∷ []))
    ≡ targeted (cents 5 ∷ cents 7 ∷ []) (some (cents 1 ∷ cents 0 ∷ []))
unfolding send_arm full_cmd_of on_joint_states ◌-ℤ◌
holds = refl

homed : ready.home ≡ some (cents 3 ∷ [])
unfolding on_joint_states ◌-ℤ◌
homed = refl

run-send_arm_example :
    (st' : Joints fixed (List Fixed)) × (run fixed wiring kinematics first started ≡ some st')
    × (((st'.phase ≡ wait) × (is_complete fixed wiring kinematics st' ≡ false))
        ⊎ ((st'.phase ≡ teleop)
            × (st'.ready ≡ true)
            × (joints_fresh fixed wiring kinematics (cents 9) st'
                ≡ fixed.lt (fixed.sub (cents 9) st'.js_t) wiring.joint_timeout)
            × ((full : List Fixed) × (send_arm fixed wiring kinematics st' (cents 5 ∷ []) none
                  ≡ send fixed wiring kinematics (some full) none)
                × IsVector Fixed
                    (value_of fixed wiring kinematics (cents 5 ∷ []) st')
                    wiring.arm_cmd_joints
                    full)))
run-send_arm_example =
    run-send_arm fixed wiring kinematics first started (cents 5 ∷ []) none (cents 9)
      (Memᴰ.head refl, tt) refl refl

run-send_arm_held_example :
    (st'' : Joints fixed (List Fixed)) × (run fixed wiring kinematics later ready ≡ some st'')
    × (send_arm fixed wiring kinematics st'' (cents 5 ∷ []) none
        ≡ send_arm fixed wiring kinematics ready (cents 5 ∷ []) none)
run-send_arm_held_example =
    run-send_arm_held fixed wiring kinematics first later started ready (cents 5 ∷ []) none
      (Memᴰ.head refl, tt) refl refl refl ready_some ready_teleop refl
