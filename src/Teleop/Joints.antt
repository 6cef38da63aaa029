-- ===== src/Teleop/Joints.antt =====
-- The measured joints in teleop_mantis.py: `on_joint_states`, `_joints_fresh` and `send_arm` of
-- `class Bridge`. Dictionaries are functions. The log is left out.
use vla_mantis.Base.{
  ℕ, Bool, true, false, not, ◌&&◌, ◌||◌, Option, none, some, List, [], ◌∷◌, String, map, is_empty,
  set, if◌then◌else◌,
}
use vla_mantis.Base.Names.{member, all, is_some}
use vla_mantis.Base.Num.{Num}
use vla_mantis.Teleop.Command.{zip_arm, or_else, full_cmd}

-- `self.phase`
pub data Phase : Type 0 where
  wait teleop : Phase

-- The constants of the configuration.
pub record Wiring (num : Num) : Type 0 where
  pub arm : List String
  pub arm_cmd_joints : List String
  pub hold_parked : Bool
  pub joint_timeout : num.F
  -- The output shaper runs: `out_rate` is not 0.
  pub has_shaper : Bool

-- `PinkIK`, as far as the joints concern it: the model for a pose of the locked joints, that pose,
-- the neutral configuration, the index of a joint, the reset, and the position of the grasp.
pub record Kinematics (num : Num) (Ik : Type 0) : Type 0 where
  pub pink_ik : List (String × num.F) → Ik
  pub locked_ref : Ik → List (String × num.F)
  pub neutral : Ik → List num.F
  pub qindex : Ik → String → ℕ
  pub reset_to : List num.F → Ik → Ik
  pub fk_grasp : Ik → List num.F

-- `sensor_msgs/JointState`
pub record JointState (num : Num) : Type 0 where
  pub name : List String
  pub position : List num.F
  pub effort : List num.F

-- `pos` and `eff` are 0 until the first message. The last five are of `self.shared`.
pub record Joints (num : Num) (Ik : Type 0) : Type 0 where
  pub pos : Option (String → Option num.F)
  pub eff : Option (String → Option num.F)
  pub js_t : num.F
  pub phase : Phase
  pub parked_measured : Bool
  pub parked_cmd : String → Option num.F
  pub ik : Ik
  pub home : Option (List num.F)
  pub target : Option (List num.F)
  pub anchor : Option (List num.F)
  pub engaged : Bool
  pub ready : Bool

-- What `send_arm` does: nothing, a target for the shaper with its feed-forward, or a message.
pub data Out (num : Num) : Type 0 where
  unsent : Out num
  targeted : List num.F → Option (List num.F) → Out num
  published : List num.F → Out num

module _ (num : Num) where
  open num use {F, lt, lit, sub, abs}

  -- `d[j]`, where `d` may still be 0.
  abbrev pub known_in : Option (String → Option F) → String → Option F
  known_in none j = none
  known_in (some d) j = d j

  -- `d.update(new)`, or `dict(new)` where `d` is still 0.
  abbrev pub updated : Option (String → Option F) → (String → Option F) → Option (String → Option F)
  updated old new = some (λ j. or_else F (new j) (known_in old j))

  abbrev pub differs : Option F → F → Bool
  differs none v = false
  differs (some x) v = lt (lit 1 1) (abs (sub x v))

  -- `mism` is not empty: a locked joint is away from its pose.
  abbrev pub mismatched : (String → Option F) → List (String × F) → Bool
  mismatched pos [] = false
  mismatched pos ((n, v) ∷ rest) = differs (pos n) v || mismatched pos rest

  abbrev pub measured_or : Option F → F → F
  measured_or none v = v
  measured_or (some x) v = x

  -- `locked_q.update({n: self.pos[n] for n in self.ik.locked_ref if n in self.pos})`
  abbrev pub relocked : (String → Option F) → List (String × F) → List (String × F)
  relocked pos = map (λ r. (r.0, measured_or (pos r.0) r.1))

  module _ {Ik : Type 0} (cfg : Wiring num) (kin : Kinematics num Ik) where
    abbrev pub known : Joints num Ik → String → Option F
    known st = known_in st.pos

    -- `all(j in self.pos for j in ARM_CMD_JOINTS)`
    abbrev pub is_complete : Joints num Ik → Bool
    is_complete st = all (λ j. is_some (known st j)) cfg.arm_cmd_joints

    abbrev pub is_dict : Option (String → Option F) → Bool
    is_dict none = false
    is_dict (some d) = true

    -- `_joints_fresh`
    unfoldable pub joints_fresh : F → Joints num Ik → Bool
    joints_fresh now st = is_dict st.pos && lt (sub now st.js_t) cfg.joint_timeout && is_complete st

    abbrev pub place : Ik → String → Option F → Option (List F) → Option (List F)
    place ik j none q = none
    place ik j (some x) none = none
    place ik j (some x) (some q) = some (set q (kin.qindex ik j) x)

    -- `for name in ARM: q0[self.ik.qindex(name)] = self.pos[name]`; `none` is its exception.
    abbrev pub placed : Ik → (String → Option F) → List String → Option (List F) → Option (List F)
    placed ik pos [] q = q
    placed ik pos (j ∷ js) q = placed ik pos js (place ik j (pos j) q)

    -- The collision model at the measured pose of the parked joints.
    abbrev pub rebuilt : Joints num Ik → Ik
    rebuilt st =
        let locked = kin.locked_ref st.ik in
        if not st.parked_measured && mismatched (known st) locked
        then kin.pink_ik (relocked (known st) locked)
        else st.ik

    -- `self._parked_cmd`
    abbrev pub parked_at : (String → Option F) → String → Option F
    parked_at pos k = if member k cfg.arm_cmd_joints && not (member k cfg.arm) then pos k else none

    abbrev pub synced : Ik → Option (List F) → Joints num Ik → Option (Joints num Ik)
    synced ik none st = none
    synced ik (some q0) st =
        let reset = kin.reset_to q0 ik in
        let home = some (kin.fk_grasp reset) in
        some (record st {
          ik = reset;
          parked_cmd = parked_at (known st);
          home = home;
          target = home;
          anchor = home;
          engaged = false;
          ready = true;
          phase = teleop;
        })

    -- What the first complete state does.
    abbrev pub enter : Phase → Joints num Ik → Option (Joints num Ik)
    enter teleop st = some st
    enter wait st =
        let ik = rebuilt st in synced ik (placed ik (known st) cfg.arm (some (kin.neutral ik))) st

    -- The positions, the efforts and the time of a message.
    abbrev pub received : F → JointState num → Joints num Ik → Joints num Ik
    received now msg st =
        let nm = zip_arm F msg.name msg.position in
        record st {
          pos = updated st.pos nm;
          eff =
              if is_empty msg.effort
              then st.eff
              else updated st.eff (zip_arm F msg.name msg.effort);
          js_t = if all (λ j. is_some (nm j)) cfg.arm then now else st.js_t;
        }

    abbrev pub proceed : Joints num Ik → Option (Joints num Ik)
    proceed st = if is_complete st then enter st.phase st else some st

    -- `on_joint_states`; `none` is its exception.
    unfoldable pub on_joint_states : F → JointState num → Joints num Ik → Option (Joints num Ik)
    on_joint_states now msg st = proceed (received now msg st)

    abbrev pub feed_forward : List F → List F
    feed_forward v_ff =
        map (λ j. measured_or (zip_arm F cfg.arm v_ff j) (lit 0 0)) cfg.arm_cmd_joints

    abbrev pub feed_forward_of : Option (List F) → Option (List F)
    feed_forward_of none = none
    feed_forward_of (some v_ff) = some (feed_forward v_ff)

    abbrev pub send : Option (List F) → Option (List F) → Out num
    send none v_ff = unsent
    send (some full) v_ff =
        if cfg.has_shaper then targeted full (feed_forward_of v_ff) else published full

    -- `full_cmd` of the bridge.
    abbrev pub command_of : Joints num Ik → List F → Option (List F)
    command_of st positions =
        full_cmd F cfg.hold_parked cfg.arm positions st.parked_cmd (known st) cfg.arm_cmd_joints

    -- `send_arm`
    unfoldable pub send_arm : Joints num Ik → List F → Option (List F) → Out num
    send_arm st positions v_ff = send (command_of st positions) v_ff
