-- ===== src/Teleop/Commanding.antt =====
-- What `send_arm` of teleop_mantis.py sends after the messages of the joints.
use mathlib.Core.List.{Memᴰ}
use mathlib.Core.Option.{some-injective}
use vla_mantis.Base.{
  ◌≡◌, refl, sym, ap, ◌∙◌, subst, ◌⊎◌, inl, inr, Bool, true, false, ◌&&◌, Option, none, some, List,
  String, All, length,
}
use vla_mantis.Base.Num.{Num}
use vla_mantis.Teleop.Command.{
  zip_arm, zip_arm-some, or_else, joint_value, full_cmd, full_cmd_of-some, full_cmd_of-ext,
  IsVector,
}
use vla_mantis.Teleop.Joints.{
  wait, teleop, Wiring, Kinematics, JointState, Joints, known, is_complete, joints_fresh, send,
  command_of, send_arm,
}
use vla_mantis.Teleop.Ready.{
  Has, Has-all, All-map, Held, IsReady, Phased, Phased-cases, waiting-Phased, run, run-Stepped,
}

or_else-Has :
    {F : Type 0} (o o' : Option F) → (v : F) × (o' ≡ some v) → (v : F) × (or_else F o o' ≡ some v)
or_else-Has none o' h = h
or_else-Has (some w) o' h = (w, refl)

and_true : (b : Bool) → (b && true) ≡ b
and_true true = refl
and_true false = refl

module _ (num : Num) {Ik : Type 0} (cfg : Wiring num) (kin : Kinematics num Ik) where
  open num use {F, lt, sub}

  -- The value that a command gives a joint.
  abbrev pub value_of : List F → Joints num Ik → String → Option F
  value_of q st =
      joint_value F cfg.hold_parked (zip_arm F cfg.arm q) st.parked_cmd (known num cfg kin st)

  ready-joints_fresh :
      (now : F) (st : Joints num Ik)
      → IsReady num cfg kin st
      → joints_fresh num cfg kin now st ≡ lt (sub now st.js_t) cfg.joint_timeout
  unfolding joints_fresh
  ready-joints_fresh now st (ready, d, h, parked) =
      simp (d, Has-all (known num cfg kin st) cfg.arm_cmd_joints h, and_true)

  ready-send_arm :
      (q : List F) (v_ff : Option (List F)) (st : Joints num Ik)
      → IsReady num cfg kin st
      → (full : List F) × (send_arm num cfg kin st q v_ff ≡ send num cfg kin (some full) v_ff)
        × IsVector F (value_of q st) cfg.arm_cmd_joints full
  unfolding send_arm
  ready-send_arm q v_ff st (ready, d, h, parked) =
      let (full, e, vector) = full_cmd_of-some F (value_of q st) cfg.arm_cmd_joints (
        All-map (Has (known num cfg kin st)) _ cfg.arm_cmd_joints
          (λ j k. or_else-Has _ _ (or_else-Has _ _ k)) h) in
      (full, ap (λ o. send num cfg kin o v_ff) e, vector)

  -- Whatever messages of the joints come first, none of them raises where the driven joints are joints
  -- of the controller. The bridge then waits, and does not know some joint of its controller; or it is
  -- ready, its joints are stale only by the time of their last message, and every pose of the arm is
  -- sent, as a vector that gives each joint of the controller its value in order: the driven one, else
  -- the parked one where parked joints are held, else the measured one.
  pub run-send_arm :
      (msgs : List (F × JointState num)) (st : Joints num Ik) (q : List F) (v_ff : Option (List F))
      (now : F)
      → All (λ j. Memᴰ j cfg.arm_cmd_joints) cfg.arm
      → st.phase ≡ wait
      → is_complete num cfg kin st ≡ false
      → (st' : Joints num Ik) × (run num cfg kin msgs st ≡ some st')
        × (((st'.phase ≡ wait) × (is_complete num cfg kin st' ≡ false))
            ⊎ ((st'.phase ≡ teleop)
                × (st'.ready ≡ true)
                × (joints_fresh num cfg kin now st' ≡ lt (sub now st'.js_t) cfg.joint_timeout)
                × ((full : List F) × (send_arm num cfg kin st' q v_ff
                      ≡ send num cfg kin (some full) v_ff)
                    × IsVector F (value_of q st') cfg.arm_cmd_joints full)))
  run-send_arm msgs st q v_ff now m w c =
      let (st', e, h, kept) =
        run-Stepped num cfg kin msgs st m (waiting-Phased num cfg kin st w c) in
      (
        st',
        e,
        elim (Phased-cases num cfg kin st' h) [
          | inl waiting ↦ inl waiting
          | inr (t, ready) ↦
              inr (t, ready.0, ready-joints_fresh now st' ready, ready-send_arm q v_ff st' ready)
        ],
      )

  joint_value-Held :
      (q : List F) (parked pos pos' : String → Option F) (j : String)
      → length q ≡ length cfg.arm
      → Held num cfg kin parked j
      → joint_value F true (zip_arm F cfg.arm q) parked pos j
        ≡ joint_value F true (zip_arm F cfg.arm q) parked pos' j
  joint_value-Held q parked pos pos' j e (inl driven) =
      let (v, z) = zip_arm-some F j cfg.arm q driven e in simp (z)
  joint_value-Held q parked pos pos' j e (inr (p, held)) = simp (held)

  All-Held :
      (q : List F) (parked pos pos' : String → Option F) (js : List String)
      → length q ≡ length cfg.arm
      → All (Held num cfg kin parked) js
      → All
          (λ j.
            joint_value F true (zip_arm F cfg.arm q) parked pos j
            ≡ joint_value F true (zip_arm F cfg.arm q) parked pos' j)
          js
  All-Held q parked pos pos' js e h =
      All-map (Held num cfg kin parked) _ js (λ j k. joint_value-Held q parked pos pos' j e k) h

  command_of-Held :
      (q : List F) (st st' : Joints num Ik)
      → cfg.hold_parked ≡ true
      → length q ≡ length cfg.arm
      → All (Held num cfg kin st.parked_cmd) cfg.arm_cmd_joints
      → st'.parked_cmd ≡ st.parked_cmd
      → command_of num cfg kin st' q ≡ command_of num cfg kin st q
  command_of-Held q st st' hold e h same =
      let measured = known num cfg kin st' in
      ap (λ p. full_cmd F cfg.hold_parked cfg.arm q p measured cfg.arm_cmd_joints) same
      ∙ subst
          (λ b.
            full_cmd F b cfg.arm q st.parked_cmd measured cfg.arm_cmd_joints
            ≡ full_cmd F b cfg.arm q st.parked_cmd (known num cfg kin st) cfg.arm_cmd_joints)
          (sym hold)
          (full_cmd_of-ext F _ _ cfg.arm_cmd_joints
            (All-Held q st.parked_cmd measured (known num cfg kin st) cfg.arm_cmd_joints e h))

  -- Once the bridge is ready and holds its parked joints, what it sends for a pose of the arm no longer
  -- depends on the joints that are measured: after any further messages, none of which raises, it sends
  -- the same.
  pub run-send_arm_held :
      (before after : List (F × JointState num)) (st st' : Joints num Ik) (q : List F)
      (v_ff : Option (List F))
      → All (λ j. Memᴰ j cfg.arm_cmd_joints) cfg.arm
      → cfg.hold_parked ≡ true
      → st.phase ≡ wait
      → is_complete num cfg kin st ≡ false
      → run num cfg kin before st ≡ some st'
      → st'.phase ≡ teleop
      → length q ≡ length cfg.arm
      → (st'' : Joints num Ik) × (run num cfg kin after st' ≡ some st'')
        × (send_arm num cfg kin st'' q v_ff ≡ send_arm num cfg kin st' q v_ff)
  unfolding send_arm
  run-send_arm_held before after st st' q v_ff m hold w c r t e =
      let (x, r', h, kept) =
        run-Stepped num cfg kin before st m (waiting-Phased num cfg kin st w c) in
      let h' = subst (Phased num cfg kin) (some-injective _ _ (sym r' ∙ r)) h in
      let (st'', r'', h'', kept') = run-Stepped num cfg kin after st' m h' in
      elim (Phased-cases num cfg kin st' h') [
        | inl waiting ↦ absurd (let w' = waiting.0 in cc)
        | inr (t', ready) ↦ (
          st'',
          r'',
          ap (λ o. send num cfg kin o v_ff) (command_of-Held q st' st'' hold e ready.3 (kept' t).1),
        )
      ]
