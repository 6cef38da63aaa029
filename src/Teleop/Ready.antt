-- ===== src/Teleop/Ready.antt =====
-- The runs of `on_joint_states` of teleop_mantis.py: when the bridge is ready, and what it commands.
use mathlib.Core.List.{Memᴰ}
use vla_mantis.Base.{
  ◌≡◌, refl, sym, ap, ◌∙◌, subst, ◌⊎◌, inl, inr, true, false, Option, none, some, List, [], ◌∷◌,
  String, if-cases, and-eq_true, Option-cases, Bool-cases, All, set,
}
use vla_mantis.Base.Names.{member, all, is_some, Mem-member}
use vla_mantis.Base.Num.{Num}
use vla_mantis.Teleop.Command.{zip_arm}
use vla_mantis.Teleop.Joints.{
  Phase, wait, teleop, Wiring, Kinematics, JointState, Joints, known_in, updated, known,
  is_complete, is_dict, place, placed, rebuilt, parked_at, synced, enter, received, proceed,
  on_joint_states,
}

-- The dictionary has the name.
abbrev pub Has {ℓ} : {F : Type ℓ} → (String → Option F) → String → Type ℓ
Has {F = F} d j = (v : F) × (d j ≡ some v)

is_some-Has {ℓ} : {F : Type ℓ} (d : String → Option F) (j : String) → is_some (d j) ≡ true → Has d j
is_some-Has d j h = elim (Option-cases (d j)) [
  | inl e ↦ absurd (let z = ap is_some e in cc)
  | inr (v, e) ↦ (v, e)
]

all-Has {ℓ} :
    {F : Type ℓ} (d : String → Option F) (js : List String)
    → all (λ j. is_some (d j)) js ≡ true
    → All (Has d) js
all-Has d [] h = tt
all-Has d (j ∷ js) h =
    let (here, later) = and-eq_true (is_some (d j)) _ h in
    (is_some-Has d j here, all-Has d js later)

pub Has-all {ℓ} :
    {F : Type ℓ} (d : String → Option F) (js : List String)
    → All (Has d) js
    → all (λ j. is_some (d j)) js ≡ true
Has-all d [] h = refl
Has-all d (j ∷ js) ((v, e), h) = simp (e, Has-all d js h)

All-Mem {κ} : (P : String → Type κ) (j : String) (ks : List String) → Memᴰ j ks → All P ks → P j
All-Mem P j [] m a = elim m [ ]
All-Mem P j (k ∷ ks) (Memᴰ.head e) a = subst P (sym e) a.0
All-Mem P j (k ∷ ks) (Memᴰ.tail m) a = All-Mem P j ks m a.1

All-subset {κ} :
    (P : String → Type κ) (js ks : List String) → All (λ j. Memᴰ j ks) js → All P ks → All P js
All-subset P [] ks m a = tt
All-subset P (j ∷ js) ks m a = (All-Mem P j ks m.0 a, All-subset P js ks m.1 a)

pub All-map {κ ι} :
    (P : String → Type κ) (Q : String → Type ι) (js : List String)
    → ((j : String) → P j → Q j)
    → All P js
    → All Q js
All-map P Q [] f a = tt
All-map P Q (j ∷ js) f a = (f j a.0, All-map P Q js f a.1)

module _ (num : Num) {Ik : Type 0} (cfg : Wiring num) (kin : Kinematics num Ik) where
  open num use {F, lt, sub}

  -- What is known stays known.
  updated-Has :
      (old : Option (String → Option F)) (new : String → Option F) (j : String)
      → Has (known_in num old) j
      → Has (known_in num (updated num old new)) j
  updated-Has old new j (v, h) = elim (Option-cases (new j)) [
    | inl e ↦ (v, simp (e, h))
    | inr (w, e) ↦ (w, simp (e))
  ]

  placed-some :
      (ik : Ik) (pos : String → Option F) (js : List String) (q : List F)
      → All (Has pos) js
      → (q' : List F) × (placed num cfg kin ik pos js (some q) ≡ some q')
  placed-some ik pos [] q h = (q, refl)
  placed-some ik pos (j ∷ js) q ((x, e), h) =
      let (q', rest) = placed-some ik pos js (set q (kin.qindex ik j) x) h in
      (q', ap (λ o. placed num cfg kin ik pos js (place num cfg kin ik j o (some q))) e ∙ rest)

  -- The joint is driven, or parked at a value.
  abbrev pub Held : (String → Option F) → String → Type 0
  Held parked j = (member j cfg.arm ≡ true) ⊎ Has parked j

  parked_at-Held :
      (pos : String → Option F) (j : String)
      → Memᴰ j cfg.arm_cmd_joints
      → Has pos j
      → Held (parked_at num cfg kin pos) j
  parked_at-Held pos j m (v, e) = elim (Bool-cases (member j cfg.arm)) [
    | inl driven ↦ inl driven
    | inr undriven ↦ inr (v, simp (Mem-member j cfg.arm_cmd_joints m, undriven, e))
  ]

  Mem_refl : (js : List String) → All (λ j. Memᴰ j js) js
  Mem_refl [] = tt
  Mem_refl (j ∷ js) =
      (Memᴰ.head refl, All-map (λ k. Memᴰ k js) _ js (λ k m. Memᴰ.tail m) (Mem_refl js))

  parked_at-All :
      (pos : String → Option F) (js : List String)
      → All (λ j. Memᴰ j cfg.arm_cmd_joints) js
      → All (Has pos) js
      → All (Held (parked_at num cfg kin pos)) js
  parked_at-All pos [] m h = tt
  parked_at-All pos (j ∷ js) m h = (parked_at-Held pos j m.0 h.0, parked_at-All pos js m.1 h.1)

  -- A bridge that is ready knows every joint of its controller, and has parked those it does not drive.
  abbrev pub IsReady : Joints num Ik → Type 0
  IsReady st =
      (st.ready ≡ true)
      × (is_dict num cfg kin st.pos ≡ true)
      × All (Has (known num cfg kin st)) cfg.arm_cmd_joints
      × All (Held st.parked_cmd) cfg.arm_cmd_joints

  abbrev Before : Phase → Joints num Ik → Type 0
  Before wait st = Unit
  Before teleop st = IsReady st

  abbrev pub InPhase : Phase → Joints num Ik → Type 0
  InPhase wait st = is_complete num cfg kin st ≡ false
  InPhase teleop st = IsReady st

  abbrev pub Phased : Joints num Ik → Type 0
  Phased st = InPhase st.phase st

  pub waiting-Phased :
      (st : Joints num Ik) → st.phase ≡ wait → is_complete num cfg kin st ≡ false → Phased st
  waiting-Phased st w c = subst (λ p. InPhase p st) (sym w) c

  pub Phased-cases :
      (st : Joints num Ik)
      → Phased st
      → ((st.phase ≡ wait) × (is_complete num cfg kin st ≡ false))
        ⊎ ((st.phase ≡ teleop) × IsReady st)
  Phased-cases st h = at st.phase refl h
    where
      at :
          (p : Phase)
          → st.phase ≡ p
          → InPhase p st
          → ((st.phase ≡ wait) × (is_complete num cfg kin st ≡ false))
            ⊎ ((st.phase ≡ teleop) × IsReady st)
      at wait e h = inl (e, h)
      at teleop e h = inr (e, h)

  -- A step ends without an exception, and a bridge that is ready keeps its phase and what it parked.
  abbrev pub Stepped : Joints num Ik → Option (Joints num Ik) → Type 0
  Stepped st o =
      (st' : Joints num Ik) × (o ≡ some st')
      × Phased st'
      × (st.phase ≡ teleop → (st'.phase ≡ teleop) × (st'.parked_cmd ≡ st.parked_cmd))

  synced-Stepped :
      (ik : Ik) (o : Option (List F)) (q : List F) (st : Joints num Ik)
      → o ≡ some q
      → st.phase ≡ wait
      → is_dict num cfg kin st.pos ≡ true
      → All (Has (known num cfg kin st)) cfg.arm_cmd_joints
      → Stepped st (synced num cfg kin ik o st)
  synced-Stepped ik o q st e w d h =
      subst (λ o. Stepped st (synced num cfg kin ik o st)) (sym e)
        (
          _,
          refl,
          (refl, d, h, parked_at-All (known num cfg kin st) cfg.arm_cmd_joints (Mem_refl _) h),
          λ t. absurd cc,
        )

  enter-Stepped :
      (p : Phase) (st : Joints num Ik)
      → All (λ j. Memᴰ j cfg.arm_cmd_joints) cfg.arm
      → st.phase ≡ p
      → Before p st
      → is_dict num cfg kin st.pos ≡ true
      → All (Has (known num cfg kin st)) cfg.arm_cmd_joints
      → Stepped st (enter num cfg kin p st)
  enter-Stepped teleop st m e b d h =
      (st, refl, subst (λ p. InPhase p st) (sym e) b, λ t. (t, refl))
  enter-Stepped wait st m e b d h =
      let ik = rebuilt num cfg kin st in
      let (q, placed_all) =
        placed-some ik (known num cfg kin st) cfg.arm (kin.neutral ik)
          (All-subset (Has (known num cfg kin st)) cfg.arm cfg.arm_cmd_joints m h) in
      synced-Stepped ik _ q st placed_all e d h

  Before-InPhase :
      (p : Phase) (st : Joints num Ik)
      → Before p st
      → is_complete num cfg kin st ≡ false
      → InPhase p st
  Before-InPhase wait st b c = c
  Before-InPhase teleop st b c = b

  proceed-Stepped :
      (st : Joints num Ik)
      → All (λ j. Memᴰ j cfg.arm_cmd_joints) cfg.arm
      → Before st.phase st
      → is_dict num cfg kin st.pos ≡ true
      → Stepped st (proceed num cfg kin st)
  proceed-Stepped st m b d =
      if-cases (λ o. Stepped st o) (is_complete num cfg kin st)
        (λ c. enter-Stepped st.phase st m refl b d (all-Has (known num cfg kin st) _ c))
        (λ c. (st, refl, Before-InPhase st.phase st b c, λ t. (t, refl)))

  received-Before :
      (p : Phase) (now : F) (msg : JointState num) (st : Joints num Ik)
      → InPhase p st
      → Before p (received num cfg kin now msg st)
  received-Before wait now msg st h = tt
  received-Before teleop now msg st (ready, d, h, parked) = (
    ready,
    refl,
    All-map _ _ cfg.arm_cmd_joints (λ j k. updated-Has st.pos (zip_arm F msg.name msg.position) j k)
        h,
    parked,
  )

  on_joint_states-Stepped :
      (now : F) (msg : JointState num) (st : Joints num Ik)
      → All (λ j. Memᴰ j cfg.arm_cmd_joints) cfg.arm
      → Phased st
      → Stepped st (on_joint_states num cfg kin now msg st)
  unfolding on_joint_states
  on_joint_states-Stepped now msg st m h =
      proceed-Stepped (received num cfg kin now msg st) m (received-Before st.phase now msg st h)
        refl

  -- The messages of a subscription, one after another.
  abbrev pub run : List (F × JointState num) → Joints num Ik → Option (Joints num Ik)
  run [] st = some st
  run ((now, msg) ∷ msgs) st = elim (on_joint_states num cfg kin now msg st) [
    | none ↦ none
    | some st' ↦ run msgs st'
  ]

  pub run-Stepped :
      (msgs : List (F × JointState num)) (st : Joints num Ik)
      → All (λ j. Memᴰ j cfg.arm_cmd_joints) cfg.arm
      → Phased st
      → Stepped st (run msgs st)
  run-Stepped [] st m h = (st, refl, h, λ t. (t, refl))
  run-Stepped ((now, msg) ∷ msgs) st m h =
      let (st', e, h', kept) = on_joint_states-Stepped now msg st m h in
      let (st'', e', h'', kept') = run-Stepped msgs st' m h' in
      (
        st'',
        ap (λ o. elim o [ none ↦ none | some s ↦ run msgs s ]) e ∙ e',
        h'',
        λ t. let (t', p) = kept t in let (t'', p') = kept' t' in (t'', p' ∙ p),
      )
