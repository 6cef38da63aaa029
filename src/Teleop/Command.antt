-- ===== src/Teleop/Command.antt =====
-- The command of all joints in teleop_mantis.py: `full_cmd`. Dictionaries are functions.
use text.Mathlib.Text.{◌==◌ as str_eq}
use vla_mantis.Base.{
  Bool, true, Option, none, some, List, [], ◌∷◌, String, if◌then◌else◌, ◌≡◌, refl, All, length, inl,
  inr, arith, Option-cases,
}
use vla_mantis.Base.Names.{member, or-eq_true}

module _ (F : Type 0) where
  -- `dict(zip(ARM, positions))`; the last entry of a name counts.
  abbrev pub zip_arm : List String → List F → String → Option F
  zip_arm [] vs k = none
  zip_arm (j ∷ js) [] k = none
  zip_arm (j ∷ js) (v ∷ vs) k =
      let later = zip_arm js vs k in
      elim later [ some w ↦ some w | none ↦ if str_eq j k then some v else none ]

  abbrev pub or_else : Option F → Option F → Option F
  or_else none o = o
  or_else (some v) o = some v

  -- The value of one joint: teleoperated, else parked where parked joints are held, else measured.
  abbrev pub joint_value :
      Bool → (String → Option F) → (String → Option F) → (String → Option F) → String → Option F
  joint_value hold cmd parked measured j =
      or_else (cmd j) (or_else (if hold then parked j else none) (measured j))

  abbrev pub with_value : Option F → Option (List F) → Option (List F)
  with_value none rest = none
  with_value (some v) none = none
  with_value (some v) (some vs) = some (v ∷ vs)

  unfoldable pub full_cmd_of : (String → Option F) → List String → Option (List F)
  full_cmd_of value [] = some []
  full_cmd_of value (j ∷ js) = with_value (value j) (full_cmd_of value js)

  -- `full_cmd`
  abbrev pub full_cmd :
      Bool
      → List String
      → List F
      → (String → Option F)
      → (String → Option F)
      → List String
      → Option (List F)
  full_cmd hold arm positions parked measured joints =
      full_cmd_of (joint_value hold (zip_arm arm positions) parked measured) joints

  -- Each joint has its value in the vector, in order.
  pub data IsVector (value : String → Option F) : List String → List F → Type 0 where
    no_joint : IsVector value [] []
    joint :
        (j : String) (v : F) (js : List String) (vs : List F)
        → value j ≡ some v
        → IsVector value js vs
        → IsVector value (j ∷ js) (v ∷ vs)

  -- A driven joint has a value in a pose of the arm.
  pub zip_arm-some :
      (j : String) (arm : List String) (q : List F)
      → member j arm ≡ true
      → length q ≡ length arm
      → (v : F) × (zip_arm arm q j ≡ some v)
  zip_arm-some j [] q m e = absurd cc
  zip_arm-some j (k ∷ ks) [] m e = absurd (omega arith)
  zip_arm-some j (k ∷ ks) (v ∷ vs) m e = elim (Option-cases (zip_arm ks vs j)) [
    | inr (w, later) ↦ (w, simp (later))
    | inl none_later ↦ elim (or-eq_true _ (member j ks) m) [
      | inl same ↦ (v, simp (none_later, same))
      | inr m' ↦ absurd (let (w, later) = zip_arm-some j ks vs m' (omega arith) in cc)
    ]
  ]

  -- Where every joint has a value there is a vector.
  pub full_cmd_of-some :
      (value : String → Option F) (js : List String)
      → All (λ j. (v : F) × (value j ≡ some v)) js
      → (full : List F) × (full_cmd_of value js ≡ some full) × IsVector value js full
  unfolding full_cmd_of
  full_cmd_of-some value [] a = ([], refl, no_joint)
  full_cmd_of-some value (j ∷ js) ((v, here), a) =
      let (vs, rest, vector) = full_cmd_of-some value js a in
      (v ∷ vs, simp (here, rest), joint j v js vs here vector)

  pub full_cmd_of-ext :
      (value value' : String → Option F) (js : List String)
      → All (λ j. value j ≡ value' j) js
      → full_cmd_of value js ≡ full_cmd_of value' js
  unfolding full_cmd_of
  full_cmd_of-ext value value' [] a = refl
  full_cmd_of-ext value value' (j ∷ js) a = simp (a.0, full_cmd_of-ext value value' js a.1)
