-- ===== src/Follower/Latching.antt =====
-- A connected follower of mantis_follower.py can give every joint of its controller a value.
use vla_mantis.Base.{
  ◌≡◌, refl, sym, ap, subst, ◌⊎◌, inl, inr, Bool, true, false, ◌&&◌, ◌||◌, Option, none, some, List,
  [], ◌∷◌, String, if-cases, and-eq_true, Option-cases, All, length, is_empty,
}
use mathlib.Core.List.{Memᴰ}
use vla_mantis.Base.Names.{member, Mem-member, all, is_some}
use vla_mantis.Base.Num.{Num}
use vla_mantis.Teleop.Command.{zip_arm, zip_arm-some, full_cmd_of-some, IsVector}
use vla_mantis.Follower.State.{Setup, Follower, target_value, publish, set_target}
use vla_mantis.Follower.Connecting.{
  Topic, arrive, decodes, Link, Connected, linked, no_sink, no_joints, bad_frame, no_frames,
  not_latched, command_sink, wait_joints, frames_from, wait_for_frames, latched, latches, latch,
  link_frames, link_with, connect,
}

module _ (num : Num) (cfg : Setup num) where
  open num use {F}

  -- The joint is driven, or parked at a value.
  abbrev pub HasValue : (String → Option F) → String → Type 0
  HasValue parked j = (member j cfg.arm ≡ true) ⊎ ((v : F) × (parked j ≡ some v))

  -- Every joint of the controller has a value.
  abbrev pub IsLatched : Follower num → Type 0
  IsLatched st = All (HasValue st.parked) st.cmd_joints

  target_value-some :
      (q : List F) (st : Follower num) (j : String)
      → length q ≡ length cfg.arm
      → HasValue st.parked j
      → (v : F) × (target_value num cfg q st j ≡ some v)
  target_value-some q st j e (inl driven) =
      let (v, z) = zip_arm-some F j cfg.arm q driven e in (v, simp (z))
  target_value-some q st j e (inr (p, parked)) = elim (Option-cases (zip_arm F cfg.arm q j)) [
    | inl z ↦ (p, simp (z, parked))
    | inr (w, z) ↦ (w, simp (z))
  ]

  target_values :
      (q : List F) (st : Follower num) (js : List String)
      → length q ≡ length cfg.arm
      → All (HasValue st.parked) js
      → All (λ j. (v : F) × (target_value num cfg q st j ≡ some v)) js
  target_values q st [] e a = tt
  target_values q st (j ∷ js) e a = (target_value-some q st j e a.0, target_values q st js e a.1)

  -- A latched follower turns every pose of the arm into a command of its controller's joints, each in
  -- its place.
  pub set_target-some :
      (q : List F) (st : Follower num)
      → IsLatched st
      → length q ≡ length cfg.arm
      → (full : List F) × (set_target num cfg q st
          ≡ some (record st { targets = full ∷ st.targets }))
        × IsVector F (target_value num cfg q st) st.cmd_joints full
  unfolding set_target
  set_target-some q st h e =
      let (full, some_full, vector) =
        full_cmd_of-some F _ st.cmd_joints (target_values q st st.cmd_joints e h) in
      (full, ap (λ o. publish num cfg o st) some_full, vector)

  latches-HasValue :
      (joints : List String) (pos : String → Option F) (js : List String)
      → ((j : String) → Memᴰ j js → Memᴰ j joints)
      → latches num cfg js pos ≡ true
      → All (HasValue (latched num cfg joints pos)) js
  latches-HasValue joints pos [] into h = tt
  latches-HasValue joints pos (j ∷ js) into h =
      let (here, later) = and-eq_true (member j cfg.arm || is_some (pos j)) _ h in
      (
        one (member j cfg.arm) (pos j) refl refl here,
        latches-HasValue joints pos js (λ k m. into k (Memᴰ.tail m)) later,
      )
    where
      one :
          (driven : Bool) (o : Option F)
          → member j cfg.arm ≡ driven
          → pos j ≡ o
          → (driven || is_some o) ≡ true
          → HasValue (latched num cfg joints pos) j
      one true o d e h = inl d
      one false none d e h = absurd cc
      one false (some v) d e h = inr (v, simp (d, e, Mem-member j joints (into j (Memᴰ.head refl))))

  -- What a connection that succeeds leaves.
  abbrev Linked : Option (Topic × List String) → Connected num → Type 0
  Linked sink (linked st) =
      (st.connected ≡ true) × ((t : Topic) × (sink ≡ some (t, st.cmd_joints))) × IsLatched st
  Linked sink no_sink = Unit
  Linked sink (no_joints st) = Unit
  Linked sink bad_frame = Unit
  Linked sink (no_frames ks st) = Unit
  Linked sink not_latched = Unit

  latch-Linked :
      (e : Link num) (t : Topic) (joints : List String) (st : Follower num)
      → st.cmd_joints ≡ joints
      → Linked (some (t, joints)) (latch num cfg e joints st)
  latch-Linked e t joints st same =
      if-cases (λ (c : Connected num). Linked (some (t, joints)) c)
        (latches num cfg joints e.pos && latches num cfg cfg.arm_cmd_joints e.pos)
        (λ h. (
          refl,
          (t, simp (same)),
          subst (λ js. All (HasValue (latched num cfg joints e.pos)) js) (sym same)
              (latches-HasValue joints e.pos joints (λ j m. m) (and-eq_true _ _ h).0),
        ))
        (λ h. tt)

  abbrev Kept : List String → Option (List String × Follower num) → Type 0
  Kept joints none = Unit
  Kept joints (some (absent, st)) = st.cmd_joints ≡ joints

  wait_for_frames-Kept :
      (e : Link num) (st : Follower num) → Kept st.cmd_joints (wait_for_frames num cfg e st)
  unfolding wait_for_frames
  wait_for_frames-Kept e st =
      let (absent, img) = frames_from num cfg e.frames_t0 e.frame_rounds e.frames st.img_msg in
      if-cases (λ o. Kept st.cmd_joints o)
        (all (λ k. decodes (arrive e.late_frames img k)) cfg.camera_topics) (λ h. refl) (λ h. tt)

  link_frames-Linked :
      (e : Link num) (t : Topic) (joints : List String) (o : Option (List String × Follower num))
      → Kept joints o
      → Linked (some (t, joints)) (link_frames num cfg e joints o)
  link_frames-Linked e t joints none h = tt
  link_frames-Linked e t joints (some (absent, st)) h =
      if-cases (λ (c : Connected num). Linked (some (t, joints)) c) (is_empty absent)
        (λ here. latch-Linked e t joints st h) (λ h. tt)

  link_with-Linked :
      (e : Link num) (sink : Option (Topic × List String)) (st : Follower num)
      → Linked sink (link_with num cfg e sink st)
  link_with-Linked e none st = tt
  link_with-Linked e (some (t, joints)) st =
      if-cases (λ (c : Connected num). Linked (some (t, joints)) c)
        (wait_joints num cfg e.t0 e.joint_rounds)
        (λ came. link_frames-Linked e t joints _ (wait_for_frames-Kept e _)) (λ h. tt)

  -- A follower that connected commands exactly the joints that its sink names, in their order, and from
  -- then on no pose of the arm is refused: each is turned into a vector that gives every one of those
  -- joints its driven value or the one that it was parked at.
  pub connect-set_target :
      (e : Link num) (st st' : Follower num) (q : List F)
      → connect num cfg e st ≡ linked st'
      → length q ≡ length cfg.arm
      → ((t : Topic) × (command_sink num cfg ≡ some (t, st'.cmd_joints)))
        × ((full : List F) × (set_target num cfg q st'
              ≡ some (record st' { targets = full ∷ st'.targets }))
            × IsVector F (target_value num cfg q st') st'.cmd_joints full)
  unfolding connect
  connect-set_target e st st' q h len =
      let sink = command_sink num cfg in
      let l = subst (λ c. Linked sink c) h (link_with-Linked e sink st) in
      (l.1, set_target-some q st' l.2 len)
