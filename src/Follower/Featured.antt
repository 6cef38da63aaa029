-- ===== src/Follower/Featured.antt =====
-- What a connected follower of mantis_follower.py observes fits the features that it declares.
use vla_mantis.Base.{
  ℕ, ◌≡◌, refl, ap, ◌∙◌, subst, Bool, true, false, not, ◌&&◌, ◌||◌, Option, none, some, List, [],
  ◌∷◌, ◌++◌, String, if-cases, and-eq_true, All, is_empty, map, if◌then◌else◌,
}
use text.Mathlib.Text.{◌==◌ as str_eq}
use vla_mantis.Base.Names.{all, is_some}
use vla_mantis.Base.Num.{Num}
use vla_mantis.Recorder.Image.{Image, to_rgb}
use vla_mantis.Recorder.Sizes.{IsSized, to_rgb-IsSized}
use vla_mantis.Follower.State.{Setup, Follower}
use vla_mantis.Follower.Connecting.{
  Topic, filter, put, arrive, shape_of, decodes, Link, Connected, linked, no_sink, no_joints,
  bad_frame, no_frames, not_latched, command_sink, wait_joints, missing, frames_from,
  wait_for_frames, latches, link_frames, link_with, connect,
}
use vla_mantis.Follower.Observing.{
  Pixels, Feature, image, joint_features, camera_features, after_joints, observation_features,
  observed, observe_joints, gripper_of, observe_images, observe, get_observation,
}

-- The images are those of the features: one for each, under its key, as high and as wide as it says.
abbrev pub Shaped : List (String × Feature) → List (String × Pixels) → Type 0
Shaped [] [] = Unit
Shaped [] (i ∷ imgs) = ⊥
Shaped (f ∷ fs) [] = ⊥
Shaped ((key, f) ∷ fs) ((k, rows) ∷ imgs) =
    (key ≡ k) × ((h : ℕ) × (w : ℕ) × (f ≡ image h w 3) × IsSized h w rows) × Shaped fs imgs

filter-nil :
    (p : String → Bool) (ks : List String)
    → is_empty (filter p ks) ≡ true
    → All (λ k. p k ≡ false) ks
filter-nil p [] h = tt
filter-nil p (k ∷ ks) h = split (p k) refl h (filter-nil p ks)
  where
    split :
        (b : Bool)
        → p k ≡ b
        → is_empty (if b then k ∷ filter p ks else filter p ks) ≡ true
        → (is_empty (filter p ks) ≡ true → All (λ k. p k ≡ false) ks)
        → (p k ≡ false) × All (λ k. p k ≡ false) ks
    split true e h rest = cc
    split false e h rest = (e, rest h)

-- A camera that has a frame keeps one.
arrive-is_some :
    (ms : List (String × Image)) (img : String → Option Image) (k : String)
    → not (is_some (img k)) ≡ false
    → not (is_some (arrive ms img k)) ≡ false
arrive-is_some [] img k h = h
arrive-is_some ((key, m) ∷ ms) img k h =
    arrive-is_some ms (put key m img) k
      (if-cases (λ o. not (is_some o) ≡ false) (str_eq key k) (λ e. refl) (λ e. h))

-- The camera has a frame, which decodes, and its shape is noted.
abbrev Viewed : (String → Option Image) → (String → Option (ℕ × ℕ × ℕ)) → String → Type 0
Viewed img shape k =
    (m : Image) × (rows : Pixels) × (img k ≡ some m)
    × (to_rgb m ≡ some rows)
    × (shape k ≡ some (m.height, m.width, 3))

shape_of-Viewed :
    (img : String → Option Image) (k : String)
    → not (is_some (img k)) ≡ false
    → decodes (img k) ≡ true
    → Viewed img (λ k. shape_of (img k)) k
shape_of-Viewed img k has decoded = frame (img k) refl has decoded
  where
    frame :
        (o : Option Image)
        → img k ≡ o
        → not (is_some o) ≡ false
        → decodes o ≡ true
        → Viewed img (λ k. shape_of (img k)) k
    frame none e has decoded = cc
    frame (some m) e has decoded = rows (to_rgb m) refl decoded
      where
        rows :
            (p : Option Pixels)
            → to_rgb m ≡ p
            → is_some p ≡ true
            → Viewed img (λ k. shape_of (img k)) k
        rows none r d = cc
        rows (some px) r d = (m, px, e, r, simp (e, r))

module _ (num : Num) (cfg : Setup num) where
  open num use {F, lt, sub}

  frames_from-missing :
      (t0 : F) (rounds : List (F × List (String × Image))) (last : List (String × Image))
      (img : String → Option Image)
      → let r = frames_from num cfg t0 rounds last img in r.0 ≡ missing num cfg r.1
  unfolding frames_from
  frames_from-missing t0 [] last img = refl
  frames_from-missing t0 ((t, ms) ∷ rounds) last img =
      let seen = arrive ms img in
      if-cases (λ (r : List String × (String → Option Image)). r.0 ≡ missing num cfg r.1)
        (is_empty (missing num cfg seen) || lt cfg.camera_timeout (sub t t0)) (λ h. refl)
        (λ h. frames_from-missing t0 rounds last seen)

  all-Viewed :
      (img : String → Option Image) (late : List (String × Image)) (ks : List String)
      → All (λ k. not (is_some (img k)) ≡ false) ks
      → all (λ k. decodes (arrive late img k)) ks ≡ true
      → All (Viewed (arrive late img) (λ k. shape_of (arrive late img k))) ks
  all-Viewed img late [] has d = tt
  all-Viewed img late (k ∷ ks) has d =
      let (here, later) = and-eq_true _ _ d in
      (
        shape_of-Viewed (arrive late img) k (arrive-is_some late img k has.0) here,
        all-Viewed img late ks has.1 later,
      )

  abbrev Seen : Option (List String × Follower num) → Type 0
  Seen none = Unit
  Seen (some (absent, st)) =
      is_empty absent ≡ true → All (Viewed st.img_msg st.img_shape) cfg.camera_topics

  wait_for_frames-Seen : (e : Link num) (st : Follower num) → Seen (wait_for_frames num cfg e st)
  unfolding wait_for_frames
  wait_for_frames-Seen e st =
      let r = frames_from num cfg e.frames_t0 e.frame_rounds e.frames st.img_msg in
      if-cases (λ o. Seen o) (all (λ k. decodes (arrive e.late_frames r.1 k)) cfg.camera_topics)
        (λ d none_absent.
          all-Viewed r.1 e.late_frames cfg.camera_topics
            (filter-nil _ cfg.camera_topics (
              subst (λ ks. is_empty ks ≡ true)
                (frames_from-missing e.frames_t0 e.frame_rounds e.frames st.img_msg) none_absent))
            d)
        (λ h. tt)

  abbrev LinkedViewed : Connected num → Type 0
  LinkedViewed (linked st) = All (Viewed st.img_msg st.img_shape) cfg.camera_topics
  LinkedViewed no_sink = Unit
  LinkedViewed (no_joints st) = Unit
  LinkedViewed bad_frame = Unit
  LinkedViewed (no_frames ks st) = Unit
  LinkedViewed not_latched = Unit

  link_frames-LinkedViewed :
      (e : Link num) (joints : List String) (o : Option (List String × Follower num))
      → Seen o
      → LinkedViewed (link_frames num cfg e joints o)
  link_frames-LinkedViewed e joints none h = tt
  link_frames-LinkedViewed e joints (some (absent, st)) h =
      if-cases (λ (c : Connected num). LinkedViewed c) (is_empty absent)
        (λ none_absent.
          if-cases (λ (c : Connected num). LinkedViewed c)
            (latches num cfg joints e.pos && latches num cfg cfg.arm_cmd_joints e.pos)
            (λ l. h none_absent) (λ l. tt))
        (λ some_absent. tt)

  link_with-LinkedViewed :
      (e : Link num) (sink : Option (Topic × List String)) (st : Follower num)
      → LinkedViewed (link_with num cfg e sink st)
  link_with-LinkedViewed e none st = tt
  link_with-LinkedViewed e (some (t, joints)) st =
      if-cases (λ (c : Connected num). LinkedViewed c) (wait_joints num cfg e.t0 e.joint_rounds)
        (λ came. link_frames-LinkedViewed e joints _ (wait_for_frames-Seen e _)) (λ h. tt)

  observe_images-Shaped :
      (st : Follower num) (ks : List String) (vs : List (String × F)) (g : F)
      → All (Viewed st.img_msg st.img_shape) ks
      → (fs : List (String × Feature)) × (imgs : List (String × Pixels)) × (camera_features num cfg
            st.img_shape ks
          ≡ some fs)
        × (observe_images num cfg st.img_msg ks vs g ≡ observed vs g imgs)
        × (map (λ i. i.0) imgs ≡ ks)
        × Shaped fs imgs
  observe_images-Shaped st [] vs g h = ([], [], refl, refl, refl, tt)
  observe_images-Shaped st (k ∷ ks) vs g ((m, rows, held, decoded, noted), h) =
      let (fs, imgs, f, o, keys, shaped) = observe_images-Shaped st ks vs g h in
      (
        (k, image m.height m.width 3) ∷ fs,
        (k, rows) ∷ imgs,
        simp (noted, f),
        simp (held, decoded, o),
        ap (λ l. k ∷ l) keys,
        (refl, (m.height, m.width, refl, to_rgb-IsSized m rows decoded), shaped),
      )

  observe_joints-some :
      (pos : String → Option F) (js : List String)
      → All (λ j. is_some (pos j) ≡ true) js
      → (vs : List (String × F)) × (observe_joints num cfg pos js ≡ some vs)
        × (map (λ v. v.0) vs ≡ js)
  observe_joints-some pos [] h = ([], refl, refl)
  observe_joints-some pos (j ∷ js) h =
      let (vs, rest, keys) = observe_joints-some pos js h.1 in value (pos j) refl h.0 vs rest keys
    where
      value :
          (o : Option F)
          → pos j ≡ o
          → is_some o ≡ true
          → (vs : List (String × F)) → observe_joints num cfg pos js ≡ some vs
          → map (λ v. v.0) vs ≡ js
          → (us : List (String × F)) × (observe_joints num cfg pos (j ∷ js) ≡ some us)
            × (map (λ v. v.0) us ≡ j ∷ js)
      value none e h vs rest keys = cc
      value (some v) e h vs rest keys = ((j, v) ∷ vs, simp (e, rest), ap (λ l. j ∷ l) keys)

  -- Once a follower has connected, it declares its features, and with the frames that it then holds
  -- and any positions that cover the arm it observes without an exception: a value for each joint of
  -- the arm and an image for each camera of the configuration, in their order. The features are those
  -- of the joints and the gripper, then one for each image, of its height and width.
  pub connect-get_observation :
      (e : Link num) (st st' : Follower num) (pos : String → Option F)
      → connect num cfg e st ≡ linked st'
      → All (λ j. is_some (pos j) ≡ true) cfg.arm
      → (fs : List (String × Feature)) × (vs : List (String × F)) × (g : F) × (imgs : List
          (String × Pixels))
        × (observation_features num cfg st' ≡ some (joint_features num cfg ++ fs))
        × (get_observation num cfg (record st' { pos = pos }) ≡ observed vs g imgs)
        × (map (λ v. v.0) vs ≡ cfg.arm)
        × (map (λ i. i.0) imgs ≡ cfg.camera_topics)
        × Shaped fs imgs
  unfolding connect observation_features get_observation
  connect-get_observation e st st' pos h known =
      let viewed =
        subst (λ c. LinkedViewed c) h (link_with-LinkedViewed e (command_sink num cfg) st) in
      let (vs, values, joints) = observe_joints-some pos cfg.arm known in
      let g = gripper_of num cfg (pos cfg.grip_joint) st'.grip_sent in
      let (fs, imgs, f, o, keys, shaped) =
        observe_images-Shaped st' cfg.camera_topics vs g viewed in
      (
        fs,
        vs,
        g,
        imgs,
        ap (λ o. after_joints num cfg o) f,
        ap (λ o. observe num cfg o (record st' { pos = pos })) values ∙ o,
        joints,
        keys,
        shaped,
      )
