-- ===== src/Follower/Connecting.antt =====
-- `_command_sink`, `connect`, `_on_js`, `_on_image` and `_wait_for_frames` of mantis_follower.py. What
-- ROS makes (nodes, publishers, threads) is left out.
use text.Mathlib.Text.{◌==◌ as str_eq}
use vla_mantis.Base.{
  ℕ, Bool, true, false, not, ◌&&◌, ◌||◌, Option, none, some, List, [], ◌∷◌, String, if◌then◌else◌,
  is_empty,
}
use vla_mantis.Base.Names.{member, all, is_some}
use vla_mantis.Base.Num.{Num}
use vla_mantis.Recorder.Image.{Image, to_rgb}
use vla_mantis.Follower.State.{Setup, Follower}

-- The controller that a run commands, by its topic.
pub data Topic : Type 0 where
  arm_cmd_topic arm_cmd_safety_topic : Topic

-- `[k for k in keys if p(k)]`
abbrev pub filter : (String → Bool) → List String → List String
filter p [] = []
filter p (k ∷ ks) = let rest = filter p ks in if p k then k ∷ rest else rest

-- `self._img_msg[key] = msg`
abbrev pub put : String → Image → (String → Option Image) → String → Option Image
put key m img k = if str_eq key k then some m else img k

-- The frames that arrive, one after another.
abbrev pub arrive : List (String × Image) → (String → Option Image) → String → Option Image
arrive [] img = img
arrive ((key, m) ∷ ms) img = arrive ms (put key m img)

-- `self._to_rgb(m).shape` of the frame of a camera, if it has one and it decodes.
abbrev pub shape_in : Image → Option (List (List (List ℕ))) → Option (ℕ × ℕ × ℕ)
shape_in m none = none
shape_in m (some rows) = some (m.height, m.width, 3)

abbrev pub shape_of : Option Image → Option (ℕ × ℕ × ℕ)
shape_of none = none
shape_of (some m) = shape_in m (to_rgb m)

-- The frame, if there is one, is in a known encoding.
abbrev pub decodes : Option Image → Bool
decodes none = true
decodes (some m) = is_some (to_rgb m)

module _ (num : Num) where
  open num use {F, lt, sub}

  -- What `connect` reads: the clock and the joints in each round of its wait for the joints; in each
  -- round of its wait for the frames the clock and the frames that arrived before it (`frames` after
  -- the last round); those that arrived before their shapes are read; and the joints when they are
  -- latched.
  pub record Link : Type 0 where
    pub t0 : F
    pub joint_rounds : List (F × (String → Option F))
    pub frames_t0 : F
    pub frame_rounds : List (F × List (String × Image))
    pub frames : List (String × Image)
    pub late_frames : List (String × Image)
    pub pos : String → Option F

  -- How `connect` ends: connected; the list of the safety filter's joints does not cover the arm; no
  -- joint states; no frame of some cameras; or a joint to latch has no value. After the two timeouts
  -- the follower is disconnected again.
  pub data Connected : Type 0 where
    linked : Follower num → Connected
    no_sink : Connected
    no_joints : Follower num → Connected
    bad_frame : Connected
    no_frames : List String → Follower num → Connected
    not_latched : Connected

  -- `self._pos.update(zip(msg.name, msg.position))`
  abbrev pub update : List String → List F → (String → Option F) → String → Option F
  update [] vs pos = pos
  update (j ∷ js) [] pos = pos
  update (j ∷ js) (v ∷ vs) pos = update js vs (λ k. if str_eq j k then some v else pos k)

  -- `_on_js`
  abbrev pub on_js : List String → List F → Follower num → Follower num
  on_js names positions st = record st { pos = update names positions st.pos }

  -- `_on_image`
  abbrev pub on_image : String → Image → Follower num → Follower num
  on_image key m st = record st { img_msg = put key m st.img_msg }

  module _ (cfg : Setup num) where
    -- The driven joints that the safety filter does not command.
    abbrev pub uncovered : List String
    uncovered = filter (λ j. not (member j cfg.safety_filter_joints)) cfg.arm

    -- `_command_sink`; `none` is its exception.
    unfoldable pub command_sink : Option (Topic × List String)
    command_sink =
        if not cfg.use_safety_filter
        then some (arm_cmd_topic, cfg.arm_cmd_joints)
        else if is_empty uncovered
        then some (arm_cmd_safety_topic, cfg.safety_filter_joints)
        else none

    -- The wait for the joints: whether they came in time.
    abbrev pub wait_joints : F → List (F × (String → Option F)) → Bool
    wait_joints t0 [] = false
    wait_joints t0 ((t, pos) ∷ rounds) =
        let next = wait_joints t0 rounds in
        if not (lt (sub t t0) cfg.connect_timeout)
        then false
        else if all (λ j. is_some (pos j)) cfg.arm_cmd_joints
        then true
        else next

    abbrev pub missing : (String → Option Image) → List String
    missing img = filter (λ k. not (is_some (img k))) cfg.camera_topics

    -- The loop of `_wait_for_frames`: the keys that are still missing, and the frames.
    unfoldable pub frames_from :
        F
        → List (F × List (String × Image))
        → List (String × Image)
        → (String → Option Image)
        → List String × (String → Option Image)
    frames_from t0 [] last img = let seen = arrive last img in (missing seen, seen)
    frames_from t0 ((t, ms) ∷ rounds) last img =
        let seen = arrive ms img in
        let next = frames_from t0 rounds last seen in
        if is_empty (missing seen) || lt cfg.camera_timeout (sub t t0)
        then (missing seen, seen)
        else next

    -- `self._img_shape = {k: self._to_rgb(m).shape for k, m in self._img_msg.items()}`; `none` is the
    -- exception of `_to_rgb`. Only the cameras of the configuration have frames.
    abbrev pub measured :
        List String → (String → Option Image) → Follower num → Option (List String × Follower num)
    measured absent img st =
        if all (λ k. decodes (img k)) cfg.camera_topics
        then some (absent, record st { img_msg = img; img_shape = λ k. shape_of (img k) })
        else none

    -- `_wait_for_frames`: the keys that are still missing.
    unfoldable pub wait_for_frames : Link → Follower num → Option (List String × Follower num)
    wait_for_frames e st =
        let (absent, img) = frames_from e.frames_t0 e.frame_rounds e.frames st.img_msg in
        measured absent (arrive e.late_frames img) st

    -- `{j: self._pos[j] for j in joints if j not in T.ARM}`, and whether each has a value.
    abbrev pub latched : List String → (String → Option F) → String → Option F
    latched joints pos k = if member k joints && not (member k cfg.arm) then pos k else none

    abbrev pub latches : List String → (String → Option F) → Bool
    latches joints pos = all (λ j. member j cfg.arm || is_some (pos j)) joints

    abbrev pub latch : Link → List String → Follower num → Connected
    latch e joints st =
        if latches joints e.pos && latches cfg.arm_cmd_joints e.pos
        then linked (record st {
          parked = latched joints e.pos;
          locked = latched cfg.arm_cmd_joints e.pos;
          connected = true;
        })
        else not_latched

    abbrev pub link_frames : Link → List String → Option (List String × Follower num) → Connected
    link_frames e joints none = bad_frame
    link_frames e joints (some (absent, st)) =
        if is_empty absent
        then latch e joints st
        else no_frames absent (record st { connected = false })

    abbrev pub link_with : Link → Option (Topic × List String) → Follower num → Connected
    link_with e none st = no_sink
    link_with e (some (topic, joints)) st =
        let sunk : Follower num = record st { cmd_joints = joints } in
        if wait_joints e.t0 e.joint_rounds
        then link_frames e joints (wait_for_frames e sunk)
        else no_joints (record sunk { connected = false })

    -- `connect`, up to the move to home.
    unfoldable pub connect : Link → Follower num → Connected
    unfolding command_sink
    connect e st = link_with e command_sink st
