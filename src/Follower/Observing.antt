-- ===== src/Follower/Observing.antt =====
-- `_joint_features`, `observation_features` and `get_observation` of mantis_follower.py.
use vla_mantis.Base.{ℕ, Option, none, some, List, [], ◌∷◌, ◌++◌, String, map}
use vla_mantis.Base.Num.{Num}
use vla_mantis.Recorder.Image.{Image, to_rgb}
use vla_mantis.Follower.State.{Setup, Follower}

-- The image as rows of pixels.
abbrev pub Pixels : Type 0
Pixels = List (List (List ℕ))

-- A feature: `float`, or the shape of an image.
pub data Feature : Type 0 where
  float : Feature
  image : ℕ → ℕ → ℕ → Feature

module _ (num : Num) where
  open num use {F}

  module _ (cfg : Setup num) where
    -- `_joint_features`, each under the name of its joint.
    abbrev pub joint_features : List (String × Feature)
    joint_features = map (λ j. (j, float)) cfg.arm ++ (("gripper", float) ∷ [])

    abbrev pub add_feature :
        String
        → Option (ℕ × ℕ × ℕ)
        → Option (List (String × Feature))
        → Option (List (String × Feature))
    add_feature key none fs = none
    add_feature key (some shape) none = none
    add_feature key (some (h, w, c)) (some fs) = some ((key, image h w c) ∷ fs)

    abbrev pub camera_features :
        (String → Option (ℕ × ℕ × ℕ)) → List String → Option (List (String × Feature))
    camera_features shape [] = some []
    camera_features shape (k ∷ ks) = add_feature k (shape k) (camera_features shape ks)

    abbrev pub after_joints : Option (List (String × Feature)) → Option (List (String × Feature))
    after_joints none = none
    after_joints (some fs) = some (joint_features ++ fs)

    -- `observation_features`; `none` is its exception: a camera has no frame yet.
    unfoldable pub observation_features : Follower num → Option (List (String × Feature))
    observation_features st = after_joints (camera_features st.img_shape cfg.camera_topics)

    -- What `get_observation` returns, or its exception: a joint has no value, a camera stopped, or an
    -- image is in no known encoding. A stale frame is only warned about.
    pub data Observed : Type 0 where
      observed : List (String × F) → F → List (String × Pixels) → Observed
      no_value : Observed
      stopped : String → Observed
      undecoded : String → Observed

    abbrev pub add_value :
        String → Option F → Option (List (String × F)) → Option (List (String × F))
    add_value j none vs = none
    add_value j (some v) none = none
    add_value j (some v) (some vs) = some ((j, v) ∷ vs)

    -- `{f"{j}.pos": pos[j] for j in T.ARM}`
    abbrev pub observe_joints : (String → Option F) → List String → Option (List (String × F))
    observe_joints pos [] = some []
    observe_joints pos (j ∷ js) = add_value j (pos j) (observe_joints pos js)

    -- `pos.get(T.GRIP_JOINT, grip_sent if grip_sent is not None else GRIP_OPEN)`
    abbrev pub gripper_of : Option F → Option F → F
    gripper_of (some v) sent = v
    gripper_of none (some v) = v
    gripper_of none none = cfg.grip_open

    abbrev pub add_image : String → Option Pixels → Observed → Observed
    add_image key none o = undecoded key
    add_image key (some px) (observed js g imgs) = observed js g ((key, px) ∷ imgs)
    add_image key (some px) no_value = no_value
    add_image key (some px) (stopped k) = stopped k
    add_image key (some px) (undecoded k) = undecoded k

    abbrev pub image_of : String → Option Image → Observed → Observed
    image_of key none rest = stopped key
    image_of key (some m) rest = add_image key (to_rgb m) rest

    abbrev pub observe_images :
        (String → Option Image) → List String → List (String × F) → F → Observed
    observe_images msgs [] js g = observed js g []
    observe_images msgs (k ∷ ks) js g = image_of k (msgs k) (observe_images msgs ks js g)

    abbrev pub observe : Option (List (String × F)) → Follower num → Observed
    observe none st = no_value
    observe (some js) st =
        observe_images st.img_msg cfg.camera_topics js
          (gripper_of (st.pos cfg.grip_joint) st.grip_sent)

    -- `get_observation`
    unfoldable pub get_observation : Follower num → Observed
    get_observation st = observe (observe_joints st.pos cfg.arm) st
