-- ===== src/Recorder/Camera.antt =====
-- Images come in, and frames go into the episode's buffer: `_on_image`, `_commit_pending`,
-- `_robot_values` and `_add_frame` of lerobot_recorder.py.
use text.Mathlib.Text.{◌==◌ as str_eq}
use vla_mantis.Base.{
  ◌+◌, Bool, true, false, not, ◌||◌, Option, none, some, List, [], ◌∷◌, ◌++◌, String, leb, length,
  if◌then◌else◌,
}
use vla_mantis.Base.Int.{ℤ, pos, ◌+ℤ◌, ◌-ℤ◌, ltb_ℤ}
use vla_mantis.Recorder.Image.{Image, stamp, to_rgb, to_depth}
use vla_mantis.Recorder.Episode.{
  Pixels, colour, depth, Lerobot, Config, Node, Recorder, update, push, distance,
}

abbrev pub elem : String → List String → Bool
elem k [] = false
elem k (j ∷ js) = str_eq k j || elem k js

-- The secondary image of one camera that is nearest to `target`; the first wins a tie.
unfoldable pub nearest_from : ℤ → ℤ × Image → List (ℤ × Image) → ℤ × Image
unfolding distance
nearest_from target best [] = best
nearest_from target best (c ∷ hist) =
    nearest_from target (if ltb_ℤ (distance c.0 target) (distance best.0 target) then c else best)
      hist

module _ (lib : Lerobot) (cfg : Config lib) where
  open lib use {Value, Buffer, Dataset, Frame}

  abbrev pub cam_keys : List String
  cam_keys = cfg.color_keys ++ cfg.depth_keys

  -- `float(np.median(est))` once five offsets are known
  abbrev pub bias : List ℤ → ℤ
  bias est = if leb 5 (length est) then lib.median est else pos 0

  abbrev pub chosen : ℤ → List ℤ → List (ℤ × Image) → Option (ℤ × Image)
  chosen ps est [] = none
  chosen ps est (c ∷ hist) =
      let target = ps +ℤ bias est in
      let best = nearest_from target c hist in
      if ltb_ℤ cfg.pair_tol (distance best.0 target) then none else some best

  -- The loop over the secondary cameras: each one's image with its stamp, or `None`.
  abbrev pub with_secondary :
      String
      → Option (ℤ × Image)
      → Option (List (String × ℤ × Image))
      → Option (List (String × ℤ × Image))
  with_secondary key none rest = none
  with_secondary key (some c) none = none
  with_secondary key (some c) (some secs) = some ((key, c.0, c.1) ∷ secs)

  unfoldable pub pair_from : List String → ℤ → Recorder lib → Option (List (String × ℤ × Image))
  pair_from [] ps r = some []
  pair_from (key ∷ keys) ps r =
      let rest = pair_from keys ps r in
      if str_eq key cfg.primary
      then rest
      else with_secondary key (chosen ps (r.skew_est key) (r.img_hist key)) rest

  -- `all(j in n.pos for j in T.ARM)`, with the positions
  unfoldable pub measured : List String → (String → Option Value) → Option (List Value)
  measured [] p = some []
  measured (j ∷ js) p = elim (p j) [
    | none ↦ none
    | some v ↦ elim (measured js p) [ none ↦ none | some vs ↦ some (v ∷ vs) ]
  ]

  -- `dict(zip(names, values))`
  abbrev pub zip_values : List String → List Value → List (String × Value)
  zip_values [] vs = []
  zip_values (j ∷ js) [] = []
  zip_values (j ∷ js) (v ∷ vs) = (j, v) ∷ zip_values js vs

  abbrev pub or_value : Option Value → Value → Value
  or_value none d = d
  or_value (some v) d = v

  abbrev pub or_values : Option (List Value) → List Value → List Value
  or_values none d = d
  or_values (some vs) d = vs

  abbrev grip_position : Node lib → Option String → Value → Value
  grip_position n none d = d
  grip_position n (some j) d = or_value (n.pos j) d

  -- `_robot_values`: the action and the observation, without the suffix of their names.
  unfoldable pub robot_values : Node lib → Option (List (String × Value) × List (String × Value))
  unfolding measured
  robot_values n =
      let grip_cmd = if n.grip_want_closed then cfg.grip_close else cfg.grip_open in
      elim (measured cfg.arm n.pos) [
        | none ↦ none
        | some meas ↦ some (
          zip_values cfg.arm (or_values n.last_cmd meas) ++ ("gripper", grip_cmd) ∷ [],
          zip_values cfg.arm meas ++ ("gripper", grip_position n cfg.grip_joint grip_cmd) ∷ [],
        )
      ]

  -- One image of a frame; a depth camera's is decoded as depth. `none` is an exception.
  unfoldable pub decode : String → Image → Option Pixels
  decode key m =
      if elem key cfg.depth_keys
      then elim (to_depth m) [ none ↦ none | some d ↦ some (depth d) ]
      else elim (to_rgb m) [ none ↦ none | some c ↦ some (colour c) ]

  unfoldable pub decode_all : List (String × ℤ × Image) → Option (List (String × Pixels))
  unfolding decode
  decode_all [] = some []
  decode_all ((key, t, m) ∷ secs) = elim (decode key m) [
    | none ↦ none
    | some p ↦ elim (decode_all secs) [ none ↦ none | some ps ↦ some ((key, p) ∷ ps) ]
  ]

  -- The frame of `_add_frame`, or the exception that it catches.
  unfoldable pub make_frame : Node lib → Image → List (String × ℤ × Image) → Option Frame
  unfolding decode_all robot_values
  make_frame n p secs = elim (to_rgb p) [
    | none ↦ none
    | some c ↦ elim (decode_all secs) [
      | none ↦ none
      | some images ↦ elim (robot_values n) [
        | none ↦ none
        | some (act, obs) ↦ lib.frame act obs ((cfg.primary, colour c) ∷ images)
      ]
    ]
  ]

  abbrev pub put_buffer : Recorder lib → Option Buffer → Recorder lib
  put_buffer r none = r
  put_buffer r (some b) = record r { buffer = b; frames = r.frames + 1 }

  abbrev pub put_frame : Recorder lib → Option Frame → Recorder lib
  put_frame r none = r
  put_frame r (some f) = put_buffer r (lib.add_frame r.buffer f)

  -- `_add_frame`: whatever raises, the frame is skipped.
  unfoldable pub add_frame :
      Node lib → Image → List (String × ℤ × Image) → Recorder lib → Recorder lib
  unfolding make_frame
  add_frame n p secs r = put_frame r (make_frame n p secs)

  -- The offsets of an accepted frame go into each camera's estimate.
  unfoldable pub learn : ℤ → List (String × ℤ × Image) → (String → List ℤ) → String → List ℤ
  learn ps [] est = est
  learn ps ((key, t, m) ∷ secs) est = learn ps secs (update est key (push 60 (est key) (t -ℤ ps)))

  abbrev pub commit_of :
      Node lib → Image → Option (List (String × ℤ × Image)) → Recorder lib → Bool × Recorder lib
  commit_of n p none r = (false, r)
  commit_of n p (some secs) r = (
    true,
    add_frame n p secs (record r { pending = none; skew_est = learn (stamp p) secs r.skew_est }),
  )

  -- The rest of `_commit_pending`, from the pending image on.
  abbrev pub commit_pending_of : Node lib → Option Image → Recorder lib → Bool × Recorder lib
  commit_pending_of n none r = (false, r)
  commit_pending_of n (some p) r = commit_of n p (pair_from cam_keys (stamp p) r) r

  unfoldable pub commit_pending : Node lib → Recorder lib → Bool × Recorder lib
  unfolding pair_from learn add_frame
  commit_pending n r = commit_pending_of n r.pending r

  -- A new primary trigger: the pending one is committed, or dropped.
  abbrev pub trigger_of : Node lib → Image → Option Image → Recorder lib → Recorder lib
  trigger_of n m none r = record r { pending = some m }
  trigger_of n m (some p) r =
      let (done, r') = commit_pending n r in
      if done
      then record r' { pending = some m }
      else record r' { pending = some m; dropped = r'.dropped + 1 }

  -- What every image leaves behind: the last one of its camera, and a secondary's history.
  abbrev pub kept_of : String → Image → ℤ → Recorder lib → Recorder lib
  kept_of key m now r =
      let seen = record r { img_msg = update r.img_msg key (some (now, m)) } in
      if str_eq key cfg.primary then seen else record seen {
        img_hist = update seen.img_hist key (push 4 (seen.img_hist key) (stamp m, m));
      }

  unfoldable pub on_image : Node lib → String → Image → ℤ → Recorder lib → Recorder lib
  unfolding commit_pending
  on_image n key m now r =
      let kept = kept_of key m now r in
      if not r.recording
      then kept
      else if str_eq key cfg.primary
      then trigger_of n m kept.pending kept
      else kept
