-- ===== src/Teleop/Tracking.antt =====
-- The controller's pose in teleop_mantis.py: `OneEuroFilter`, `on_vive_pose` and `_consume_Rc` of
-- `class Bridge`. The statistics that only the log shows, and the sums of the pivot fit, are left out.
use vla_mantis.Base.{
  ℕ, ◌+◌, Bool, true, false, not, ◌&&◌, ◌||◌, Option, none, some, List, [], ◌∷◌, ◌++◌, map, ltb,
  leb, length, take, drop, ◌==◌, if◌then◌else◌,
}
use vla_mantis.Base.Num.{Num, zip_with, scaled, le, minimum}

-- What numpy and pinocchio compute here: a vector's norm, the nearest rotation to a matrix of nine
-- entries, `log3(a @ b.T)`, `exp3(w) @ r`, the median of each coordinate, whether all entries are
-- finite; and Python's `float(n)` and π.
pub record Maths (num : Num) : Type 0 where
  pub norm : List num.F → num.F
  pub orthonormal : List num.F → List num.F
  pub log_between : List num.F → List num.F → List num.F
  pub exp_times : List num.F → List num.F → List num.F
  pub median : List (List num.F) → List num.F
  pub is_finite : List num.F → Bool
  pub of_nat : ℕ → num.F
  pub pi : num.F

-- `OneEuroFilter`: its constants, and its state.
pub record OneEuro (num : Num) : Type 0 where
  pub min_cutoff : num.F
  pub beta : num.F
  pub d_cutoff : num.F
  pub cutoff_max : num.F

pub record Filter (num : Num) : Type 0 where
  pub x_prev : List num.F
  pub t_prev : Option num.F
  pub dx_prev : List num.F

-- The constants of the configuration.
pub record Limits (num : Num) : Type 0 where
  pub pose_timeout : num.F
  pub jump_lin : num.F
  pub jump_ang : num.F
  pub degrade_max_rate : num.F
  pub degrade_window : num.F
  pub degrade_hold : num.F
  pub median_n : ℕ
  pub pivot_min_rot : num.F
  pub ori_antialias : Bool
  pub filter : OneEuro num

-- A position and a rotation.
abbrev pub Pose : Num → Type 0
Pose num = List num.F × List num.F

-- The mean of the rotations since a tick: the rotation it starts from, the sum of the differences to
-- it, and how many they are.
pub record Mean (num : Num) : Type 0 where
  pub from : Option (List num.F)
  pub sum : List num.F
  pub count : ℕ

pub record Tracker (num : Num) : Type 0 where
  pub cur : Option (List num.F)
  pub pose_t : num.F
  pub pose_msg_t : num.F
  pub raw : Option (Pose num)
  pub pos_filter : Filter num
  pub med_buf : List (List num.F)
  pub glitch_t : List num.F
  pub track_bad_until : num.F
  pub glitches : ℕ
  pub drops : ℕ
  pub pivot : Option (Pose num)
  pub pivots : ℕ
  pub mean : Mean num
  -- `self.shared["Rc"]`
  pub rotation : Option (List num.F)

module _ (num : Num) (maths : Maths num) where
  open num use {F, lt, lit, add, sub, mul, div}

  -- `_alpha`
  abbrev pub alpha : F → F → F
  alpha cutoff dt =
      let tau = div (lit 1 0) (mul (mul (lit 2 0) maths.pi) cutoff) in
      div (lit 1 0) (add (lit 1 0) (div tau dt))

  -- `a * x + (1.0 - a) * y`
  abbrev pub mix : F → List F → List F → List F
  mix a x y = zip_with num add (scaled num a x) (scaled num (sub (lit 1 0) a) y)

  abbrev pub capped : OneEuro num → F → F
  capped e cutoff = if lt (lit 0 0) e.cutoff_max then minimum num cutoff e.cutoff_max else cutoff

  abbrev pub smooth : OneEuro num → List F → F → F → Filter num → List F × Filter num
  smooth e x t dt f =
      let dx = map (λ d. div d dt) (zip_with num sub x f.x_prev) in
      let dx_hat = mix (alpha e.d_cutoff dt) dx f.dx_prev in
      let cutoff = capped e (add e.min_cutoff (mul e.beta (maths.norm dx_hat))) in
      let x_hat = mix (alpha cutoff dt) x f.x_prev in
      (x_hat, record { x_prev = x_hat; t_prev = some t; dx_prev = dx_hat })

  abbrev pub filter_from : OneEuro num → List F → F → Option F → Filter num → List F × Filter num
  filter_from e x t none f =
      (x, record { x_prev = x; t_prev = some t; dx_prev = map (λ v. lit 0 0) x })
  filter_from e x t (some t_prev) f =
      let dt = sub t t_prev in if le num dt (lit 0 0) then (f.x_prev, f) else smooth e x t dt f

  -- `OneEuroFilter.__call__`
  unfoldable pub one_euro : OneEuro num → List F → F → Filter num → List F × Filter num
  one_euro e x t f = filter_from e x t f.t_prev f

  module _ (cfg : Limits num) where
    -- `while self._glitch_t and (now - self._glitch_t[0]) > DEGRADE_WINDOW`
    abbrev pub expire : F → List F → List F
    expire now [] = []
    expire now (t ∷ ts) =
        let rest = expire now ts in if lt cfg.degrade_window (sub now t) then rest else t ∷ ts

    -- A rejected pose: it is counted, and many of them in the window hold the target.
    unfoldable pub reject : F → Tracker num → Tracker num
    reject now st =
        let recent = expire now (st.glitch_t ++ (now ∷ [])) in
        let counted : Tracker num = record st { glitches = st.glitches + 1 } in
        let listed : Tracker num = record counted { glitch_t = recent } in
        if not (lt (lit 0 0) cfg.degrade_max_rate)
        then counted
        else if le num (mul cfg.degrade_max_rate cfg.degrade_window) (maths.of_nat (length recent))
        then record listed { track_bad_until = add now cfg.degrade_hold }
        else listed

    -- The pivot moves on when the controller has turned enough.
    abbrev pub next_pivot : List F → List F → Option (Pose num) → Option (Pose num)
    next_pivot p Rc none = some (p, Rc)
    next_pivot p Rc (some (p0, R0)) =
        if le num cfg.pivot_min_rot (maths.norm (maths.log_between Rc R0))
        then some (p, Rc)
        else some (p0, R0)

    abbrev pub pivots_after : List F → Option (Pose num) → ℕ → ℕ
    pivots_after Rc none n = n
    pivots_after Rc (some (p0, R0)) n =
        if le num cfg.pivot_min_rot (maths.norm (maths.log_between Rc R0)) then n + 1 else n

    -- The buffer of the median filter, and what it gives.
    abbrev pub buffered : List F → List (List F) → List (List F)
    buffered p buf =
        let longer = buf ++ (p ∷ []) in
        if not (leb 3 cfg.median_n)
        then buf
        else if ltb cfg.median_n (length longer)
        then drop 1 longer
        else longer

    abbrev pub median_of : List F → List (List F) → List F
    median_of p buf =
        if leb 3 cfg.median_n && length buf == cfg.median_n then maths.median buf else p

    abbrev pub started : List F → Mean num → Mean num
    started Rc m = go m.from
      where
        go : Option (List F) → Mean num
        go none = record { from = some Rc; sum = lit 0 0 ∷ lit 0 0 ∷ lit 0 0 ∷ []; count = 0 }
        go (some R) = m

    abbrev pub added : List F → Option (List F) → Mean num → Mean num
    added Rc none m = m
    added Rc (some R) m = record m {
      sum = zip_with num add m.sum (maths.log_between Rc R);
      count = m.count + 1;
    }

    abbrev pub next_mean : List F → Mean num → Mean num
    next_mean Rc m = if cfg.ori_antialias then added Rc (started Rc m).from (started Rc m) else m

    -- An accepted pose.
    unfoldable pub accept : F → List F → List F → Tracker num → Tracker num
    unfolding one_euro
    accept now p Rc st =
        let buf = buffered p st.med_buf in
        let (out, f) = one_euro cfg.filter (median_of p buf) now st.pos_filter in
        record st {
          cur = some out;
          pose_t = now;
          raw = some (p, Rc);
          pos_filter = f;
          med_buf = buf;
          pivot = next_pivot p Rc st.pivot;
          pivots = pivots_after Rc st.pivot st.pivots;
          mean = next_mean Rc st.mean;
          rotation = some Rc;
        }

    -- After a gap in the stream the filters start anew.
    abbrev pub restarted : Tracker num → Tracker num
    restarted st = record st {
      drops = st.drops + 1;
      pos_filter = record st.pos_filter { t_prev = none };
      med_buf = [];
    }

    abbrev pub speed_lin : F → List F → List F → F
    speed_lin dt p p0 = div (maths.norm (zip_with num sub p p0)) dt

    abbrev pub speed_ang : F → List F → List F → F
    speed_ang dt Rc R0 = div (maths.norm (maths.log_between Rc R0)) dt

    -- `POSE_JUMP > 0.0 and v > POSE_JUMP`
    abbrev pub jumps : F → F → Bool
    jumps limit v = lt (lit 0 0) limit && lt limit v

    abbrev pub is_jump : F → List F → List F → Pose num → Bool
    is_jump dt p Rc (p0, R0) =
        jumps cfg.jump_lin (speed_lin dt p p0) || jumps cfg.jump_ang (speed_ang dt Rc R0)

    abbrev pub gate : F → F → List F → List F → Option (Pose num) → Tracker num → Tracker num
    gate now dt p Rc none st = accept now p Rc st
    gate now dt p Rc (some raw) st =
        if lt (lit 1 6) dt && is_jump dt p Rc raw then reject now st else accept now p Rc st

    abbrev pub take_pose : F → List F → List F → Option (List F) → Tracker num → Tracker num
    take_pose now p Rc none st = accept now p Rc st
    take_pose now p Rc (some cur) st =
        let dt = sub now st.pose_t in
        if le num cfg.pose_timeout dt
        then accept now p Rc (restarted st)
        else gate now dt p Rc st.raw st

    -- `on_vive_pose`, with the two readings of the clock.
    unfoldable pub on_vive_pose : F → F → List F → Tracker num → Tracker num
    on_vive_pose msg_now now d st =
        let arr = take 12 d in
        let Rc = maths.orthonormal (drop 3 arr) in
        if ltb (length d) 12
        then st
        else if not (maths.is_finite arr)
        then st
        else take_pose now (take 3 arr) Rc st.cur (record st { pose_msg_t = msg_now })

    -- `_consume_Rc`, at the last rotation.
    abbrev pub consume_from : List F → Option (List F) → Tracker num → List F × Tracker num
    consume_from last none st = (last, st)
    consume_from last (some R) st =
        let n = st.mean.count in
        let mean = map (λ v. div v (maths.of_nat n)) st.mean.sum in
        if not cfg.ori_antialias || n == 0 then (last, st) else (
          maths.exp_times mean R,
          record st {
            mean = record { from = some last; sum = lit 0 0 ∷ lit 0 0 ∷ lit 0 0 ∷ []; count = 0 };
          },
        )

    unfoldable pub consume_Rc : List F → Tracker num → List F × Tracker num
    consume_Rc last st = consume_from last st.mean.from st

    -- `degraded` and `fresh` of `vr_tick`
    abbrev pub is_degraded : F → Tracker num → Bool
    is_degraded now st = lt (lit 0 0) cfg.degrade_max_rate && lt now st.track_bad_until

    abbrev pub seen : Option (List F) → Bool
    seen none = false
    seen (some c) = true

    unfoldable pub is_fresh : F → Tracker num → Bool
    is_fresh now st =
        seen st.cur && lt (sub now st.pose_t) cfg.pose_timeout && not (is_degraded now st)
