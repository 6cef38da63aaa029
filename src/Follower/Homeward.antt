-- ===== src/Follower/Homeward.antt =====
-- The motion that `_go_home` of mantis_follower.py commands: along certified plans only.
use vla_mantis.Base.{
  ℕ, ◌+◌, zero, suc, ◌<◌, ◌≤◌, ◌⊎◌, ◌≡◌, refl, sym, append_assoc, drop, arith, length, ap, ◌∙◌,
  Bool, true, false, not, Option, some, List, [], ◌∷◌, ◌++◌, if-cases, max, All, subst,
}
use mathlib.Core.List.{Memᴰ}
use vla_mantis.Base.Num.{Num, gap, le, minimum}
use vla_mantis.HomePlanner.{Plan, IsCertified}
use vla_mantis.Follower.State.{
  model_of, value_of, Segment, Setup, Follower, Ik, send_grip, model, ensure_ik,
}
use vla_mantis.Follower.Polyline.{
  OnPath, legs_of, departure, first_of, first_of-append, run_path-OnPath,
}
use vla_mantis.Follower.Tiers.{hp}
use vla_mantis.Follower.Same.{plan_home-IsCertified}
use vla_mantis.Follower.Search.{plan_home}
use vla_mantis.Follower.Homing.{
  Attempt, Tries, Homed, tries_at, asked, home_speed, attempt, in_limits, first_tries, go_home,
}
use vla_mantis.Follower.Retrying.{
  walk, settled, take_plan-Judged, Judged, judge-Judged, attempt-Judged, attempts_from-ends,
}

module _ (num : Num) (cfg : Setup num) (env : ℕ → Attempt num) where
  open num use {F, add}

  -- The segments of a move to home that starts with a feed, the last first, for a collision model: the
  -- walks of some attempts before the `n`-th, one after another. The segments of each either hold a
  -- point or run along a leg of the plan that the attempt was given, from where the feed then is. The
  -- plan is certified from the pose that the attempt measured, at one of the floor scales, and it is
  -- complete unless partial plans are allowed.
  pub data Walks (ik : Ik num) (feed : Option (Segment num)) : ℕ → List (Segment num) → Type 0 where
    no_walk : (n : ℕ) → Walks ik feed n []
    walks :
        (k n : ℕ) (p : Plan num) (gs older : List (Segment num))
        → k < n
        → Walks ik feed k older
        → IsCertified num (hp num cfg ik) (cfg.default_rng k) (env k).meas cfg.home_q p
        → Memᴰ p.floor_scale cfg.home_floor_scales
        → (p.complete ≡ true) ⊎ (cfg.home_allow_partial ≡ true)
        → All
            (OnPath num cfg (home_speed num cfg) (
              legs_of num cfg
                (departure num cfg
                  (env k).drive
                  p.waypoints
                  (value_of num (first_of num cfg older feed) (env k).drive.seg_at)).0
                (departure num cfg
                  (env k).drive
                  p.waypoints
                  (value_of num (first_of num cfg older feed) (env k).drive.seg_at)).1))
            gs
        → Walks ik feed n (gs ++ older)

  Walks-le :
      (ik : Ik num) (feed : Option (Segment num)) (k n : ℕ) (gs : List (Segment num))
      → k ≤ n
      → Walks ik feed k gs
      → Walks ik feed n gs
  Walks-le ik feed k n gs h (no_walk m) = no_walk n
  Walks-le ik feed k n gs h (walks j m p new older lt_m w c at full a) =
      walks j n p new older (omega arith) w c at full a

  Mem-drop : (x : F) (n : ℕ) (xs : List F) → Memᴰ x (drop n xs) → Memᴰ x xs
  Mem-drop x zero xs m = m
  Mem-drop x (suc n) [] m = elim m [ ]
  Mem-drop x (suc n) (y ∷ ys) m = Memᴰ.tail (Mem-drop x n ys m)

  send_grip-kept :
      (ready : Bool) (width : F) (st : Follower num)
      → ((send_grip num ready width st).segments ≡ st.segments)
        × ((send_grip num ready width st).ik ≡ st.ik)
        × ((send_grip num ready width st).seg ≡ st.seg)
  send_grip-kept true width st = (refl, refl, refl)
  send_grip-kept false width st = (refl, refl, refl)

  module _ (on : cfg.home_planner ≡ true)
      (smooth : num.lt cfg.home_smooth_time_s (num.lit 10 1) ≡ false)
      (armed : length cfg.arm ≡ length cfg.home_q)
      (measured : (k : ℕ) → length (env k).meas ≡ length cfg.home_q) (ik : Ik num)
      (st0 : Follower num) (built : st0.ik ≡ some ik) (t_end : F) where
    -- What was commanded since `st0`, by attempts before the `k`-th.
    abbrev Since : ℕ → Follower num → Type 0
    Since k st =
        (new : List (Segment num)) × (st.segments ≡ new ++ st0.segments)
        × (st.ik ≡ st0.ik)
        × (st.seg ≡ first_of num cfg new st0.seg)
        × Walks ik st0.seg k new

    Since-later : (k : ℕ) (st : Follower num) → Since k st → Since (suc k) st
    Since-later k st (new, e, i, s, w) =
        (new, e, i, s, Walks-le ik st0.seg k (suc k) new (omega arith) w)

    abbrev OverAt : ℕ → Homed → Tries num → Follower num → Type 0
    OverAt k h l st = Since (suc k) st

    abbrev GoingAt : ℕ → Tries num → Follower num → Type 0
    GoingAt k l st = Since k st

    walk-Since :
        (k : ℕ) (l : Tries num) (st : Follower num) (p : Plan num)
        → (plan_home num cfg
            (model num cfg st)
            (cfg.default_rng k)
            (env k).meas
            cfg.home_q
            (minimum num t_end (add (env k).plan_now l.budget))
            l.min_scale
            (env k).search).0
          ≡ some p
        → Since k st
        → Since (suc k) (walk num cfg t_end env k p st).1
    walk-Since k l st p e (new, e0, i0, s0, w0) =
        let same : model num cfg st ≡ ik =
          ap (λ (o : Option (Ik num)). model_of num cfg o st.locked) (i0 ∙ built) in
        let (certified, at, full) =
          plan_home-IsCertified num cfg (model num cfg st) (cfg.default_rng k) smooth (env k).meas
            cfg.home_q on (measured k) (armed ∙ sym (measured k))
            (minimum num t_end (add (env k).plan_now l.budget)) l.min_scale (env k).search p e in
        let sure =
          subst
            (λ (i : Ik num).
              IsCertified num (hp num cfg i) (cfg.default_rng k) (env k).meas cfg.home_q p)
            same certified in
        let d = (env k).drive in
        let (gs, e1, a1, i1, s1) =
          run_path-OnPath num cfg p.waypoints (home_speed num cfg) (some t_end) p.floor_scale d
            st in
        (
          gs ++ new,
          e1 ∙ ap (λ l. gs ++ l) e0 ∙ sym (append_assoc gs new st0.segments),
          i1 ∙ i0,
          s1 ∙ ap (first_of num cfg gs) s0 ∙ first_of-append num cfg gs new st0.seg,
          walks k (suc k) p gs new (omega arith) w0 sure (Mem-drop p.floor_scale l.min_scale _ at)
              full
              (subst
                (λ (o : Option (Segment num)).
                  All
                    (OnPath num cfg (home_speed num cfg) (
                      legs_of num cfg (departure num cfg d p.waypoints (value_of num o d.seg_at)).0
                        (departure num cfg d p.waypoints (value_of num o d.seg_at)).1))
                    gs)
                s0 a1),
        )

    attempt-Since :
        (k : ℕ) (l : Tries num) (st : Follower num)
        → Since k st
        → Judged num cfg t_end env OverAt GoingAt k (attempt num cfg t_end k (env k) l st)
    attempt-Since k l st since =
        let later = Since-later k st since in
        let dist = gap num cfg.home_q (env k).meas in
        let l' = asked num cfg k (tries_at num cfg dist l) in
        attempt-Judged num cfg t_end env OverAt GoingAt k l st (λ e. later) (λ e. later)
          (λ e. later)
          (take_plan-Judged num cfg t_end env OverAt GoingAt k _ l' st (λ budget. later)
            (λ p e.
              let on_way = walk-Since k l' st p e since in
              judge-Judged num cfg t_end env OverAt GoingAt k p (walk num cfg t_end env k p st).0
                (settled num cfg t_end env k p.complete).0
                (settled num cfg t_end env k p.complete).1 l' _ (λ h. on_way) (λ h. on_way)
                (λ s. ((λ h. on_way), (λ h. on_way))) on_way))

  -- Where the planner is switched on and smooths for a second or more, and the home pose
  -- and every measured one have the joints of the arm, the segments that the move to
  -- home sets are those of walks, one for some of its attempts, in their order: each segment either
  -- holds a point or runs, no faster than the homing speed, along a leg of the polyline from where the
  -- feed is when the walk starts through the waypoints of the plan of that attempt. That plan is
  -- certified from the pose that the attempt measured, at one of the floor scales, and it is complete
  -- unless partial plans are allowed; however the move ends.
  pub go_home-Homeward :
      (here : List F) (ready : Bool) (start : F) (st : Follower num)
      → cfg.home_planner ≡ true
      → num.lt cfg.home_smooth_time_s (num.lit 10 1) ≡ false
      → length cfg.arm ≡ length cfg.home_q
      → ((k : ℕ) → length (env k).meas ≡ length cfg.home_q)
      → (new : List (Segment num)) × ((go_home num cfg here ready start env st).2.segments
          ≡ new ++ st.segments)
        × Walks (model num cfg st) st.seg (max 1 cfg.home_max_attempts + 1) new
  unfolding go_home
  go_home-Homeward here ready start st on smooth armed measured =
      let ik = model num cfg st in
      let n = max 1 cfg.home_max_attempts in
      let S = λ (o : Homed × Tries num × Follower num).
        (new : List (Segment num)) × (o.2.segments ≡ new ++ st.segments)
        × Walks ik st.seg (n + 1) new in
      let t_end = add start cfg.home_total_time_s in
      let st1 = send_grip num ready cfg.grip_open (ensure_ik num cfg st) in
      let (same, built, feed) = send_grip-kept ready cfg.grip_open (ensure_ik num cfg st) in
      if-cases (λ (o : Homed × Tries num × Follower num). S o)
        (le num (gap num cfg.home_q here) cfg.approach_tol) (λ e. ([], refl, no_walk (n + 1)))
        (λ far.
          if-cases (λ (o : Homed × Tries num × Follower num). S o)
            (not (in_limits num cfg ik cfg.arm cfg.home_q)) (λ e. ([], refl, no_walk (n + 1)))
            (λ inside.
              let (new, e, i, s, w) =
                attempts_from-ends num cfg t_end env
                  (OverAt on smooth armed measured ik st1 built t_end)
                  (GoingAt on smooth armed measured ik st1 built t_end) (n + 1)
                  (attempt-Since on smooth armed measured ik st1 built t_end)
                  (λ h l st'. Since on smooth armed measured ik st1 built t_end (n + 1) st')
                  (λ k h l st' lt_k (new, e, i, s, w).
                    (new, e, i, s, Walks-le ik st1.seg (suc k) (n + 1) new (omega arith) w))
                  (λ l st' s. s) n 1 (first_tries num cfg) st1 refl
                  ([], refl, refl, refl, no_walk 1) in
              (
                new,
                e ∙ ap (λ gs. new ++ gs) same,
                subst (λ (o : Option (Segment num)). Walks ik o (n + 1) new) feed w,
              )))
