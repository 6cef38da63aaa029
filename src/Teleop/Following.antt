-- ===== src/Teleop/Following.antt =====
-- How the target of teleop_mantis.py moves in a tick: held, or led within reach of the arm.
use vla_mantis.Base.{
  ◌≡◌, refl, sym, ap, subst, ◌∙◌, ◌⊎◌, inl, inr, Bool, true, false, not, ◌&&◌, Option, none, some,
  List, if-cases, not-eq_false, not-eq_true, and-eq_true,
}
use vla_mantis.Base.Num.{Num, scaled, le}
use vla_mantis.Teleop.Tracking.{Maths, Limits, Tracker, is_degraded, is_fresh, seen}
use vla_mantis.Teleop.Target.{
  Space, Mapping, Motion, plus, minus, within, progress_of, unwound, follow, hold, recovered,
  follow_pose, capture_refs, move_target, dt_vr, asked, wanted, yaw_frame,
}

module _ (num : Num) (space : Space num) (cfg : Mapping num) where
  open num use {F, lt, lit, div, mul}

  -- The point is within the distance, or it is at it, on the line from `from` to a point beyond.
  abbrev pub Within : F → List F → List F → Type 0
  Within limit from x =
      (lt limit (space.norm (minus num space cfg x from)) ≡ false)
      ⊎ ((p : List F) × (lt limit (space.norm (minus num space cfg p from)) ≡ true)
          × (x
              ≡ plus num space cfg from (
                  scaled num (div limit (space.norm (minus num space cfg p from)))
                    (minus num space cfg p from))))

  within-Within :
      (limit : F) (from p : List F) → Within limit from (within num space cfg limit from p)
  unfolding within
  within-Within limit from p =
      if-cases (λ (x : List F). Within limit from x)
        (lt limit (space.norm (minus num space cfg p from))) (λ far. inr (p, far, refl))
        (λ near. inl near)

  -- What the anti-windup leaves as it was.
  abbrev Kept : Motion num → Motion num → Type 0
  Kept m x = (x.pose_lost ≡ m.pose_lost) × (x.ref ≡ m.ref) × (x.r_ref ≡ m.r_ref)

  progress_of-Kept :
      (dt : F) (ee lead : List F) (o : Option (List F)) (m : Motion num)
      → Kept m (progress_of num space cfg dt ee lead o m)
  progress_of-Kept dt ee lead none m = (refl, refl, refl)
  progress_of-Kept dt ee lead (some prev) m =
      if-cases (λ (x : Motion num). Kept m x) (le num (mul (lit 9 1) cfg.dt) (num.add m.ee_dt dt))
        (λ e. (refl, refl, refl)) (λ e. (refl, refl, refl))

  unwound-Kept :
      (dt : F) (ee lead raw p : List F) (m : Motion num)
      → Kept m (unwound num space cfg dt ee lead raw p m)
  unfolding unwound
  unwound-Kept dt ee lead raw p m =
      let kept = progress_of-Kept dt ee lead m.ee_prev m in
      let m' = progress_of num space cfg dt ee lead m.ee_prev m in
      if-cases (λ (x : Motion num). Kept m x) (not (lt (lit 0 0) cfg.antiwind_rate))
        (λ off. (refl, refl, refl))
        (λ on.
          if-cases (λ (x : Motion num). Kept m x)
            (lt (lit 1 9) (space.norm (minus num space cfg p raw))
              && lt m'.antiwind_prog cfg.antiwind_stuck_speed)
            (λ e. kept) (λ e. kept))

  module _ (maths : Maths num) (lim : Limits num) where
    -- The references of a move from `m` at a pose: after a loss those of the pose, with the anchor at the
    -- target, and without one those that there were; and nothing else that the move is made of changes.
    pub record Anchored (cur Rc : List F) (m x : Motion num) : Type 0 where
      pub found : x.pose_lost ≡ false
      pub target_eq : x.target ≡ m.target
      pub axlock_active_eq : x.axlock_active ≡ m.axlock_active
      pub axlock_p0_eq : x.axlock_p0 ≡ m.axlock_p0
      pub axlock_u_eq : x.axlock_u ≡ m.axlock_u
      pub references :
          ((m.pose_lost ≡ false) × (x.ref ≡ m.ref) × (x.r_ref ≡ m.r_ref) × (x.anchor ≡ m.anchor))
          ⊎ ((m.pose_lost ≡ true)
              × (x.ref ≡ cur)
              × (x.r_ref ≡ yaw_frame num space cfg Rc)
              × (x.anchor ≡ m.target))

    -- What a tick does to the target: nothing while the clutch is open; it holds it while the pose is not
    -- fresh; else it leads it to the point that the move from its references asks for, at the speed of the
    -- target and within reach of the arm, and the references are anchored anew after a loss.
    pub data Moved (now : F) (ee Rc : List F) (t : Tracker num) (m m' : Motion num) : Type 0 where
      idle :
          (m.ready && m.engaged) ≡ false
          → m'.target ≡ m.target
          → m'.anchor ≡ m.anchor
          → Moved now ee Rc t m m'
      held :
          is_fresh num maths lim now t ≡ false
          → m'.target ≡ m.target
          → m'.anchor ≡ m.anchor
          → m'.ref ≡ m.ref
          → m'.pose_lost ≡ true
          → Moved now ee Rc t m m'
      led :
          (cur p : List F) (x : Motion num)
          → t.cur ≡ some cur
          → is_fresh num maths lim now t ≡ true
          → Anchored cur Rc m x
          → p
            ≡ within num space cfg
                (mul cfg.max_target_speed (dt_vr num space cfg now m.vr_t_last))
                m.target
                (wanted num space cfg cur x)
          → Within (mul cfg.max_target_speed (dt_vr num space cfg now m.vr_t_last)) m.target p
          → m'.target ≡ within num space cfg cfg.max_lead ee p
          → Within cfg.max_lead ee m'.target
          → m'.pose_lost ≡ false
          → m'.ref ≡ x.ref
          → m'.r_ref ≡ x.r_ref
          → Moved now ee Rc t m m'

    module _ (now : F) (ee Rc : List F) (t : Tracker num) (m : Motion num) where
      hold-Moved :
          (degraded : Bool)
          → is_fresh num maths lim now t ≡ false
          → Moved now ee Rc t m
              (hold num space cfg maths lim degraded (record m { vr_t_last = some now }))
      hold-Moved degraded stale =
          if-cases (λ (x : Motion num). Moved now ee Rc t m x) m.pose_lost
            (λ lost. held stale refl refl refl lost)
            (λ not_lost.
              if-cases (λ (x : Motion num). Moved now ee Rc t m x) degraded
                (λ e. held stale refl refl refl refl) (λ e. held stale refl refl refl refl))

      recovered-Anchored :
          (cur : List F)
          → Anchored cur Rc m
              (recovered num space cfg maths lim cur Rc (record m { vr_t_last = some now }))
      unfolding capture_refs
      recovered-Anchored cur =
          if-cases (λ (x : Motion num). Anchored cur Rc m x) m.pose_lost
            (λ lost. record {
              found = refl;
              target_eq = refl;
              axlock_active_eq = refl;
              axlock_p0_eq = refl;
              axlock_u_eq = refl;
              references = inr (lost, refl, refl, refl);
            })
            (λ kept. record {
              found = kept;
              target_eq = refl;
              axlock_active_eq = refl;
              axlock_p0_eq = refl;
              axlock_u_eq = refl;
              references = inl (kept, refl, refl, refl);
            })

      follow-Moved :
          (cur : List F) (x : Motion num)
          → t.cur ≡ some cur
          → is_fresh num maths lim now t ≡ true
          → Anchored cur Rc m x
          → Moved now ee Rc t m
              (follow num space cfg (dt_vr num space cfg now m.vr_t_last) ee cur x)
      unfolding follow
      follow-Moved cur x seen_at fresh anchored =
          let dt = dt_vr num space cfg now m.vr_t_last in
          let most = mul cfg.max_target_speed dt in
          let to = wanted num space cfg cur x in
          let p = within num space cfg most x.target to in
          let point = within num space cfg cfg.max_lead ee p in
          let kept =
            unwound-Kept dt ee (minus num space cfg p ee) (asked num space cfg cur x) point x in
          led cur p x seen_at fresh anchored
            (ap (λ (from : List F). within num space cfg most from to) anchored.target_eq)
            (subst (λ (from : List F). Within most from p) anchored.target_eq
              (within-Within most x.target to))
            refl (within-Within cfg.max_lead ee p) (kept.0 ∙ anchored.found) kept.1 kept.2

      follow_pose-Moved :
          (c : Option (List F)) (R : Option (List F))
          → t.cur ≡ c
          → R ≡ some Rc
          → seen num maths lim c ≡ true
          → is_fresh num maths lim now t ≡ true
          → Moved now ee Rc t m (
              follow_pose num space cfg maths lim
                (dt_vr num space cfg now m.vr_t_last)
                ee
                c
                R
                (record m { vr_t_last = some now }))
      follow_pose-Moved none R ec er s fresh = absurd cc
      follow_pose-Moved (some cur) none ec er s fresh = absurd cc
      follow_pose-Moved (some cur) (some R) ec er s fresh =
          subst
            (λ (r : Option (List F)). Moved now ee Rc t m (
              follow_pose num space cfg maths lim (dt_vr num space cfg now m.vr_t_last) ee
                (some cur) r (record m { vr_t_last = some now })))
            (sym er) (follow-Moved cur _ ec fresh (recovered-Anchored cur))

    fresh-seen :
        (now : F) (t : Tracker num)
        → is_fresh num maths lim now t ≡ true
        → seen num maths lim t.cur ≡ true
    unfolding is_fresh
    fresh-seen now t fresh =
        let in_time = num.lt (num.sub now t.pose_t) lim.pose_timeout in
        let s = seen num maths lim t.cur in
        (and-eq_true s in_time (and-eq_true (s && in_time) _ fresh).0).0

    -- Once the tracker has a rotation, a tick of the target never moves it while the clutch is open, nor
    -- while the pose is stale or the tracking is degraded, which it then remembers. Else it leads it to
    -- the point that the move of the controller from the references asks for, or as far toward it as
    -- the target's speed allows in the tick, and then to a point no farther from the arm than the limit,
    -- or to the one at the limit on the line to one that is farther. After a loss, and only then, the
    -- references of that move are first set anew: the pose and the yaw frame that are seen, and the
    -- anchor at the target where it was held.
    pub move_target-Moved :
        (now : F) (ee : List F) (t : Tracker num) (m : Motion num) (Rc : List F)
        → t.rotation ≡ some Rc
        → Moved now ee Rc t m (move_target num space cfg maths lim now ee t m)
    unfolding move_target
    move_target-Moved now ee t m Rc has =
        if-cases (λ (x : Motion num). Moved now ee Rc t m x) (not (m.ready && m.engaged))
          (λ open_clutch. idle (not-eq_true _ open_clutch) refl refl)
          (λ engaged.
            if-cases (λ (x : Motion num). Moved now ee Rc t m x)
              (not (is_fresh num maths lim now t))
              (λ stale.
                hold-Moved now ee Rc t m (is_degraded num maths lim now t) (not-eq_true _ stale))
              (λ fresh.
                let sees = not-eq_false _ fresh in
                follow_pose-Moved now ee Rc t m t.cur t.rotation refl has (fresh-seen now t sees)
                  sees))
