-- ===== src/Teleop/Shaper.antt =====
-- `class CommandShaper` of teleop_mantis.py: the latest target is published at a fixed rate, under
-- limits on velocity and acceleration. One turn of the loop of `_run` is a function; the sleep, the
-- intervals that `stats` reports and the errors of the publisher are left out. `sqrt` is numpy's.
use vla_mantis.Base.{
  ℕ, ◌+◌, Bool, false, not, ◌&&◌, Option, none, some, List, [], ◌∷◌, map, if◌then◌else◌, length,
  ◌==◌,
}
use vla_mantis.Base.Num.{Num, gap, minimum, maximum}

module _ (num : Num) (sqrt : num.F → num.F) where
  open num use {F, add, sub, mul, div, abs, neg, lt, lit}

  -- The arguments of `__init__`, with `period` for 1 / rate, and `OUT_STALE`.
  pub record Limits : Type 0 where
    pub period : F
    pub v_max : F
    pub a_max : F
    pub kp : F
    pub ff_tau : F
    pub resync_snap : F
    pub out_stale : F

  pub record Shaper : Type 0 where
    pub target : Option (List F)
    pub v_ff : Option (List F)
    pub t_target : F
    pub q : Option (List F)
    pub v : Option (List F)
    pub ff : Option (List F)
    pub t_last : F
    pub snaps : ℕ
    pub published : List (List F)

  -- `set_target`
  abbrev pub set_target : List F → Option (List F) → F → Shaper → Shaper
  set_target vec v_ff now s = record s { target = some vec; v_ff = v_ff; t_target = now }

  abbrev pub zeros : List F → List F
  zeros = map (λ x. lit 0 0)

  -- `np.clip`
  abbrev pub clamp : F → F → F → F
  clamp x lo hi = minimum num (maximum num x lo) hi

  module _ (lim : Limits) where
    -- The velocity that one joint wants: its braking curve, with the feed-forward.
    abbrev pub wanted : F → F → F
    wanted err f =
        let v_brake = sqrt (mul (mul (lit 2 0) lim.a_max) (abs err)) in
        clamp (add f (clamp (mul lim.kp err) (neg v_brake) v_brake)) (neg lim.v_max) lim.v_max

    abbrev pub change : F → F → F → F → F → F
    change dt t q v f =
        clamp (sub (wanted (sub t q) f) v) (mul (neg lim.a_max) dt) (mul lim.a_max dt)

    -- The velocity and the position of every joint after one step.
    abbrev pub step_joints : F → List F → List F → List F → List F → List (F × F)
    step_joints dt (t ∷ ts) (q ∷ qs) (v ∷ vs) (f ∷ fs) =
        let v' = add v (change dt t q v f) in (v', add q (mul v' dt)) ∷ step_joints dt ts qs vs fs
    step_joints dt ts qs vs fs = []

    abbrev pub smoothed : F → List F → List F → List F
    smoothed k (f ∷ fs) (g ∷ gs) = add f (mul k (sub g f)) ∷ smoothed k fs gs
    smoothed k fs gs = []

    -- `_ff_f` where it has the target's shape, else zeros.
    abbrev pub shaped : List F → Option (List F) → List F
    shaped tgt none = zeros tgt
    shaped tgt (some f) = if length f == length tgt then f else zeros tgt

    -- The feed-forward of one step.
    abbrev pub forward : F → List F → Option (List F) → Option (List F) → List F
    forward dt tgt ff none = zeros tgt
    forward dt tgt ff (some f) =
        if lt (lit 0 0) lim.ff_tau
        then smoothed (minimum num (lit 1 0) (div dt lim.ff_tau)) (shaped tgt ff) f
        else f

    abbrev pub firsts : List (F × F) → List F
    firsts = map (λ x. x.0)

    abbrev pub seconds : List (F × F) → List F
    seconds = map (λ x. x.1)

    abbrev pub restart : List F → Shaper → Shaper
    restart tgt s = record s { q = some tgt; v = some (zeros tgt); ff = some (zeros tgt) }

    abbrev pub moved_to : List F → List (F × F) → Shaper → Shaper
    moved_to f joints s = record s {
      q = some (seconds joints);
      v = some (firsts joints);
      ff = some f;
    }

    -- `_step` from a position on; without a velocity it raises.
    abbrev pub step_from :
        List F → F → Option (List F) → List F → Option (List F) → Shaper → Option Shaper
    step_from tgt dt v_ff q none s = none
    step_from tgt dt v_ff q (some v) s =
        let f = forward dt tgt s.ff v_ff in some (moved_to f (step_joints dt tgt q v f) s)

    -- `_step`
    abbrev pub step_at : List F → F → Option (List F) → Option (List F) → Shaper → Option Shaper
    step_at tgt dt v_ff none s = some (restart tgt s)
    step_at tgt dt v_ff (some q) s =
        if not (length q == length tgt) then some (restart tgt s) else step_from tgt dt v_ff q s.v s

    abbrev pub publish_at : Option (List F) → Shaper → Shaper
    publish_at none s = s
    publish_at (some q) s = record s { published = q ∷ s.published }

    abbrev pub publish : Option Shaper → Option Shaper
    publish none = none
    publish (some s) = some (publish_at s.q s)

    abbrev pub too_far : List F → Option (List F) → Bool
    too_far tgt none = false
    too_far tgt (some q) = length q == length tgt && lt lim.resync_snap (gap num tgt q)

    -- A target that is too old: the arm is held, at no velocity.
    abbrev pub hold : Option (List F) → Shaper → Shaper
    hold none s = record s { v = none; ff = none }
    hold (some q) s = record s { v = some (zeros q); ff = some (zeros q) }

    abbrev pub turn_to : Option (List F) → F → F → Shaper → Option Shaper
    turn_to none dt now s = some s
    turn_to (some tgt) dt now s =
        if not (lt (sub now s.t_target) lim.out_stale)
        then some (hold s.q s)
        else (let far = too_far tgt s.q in
            let s' = if far then record s { snaps = s.snaps + 1; q = none } else s in
            publish (step_at tgt dt s.v_ff s'.q s'))

    abbrev pub interval : F → Shaper → F
    interval now s =
        minimum num (maximum num (sub now s.t_last) (mul (lit 25 2) lim.period))
          (mul (lit 4 0) lim.period)

    -- One turn of the loop of `_run`.
    unfoldable pub run_turn : F → Shaper → Option Shaper
    run_turn now s = turn_to s.target (interval now s) now (record s { t_last = now })
