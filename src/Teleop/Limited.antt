-- ===== src/Teleop/Limited.antt =====
-- What the shaper of teleop_mantis.py publishes.
use vla_mantis.Base.{
  ◌+◌, ◌≡◌, ◌≢◌, refl, Bool, true, false, not, not-eq_true, not-eq_false, arith, Option, none, some,
  List, [], ◌∷◌, if-cases, length, ◌==◌, ap, sym, subst,
}
use vla_mantis.Base.Num.{Num}
use vla_mantis.Teleop.Shaper.{
  Limits, Shaper, zeros, clamp, step_joints, forward, firsts, seconds, restart, step_from, step_at,
  publish, too_far, hold, turn_to, interval, run_turn,
}

module _ (num : Num) (sqrt : num.F → num.F) where
  open num use {F, add, sub, mul, neg, lt, lt_irrefl}

  module _ (lim : Limits num sqrt) where
    -- A joint's velocity changed from `v` to the first of a pair, and moved it from `q` to the second.
    pub data Limited (dt : F) : List F → List F → List (F × F) → Type 0 where
      no_joint : (qs vs : List F) → Limited dt qs vs []
      joint :
          (q v w dv : F) (qs vs : List F) (rest : List (F × F))
          → lt w (neg lim.v_max) ≡ false
          → lt lim.v_max w ≡ false
          → dv ≡ clamp num sqrt (sub w v) (mul (neg lim.a_max) dt) (mul lim.a_max dt)
          → lt dv (mul (neg lim.a_max) dt) ≡ false
          → lt (mul lim.a_max dt) dv ≡ false
          → Limited dt qs vs rest
          → Limited dt (q ∷ qs) (v ∷ vs) ((add v dv, add q (mul (add v dv) dt)) ∷ rest)

    -- A position comes with a velocity.
    pub data IsReady (s : Shaper num sqrt) : Type 0 where
      at_start : s.q ≡ none → IsReady s
      under_way : (q v : List F) → s.q ≡ some q → s.v ≡ some v → IsReady s

    -- The target came in time.
    abbrev pub in_time : F → Shaper num sqrt → Bool
    in_time now s = lt (sub now s.t_target) lim.out_stale

    -- Why a turn starts anew at the target: there is no position, or one of another length, or the target
    -- is too far from it.
    pub data Restarts (tgt : List F) (q : Option (List F)) : Type 0 where
      no_position : q ≡ none → Restarts tgt q
      other_shape : (x : List F) → q ≡ some x → length x ≢ length tgt → Restarts tgt q
      far_target : too_far num sqrt lim tgt q ≡ true → Restarts tgt q

    -- The arm is held: there is no velocity, or a zero one.
    pub data Stopped (s : Shaper num sqrt) : Type 0 where
      no_velocity : s.v ≡ none → Stopped s
      at_rest : (q : List F) → s.q ≡ some q → s.v ≡ some (zeros num sqrt q) → Stopped s

    -- What one turn of the loop does. Without a target it changes nothing that is published; a stale one
    -- holds the arm. On a target in time, it starts anew at the target, at no velocity, where the turn
    -- cannot go on from the position; else it takes one step, with its feed-forward, from the position
    -- and the velocity that it had.
    pub data Turned (now dt : F) (s s' : Shaper num sqrt) : Type 0 where
      silent : s.target ≡ none → s'.published ≡ s.published → s'.q ≡ s.q → Turned now dt s s'
      held :
          in_time now s ≡ false
          → s'.published ≡ s.published
          → s'.q ≡ s.q
          → Stopped s'
          → Turned now dt s s'
      jumped :
          (tgt : List F)
          → s.target ≡ some tgt
          → in_time now s ≡ true
          → Restarts tgt s.q
          → Stopped s'
          → s'.published ≡ tgt ∷ s.published
          → s'.q ≡ some tgt
          → Turned now dt s s'
      stepped :
          (tgt q v f : List F)
          → s.target ≡ some tgt
          → in_time now s ≡ true
          → f ≡ forward num sqrt lim dt tgt s.ff s.v_ff
          → length q ≡ length tgt
          → s.q ≡ some q
          → s.v ≡ some v
          → too_far num sqrt lim tgt s.q ≡ false
          → s'.published
            ≡ seconds num sqrt lim (step_joints num sqrt lim dt tgt q v f) ∷ s.published
          → s'.q ≡ some (seconds num sqrt lim (step_joints num sqrt lim dt tgt q v f))
          → s'.v ≡ some (firsts num sqrt lim (step_joints num sqrt lim dt tgt q v f))
          → Turned now dt s s'

    -- A turn that did not raise.
    abbrev pub Done : F → F → Shaper num sqrt → Option (Shaper num sqrt) → Type 0
    Done now dt s none = ⊥
    Done now dt s (some s') = Turned now dt s s' × IsReady s'

    module _ (now dt : F) (s : Shaper num sqrt) where
      hold-Done :
          (o : Option (List F))
          → s.q ≡ o
          → in_time now s ≡ false
          → Done now dt s (some (hold num sqrt lim o s))
      hold-Done none e stale = (held stale refl refl (no_velocity refl), at_start e)
      hold-Done (some q) e stale = (held stale refl refl (at_rest q e refl), under_way q _ e refl)

      restart-Done :
          (tgt : List F) (s' : Shaper num sqrt)
          → s.target ≡ some tgt
          → in_time now s ≡ true
          → Restarts tgt s.q
          → s'.published ≡ s.published
          → Done now dt s (publish num sqrt lim (some (restart num sqrt lim tgt s')))
      restart-Done tgt s' e fresh why p = (
        jumped tgt e fresh why (at_rest tgt refl refl) (ap (λ l. tgt ∷ l) p) refl,
        under_way tgt (zeros num sqrt tgt) refl refl,
      )

      module _ (tgt : List F) (e : s.target ≡ some tgt) (fresh : in_time now s ≡ true)
          (near : too_far num sqrt lim tgt s.q ≡ false) where
        step_from-Done :
            (q v : List F)
            → s.q ≡ some q
            → s.v ≡ some v
            → length q ≡ length tgt
            → Done now dt s (publish num sqrt lim (step_from num sqrt lim tgt dt s.v_ff q s.v s))
        step_from-Done q v eq ev same =
            subst
              (λ o.
                Done now dt s (publish num sqrt lim (step_from num sqrt lim tgt dt s.v_ff q o s)))
              (sym ev)
              (
                stepped tgt q v _ e fresh refl same eq ev near refl refl refl,
                under_way _ _ refl refl,
              )

        step_at-Done :
            IsReady s
            → Done now dt s (publish num sqrt lim (step_at num sqrt lim tgt dt s.v_ff s.q s))
        step_at-Done (at_start eq) =
            subst
              (λ o. Done now dt s (publish num sqrt lim (step_at num sqrt lim tgt dt s.v_ff o s)))
              (sym eq) (restart-Done tgt s e fresh (no_position eq) refl)
        step_at-Done (under_way q v eq ev) =
            subst
              (λ o. Done now dt s (publish num sqrt lim (step_at num sqrt lim tgt dt s.v_ff o s)))
              (sym eq)
              (if-cases (λ (x : Option (Shaper num sqrt)). Done now dt s (publish num sqrt lim x))
                (not (length q == length tgt))
                (λ other.
                  restart-Done tgt s e fresh (other_shape q eq (λ same. absurd (ground arith)))
                    refl)
                (λ same. step_from-Done q v eq ev (ground arith)))

      turn_to-Done :
          (o : Option (List F))
          → s.target ≡ o
          → IsReady s
          → Done now dt s (turn_to num sqrt lim o dt now s)
      turn_to-Done none e r = (silent e refl refl, r)
      turn_to-Done (some tgt) e r =
          if-cases (Done now dt s) (not (in_time now s))
            (λ old. hold-Done s.q refl (not-eq_true _ old))
            (λ new.
              let fresh = not-eq_false _ new in
              if-cases
                (λ (x : Shaper num sqrt).
                  Done now dt s (publish num sqrt lim (step_at num sqrt lim tgt dt s.v_ff x.q x)))
                (too_far num sqrt lim tgt s.q)
                (λ far.
                  restart-Done tgt (record s { snaps = s.snaps + 1; q = none }) e fresh
                    (far_target far) refl)
                (λ near. step_at-Done tgt e fresh near r))

    Done-late :
        (dt now : F) (s : Shaper num sqrt) (o : Option (Shaper num sqrt))
        → Done now dt (record s { t_last = now }) o
        → Done now dt s o
    Done-late dt now s none d = d
    Done-late dt now s (some s') (silent e p q, r) = (silent e p q, r)
    Done-late dt now s (some s') (held i p q z, r) = (held i p q z, r)
    Done-late dt now s (some s') (jumped tgt e i w z p q, r) = (jumped tgt e i w z p q, r)
    Done-late dt now s (some s') (stepped tgt q v f e i ef l eq ev near p eq' ev', r) =
        (stepped tgt q v f e i ef l eq ev near p eq' ev', r)

    IsReady-late : (now : F) (s : Shaper num sqrt) → IsReady s → IsReady (record s { t_last = now })
    IsReady-late now s (at_start e) = at_start e
    IsReady-late now s (under_way q v e e') = under_way q v e e'

    -- A turn of the loop never raises, and a position comes with a velocity again. Without a target it
    -- publishes nothing; on a stale one it publishes nothing and holds the arm, with no velocity or a
    -- zero one. Only where the target is in time does it publish: the target itself, at zero velocity,
    -- and only where there is no position, one of another length, or the target is too far; else one step
    -- from the position and the velocity that it had.
    pub run_turn-Done :
        (now : F) (s : Shaper num sqrt)
        → IsReady s
        → Done now (interval num sqrt lim now s) s (run_turn num sqrt lim now s)
    unfolding run_turn
    run_turn-Done now s r =
        let late : Shaper num sqrt = record s { t_last = now } in
        let dt = interval num sqrt lim now s in
        Done-late dt now s _ (turn_to-Done now dt late s.target refl (IsReady-late now s r))
