-- ===== src/Follower/Retrying.antt =====
-- The retry loop of `_go_home` of mantis_follower.py: one rule for an attempt and one for the loop, and
-- how the loop ends.
use vla_mantis.Base.{
  ℕ, zero, suc, ◌+◌, ◌<◌, ◌≡◌, refl, subst, Bool, true, false, not, ◌&&◌, Option, none, some,
  if-cases, not-eq_true, leb, arith,
}
use vla_mantis.Base.Num.{Num, gap, le}
use vla_mantis.HomePlanner.{Plan}
use vla_mantis.Follower.State.{Setup, Follower}
use vla_mantis.Follower.Waiting.{Status, settle}
use vla_mantis.Follower.Polyline.{run_path}
use vla_mantis.Follower.Homing.{
  Attempt, Tries, Homed, returns, not_driven, exhausted, Verdict, stop, again, is_done, home_speed,
  grace_of, judge, take_plan, tries_at, search_from, attempt, after_attempt, attempts_from, relaxed,
}

module _ (num : Num) (cfg : Setup num) (t_end : num.F) (env : ℕ → Attempt num) where
  open num use {F, lt, lit, add}

  -- The attempt's walk along a plan, its end, and what the arm's settling reports.
  abbrev pub walk : ℕ → Plan num → Follower num → Status × Follower num
  walk k p st =
      run_path num cfg p.waypoints (home_speed num cfg) (some t_end) p.floor_scale (env k).drive st

  abbrev pub settled : ℕ → Bool → Bool × F
  settled k complete =
      settle num cfg (env k).settle_now (env k).looks cfg.home_q (grace_of num cfg complete)
        cfg.home_done_tol

  module _ (P : ℕ → Homed → Tries num → Follower num → Type 0)
      (Q : ℕ → Tries num → Follower num → Type 0) where
    -- What holds of the two ways in which attempt `k` goes.
    abbrev pub Judged : ℕ → Verdict num → Type 0
    Judged k (stop h l st) = P k h l st
    Judged k (again l st) = Q (suc k) l st

    pub judge-Judged :
        (k : ℕ) (p : Plan num) (status : Status) (arrived : Bool) (err : F) (l : Tries num)
        (st : Follower num)
        → (arrived ≡ true → P k (returns true) l st)
        → ((p.complete && is_done num cfg status && le num err cfg.home_settle_tol) ≡ true
            → P k (returns false) l st)
        → (lt (gap num (env k).after (env k).meas) (lit 2 2) ≡ true
            → (leb 2 (l.frozen + 1) ≡ true → P k not_driven (record l { frozen = l.frozen + 1 }) st)
              × (leb 2 (l.frozen + 1) ≡ false → Q (suc k) (record l { frozen = l.frozen + 1 }) st))
        → Q (suc k) l st
        → Judged k (judge num cfg (env k) p status (arrived, err) l st)
    judge-Judged k p status arrived err l st arrives rests still go =
        let J = Judged k in
        if-cases (λ (x : Verdict num). J x) arrived arrives
          (λ out.
            if-cases (λ (x : Verdict num). J x)
              (p.complete && is_done num cfg status && le num err cfg.home_settle_tol) rests
              (λ far.
                if-cases (λ (x : Verdict num). J x)
                  (lt (gap num (env k).after (env k).meas) (lit 2 2))
                  (λ s.
                    if-cases (λ (x : Verdict num). J x) (leb 2 (l.frozen + 1)) (still s).0
                      (still s).1)
                  (λ moved. go)))

    pub take_plan-Judged :
        (k : ℕ) (o : Option (Plan num)) (l : Tries num) (st : Follower num)
        → ((budget : F)
            → Q (suc k) (record l { budget = budget; min_scale = relaxed num cfg l.min_scale }) st)
        → ((p : Plan num)
            → o ≡ some p
            → Judged k
                (judge num cfg (env k) p (walk k p st).0 (settled k p.complete) l (walk k p st).1))
        → Judged k (take_plan num cfg t_end (env k) o l st)
    take_plan-Judged k none l st no_plan planned = no_plan _
    take_plan-Judged k (some p) l st no_plan planned = planned p refl

    after_attempt-ends :
        (End : Homed → Tries num → Follower num → Type 0) (k : ℕ) (v : Verdict num)
        (next : Tries num → Follower num → Homed × Tries num × Follower num)
        → ((h : Homed) (l : Tries num) (st : Follower num) → P k h l st → End h l st)
        → ((l : Tries num) (st : Follower num)
            → Q (suc k) l st
            → End (next l st).0 (next l st).1 (next l st).2)
        → Judged k v
        → End
            (after_attempt num cfg v next).0
            (after_attempt num cfg v next).1
            (after_attempt num cfg v next).2
    after_attempt-ends End k (stop h l st) next over on j = over h l st j
    after_attempt-ends End k (again l st) next over on j = on l st j

    -- An attempt, from what follows its search.
    pub attempt-Judged :
        (k : ℕ) (l : Tries num) (st : Follower num)
        → ((env k).alive ≡ false → P k (returns false) l st)
        → (le num (gap num cfg.home_q (env k).meas) cfg.home_done_tol ≡ true
            → P k (returns true) l st)
        → (le num t_end (env k).now ≡ true
            → P k exhausted (tries_at num cfg (gap num cfg.home_q (env k).meas) l) st)
        → Judged k (
            search_from num cfg t_end k
              (env k)
              (tries_at num cfg (gap num cfg.home_q (env k).meas) l)
              st)
        → Judged k (attempt num cfg t_end k (env k) l st)
    unfolding attempt
    attempt-Judged k l st gone home late searched =
        let J = Judged k in
        let dist = gap num cfg.home_q (env k).meas in
        if-cases (λ (x : Verdict num). J x) (not (env k).alive) (λ e. gone (not-eq_true _ e))
          (λ alive.
            if-cases (λ (x : Verdict num). J x) (le num dist cfg.home_done_tol) home
              (λ far.
                if-cases (λ (x : Verdict num). J x) (le num t_end (env k).now) late
                  (λ early. searched)))

    -- The loop, from a rule for the attempts before `limit`.
    pub attempts_from-ends :
        (limit : ℕ)
        → ((k : ℕ) (l : Tries num) (st : Follower num)
            → Q k l st
            → Judged k (attempt num cfg t_end k (env k) l st))
        → (End : Homed → Tries num → Follower num → Type 0)
        → ((k : ℕ) (h : Homed) (l : Tries num) (st : Follower num)
            → k < limit
            → P k h l st
            → End h l st)
        → ((l : Tries num) (st : Follower num) → Q limit l st → End exhausted l st)
        → (n k : ℕ) (l : Tries num) (st : Follower num) → n + k ≡ limit
        → Q k l st
        → let o = attempts_from num cfg n t_end k env l st in End o.0 o.1 o.2
    unfolding attempts_from
    attempts_from-ends limit rule End over out zero k l st e q =
        let same : k ≡ limit = omega arith in out l st (subst (λ i. Q i l st) same q)
    attempts_from-ends limit rule End over out (suc n) k l st e q =
        after_attempt-ends End k (attempt num cfg t_end k (env k) l st) _
          (λ h l' st'. over k h l' st' (omega arith))
          (λ l' st'. attempts_from-ends limit rule End over out n (suc k) l' st' (omega arith))
          (rule k l st q)
