-- ===== src/Follower/Ending.antt =====
-- How `_go_home` of mantis_follower.py ends, and what it has searched for until then.
use vla_mantis.Base.{
  ℕ, zero, suc, ◌+◌, ◌<◌, ◌≤◌, ◌≡◌, refl, ap, subst, ◌⊎◌, inl, inr, Bool, true, false, not, ◌&&◌,
  List, if-cases, and-eq_true, not-eq_true, max, length, arith,
}
use mathlib.Core.List.{Memᴰ}
use vla_mantis.Base.Num.{Num, gap, le}
use vla_mantis.Follower.State.{Setup, Follower, send_grip, model, ensure_ik}
use vla_mantis.Follower.Waiting.{Status, Look, settle, settle_from-seen}
use vla_mantis.Follower.Homing.{
  Attempt, Tries, Homed, returns, outside_limits, not_driven, exhausted, is_done, grace_of,
  tries_at, asked, attempt, attempts_from, in_limits, first_tries, go_home,
}
use vla_mantis.Follower.Retrying.{
  walk, settled, take_plan-Judged, Judged, judge-Judged, attempt-Judged, attempts_from-ends,
}

module _ (num : Num) (cfg : Setup num) (env : ℕ → Attempt num) where
  open num use {F, lt, lit, add}

  -- An attempt measured the arm at home, at its start or while the arm settled.
  abbrev pub Reached : Type 0
  Reached =
      (k : ℕ) × ((le num (gap num cfg.home_q (env k).meas) cfg.home_done_tol ≡ true)
        ⊎ ((r : Look num) × Memᴰ r (env k).looks
            × (le num (gap num r.meas cfg.home_q) cfg.home_done_tol ≡ true)))

  -- An attempt found the follower disconnected, or left the arm within the settling tolerance.
  abbrev pub Rested : Type 0
  Rested =
      (k : ℕ) × (((env k).alive ≡ false)
        ⊎ (le num
              (settle num cfg (env k).settle_now (env k).looks cfg.home_q cfg.home_settle_grace
                cfg.home_done_tol).1
              cfg.home_settle_tol
            ≡ true))

  -- So many different attempts before attempt `k` left the arm where it was.
  abbrev pub Still : ℕ → ℕ → Type 0
  Still zero k = Unit
  Still (suc n) k =
      (j : ℕ) × (j < k) × (lt (gap num (env j).after (env j).meas) (lit 2 2) ≡ true) × Still n j

  Still-later : (n j k : ℕ) → j ≤ k → Still n j → Still n k
  Still-later zero j k h s = tt
  Still-later (suc n) j k h (i, lt_j, e, s) = (i, omega arith, e, s)

  Still-next :
      (n k : ℕ)
      → lt (gap num (env k).after (env k).meas) (lit 2 2) ≡ true
      → Still n k
      → Still (n + 1) (suc k)
  Still-next n k e s =
      let more : suc n ≡ n + 1 = omega arith in
      subst (λ m. Still m (suc k)) more (k, omega arith, e, s)

  module _ (t_end : F) where
    -- Why the loop ended before its attempts were used up.
    abbrev Why : Homed → Type 0
    Why (returns true) = Reached
    Why (returns false) = Rested
    Why outside_limits = ⊥
    Why not_driven = (k : ℕ) × Still 2 k
    Why exhausted = (k : ℕ) × (le num t_end (env k).now ≡ true)

    abbrev WhyAt : ℕ → Homed → Tries num → Follower num → Type 0
    WhyAt k h l st = Why h

    -- Before attempt `k`: every earlier attempt searched once, and at most one left the arm where it
    -- was.
    abbrev TryingAt : ℕ → Tries num → Follower num → Type 0
    TryingAt k l st = (suc (length l.searches) ≡ k) × (l.frozen ≤ 1) × Still l.frozen k

    settled-Reached :
        (k : ℕ) (complete : Bool) → (settled num cfg t_end env k complete).0 ≡ true → Reached
    settled-Reached k complete h =
        let err = (settled num cfg t_end env k complete).1 in
        let (r, m, near, e) =
          settle_from-seen num cfg (env k).looks cfg.home_q (grace_of num cfg complete)
            cfg.home_done_tol (env k).settle_now num.inf err (ap (λ (b : Bool). (b, err)) h) in
        (k, inr (r, m, near))

    settled-Rested :
        (k : ℕ) (complete : Bool) (status : Status)
        → (complete
            && is_done num cfg status
            && le num (settled num cfg t_end env k complete).1 cfg.home_settle_tol)
          ≡ true
        → Rested
    settled-Rested k true status h = (k, inr (and-eq_true (is_done num cfg status) _ h).1)
    settled-Rested k false status h = absurd cc

    attempt-Why :
        (k : ℕ) (l : Tries num) (st : Follower num)
        → TryingAt k l st
        → Judged num cfg t_end env WhyAt TryingAt k (attempt num cfg t_end k (env k) l st)
    attempt-Why k l st (count, few, still) =
        let dist = gap num cfg.home_q (env k).meas in
        let l' = asked num cfg k (tries_at num cfg dist l) in
        let again = Still-later l.frozen k (suc k) (omega arith) still in
        attempt-Judged num cfg t_end env WhyAt TryingAt k l st (λ gone. (k, inl gone))
          (λ home. (k, inl home)) (λ late. (k, late))
          (take_plan-Judged num cfg t_end env WhyAt TryingAt k _ l' st
            (λ budget. (omega arith, few, again))
            (λ p e.
              judge-Judged num cfg t_end env WhyAt TryingAt k p (walk num cfg t_end env k p st).0
                (settled num cfg t_end env k p.complete).0
                (settled num cfg t_end env k p.complete).1 l' _ (settled-Reached k p.complete)
                (settled-Rested k p.complete (walk num cfg t_end env k p st).0)
                (λ s. (
                  (λ two.
                      let all : l.frozen + 1 ≡ 2 = ground arith in
                      (suc k, subst (λ n. Still n (suc k)) all (Still-next l.frozen k s still))),
                  (λ one. (omega arith, ground arith, Still-next l.frozen k s still)),
                ))
                (omega arith, few, again)))

    -- Why the loop ended, once the attempts that it was given are counted.
    abbrev WhyOf : ℕ → Homed → Tries num → Follower num → Type 0
    WhyOf n (returns true) l st = Reached
    WhyOf n (returns false) l st = Rested
    WhyOf n outside_limits l st = ⊥
    WhyOf n not_driven l st = (k : ℕ) × Still 2 k
    WhyOf n exhausted l st = (length l.searches ≡ n) ⊎ ((k : ℕ) × (le num t_end (env k).now ≡ true))

    Why-Of : (n : ℕ) (h : Homed) (l : Tries num) (st : Follower num) → Why h → WhyOf n h l st
    Why-Of n (returns true) l st w = w
    Why-Of n (returns false) l st w = w
    Why-Of n outside_limits l st w = w
    Why-Of n not_driven l st w = w
    Why-Of n exhausted l st w = inr w

    attempts_from-Why :
        (n : ℕ) (st : Follower num)
        → let o = attempts_from num cfg n t_end 1 env (first_tries num cfg) st in
          WhyOf n o.0 o.1 o.2
    attempts_from-Why n st =
        attempts_from-ends num cfg t_end env WhyAt TryingAt (n + 1) attempt-Why (WhyOf n)
          (λ k h l st' lt_k w. Why-Of n h l st' w) (λ l st' q. inl (omega arith)) n 1
          (first_tries num cfg) st refl (refl, omega arith, tt)

  -- Why the move to home ended.
  abbrev pub Ended : List F → F → Follower num → Homed → Tries num → Type 0
  Ended here start st (returns true) l =
      (le num (gap num cfg.home_q here) cfg.approach_tol ≡ true) ⊎ Reached
  Ended here start st (returns false) l = Rested
  Ended here start st outside_limits l =
      in_limits num cfg (model num cfg st) cfg.arm cfg.home_q ≡ false
  Ended here start st not_driven l = (k : ℕ) × Still 2 k
  Ended here start st exhausted l =
      (length l.searches ≡ max 1 cfg.home_max_attempts)
      ⊎ ((k : ℕ) × (le num (add start cfg.home_total_time_s) (env k).now ≡ true))

  WhyOf-Ended :
      (here : List F) (start : F) (st : Follower num) (h : Homed) (l : Tries num)
      (st' : Follower num)
      → WhyOf (add start cfg.home_total_time_s) (max 1 cfg.home_max_attempts) h l st'
      → Ended here start st h l
  WhyOf-Ended here start st (returns true) l st' w = inr w
  WhyOf-Ended here start st (returns false) l st' w = w
  WhyOf-Ended here start st outside_limits l st' w = absurd w
  WhyOf-Ended here start st not_driven l st' w = w
  WhyOf-Ended here start st exhausted l st' w = w

  -- The move to home always ends, and for a reason: it returns true only when a pose measured at home,
  -- or at its start near home, says so; false only when the follower was disconnected or a complete
  -- plan left the arm within the settling tolerance; it raises that home is outside the limits only
  -- when it is, that the arm is not driven only after two attempts that did not move it, and that
  -- nothing is left to try only after a search in every attempt, or past its time.
  pub go_home-Ended :
      (here : List F) (ready : Bool) (start : F) (st : Follower num)
      → let o = go_home num cfg here ready start env st in Ended here start st o.0 o.1
  unfolding go_home
  go_home-Ended here ready start st =
      let E = λ (o : Homed × Tries num × Follower num). Ended here start st o.0 o.1 in
      if-cases (λ (o : Homed × Tries num × Follower num). E o)
        (le num (gap num cfg.home_q here) cfg.approach_tol) inl
        (λ far.
          if-cases (λ (o : Homed × Tries num × Follower num). E o)
            (not (in_limits num cfg (model num cfg st) cfg.arm cfg.home_q))
            (λ outside. not-eq_true _ outside)
            (λ inside. WhyOf-Ended here start st _ _ _ (
              attempts_from-Why (add start cfg.home_total_time_s) (max 1 cfg.home_max_attempts)
                (send_grip num ready cfg.grip_open (ensure_ik num cfg st)))))
