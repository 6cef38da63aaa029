-- ===== src/Follower/Approach.antt =====
-- What `send_action` of mantis_follower.py commands, and what its check of the approach refuses.
use vla_mantis.Base.{
  ◌≡◌, refl, sym, ap, ◌∙◌, subst, Bool, true, false, Option, none, some, List, ◌∷◌, String,
  if◌then◌else◌, if-cases, not-eq_true,
}
use vla_mantis.Base.Num.{Num, gap, maximum}
use vla_mantis.HomePlanner.{Clear, edge_margin-Clear}
use vla_mantis.Follower.State.{Segment, Setup, Follower, set_segment, seg_now, model, ensure_ik}
use vla_mantis.Follower.Waiting.{
  Status, done, timeout, gate, disconnected, Round, Waited, wait_from-Waited,
}
use vla_mantis.Follower.Edge.{as_planner, edge_margin_eq}
use vla_mantis.Follower.Action.{
  Action, Reading, Sent, sent, key_error, collides, values, path_clear, approach_speed, first_leg,
  next_leg, or_goal, grip_moves, grip_to, finish, leg, send_values, send_action,
}

module _ (num : Num) (cfg : Setup num) where
  open num use {F, lt, lit, div}

  -- A wait with neither a deadline nor a gate leaves the state as it was.
  Waited-unlimited :
      (rs : List (Round num)) (s : F) (st : Follower num) (o : Status × Follower num)
      → Waited num cfg rs none none s st o
      → o.1 ≡ st
  Waited-unlimited rs s st (done, st') (r, m, p, e) = e
  Waited-unlimited rs s st (timeout, st') (r, m, p, e) = absurd cc
  Waited-unlimited rs s st (gate, st') (r, m, p, e) = absurd cc
  Waited-unlimited rs s st (disconnected, st') e = e

  grip_to-segments :
      (ready : Bool) (g : Option F) (st : Follower num)
      → (grip_to num cfg ready g st).segments ≡ st.segments
  grip_to-segments ready none st = refl
  grip_to-segments true (some g) st =
      if-cases (λ (x : Follower num). x.segments ≡ st.segments) (grip_moves num cfg g st.grip_sent)
        (λ e. refl) (λ e. refl)
  grip_to-segments false (some g) st =
      if-cases (λ (x : Follower num). x.segments ≡ st.segments) (grip_moves num cfg g st.grip_sent)
        (λ e. refl) (λ e. refl)

  -- Where the segment of an action starts: the first one's at the measured pose, a later one's where
  -- the interpolation is.
  abbrev pub departure : Reading num → List F → Follower num → List F
  departure r q st = if st.first_action then r.meas else or_goal num cfg q (seg_now num r.now st)

  -- One segment was set, to `q` from `from`.
  abbrev pub Led : List F → List F → List (Segment num) → Sent num → Type 0
  Led from q before (sent st) =
      (g : Segment num) × (st.segments ≡ g ∷ before) × (g.q_from ≡ from) × (g.q_to ≡ q)
  Led from q before (key_error st) = st.segments ≡ before
  Led from q before (collides st) = (st.segments ≡ before) × (st.first_action ≡ false)

  first_leg-Led :
      (r : Reading num) (q : List F) (st : Follower num)
      → st.first_action ≡ false
      → Led r.meas q st.segments (first_leg num cfg r q st)
  first_leg-Led r q st f =
      let L = Led r.meas q st.segments in
      let dist = gap num q r.meas in
      let T = div dist (maximum num (approach_speed num cfg) (lit 1 6)) in
      let ramp = set_segment num r.seg_t0 r.meas q T (ensure_ik num cfg st) in
      let still =
        Waited-unlimited r.rounds (lit 1 0) ramp _
          (wait_from-Waited num cfg r.rounds none none (lit 1 0) (lit 0 0) ramp) in
      if-cases (λ (x : Sent num). L x) (lt cfg.approach_tol dist)
        (λ far.
          if-cases (λ (x : Sent num). L x) (path_clear num cfg st r.meas q)
            (λ clear. (_, ap (λ x. x.segments) still, refl, refl)) (λ hit. (refl, f)))
        (λ near. (_, refl, refl, refl))

  leg-Led :
      (r : Reading num) (q : List F) (st : Follower num)
      → Led (departure r q st) q st.segments (leg num cfg r q st)
  leg-Led r q st = go st.first_action refl
    where
      go :
          (b : Bool)
          → st.first_action ≡ b
          → Led (if b then r.meas else or_goal num cfg q (seg_now num r.now st)) q st.segments (
              if b
              then first_leg num cfg r q (record st { first_action = false })
              else sent (next_leg num cfg r q st))
      go true e = first_leg-Led r q (record st { first_action = false }) refl
      go false e = (_, refl, refl, refl)

  finish-Led :
      (from q : List F) (before : List (Segment num)) (r : Reading num) (g : Option F)
      (x : Sent num)
      → Led from q before x
      → Led from q before (finish num cfg r g x)
  finish-Led from q before r g (sent st) (seg, e, f, t) =
      (seg, grip_to-segments r.grip_ready g _ ∙ e, f, t)
  finish-Led from q before r g (key_error st) h = h
  finish-Led from q before r g (collides st) h = h

  -- An action with a value for every joint sets exactly one segment, to those values: from the measured
  -- pose when it is the first, else from where the interpolation is. A refused approach sets none,
  -- and no later action counts as the first.
  pub send_action-Led :
      (r : Reading num) (a : Action num) (q : List F) (st : Follower num)
      → values num cfg a.joints cfg.arm ≡ some q
      → Led (departure r q st) q st.segments (send_action num cfg r a st)
  unfolding send_action
  send_action-Led r a q st e =
      subst (λ o. Led (departure r q st) q st.segments (send_values num cfg r o a.gripper st))
        (sym e) (finish-Led (departure r q st) q st.segments r a.gripper _ (leg-Led r q st))

  path_clear-Clear :
      (st : Follower num) (a b : List F)
      → path_clear num cfg st a b ≡ true
      → Clear num (as_planner num cfg (model num cfg st)) (lit 1 0) (lit 0 0) a b
  path_clear-Clear st a b h =
      let ik = model num cfg st in
      (edge_margin-Clear num (as_planner num cfg ik) a b (lit 1 0) (lit 0 0)).0 (
        subst (λ (m : F × String). lt m.0 (lit 0 0) ≡ false)
          (edge_margin_eq num cfg ik a b (lit 1 0) (some (lit 0 0))) (not-eq_true _ h))

  first_leg-Clear :
      (r : Reading num) (q : List F) (g : Option F) (st st' : Follower num)
      → lt cfg.approach_tol (gap num q r.meas) ≡ true
      → finish num cfg r g (first_leg num cfg r q st) ≡ sent st'
      → path_clear num cfg st r.meas q ≡ true
  first_leg-Clear r q g st st' far =
      if-cases
        (λ (x : Sent num). finish num cfg r g x ≡ sent st' → path_clear num cfg st r.meas q ≡ true)
        (lt cfg.approach_tol (gap num q r.meas))
        (λ f.
          if-cases
            (λ (x : Sent num).
              finish num cfg r g x ≡ sent st' → path_clear num cfg st r.meas q ≡ true)
            (path_clear num cfg st r.meas q) (λ clear e. clear) (λ hit e. absurd cc))
        (λ near. absurd cc)

  leg-Clear :
      (r : Reading num) (q : List F) (g : Option F) (st st' : Follower num) (b : Bool)
      → b ≡ true
      → lt cfg.approach_tol (gap num q r.meas) ≡ true
      → finish num cfg r g (
          if b
          then first_leg num cfg r q (record st { first_action = false })
          else sent (next_leg num cfg r q st))
        ≡ sent st'
      → path_clear num cfg st r.meas q ≡ true
  leg-Clear r q g st st' true on far e =
      first_leg-Clear r q g (record st { first_action = false }) st' far e
  leg-Clear r q g st st' false on far e = absurd cc

  -- A first action that is far from the arm goes out only along a clear approach: every sampled pose of
  -- the straight way to it clears the full cushion.
  pub send_action-Clear :
      (r : Reading num) (a : Action num) (q : List F) (st st' : Follower num)
      → values num cfg a.joints cfg.arm ≡ some q
      → st.first_action ≡ true
      → lt cfg.approach_tol (gap num q r.meas) ≡ true
      → send_action num cfg r a st ≡ sent st'
      → Clear num (as_planner num cfg (model num cfg st)) (lit 1 0) (lit 0 0) r.meas q
  unfolding send_action
  send_action-Clear r a q st st' e first far h = path_clear-Clear st r.meas q (
      leg-Clear r q a.gripper st st' st.first_action first far
        (subst (λ o. send_values num cfg r o a.gripper st ≡ sent st') e h))
