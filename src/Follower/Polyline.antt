-- ===== src/Follower/Polyline.antt =====
-- `_run_path` of mantis_follower.py: a checked polyline, one segment after another. The dwell at a
-- waypoint changes nothing, and logging is left out.
use vla_mantis.Base.{
  ℕ, suc, ◌≡◌, refl, sym, ap, ◌∙◌, Bool, false, ◌&&◌, Option, none, some, List, [], ◌∷◌, ◌++◌,
  if◌then◌else◌, All, All-append, map, subst, append_assoc,
}
use mathlib.Core.List.{Memᴰ}
use vla_mantis.Base.Num.{Num, gap, minimum, maximum, maximum-le_left}
use vla_mantis.Follower.State.{Segment, Setup, Follower, margin, set_segment, seg_now, freeze_at}
use vla_mantis.Follower.Waiting.{
  Status, done, timeout, gate, disconnected, Round, wait_segment, Waited, wait_from-Waited,
}

-- What one leg reads: the clock when its segment is set, and the rounds of the wait.
pub record Leg (num : Num) : Type 0 where
  pub start : num.F
  pub rounds : List (Round num)

-- What a run along a path reads: the measured pose for the gate, the clock for the point that the
-- feed is at, the measured pose to compare it with and again to re-anchor it, and the legs.
pub record Drive (num : Num) : Type 0 where
  pub gate_meas : List num.F
  pub seg_at : num.F
  pub here : List num.F
  pub anchor : List num.F
  pub legs : ℕ → Leg num

module _ (num : Num) (cfg : Setup num) where
  open num use {F, lt, lit, div}

  -- The time that a leg is given.
  abbrev pub leg_time : F → List F → List F → F
  leg_time v cur wp = maximum num (div (gap num wp cur) (maximum num v (lit 1 6))) (lit 2 2)

  -- What follows a leg: the next one only when it says "done".
  abbrev pub after_leg :
      Status × Follower num → (Follower num → Status × Follower num) → Status × Follower num
  after_leg (done, st) next = next st
  after_leg (timeout, st) next = (timeout, st)
  after_leg (gate, st) next = (gate, st)
  after_leg (disconnected, st) next = (disconnected, st)

  -- The loop of `_run_path` over the waypoints.
  unfoldable pub legs_from :
      List (List F)
      → List F
      → ℕ
      → F
      → Option F
      → Option F
      → F
      → (ℕ → Leg num)
      → Follower num
      → Status × Follower num
  legs_from [] cur k v deadline gate_min gate_scale legs st = (done, st)
  legs_from (wp ∷ wps) cur k v deadline gate_min gate_scale legs st =
      let set_out = set_segment num (legs k).start cur wp (leg_time v cur wp) st in
      after_leg (wait_segment num cfg (legs k).rounds deadline gate_min gate_scale set_out)
        (legs_from wps wp (suc k) v deadline gate_min gate_scale legs)

  -- Where the run starts, and the waypoints it walks: a command that is far from the arm is first
  -- walked back onto the measured pose.
  abbrev pub departure : Drive num → List (List F) → Option (List F) → List F × List (List F)
  departure d path none = (d.here, path)
  departure d path (some cur) =
      (cur, if lt cfg.max_joint_lead (gap num cur d.here) then d.anchor ∷ path else path)

  abbrev pub gate_armed : Bool
  gate_armed = cfg.home_gate && lt (lit 0 0) cfg.meas_gate_frac

  abbrev pub gate_of : Drive num → F → Follower num → Option F
  gate_of d scale st =
      if gate_armed
      then some (minimum num (lit 0 0) (margin num cfg st d.gate_meas scale).0)
      else none

  -- `_run_path`
  unfoldable pub run_path :
      List (List F) → F → Option F → F → Drive num → Follower num → Status × Follower num
  run_path path v deadline scale d st =
      let (cur, points) = departure d path (seg_now num d.seg_at st) in
      legs_from points cur 0 v deadline (gate_of d scale st) (minimum num cfg.meas_gate_frac scale)
        d.legs st

  -- The legs of the polyline from `cur` through the waypoints.
  abbrev pub legs_of : List F → List (List F) → List (List F × List F)
  legs_of cur [] = []
  legs_of cur (wp ∷ wps) = (cur, wp) ∷ legs_of wp wps

  -- A segment that holds a point, or that runs along one of the legs, no faster than `v`.
  pub data OnPath (v : F) (legs : List (List F × List F)) (g : Segment num) : Type 0 where
    hold : g.q_from ≡ g.q_to → OnPath v legs g
    along :
        Memᴰ (g.q_from, g.q_to) legs
        → lt g.duration (div (gap num g.q_to g.q_from) (maximum num v (lit 1 6))) ≡ false
        → OnPath v legs g

  -- The segment that was set last, or the one that there was before.
  abbrev pub first_of {ℓ} : {A : Type ℓ} → List A → Option A → Option A
  first_of [] o = o
  first_of (x ∷ xs) o = some x

  pub first_of-append {ℓ} :
      {A : Type ℓ} (xs ys : List A) (o : Option A)
      → first_of xs (first_of ys o) ≡ first_of (xs ++ ys) o
  first_of-append [] ys o = refl
  first_of-append (x ∷ xs) ys o = refl

  -- The segments that were set from `st` to `st'` satisfy `P`, the feed follows the last one, and the
  -- collision model is the same.
  abbrev pub Added : (Segment num → Type 0) → Follower num → Follower num → Type 0
  Added P st st' =
      (new : List (Segment num)) × (st'.segments ≡ new ++ st.segments)
      × All P new
      × (st'.ik ≡ st.ik)
      × (st'.seg ≡ first_of new st.seg)

  pub Added-trans :
      (P : Segment num → Type 0) (a b c : Follower num) → Added P a b → Added P b c → Added P a c
  Added-trans P a b c (n, e, p, i, s) (n', e', p', i', s') = (
    n' ++ n,
    e' ∙ ap (λ l. n' ++ l) e ∙ sym (append_assoc n' n a.segments),
    All-append P n' n p' p,
    i' ∙ i,
    s' ∙ ap (first_of n') s ∙ first_of-append n' n a.seg,
  )

  freeze_at-Added :
      (v : F) (legs : List (List F × List F)) (now : F) (o : Option (List F)) (st : Follower num)
      → Added (OnPath v legs) st (freeze_at num now o st)
  freeze_at-Added v legs now none st = ([], refl, tt, refl, refl)
  freeze_at-Added v legs now (some cur) st = (_ ∷ [], refl, (hold refl, tt), refl, refl)

  after_leg-Added :
      (v : F) (legs : List (List F × List F)) (rs : List (Round num)) (d g : Option F) (s : F)
      (st : Follower num) (o : Status × Follower num) (next : Follower num → Status × Follower num)
      → Waited num cfg rs d g s st o
      → ((x : Follower num) → Added (OnPath v legs) x (next x).1)
      → Added (OnPath v legs) st (after_leg o next).1
  after_leg-Added v legs rs d g s st (done, st') next (r, m, p, e) n =
      subst (λ (x : Follower num). Added (OnPath v legs) x (next st').1) e (n st')
  after_leg-Added v legs rs d g s st (timeout, st') next (r, m, p, e) n =
      subst (λ (x : Follower num). Added (OnPath v legs) st x) (sym e)
        (freeze_at-Added v legs r.stop_t0 (seg_now num r.stop_at st) st)
  after_leg-Added v legs rs d g s st (gate, st') next (r, m, p, e) n =
      subst (λ (x : Follower num). Added (OnPath v legs) st x) (sym e)
        (freeze_at-Added v legs r.stop_t0 (seg_now num r.stop_at st) st)
  after_leg-Added v legs rs d g s st (disconnected, st') next e n =
      subst (λ (x : Follower num). Added (OnPath v legs) st x) (sym e) ([], refl, tt, refl, refl)

  legs_from-Added :
      (all : List (List F × List F)) (v : F) (d g : Option F) (s : F) (legs : ℕ → Leg num)
      (wps : List (List F)) (cur : List F) (k : ℕ) (st : Follower num)
      → ((x : List F × List F) → Memᴰ x (legs_of cur wps) → Memᴰ x all)
      → Added (OnPath v all) st (legs_from wps cur k v d g s legs st).1
  unfolding legs_from
  legs_from-Added all v d g s legs [] cur k st into = ([], refl, tt, refl, refl)
  legs_from-Added all v d g s legs (wp ∷ wps) cur k st into =
      let set_out = set_segment num (legs k).start cur wp (leg_time v cur wp) st in
      let o = wait_segment num cfg (legs k).rounds d g s set_out in
      let next = legs_from wps wp (suc k) v d g s legs in
      let slow = maximum-le_left num (div (gap num wp cur) (maximum num v (lit 1 6))) (lit 2 2) in
      Added-trans (OnPath v all) st set_out (after_leg o next).1
        (_ ∷ [], refl, (along (into (cur, wp) (Memᴰ.head refl)) slow, tt), refl, refl)
        (after_leg-Added v all (legs k).rounds d g s set_out o next
          (wait_from-Waited num cfg (legs k).rounds d g s (lit 0 0) set_out)
          (λ x. legs_from-Added all v d g s legs wps wp (suc k) x (λ y m. into y (Memᴰ.tail m))))

  -- However a run along a path ends, every segment that it set either holds a point or runs along a
  -- leg of the polyline from its departure through the waypoints, no faster than `v`; and the
  -- collision model is kept.
  pub run_path-OnPath :
      (path : List (List F)) (v : F) (deadline : Option F) (scale : F) (d : Drive num)
      (st : Follower num)
      → let dep = departure d path (seg_now num d.seg_at st) in
        Added (OnPath v (legs_of dep.0 dep.1)) st (run_path path v deadline scale d st).1
  unfolding run_path
  run_path-OnPath path v deadline scale d st =
      let dep = departure d path (seg_now num d.seg_at st) in
      legs_from-Added (legs_of dep.0 dep.1) v deadline (gate_of d scale st)
        (minimum num cfg.meas_gate_frac scale) d.legs dep.1 dep.0 0 st (λ x m. m)

  -- The ends of the segments that were set.
  abbrev pub ends : List (Segment num) → List (List F × List F)
  ends gs = map (λ g. (g.q_from, g.q_to)) gs

  -- `xs` put before `acc`, the last of them first.
  abbrev pub rev_onto {ℓ} : {A : Type ℓ} → List A → List A → List A
  rev_onto [] acc = acc
  rev_onto (x ∷ xs) acc = rev_onto xs (x ∷ acc)

  after_leg-done :
      (rs : List (Round num)) (d g : Option F) (s : F) (st st' : Follower num)
      (o : Status × Follower num) (next : Follower num → Status × Follower num)
      → Waited num cfg rs d g s st o
      → after_leg o next ≡ (done, st')
      → next st ≡ (done, st')
  after_leg-done rs d g s st st' (done, x) next (r, m, p, e) h = ap next (sym e) ∙ h
  after_leg-done rs d g s st st' (timeout, x) next w h = absurd cc
  after_leg-done rs d g s st st' (gate, x) next w h = absurd cc
  after_leg-done rs d g s st st' (disconnected, x) next w h = absurd cc

  legs_from-done :
      (v : F) (d g : Option F) (s : F) (legs : ℕ → Leg num) (wps : List (List F)) (cur : List F)
      (k : ℕ) (st st' : Follower num)
      → legs_from wps cur k v d g s legs st ≡ (done, st')
      → ends st'.segments ≡ rev_onto (legs_of cur wps) (ends st.segments)
  unfolding legs_from
  legs_from-done v d g s legs [] cur k st st' h = sym (ap (λ x. ends x.1.segments) h)
  legs_from-done v d g s legs (wp ∷ wps) cur k st st' h =
      let set_out = set_segment num (legs k).start cur wp (leg_time v cur wp) st in
      let w = wait_from-Waited num cfg (legs k).rounds d g s (lit 0 0) set_out in
      legs_from-done v d g s legs wps wp (suc k) set_out st'
        (after_leg-done (legs k).rounds d g s set_out st' _ _ w h)

  -- A run that says "done" set the legs of its polyline one after another, all of them and in order,
  -- and no segment besides.
  pub run_path-done :
      (path : List (List F)) (v : F) (deadline : Option F) (scale : F) (d : Drive num)
      (st st' : Follower num)
      → run_path path v deadline scale d st ≡ (done, st')
      → let dep = departure d path (seg_now num d.seg_at st) in
        ends st'.segments ≡ rev_onto (legs_of dep.0 dep.1) (ends st.segments)
  unfolding run_path
  run_path-done path v deadline scale d st st' h =
      let dep = departure d path (seg_now num d.seg_at st) in
      legs_from-done v deadline (gate_of d scale st) (minimum num cfg.meas_gate_frac scale) d.legs
        dep.1 dep.0 0 st st' h
