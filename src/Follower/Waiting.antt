-- ===== src/Follower/Waiting.antt =====
-- `_wait_segment` and `_settle` of mantis_follower.py, over what their rounds read.
use vla_mantis.Base.{
  ◌≡◌, refl, Bool, true, false, not, ◌&&◌, Option, none, some, List, [], ◌∷◌, String, if◌then◌else◌,
  if-cases, and-eq_true,
}
use mathlib.Core.List.{Memᴰ}
use vla_mantis.Base.Num.{Num, gap, le}
use vla_mantis.Follower.State.{Segment, Setup, Follower, progress, freeze_feed, margin}

pub data Status : Type 0 where
  done timeout gate disconnected : Status

-- What one round of `_wait_segment` reads: the connection, the clock for the progress and again for
-- the tests, the measured pose, and the clock twice where the feed is frozen.
pub record Round (num : Num) : Type 0 where
  pub alive : Bool
  pub at : num.F
  pub now : num.F
  pub meas : List num.F
  pub stop_at : num.F
  pub stop_t0 : num.F

-- What one round of `_settle` reads.
pub record Look (num : Num) : Type 0 where
  pub alive : Bool
  pub now : num.F
  pub meas : List num.F

module _ (num : Num) (cfg : Setup num) where
  open num use {F, lt, lit, sub}

  -- `s`, which is 1.0 without a segment.
  abbrev pub progress_of : Option (Segment num) → F → F
  progress_of none now = lit 1 0
  progress_of (some g) now = progress num g now

  -- `deadline is not None and now >= deadline`
  abbrev pub past : Option F → F → Bool
  past none now = false
  past (some d) now = le num d now

  -- `gate_min is not None and now - t_gate >= 0.05`
  abbrev pub check_due : Option F → F → F → Bool
  check_due none t_gate now = false
  check_due (some g) t_gate now = le num (lit 5 2) (sub now t_gate)

  abbrev pub inside_gate : Option F → F × String → Bool
  inside_gate none m = false
  inside_gate (some g) m = lt m.0 g

  -- The loop of `_wait_segment`. A run has finitely many rounds; past the last the follower is
  -- disconnected.
  unfoldable pub wait_from :
      List (Round num) → Option F → Option F → F → F → Follower num → Status × Follower num
  wait_from [] deadline gate_min gate_scale t_gate st = (disconnected, st)
  wait_from (r ∷ rs) deadline gate_min gate_scale t_gate st =
      let due = check_due gate_min t_gate r.now in
      let next = wait_from rs deadline gate_min gate_scale (if due then r.now else t_gate) st in
      if not r.alive
      then (disconnected, st)
      else if le num (lit 1 0) (progress_of st.seg r.at)
      then (done, st)
      else if past deadline r.now
      then (timeout, freeze_feed num r.stop_at r.stop_t0 st)
      else if due && inside_gate gate_min (margin num cfg st r.meas gate_scale)
      then (gate, freeze_feed num r.stop_at r.stop_t0 st)
      else next

  -- `_wait_segment`
  abbrev pub wait_segment :
      List (Round num) → Option F → Option F → F → Follower num → Status × Follower num
  wait_segment rs deadline gate_min gate_scale st =
      wait_from rs deadline gate_min gate_scale (lit 0 0) st

  -- The loop of `_settle`
  unfoldable pub settle_from : List (Look num) → List F → F → F → F → F → Bool × F
  settle_from [] target grace tol t0 err = (false, err)
  settle_from (r ∷ rs) target grace tol t0 err =
      let e = gap num r.meas target in
      let next = settle_from rs target grace tol t0 e in
      if not (r.alive && lt (sub r.now t0) grace)
      then (false, err)
      else if le num e tol
      then (true, e)
      else next

  -- `_settle`
  abbrev pub settle : F → List (Look num) → List F → F → F → Bool × F
  settle t0 rs target grace tol = settle_from rs target grace tol t0 num.inf

  -- Why a wait ended, and what it left.
  abbrev pub Waited :
      List (Round num) → Option F → Option F → F → Follower num → Status × Follower num → Type 0
  Waited rs deadline gate_min gate_scale st (done, st') =
      (r : Round num) × Memᴰ r rs × (le num (lit 1 0) (progress_of st.seg r.at) ≡ true) × (st' ≡ st)
  Waited rs deadline gate_min gate_scale st (timeout, st') =
      (r : Round num) × Memᴰ r rs
      × (past deadline r.now ≡ true)
      × (st' ≡ freeze_feed num r.stop_at r.stop_t0 st)
  Waited rs deadline gate_min gate_scale st (gate, st') =
      (r : Round num) × Memᴰ r rs
      × (inside_gate gate_min (margin num cfg st r.meas gate_scale) ≡ true)
      × (st' ≡ freeze_feed num r.stop_at r.stop_t0 st)
  Waited rs deadline gate_min gate_scale st (disconnected, st') = st' ≡ st

  Waited-later :
      (r : Round num) (rs : List (Round num)) (deadline gate_min : Option F) (gate_scale : F)
      (st : Follower num) (o : Status × Follower num)
      → Waited rs deadline gate_min gate_scale st o
      → Waited (r ∷ rs) deadline gate_min gate_scale st o
  Waited-later r rs d g s st (done, st') (x, m, p, e) = (x, Memᴰ.tail m, p, e)
  Waited-later r rs d g s st (timeout, st') (x, m, p, e) = (x, Memᴰ.tail m, p, e)
  Waited-later r rs d g s st (gate, st') (x, m, p, e) = (x, Memᴰ.tail m, p, e)
  Waited-later r rs d g s st (disconnected, st') e = e

  -- A wait that says "done" saw the segment complete, one that says "timeout" saw the deadline pass,
  -- and one that says "gate" saw a measured pose inside the gate; after "timeout" and "gate" the
  -- target is frozen where the interpolation was, and otherwise nothing is changed.
  pub wait_from-Waited :
      (rs : List (Round num)) (deadline gate_min : Option F) (gate_scale t_gate : F)
      (st : Follower num)
      → Waited rs deadline gate_min gate_scale st
          (wait_from rs deadline gate_min gate_scale t_gate st)
  unfolding wait_from
  wait_from-Waited [] d g s t st = refl
  wait_from-Waited (r ∷ rs) d g s t st =
      let W = Waited (r ∷ rs) d g s st in
      if-cases (λ (x : Status × Follower num). W x) (not r.alive) (λ e. refl)
        (λ alive.
          if-cases (λ (x : Status × Follower num). W x) (le num (lit 1 0) (progress_of st.seg r.at))
            (λ e. (r, Memᴰ.head refl, e, refl))
            (λ going.
              if-cases (λ (x : Status × Follower num). W x) (past d r.now)
                (λ e. (r, Memᴰ.head refl, e, refl))
                (λ early.
                  if-cases (λ (x : Status × Follower num). W x)
                    (check_due g t r.now && inside_gate g (margin num cfg st r.meas s))
                    (λ e. (r, Memᴰ.head refl, (and-eq_true _ _ e).1, refl))
                    (λ clear. Waited-later r rs d g s st _ (wait_from-Waited rs d g s _ st)))))

  -- A settled arm was seen within the tolerance of its target, and the error reported is the distance
  -- of that pose.
  pub settle_from-seen :
      (rs : List (Look num)) (target : List F) (grace tol t0 err e : F)
      → settle_from rs target grace tol t0 err ≡ (true, e)
      → (r : Look num) × Memᴰ r rs
        × (le num (gap num r.meas target) tol ≡ true)
        × (e ≡ gap num r.meas target)
  unfolding settle_from
  settle_from-seen [] target grace tol t0 err e = λ h. absurd cc
  settle_from-seen (r ∷ rs) target grace tol t0 err e =
      let Goal =
        (x : Look num) × Memᴰ x (r ∷ rs)
        × (le num (gap num x.meas target) tol ≡ true)
        × (e ≡ gap num x.meas target) in
      if-cases (λ (x : Bool × F). x ≡ (true, e) → Goal) (not (r.alive && lt (sub r.now t0) grace))
        (λ out h. absurd cc)
        (λ within.
          if-cases (λ (x : Bool × F). x ≡ (true, e) → Goal) (le num (gap num r.meas target) tol)
            (λ near h. (r, Memᴰ.head refl, near, cc))
            (λ far h.
              let (x, m, p, q) =
                settle_from-seen rs target grace tol t0 (gap num r.meas target) e h in
              (x, Memᴰ.tail m, p, q)))
