-- ===== src/Teleop/Tracked.antt =====
-- What the pose gate of teleop_mantis.py lets through: the cases of `on_vive_pose`.
use vla_mantis.Base.{
  ◌+◌, ◌≡◌, refl, sym, subst, inl, inr, Bool, true, false, not, ◌&&◌, Option, none, some, List, ltb,
  length, take, drop, if◌then◌else◌, if-cases, Bool-cases, not-eq_true, not-eq_false,
}
use vla_mantis.Base.Num.{Num, le}
use vla_mantis.Teleop.Tracking.{
  Maths, Limits, Pose, Tracker, reject, accept, restarted, is_jump, gate, take_pose, on_vive_pose,
}

module _ (num : Num) (maths : Maths num) (cfg : Limits num) where
  open num use {F, lt, lit, sub}

  -- The pose starts the stream, or starts it anew after a gap; or it comes with no time since the last
  -- accepted one; or it is no jump from that.
  pub data Continues (now : F) (p Rc : List F) (st : Tracker num) : Type 0 where
    first : st.cur ≡ none → Continues now p Rc st
    after_gap : le num cfg.pose_timeout (sub now st.pose_t) ≡ true → Continues now p Rc st
    no_raw : st.raw ≡ none → Continues now p Rc st
    at_once : lt (lit 1 6) (sub now st.pose_t) ≡ false → Continues now p Rc st
    no_jump :
        (raw : Pose num)
        → st.raw ≡ some raw
        → is_jump num maths cfg (sub now st.pose_t) p Rc raw ≡ false
        → Continues now p Rc st

  -- The message carries a pose: twelve numbers at least, the first twelve of them finite.
  abbrev pub carries_pose : List F → Bool
  carries_pose d = not (ltb (length d) 12) && maths.is_finite (take 12 d)

  -- What a message does: nothing, where it carries no pose; or its pose is rejected, as a jump from the last accepted one within
  -- the timeout, and changes nothing that the target is made of; or it is accepted.
  pub data Followed (now : F) (d p Rc : List F) (st st' : Tracker num) : Type 0 where
    ignored : carries_pose d ≡ false → st' ≡ st → Followed now d p Rc st st'
    rejected :
        (raw : Pose num)
        → carries_pose d ≡ true
        → st.raw ≡ some raw
        → is_jump num maths cfg (sub now st.pose_t) p Rc raw ≡ true
        → le num cfg.pose_timeout (sub now st.pose_t) ≡ false
        → st'.cur ≡ st.cur
        → st'.pose_t ≡ st.pose_t
        → st'.raw ≡ st.raw
        → st'.pos_filter ≡ st.pos_filter
        → st'.mean ≡ st.mean
        → st'.rotation ≡ st.rotation
        → st'.glitches ≡ st.glitches + 1
        → Followed now d p Rc st st'
    accepted :
        carries_pose d ≡ true
        → st'.raw ≡ some (p, Rc)
        → st'.pose_t ≡ now
        → st'.rotation ≡ some Rc
        → st'.glitches ≡ st.glitches
        → Continues now p Rc st
        → Followed now d p Rc st st'

  module _ (now : F) (d p Rc : List F) (st : Tracker num) (whole : carries_pose d ≡ true) where
    accept-Followed :
        (x : Tracker num)
        → x.glitches ≡ st.glitches
        → Continues now p Rc st
        → Followed now d p Rc st (accept num maths cfg now p Rc x)
    unfolding accept
    accept-Followed x g c = accepted whole refl refl refl g c

    reject-Followed :
        (raw : Pose num) (t : F)
        → st.raw ≡ some raw
        → is_jump num maths cfg (sub now st.pose_t) p Rc raw ≡ true
        → le num cfg.pose_timeout (sub now st.pose_t) ≡ false
        → Followed now d p Rc st (reject num maths cfg now (record st { pose_msg_t = t }))
    unfolding reject
    reject-Followed raw t e jump soon =
        if-cases (λ (x : Tracker num). Followed now d p Rc st x)
          (not (lt (lit 0 0) cfg.degrade_max_rate))
          (λ off. rejected raw whole e jump soon refl refl refl refl refl refl refl)
          (λ on.
            if-cases (λ (x : Tracker num). Followed now d p Rc st x) (le num _ _)
              (λ many. rejected raw whole e jump soon refl refl refl refl refl refl refl)
              (λ few. rejected raw whole e jump soon refl refl refl refl refl refl refl))

    gate-Followed :
        (t : F) (o : Option (Pose num))
        → st.raw ≡ o
        → le num cfg.pose_timeout (sub now st.pose_t) ≡ false
        → Followed now d p Rc st
            (gate num maths cfg now (sub now st.pose_t) p Rc o (record st { pose_msg_t = t }))
    gate-Followed t none e soon = accept-Followed (record st { pose_msg_t = t }) refl (no_raw e)
    gate-Followed t (some raw) e soon =
        let late : Tracker num = record st { pose_msg_t = t } in
        let dt = sub now st.pose_t in
        let At = λ (b : Bool). Followed now d p Rc st (
          if b && is_jump num maths cfg dt p Rc raw
          then reject num maths cfg now late
          else accept num maths cfg now p Rc late) in
        elim (Bool-cases (lt (lit 1 6) dt)) [
          | inr at ↦ subst (λ b. At b) (sym at) (accept-Followed late refl (at_once at))
          | inl moved ↦
              subst (λ b. At b) (sym moved)
                (if-cases (λ (x : Tracker num). Followed now d p Rc st x)
                  (is_jump num maths cfg dt p Rc raw) (λ jump. reject-Followed raw t e jump soon)
                  (λ calm. accept-Followed late refl (no_jump raw e calm)))
        ]

    take_pose-Followed :
        (t : F) (o : Option (List F))
        → st.cur ≡ o
        → Followed now d p Rc st (take_pose num maths cfg now p Rc o (record st { pose_msg_t = t }))
    take_pose-Followed t none e = accept-Followed (record st { pose_msg_t = t }) refl (first e)
    take_pose-Followed t (some c) e =
        if-cases (λ (x : Tracker num). Followed now d p Rc st x)
          (le num cfg.pose_timeout (sub now st.pose_t))
          (λ gap.
            accept-Followed (restarted num maths cfg (record st { pose_msg_t = t })) refl
              (after_gap gap))
          (λ soon. gate-Followed t st.raw refl soon)

  -- A message is ignored exactly when it is short or its numbers are not finite. Else its pose is rejected only as a jump
  -- from the last accepted pose, and only while that is within the timeout, and then nothing changes
  -- that the target is made of; else it is accepted, which takes a pose that is no jump, or is the
  -- first, or comes after a gap of the timeout or more.
  pub on_vive_pose-Followed :
      (msg_now now : F) (d : List F) (st : Tracker num)
      → Followed now d
          (take 3 (take 12 d))
          (maths.orthonormal (drop 3 (take 12 d)))
          st
          (on_vive_pose num maths cfg msg_now now d st)
  unfolding on_vive_pose
  on_vive_pose-Followed msg_now now d st =
      let p = take 3 (take 12 d) in
      let Rc = maths.orthonormal (drop 3 (take 12 d)) in
      if-cases (λ (x : Tracker num). Followed now d p Rc st x) (ltb (length d) 12)
        (λ short. ignored (simp (short)) refl)
        (λ long.
          if-cases (λ (x : Tracker num). Followed now d p Rc st x)
            (not (maths.is_finite (take 12 d)))
            (λ broken. ignored (simp (not-eq_true _ broken, long)) refl)
            (λ whole.
              take_pose-Followed now d p Rc st (simp (long, not-eq_false _ whole)) msg_now st.cur
                refl))
