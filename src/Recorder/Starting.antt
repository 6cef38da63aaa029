-- ===== src/Recorder/Starting.antt =====
-- `start` and `stop` of lerobot_recorder.py keep what holds of the recorder.
use vla_mantis.Base.{
  ◌≡◌, refl, ◌⊎◌, inl, inr, false, not, ap, Option, none, some, List, [], arith, ◌∙◌, if-cases,
  String,
}
use vla_mantis.Base.Int.{ℤ}
use vla_mantis.Recorder.Episode.{Pixels, Lerobot, Config, Node, Recorder}
use vla_mantis.Recorder.Consistent.{Jobs, no_jobs, upcoming, IsConsistent, unopened, idle, busy}
use vla_mantis.Recorder.Session.{
  Cameras, stale, undecodable, shapes, Answer, opened_new, opened, first_index, begin, start_opened,
  start_with, start, has_values,
}

module _ (lib : Lerobot) (cfg : Config lib) where
  open lib use {Buffer, Dataset}

  -- An episode begins on an empty buffer that is for the next index.
  begin-IsConsistent :
      (r : Recorder lib) (d : Dataset)
      → r.dataset ≡ some d
      → lib.size r.buffer ≡ 0
      → lib.index r.buffer ≡ upcoming lib cfg d r
      → ((r.next_ep_idx ≡ none) × (r.save_q ≡ [])) ⊎ (r.next_ep_idx ≡ some (upcoming lib cfg d r))
      → Jobs lib cfg (lib.total_episodes d) r.save_q
      → IsConsistent lib cfg (begin lib cfg r)
  begin-IsConsistent r d o s i nx jobs =
      let next : first_index lib cfg r.next_ep_idx r.dataset ≡ some (upcoming lib cfg d r) =
        elim nx [
          | inl (e, q) ↦ rw (e) (rw (o) (rw (q) (ap some (omega arith))))
          | inr e ↦ rw (e) refl
        ] in
      busy d o refl s i next next jobs

  opened_new-IsConsistent :
      (r : Recorder lib) (o : Option Dataset)
      → r.recording ≡ false
      → r.save_q ≡ []
      → r.next_ep_idx ≡ none
      → IsConsistent lib cfg r
      → IsConsistent lib cfg (start_opened lib cfg r (opened_new lib cfg r o)).1
  opened_new-IsConsistent r none e q nx h = h
  opened_new-IsConsistent r (some d) e q nx h =
      begin-IsConsistent (record r { dataset = some d; buffer = lib.first_buffer d }) d refl
        (lib.size_first d) (lib.index_first d ∙ rw q (omega arith)) (inl (nx, q))
        (rw q (no_jobs (lib.total_episodes d)))

  opened-IsConsistent :
      (ps : List (String × Pixels)) (r : Recorder lib) (o : Option Dataset)
      → r.dataset ≡ o
      → r.recording ≡ false
      → IsConsistent lib cfg r
      → IsConsistent lib cfg (start_opened lib cfg r (opened lib cfg ps r o)).1
  opened-IsConsistent ps r none eq e (unopened o e' q nx) =
      opened_new-IsConsistent r (lib.open_dataset ps) e q nx (unopened o e' q nx)
  opened-IsConsistent ps r none eq e (idle d o e' s i nx jobs) = absurd cc
  opened-IsConsistent ps r none eq e (busy d o e' s i ep nx jobs) = absurd cc
  opened-IsConsistent ps r (some d') eq e (unopened o e' q nx) = absurd cc
  opened-IsConsistent ps r (some d') eq e (idle d o e' s i nx jobs) =
      begin-IsConsistent r d o s i nx jobs
  opened-IsConsistent ps r (some d') eq e (busy d o e' s i ep nx jobs) = absurd cc

  start_with-IsConsistent :
      (c : Cameras) (r : Recorder lib)
      → r.recording ≡ false
      → IsConsistent lib cfg r
      → IsConsistent lib cfg (start_with lib cfg c r).1
  start_with-IsConsistent stale r e h = h
  start_with-IsConsistent undecodable r e h = h
  start_with-IsConsistent (shapes ps) r e h = opened-IsConsistent ps r r.dataset refl e h

  pub start-IsConsistent :
      (n : Node lib) (now : ℤ) (r : Recorder lib)
      → IsConsistent lib cfg r
      → IsConsistent lib cfg (start lib cfg n now r).1
  unfolding start
  start-IsConsistent n now r h =
      let P = λ (x : Answer × Recorder lib). IsConsistent lib cfg x.1 in
      if-cases P r.recording (λ e. h)
        (λ e.
          if-cases P (not r.loaded) (λ l. h)
            (λ l.
              if-cases P (not (has_values lib cfg n)) (λ v. h)
                (λ v. start_with-IsConsistent _ r e h)))
