-- ===== src/Recorder/Runs.antt =====
-- Episodes are saved in order, under their own index and with the frames that were counted: what
-- `_save_loop` of lerobot_recorder.py keeps, and every run of the recorder with it.
use vla_mantis.Base.{
  subst, and-eq_true, ℕ, ◌+◌, ◌≤◌, ◌≡◌, refl, inl, inr, Bool, true, false, ◌&&◌, ap, Option, none,
  some, List, [], ◌∷◌, arith, length, sym, ◌∙◌,
}
use mathlib.Core.Option.{some-injective}
use vla_mantis.Recorder.Episode.{Lerobot, Config, Recorder}
use vla_mantis.Recorder.Consistent.{
  Jobs, no_jobs, job, upcoming, IsConsistent, unopened, idle, busy, on_image-IsConsistent,
}
use vla_mantis.Recorder.Starting.{start-IsConsistent}
use vla_mantis.Recorder.Stopping.{stop-IsConsistent}
use vla_mantis.Recorder.Session.{
  saved, save, work_on, work, Event, image, press_start, press_stop, save_next, step, run,
}

module _ (lib : Lerobot) (cfg : Config lib) where
  open lib use {Buffer, Dataset}

  abbrev pub is_some : Option Dataset → Bool
  is_some none = false
  is_some (some d) = true

  -- The save of the oldest queued episode does not raise.
  abbrev pub saves_of : List (ℕ × ℕ × Buffer) → Option Dataset → Bool
  saves_of [] o = true
  saves_of ((idx, n, b) ∷ q) o = is_some (save lib cfg o b)

  abbrev pub saves : Event lib cfg → Recorder lib → Bool
  saves (image n key m now) r = true
  saves (press_start n now) r = true
  saves (press_stop n) r = true
  saves save_next r = saves_of r.save_q r.dataset

  -- No save raises in a run.
  unfoldable pub all_saves : List (Event lib cfg) → Recorder lib → Bool
  all_saves [] r = true
  all_saves (e ∷ es) r = saves e r && all_saves es (step lib cfg e r)

  -- What `Jobs` says of the oldest queued episode.
  abbrev Oldest : ℕ → List (ℕ × ℕ × Buffer) → Type 0
  Oldest k [] = Unit
  Oldest k ((i, n, b) ∷ q) =
      (i ≡ k) × (lib.size b ≡ n) × (lib.index b ≡ k) × (cfg.min_frames ≤ n) × Jobs lib cfg (k + 1) q

  Jobs-Oldest : (k : ℕ) (q : List (ℕ × ℕ × Buffer)) → Jobs lib cfg k q → Oldest k q
  Jobs-Oldest _ _ (no_jobs k) = tt
  Jobs-Oldest _ _ (job k n b q s i m jobs) = (refl, s, i, m, jobs)

  saved-IsConsistent :
      (k n : ℕ) (b : Buffer) (q : List (ℕ × ℕ × Buffer)) (r : Recorder lib) (o : Option Dataset)
      → save lib cfg r.dataset b ≡ o
      → is_some o ≡ true
      → r.save_q ≡ (k, n, b) ∷ q
      → IsConsistent lib cfg r
      → IsConsistent lib cfg (saved lib cfg o (record r { save_q = q }))
  saved-IsConsistent k n b q r none eq ok qe h = absurd cc
  saved-IsConsistent k n b q r (some d') eq ok qe (unopened o e q0 nx) = absurd cc
  saved-IsConsistent k n b q r (some d') eq ok qe (idle d o e s i nx jobs) =
      let total = lib.total_save d d' b (sym (ap (λ x. save lib cfg x b) o) ∙ eq) in
      let shift : upcoming lib cfg d r ≡ lib.total_episodes d' + length q =
        ap (λ l. lib.total_episodes d + length l) qe ∙ omega arith in
      let (k_eq, s', i', m, rest) =
        subst (Oldest (lib.total_episodes d)) qe (Jobs-Oldest _ r.save_q jobs) in
      idle d' refl e s (i ∙ shift)
        (elim nx [ inl (e', q0) ↦ absurd cc | inr e' ↦ inr (e' ∙ ap some shift) ]) (rw total rest)
  saved-IsConsistent k n b q r (some d') eq ok qe (busy d o e s i ep nx jobs) =
      let total = lib.total_save d d' b (sym (ap (λ x. save lib cfg x b) o) ∙ eq) in
      let shift : upcoming lib cfg d r ≡ lib.total_episodes d' + length q =
        ap (λ l. lib.total_episodes d + length l) qe ∙ omega arith in
      let (k_eq, s', i', m, rest) =
        subst (Oldest (lib.total_episodes d)) qe (Jobs-Oldest _ r.save_q jobs) in
      busy d' refl e s (i ∙ shift) (ep ∙ ap some shift) (nx ∙ ap some shift) (rw total rest)

  work_on-IsConsistent :
      (q : List (ℕ × ℕ × Buffer)) (r : Recorder lib)
      → r.save_q ≡ q
      → saves_of q r.dataset ≡ true
      → IsConsistent lib cfg r
      → IsConsistent lib cfg (work_on lib cfg q r)
  work_on-IsConsistent [] r e ok h = h
  work_on-IsConsistent ((k, n, b) ∷ q) r e ok h =
      saved-IsConsistent k n b q r (save lib cfg r.dataset b) refl ok e h

  step-IsConsistent :
      (e : Event lib cfg) (r : Recorder lib)
      → saves e r ≡ true
      → IsConsistent lib cfg r
      → IsConsistent lib cfg (step lib cfg e r)
  unfolding step work
  step-IsConsistent (image n key m now) r ok h = on_image-IsConsistent lib cfg n key m now r h
  step-IsConsistent (press_start n now) r ok h = start-IsConsistent lib cfg n now r h
  step-IsConsistent (press_stop n) r ok h = stop-IsConsistent lib cfg n r h
  step-IsConsistent save_next r ok h = work_on-IsConsistent r.save_q r refl ok h

  pub run-IsConsistent :
      (es : List (Event lib cfg)) (r : Recorder lib)
      → all_saves es r ≡ true
      → IsConsistent lib cfg r
      → IsConsistent lib cfg (run lib cfg es r)
  unfolding run all_saves
  run-IsConsistent [] r ok h = h
  run-IsConsistent (e ∷ es) r ok h =
      let (now, later) = and-eq_true (saves e r) (all_saves es (step lib cfg e r)) ok in
      run-IsConsistent es (step lib cfg e r) later (step-IsConsistent e r now h)

  queued-Jobs :
      (r : Recorder lib) (d : Dataset)
      → r.dataset ≡ some d
      → IsConsistent lib cfg r
      → Jobs lib cfg (lib.total_episodes d) r.save_q
  queued-Jobs r d od (unopened o e q nx) = absurd cc
  queued-Jobs r d od (idle d' o e s i nx jobs) =
      subst (λ k. Jobs lib cfg (lib.total_episodes k) r.save_q) (some-injective _ _ (sym o ∙ od))
        jobs
  queued-Jobs r d od (busy d' o e s i ep nx jobs) =
      subst (λ k. Jobs lib cfg (lib.total_episodes k) r.save_q) (some-injective _ _ (sym o ∙ od))
        jobs

  -- From a recorder that has opened nothing, after any sequence of camera images, presses of the
  -- button and rounds of the worker in which no save raises: the oldest queued episode is for the
  -- index that the dataset gives it, so is its buffer, and the buffer holds exactly the frames that
  -- were counted, of which there are enough.
  pub run-save_ready :
      (es : List (Event lib cfg)) (r : Recorder lib) (d : Dataset) (idx n : ℕ) (b : Buffer)
      (q : List (ℕ × ℕ × Buffer))
      → r.dataset ≡ none
      → r.recording ≡ false
      → r.save_q ≡ []
      → r.next_ep_idx ≡ none
      → all_saves es r ≡ true
      → (run lib cfg es r).dataset ≡ some d
      → (run lib cfg es r).save_q ≡ (idx, n, b) ∷ q
      → (idx ≡ lib.total_episodes d) × (lib.index b ≡ idx) × (lib.size b ≡ n) × (cfg.min_frames ≤ n)
  run-save_ready es r d idx n b q o e q0 nx ok od qe =
      let jobs =
        queued-Jobs (run lib cfg es r) d od (run-IsConsistent es r ok (unopened o e q0 nx)) in
      let (k, s, i, m, rest) = subst (Oldest (lib.total_episodes d)) qe (Jobs-Oldest _ _ jobs) in
      (k, i ∙ sym k, s, m)
