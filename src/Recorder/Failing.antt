-- ===== src/Recorder/Failing.antt =====
-- A save that raises, in `_save_worker` of lerobot_recorder.py, and the queue that is drained.
use vla_mantis.Base.{
  ℕ, zero, suc, ◌+◌, ◌<◌, ◌≡◌, refl, true, false, ap, Option, none, some, List, [], ◌∷◌, arith,
  length, subst, and-eq_true, sym, ◌∙◌,
}
use vla_mantis.Recorder.Episode.{Lerobot, Config, Recorder}
use vla_mantis.Recorder.Consistent.{IsConsistent, unopened, idle, busy}
use vla_mantis.Recorder.Session.{saved, save, work_on, work, Event, save_next, step, run}
use vla_mantis.Recorder.Runs.{is_some, all_saves, saves, saves_of}

module _ (lib : Lerobot) (cfg : Config lib) where
  open lib use {Buffer, Dataset}

  work-failed :
      (r : Recorder lib) (d : Dataset) (idx n : ℕ) (b : Buffer) (q : List (ℕ × ℕ × Buffer))
      → r.dataset ≡ some d
      → r.save_q ≡ (idx, n, b) ∷ q
      → lib.save_episode d b ≡ none
      → work lib cfg r
        ≡ record r { save_q = q; saving = false; buffer = lib.clear_episode_buffer r.buffer }
  unfolding work
  work-failed r d idx n b q o qe f = rw qe (rw o (rw f refl))

  lost-inconsistent :
      (r : Recorder lib)
      → r.recording ≡ true
      → 0 < r.frames
      → lib.size r.buffer ≡ 0
      → ¬ IsConsistent lib cfg r
  lost-inconsistent r rec pos z (unopened o e q nx) = cc
  lost-inconsistent r rec pos z (idle d o e s i nx jobs) = cc
  lost-inconsistent r rec pos z (busy d o e s i ep nx jobs) = omega arith

  -- Where a save raises while the next episode is being recorded and already has frames, those
  -- frames leave the buffer and are still counted.
  pub work-lost_frames :
      (r : Recorder lib) (d : Dataset) (idx n : ℕ) (b : Buffer) (q : List (ℕ × ℕ × Buffer))
      → r.recording ≡ true
      → 0 < r.frames
      → r.dataset ≡ some d
      → r.save_q ≡ (idx, n, b) ∷ q
      → lib.save_episode d b ≡ none
      → ((work lib cfg r).recording ≡ true)
        × (lib.size (work lib cfg r).buffer ≡ 0)
        × ((work lib cfg r).frames ≡ r.frames)
        × ¬ IsConsistent lib cfg (work lib cfg r)
  work-lost_frames r d idx n b q rec pos o qe f = rw (work-failed r d idx n b q o qe f) (
    rec,
    lib.size_clear r.buffer,
    refl,
    lost-inconsistent
        (record r { save_q = q; saving = false; buffer = lib.clear_episode_buffer r.buffer }) rec
        pos (lib.size_clear r.buffer),
  )

  -- `n` rounds of the worker
  abbrev pub rounds : ℕ → List (Event lib cfg)
  rounds zero = []
  rounds (suc n) = save_next ∷ rounds n

  abbrev pub total : Option Dataset → ℕ
  total none = 0
  total (some d) = lib.total_episodes d

  -- What a round that takes the queue `q` leaves.
  pub record Taken (r r' : Recorder lib) (q : List (ℕ × ℕ × Buffer)) : Type 0 where
    pub queue_eq : r'.save_q ≡ q
    pub recording_eq : r'.recording ≡ r.recording
    pub frames_eq : r'.frames ≡ r.frames
    pub next_eq : r'.next_ep_idx ≡ r.next_ep_idx

  saved-Taken :
      (r : Recorder lib) (q : List (ℕ × ℕ × Buffer)) (o : Option Dataset)
      → Taken r (saved lib cfg o (record r { save_q = q })) q
  saved-Taken r q none = record {
    queue_eq = refl;
    recording_eq = refl;
    frames_eq = refl;
    next_eq = refl;
  }
  saved-Taken r q (some d) = record {
    queue_eq = refl;
    recording_eq = refl;
    frames_eq = refl;
    next_eq = refl;
  }

  saved-total :
      (r : Recorder lib) (b : Buffer) (q : List (ℕ × ℕ × Buffer)) (ds o : Option Dataset)
      → save lib cfg ds b ≡ o
      → is_some lib cfg o ≡ true
      → total (saved lib cfg o (record r { save_q = q })).dataset ≡ total ds + 1
  saved-total r b q ds none e ok = absurd cc
  saved-total r b q none (some d') e ok = absurd cc
  saved-total r b q (some d) (some d') e ok = lib.total_save d d' b e

  work-Taken :
      (r : Recorder lib) (j : ℕ × ℕ × Buffer) (q : List (ℕ × ℕ × Buffer))
      → r.save_q ≡ j ∷ q
      → Taken r (work lib cfg r) q
  unfolding work
  work-Taken r (i, n, b) q e =
      subst (λ l. Taken r (work_on lib cfg l r) q) (sym e)
        (saved-Taken r q (save lib cfg r.dataset b))

  rounds-Taken_from :
      (q : List (ℕ × ℕ × Buffer)) (r : Recorder lib)
      → r.save_q ≡ q
      → Taken r (run lib cfg (rounds (length q)) r) []
  unfolding run step
  rounds-Taken_from [] r e = record {
    queue_eq = e;
    recording_eq = refl;
    frames_eq = refl;
    next_eq = refl;
  }
  rounds-Taken_from (j ∷ q) r e =
      let one = work-Taken r j q e in
      let rest = rounds-Taken_from q (work lib cfg r) one.queue_eq in
      record {
        queue_eq = rest.queue_eq;
        recording_eq = rest.recording_eq ∙ one.recording_eq;
        frames_eq = rest.frames_eq ∙ one.frames_eq;
        next_eq = rest.next_eq ∙ one.next_eq;
      }

  work-total :
      (r : Recorder lib) (j : ℕ × ℕ × Buffer) (q : List (ℕ × ℕ × Buffer))
      → r.save_q ≡ j ∷ q
      → saves lib cfg save_next r ≡ true
      → total (work lib cfg r).dataset ≡ total r.dataset + 1
  unfolding work
  work-total r (i, n, b) q e ok = rw e (
      saved-total r b q r.dataset (save lib cfg r.dataset b) refl
        (sym (ap (λ l. saves_of lib cfg l r.dataset) e) ∙ ok))

  rounds-total_from :
      (q : List (ℕ × ℕ × Buffer)) (r : Recorder lib)
      → r.save_q ≡ q
      → all_saves lib cfg (rounds (length q)) r ≡ true
      → total (run lib cfg (rounds (length q)) r).dataset ≡ total r.dataset + length q
  unfolding run step all_saves
  rounds-total_from [] r e ok = omega arith
  rounds-total_from (j ∷ q) r e ok =
      let (now, later) =
        and-eq_true (saves lib cfg save_next r)
          (all_saves lib cfg (rounds (length q)) (step lib cfg save_next r)) ok in
      let one = work-total r j q e now in
      let rest = rounds-total_from q (work lib cfg r) (work-Taken r j q e).queue_eq later in
      omega arith

  -- As many rounds of the worker as there are queued episodes empty the queue, whatever their saves
  -- do, and change nothing of whether the recorder records, of its count of frames and of the next
  -- index.
  pub rounds-Taken : (r : Recorder lib) → Taken r (run lib cfg (rounds (length r.save_q)) r) []
  rounds-Taken r = rounds-Taken_from r.save_q r refl

  -- Where none of these saves raises, the dataset then holds that many episodes more.
  pub rounds-total :
      (r : Recorder lib)
      → all_saves lib cfg (rounds (length r.save_q)) r ≡ true
      → total (run lib cfg (rounds (length r.save_q)) r).dataset ≡ total r.dataset + length r.save_q
  rounds-total r ok = rounds-total_from r.save_q r refl ok
