-- ===== src/Recorder/Stopping.antt =====
-- `stop` of lerobot_recorder.py keeps what holds of the recorder.
use vla_mantis.Base.{
  ℕ, suc, ◌+◌, ◌≤◌, ◌≡◌, refl, inr, Bool, true, false, not, ap, Option, none, some, List, [], ◌∷◌,
  ◌++◌, arith, length, ◌∙◌, if-cases, ltb, not-eq_false,
}
use vla_mantis.Recorder.Image.{Image}
use vla_mantis.Recorder.Episode.{Lerobot, Config, Node, Recorder}
use vla_mantis.Recorder.Camera.{commit_pending}
use vla_mantis.Recorder.Consistent.{
  Jobs, no_jobs, job, upcoming, IsConsistent, unopened, idle, busy, Grown, Grown-refl, Grown-trans,
  Grown-aside, commit_pending-Grown,
}
use vla_mantis.Recorder.Session.{close, flush_of, flush, stop, index_or_zero}

length-snoc {ℓ} : {A : Type ℓ} (xs : List A) (x : A) → length (xs ++ x ∷ []) ≡ length xs + 1
length-snoc [] x = refl
length-snoc (y ∷ xs) x = let rest = length-snoc xs x in omega arith

module _ (lib : Lerobot) (cfg : Config lib) where
  open lib use {Buffer, Dataset}

  flush_of-Grown :
      (n : Node lib) (p : Option Image) (r : Recorder lib)
      → Grown lib cfg r (flush_of lib cfg n p r)
  flush_of-Grown n none r = Grown-refl lib cfg r
  flush_of-Grown n (some p) r =
      let s = (commit_pending lib cfg n r).1 in
      Grown-trans lib cfg r s _ (commit_pending-Grown lib cfg n r)
        (Grown-aside lib cfg s s.dropped s.img_msg s.img_hist s.skew_est none)

  pub flush-Grown : (n : Node lib) (r : Recorder lib) → Grown lib cfg r (flush lib cfg n r)
  unfolding flush
  flush-Grown n r = flush_of-Grown n r.pending r

  Jobs-snoc :
      (k n : ℕ) (b : Buffer) (q : List (ℕ × ℕ × Buffer))
      → Jobs lib cfg k q
      → lib.size b ≡ n
      → lib.index b ≡ k + length q
      → cfg.min_frames ≤ n
      → Jobs lib cfg k (q ++ (k + length q, n, b) ∷ [])
  Jobs-snoc _ n b _ (no_jobs k) s i m =
      let at_k : k + 0 ≡ k = omega arith in rw at_k (job k n b [] s (i ∙ at_k) m (no_jobs (k + 1)))
  Jobs-snoc _ n b _ (job k n' b' q s' i' m' jobs) s i m =
      let shift : k + suc (length q) ≡ k + 1 + length q = omega arith in
      job k n' b' _ s' i' m' (rw shift (Jobs-snoc (k + 1) n b q jobs s (i ∙ shift) m))

  -- The episode is discarded, or queued under its index.
  close-IsConsistent :
      (r : Recorder lib) (d : Dataset)
      → r.dataset ≡ some d
      → r.recording ≡ false
      → lib.size r.buffer ≡ r.frames
      → lib.index r.buffer ≡ upcoming lib cfg d r
      → r.episode_index ≡ some (upcoming lib cfg d r)
      → r.next_ep_idx ≡ some (upcoming lib cfg d r)
      → Jobs lib cfg (lib.total_episodes d) r.save_q
      → IsConsistent lib cfg (close lib cfg r)
  unfolding close
  close-IsConsistent r d o e s i ep nx jobs =
      let k = index_or_zero lib cfg r.next_ep_idx in
      let k_eq : k ≡ upcoming lib cfg d r = ap (index_or_zero lib cfg) nx in
      let ep_eq : index_or_zero lib cfg r.episode_index ≡ upcoming lib cfg d r =
        ap (index_or_zero lib cfg) ep in
      let longer =
        length-snoc r.save_q (index_or_zero lib cfg r.episode_index, r.frames, r.buffer) in
      if-cases (IsConsistent lib cfg) (ltb r.frames cfg.min_frames)
        (λ short. idle d o e (lib.size_create k) (lib.index_create k ∙ k_eq) (inr nx) jobs)
        (λ enough.
          idle d o e (lib.size_create (k + 1)) (lib.index_create (k + 1) ∙ omega arith)
            (inr (ap some (omega arith)))
            (rw ep_eq (Jobs-snoc _ r.frames r.buffer r.save_q jobs s i (ground arith))))

  flushed-IsConsistent :
      (n : Node lib) (r : Recorder lib)
      → r.recording ≡ true
      → IsConsistent lib cfg r
      → IsConsistent lib cfg (close lib cfg (record (flush lib cfg n r) { recording = false }))
  flushed-IsConsistent n r e (unopened o e' q nx) = absurd cc
  flushed-IsConsistent n r e (idle d o e' s i nx jobs) = absurd cc
  flushed-IsConsistent n r e (busy d o e' s i ep nx jobs) =
      let g = flush-Grown n r in
      let count = g.count_eq in
      close-IsConsistent (record (flush lib cfg n r) { recording = false }) d (g.dataset_eq ∙ o)
        refl (omega arith) (rw g.queue_eq (g.index_eq ∙ i)) (rw g.queue_eq (g.episode_eq ∙ ep))
        (rw g.queue_eq (g.next_eq ∙ nx)) (rw g.queue_eq jobs)

  pub stop-IsConsistent :
      (n : Node lib) (r : Recorder lib)
      → IsConsistent lib cfg r
      → IsConsistent lib cfg (stop lib cfg n r).1
  unfolding stop
  stop-IsConsistent n r h =
      if-cases (λ (x : Bool × Recorder lib). IsConsistent lib cfg x.1) (not r.recording) (λ e. h)
        (λ e. flushed-IsConsistent n r (not-eq_false r.recording e) h)
