-- ===== src/Recorder/Consistent.antt =====
-- What holds of the recorder of lerobot_recorder.py between two events, and what the camera
-- callbacks keep of it.
use text.Mathlib.Text.{◌==◌ as str_eq}
use vla_mantis.Base.{
  ℕ, ◌+◌, ◌≤◌, ◌≡◌, refl, ◌⊎◌, true, false, not, ap, Option, none, some, List, [], ◌∷◌, arith,
  length, ◌∙◌, if-cases, String,
}
use vla_mantis.Base.Int.{ℤ}
use vla_mantis.Recorder.Image.{Image, stamp}
use vla_mantis.Recorder.Episode.{Lerobot, Config, Node, Recorder, update, push}
use vla_mantis.Recorder.Camera.{
  make_frame, put_buffer, put_frame, commit_of, commit_pending_of, trigger_of, kept_of, add_frame,
  learn, pair_from, cam_keys, commit_pending, on_image,
}

module _ (lib : Lerobot) (cfg : Config lib) where
  open lib use {Buffer, Dataset}

  -- The queued episodes are for consecutive indices from `k` on; each holds the frames that were
  -- counted, and enough of them.
  pub data Jobs : ℕ → List (ℕ × ℕ × Buffer) → Type 0 where
    no_jobs : (k : ℕ) → Jobs k []
    job :
        (k n : ℕ) (b : Buffer) (q : List (ℕ × ℕ × Buffer))
        → lib.size b ≡ n
        → lib.index b ≡ k
        → cfg.min_frames ≤ n
        → Jobs (k + 1) q
        → Jobs k ((k, n, b) ∷ q)

  abbrev pub upcoming : Dataset → Recorder lib → ℕ
  upcoming d r = lib.total_episodes d + length r.save_q

  -- Nothing was opened yet; or the recorder is idle, with an empty buffer for the next episode; or
  -- it records, and the buffer holds as many frames as were counted.
  pub data IsConsistent (r : Recorder lib) : Type 0 where
    unopened :
        r.dataset ≡ none
        → r.recording ≡ false
        → r.save_q ≡ []
        → r.next_ep_idx ≡ none
        → IsConsistent r
    idle :
        (d : Dataset)
        → r.dataset ≡ some d
        → r.recording ≡ false
        → lib.size r.buffer ≡ 0
        → lib.index r.buffer ≡ upcoming d r
        → ((r.next_ep_idx ≡ none) × (r.save_q ≡ [])) ⊎ (r.next_ep_idx ≡ some (upcoming d r))
        → Jobs (lib.total_episodes d) r.save_q
        → IsConsistent r
    busy :
        (d : Dataset)
        → r.dataset ≡ some d
        → r.recording ≡ true
        → lib.size r.buffer ≡ r.frames
        → lib.index r.buffer ≡ upcoming d r
        → r.episode_index ≡ some (upcoming d r)
        → r.next_ep_idx ≡ some (upcoming d r)
        → Jobs (lib.total_episodes d) r.save_q
        → IsConsistent r

  -- Only the buffer and the count of frames changed, and they changed together.
  pub record Grown (r r' : Recorder lib) : Type 0 where
    pub dataset_eq : r'.dataset ≡ r.dataset
    pub recording_eq : r'.recording ≡ r.recording
    pub queue_eq : r'.save_q ≡ r.save_q
    pub next_eq : r'.next_ep_idx ≡ r.next_ep_idx
    pub episode_eq : r'.episode_index ≡ r.episode_index
    pub index_eq : lib.index r'.buffer ≡ lib.index r.buffer
    pub count_eq : lib.size r'.buffer + r.frames ≡ r'.frames + lib.size r.buffer

  pub Grown-refl : (r : Recorder lib) → Grown r r
  Grown-refl r = ground arith

  pub Grown-trans : (r s t : Recorder lib) → Grown r s → Grown s t → Grown r t
  Grown-trans r s t g h = record {
    dataset_eq = h.dataset_eq ∙ g.dataset_eq;
    recording_eq = h.recording_eq ∙ g.recording_eq;
    queue_eq = h.queue_eq ∙ g.queue_eq;
    next_eq = h.next_eq ∙ g.next_eq;
    episode_eq = h.episode_eq ∙ g.episode_eq;
    index_eq = h.index_eq ∙ g.index_eq;
    count_eq = ground (arith, g.count_eq, h.count_eq);
  }

  put_buffer-Grown :
      (r : Recorder lib) (f : lib.Frame) (o : Option Buffer)
      → lib.add_frame r.buffer f ≡ o
      → Grown r (put_buffer lib cfg r o)
  put_buffer-Grown r f none e = Grown-refl r
  put_buffer-Grown r f (some b) e =
      let size = lib.size_add r.buffer b f e in
      record {
        dataset_eq = refl;
        recording_eq = refl;
        queue_eq = refl;
        next_eq = refl;
        episode_eq = refl;
        index_eq = lib.index_add r.buffer b f e;
        count_eq = omega arith;
      }

  put_frame-Grown : (r : Recorder lib) (f : Option lib.Frame) → Grown r (put_frame lib cfg r f)
  put_frame-Grown r none = Grown-refl r
  put_frame-Grown r (some f) = put_buffer-Grown r f (lib.add_frame r.buffer f) refl

  pub add_frame-Grown :
      (n : Node lib) (p : Image) (secs : List (String × ℤ × Image)) (r : Recorder lib)
      → Grown r (add_frame lib cfg n p secs r)
  unfolding add_frame
  add_frame-Grown n p secs r = put_frame-Grown r (make_frame lib cfg n p secs)

  -- What arrived, what is pending and the cameras' offsets are no part of it.
  pub Grown-aside :
      (r : Recorder lib) (dropped : ℕ) (img_msg : String → Option (ℤ × Image))
      (img_hist : String → List (ℤ × Image)) (skew_est : String → List ℤ) (pending : Option Image)
      → Grown r (record r {
        dropped = dropped;
        img_msg = img_msg;
        img_hist = img_hist;
        skew_est = skew_est;
        pending = pending;
      })
  Grown-aside r dropped img_msg img_hist skew_est pending = record {
    dataset_eq = refl;
    recording_eq = refl;
    queue_eq = refl;
    next_eq = refl;
    episode_eq = refl;
    index_eq = refl;
    count_eq = omega arith;
  }

  commit_of-Grown :
      (n : Node lib) (p : Image) (secs : Option (List (String × ℤ × Image))) (r : Recorder lib)
      → Grown r (commit_of lib cfg n p secs r).1
  commit_of-Grown n p none r = Grown-refl r
  commit_of-Grown n p (some secs) r =
      let learnt = learn lib cfg (stamp p) secs r.skew_est in
      Grown-trans r (record r { pending = none; skew_est = learnt }) _
        (Grown-aside r r.dropped r.img_msg r.img_hist learnt none)
        (add_frame-Grown n p secs (record r { pending = none; skew_est = learnt }))

  commit_pending_of-Grown :
      (n : Node lib) (p : Option Image) (r : Recorder lib)
      → Grown r (commit_pending_of lib cfg n p r).1
  commit_pending_of-Grown n none r = Grown-refl r
  commit_pending_of-Grown n (some p) r =
      commit_of-Grown n p (pair_from lib cfg (cam_keys lib cfg) (stamp p) r) r

  pub commit_pending-Grown :
      (n : Node lib) (r : Recorder lib) → Grown r (commit_pending lib cfg n r).1
  unfolding commit_pending
  commit_pending-Grown n r = commit_pending_of-Grown n r.pending r

  trigger_of-Grown :
      (n : Node lib) (m : Image) (p : Option Image) (r : Recorder lib)
      → Grown r (trigger_of lib cfg n m p r)
  trigger_of-Grown n m none r = Grown-aside r r.dropped r.img_msg r.img_hist r.skew_est (some m)
  trigger_of-Grown n m (some p) r =
      let c = commit_pending lib cfg n r in
      let s = c.1 in
      let g = commit_pending-Grown n r in
      if-cases (Grown r) c.0
        (λ e.
          Grown-trans r s _ g (Grown-aside s s.dropped s.img_msg s.img_hist s.skew_est (some m)))
        (λ e.
          Grown-trans r s _ g
            (Grown-aside s (s.dropped + 1) s.img_msg s.img_hist s.skew_est (some m)))

  kept-Grown :
      (key : String) (m : Image) (now : ℤ) (r : Recorder lib)
      → Grown r (kept_of lib cfg key m now r)
  kept-Grown key m now r =
      let seen = update r.img_msg key (some (now, m)) in
      if-cases (Grown r) (str_eq key cfg.primary)
        (λ e. Grown-aside r r.dropped seen r.img_hist r.skew_est r.pending)
        (λ e.
          Grown-aside r r.dropped seen
            (update r.img_hist key (push 4 (r.img_hist key) (stamp m, m))) r.skew_est r.pending)

  kept-buffer :
      (key : String) (m : Image) (now : ℤ) (r : Recorder lib)
      → (kept_of lib cfg key m now r).buffer ≡ r.buffer
  kept-buffer key m now r =
      if-cases (λ (s : Recorder lib). s.buffer ≡ r.buffer) (str_eq key cfg.primary) (λ e. refl)
        (λ e. refl)

  pub on_image-Grown :
      (n : Node lib) (key : String) (m : Image) (now : ℤ) (r : Recorder lib)
      → Grown r (on_image lib cfg n key m now r)
  unfolding on_image
  on_image-Grown n key m now r =
      let kept = kept_of lib cfg key m now r in
      let g = kept-Grown key m now r in
      if-cases (Grown r) (not r.recording) (λ e. g)
        (λ e.
          if-cases (Grown r) (str_eq key cfg.primary)
            (λ e'. Grown-trans r kept _ g (trigger_of-Grown n m kept.pending kept)) (λ e'. g))

  pub on_image-buffer :
      (n : Node lib) (key : String) (m : Image) (now : ℤ) (r : Recorder lib)
      → r.recording ≡ false
      → (on_image lib cfg n key m now r).buffer ≡ r.buffer
  unfolding on_image
  on_image-buffer n key m now r e =
      if-cases (λ (s : Recorder lib). s.buffer ≡ r.buffer) (not r.recording)
        (λ e'. kept-buffer key m now r) (λ e'. absurd cc)

  -- Images never break the invariant.
  pub on_image-IsConsistent :
      (n : Node lib) (key : String) (m : Image) (now : ℤ) (r : Recorder lib)
      → IsConsistent r
      → IsConsistent (on_image lib cfg n key m now r)
  on_image-IsConsistent n key m now r (unopened d e q i) =
      let g = on_image-Grown n key m now r in
      unopened (g.dataset_eq ∙ d) (g.recording_eq ∙ e) (g.queue_eq ∙ q) (g.next_eq ∙ i)
  on_image-IsConsistent n key m now r (idle d o e s i nx jobs) =
      let g = on_image-Grown n key m now r in
      let b = on_image-buffer n key m now r e in
      idle d (g.dataset_eq ∙ o) (g.recording_eq ∙ e) (ap lib.size b ∙ s)
        (rw g.queue_eq (g.index_eq ∙ i)) (rw (g.queue_eq, g.next_eq) nx) (rw g.queue_eq jobs)
  on_image-IsConsistent n key m now r (busy d o e s i ep nx jobs) =
      let g = on_image-Grown n key m now r in
      let count = g.count_eq in
      busy d (g.dataset_eq ∙ o) (g.recording_eq ∙ e) (omega arith) (rw g.queue_eq (g.index_eq ∙ i))
        (rw g.queue_eq (g.episode_eq ∙ ep)) (rw g.queue_eq (g.next_eq ∙ nx)) (rw g.queue_eq jobs)
