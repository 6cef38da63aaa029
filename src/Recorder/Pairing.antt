-- ===== src/Recorder/Pairing.antt =====
-- Which images `_commit_pending` of lerobot_recorder.py pairs with a primary one.
use text.Mathlib.Text.{◌==◌ as str_eq}
use mathlib.Core.List.{Memᴰ}
use mathlib.Core.Option.{some-injective}
use vla_mantis.Base.{
  ◌≡◌, refl, true, false, Option, none, some, List, [], ◌∷◌, if-cases, subst, String,
}
use vla_mantis.Base.Int.{ℤ, ◌+ℤ◌, ltb_ℤ}
use vla_mantis.Recorder.Image.{Image}
use vla_mantis.Recorder.Episode.{Lerobot, Config, Recorder, distance}
use vla_mantis.Recorder.Camera.{nearest_from, bias, chosen, with_secondary, pair_from}

nearest_from-Memᴰ :
    (target : ℤ) (all hist : List (ℤ × Image)) (best : ℤ × Image)
    → Memᴰ best all
    → ((c : ℤ × Image) → Memᴰ c hist → Memᴰ c all)
    → Memᴰ (nearest_from target best hist) all
unfolding nearest_from
nearest_from-Memᴰ target all [] best b h = b
nearest_from-Memᴰ target all (c ∷ hist) best b h =
    nearest_from-Memᴰ target all hist _
      (if-cases (λ (x : ℤ × Image). Memᴰ x all)
        (ltb_ℤ (distance c.0 target) (distance best.0 target)) (λ e. h c (Memᴰ.head refl)) (λ e. b))
      (λ d m. h d (Memᴰ.tail m))

module _ (lib : Lerobot) (cfg : Config lib) where
  -- The secondary images of a frame: each is one that its camera keeps, within the tolerance of the
  -- primary's stamp corrected by the camera's offset, and no camera but the primary is left out.
  pub data IsPaired (ps : ℤ) (r : Recorder lib)
      : List String → List (String × ℤ × Image) → Type 0 where
    no_camera : IsPaired ps r [] []
    primary :
        (key : String) (keys : List String) (secs : List (String × ℤ × Image))
        → str_eq key cfg.primary ≡ true
        → IsPaired ps r keys secs
        → IsPaired ps r (key ∷ keys) secs
    secondary :
        (key : String) (t : ℤ) (m : Image) (keys : List String) (secs : List (String × ℤ × Image))
        → str_eq key cfg.primary ≡ false
        → Memᴰ (t, m) (r.img_hist key)
        → ltb_ℤ cfg.pair_tol (distance t (ps +ℤ bias lib cfg (r.skew_est key))) ≡ false
        → IsPaired ps r keys secs
        → IsPaired ps r (key ∷ keys) ((key, t, m) ∷ secs)

  chosen-Memᴰ :
      (ps : ℤ) (est : List ℤ) (hist : List (ℤ × Image)) (c : ℤ × Image)
      → chosen lib cfg ps est hist ≡ some c
      → Memᴰ c hist × (ltb_ℤ cfg.pair_tol (distance c.0 (ps +ℤ bias lib cfg est)) ≡ false)
  chosen-Memᴰ ps est [] c = λ e. absurd cc
  chosen-Memᴰ ps est (b ∷ hist) c =
      let target = ps +ℤ bias lib cfg est in
      let best = nearest_from target b hist in
      let Good =
        λ (x : ℤ × Image). Memᴰ x (b ∷ hist) × (ltb_ℤ cfg.pair_tol (distance x.0 target) ≡ false) in
      if-cases (λ (o : Option (ℤ × Image)). o ≡ some c → Good c)
        (ltb_ℤ cfg.pair_tol (distance best.0 target)) (λ far e. absurd cc)
        (λ near e.
          subst Good (some-injective _ _ e) (
            nearest_from-Memᴰ target (b ∷ hist) hist b (Memᴰ.head refl) (λ d m. Memᴰ.tail m),
            near,
          ))

  with_secondary-IsPaired :
      (ps : ℤ) (r : Recorder lib) (key : String) (keys : List String) (o : Option (ℤ × Image))
      (rest : Option (List (String × ℤ × Image))) (secs : List (String × ℤ × Image))
      → str_eq key cfg.primary ≡ false
      → chosen lib cfg ps (r.skew_est key) (r.img_hist key) ≡ o
      → ((ss : List (String × ℤ × Image)) → rest ≡ some ss → IsPaired ps r keys ss)
      → with_secondary lib cfg key o rest ≡ some secs
      → IsPaired ps r (key ∷ keys) secs
  with_secondary-IsPaired ps r key keys none rest secs k e p f = absurd cc
  with_secondary-IsPaired ps r key keys (some c) none secs k e p f = absurd cc
  with_secondary-IsPaired ps r key keys (some c) (some ss) secs k e p f =
      let (m, near) = chosen-Memᴰ ps (r.skew_est key) (r.img_hist key) c e in
      subst (IsPaired ps r (key ∷ keys)) (some-injective _ _ f)
        (secondary key c.0 c.1 keys ss k m near (p ss refl))

  -- The secondary images that a primary image is paired with: every camera but the primary gives one,
  -- in order, that its history holds and whose stamp is within the tolerance of the primary's stamp
  -- corrected by the camera's offset.
  pub pair_from-IsPaired :
      (keys : List String) (ps : ℤ) (r : Recorder lib) (secs : List (String × ℤ × Image))
      → pair_from lib cfg keys ps r ≡ some secs
      → IsPaired ps r keys secs
  unfolding pair_from
  pair_from-IsPaired [] ps r secs = λ e. subst (IsPaired ps r []) (some-injective _ _ e) no_camera
  pair_from-IsPaired (key ∷ keys) ps r secs =
      if-cases
        (λ (o : Option (List (String × ℤ × Image))).
          o ≡ some secs → IsPaired ps r (key ∷ keys) secs)
        (str_eq key cfg.primary)
        (λ k e. primary key keys secs k (pair_from-IsPaired keys ps r secs e))
        (λ k e.
          with_secondary-IsPaired ps r key keys _ _ secs k refl (pair_from-IsPaired keys ps r) e)
