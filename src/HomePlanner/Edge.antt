-- ===== src/HomePlanner/Edge.antt =====
-- The object of `HomePlanner.__init__`, and `margin` and `edge_margin`: home_planner.py.
use vla_mantis.Base.{
  ℕ, ◌+◌, ◌≡◌, Bool, false, Option, none, some, List, [], ◌∷◌, String, arith, ltb, min, max, drop,
  init, reverse, length, if◌then◌else◌, All, ◌↔◌,
}
use vla_mantis.Base.Num.{Num, zip_with, scaled, max_abs, maximum}

-- `self`: the caller's collision query and joint limits, and the knobs.
pub record HomePlanner (num : Num) : Type 0 where
  pub margin_at : List num.F → num.F → num.F × String
  pub arm : List String
  pub lo : List num.F
  pub hi : List num.F
  pub step : num.F
  pub scales : List num.F
  pub rrt_step : num.F
  pub smooth_time_s : num.F
  pub allow_partial : Bool

-- The readings that `time.monotonic()` still gives, in order, and how many random draws were made.
-- A run makes finitely many readings; past the last one the clock is past every deadline.
pub record World (num : Num) : Type 0 where
  pub readings : List num.F
  pub draws : ℕ

module _ (num : Num) where
  open num use {F, lt, lit, inf, sub, add, mul, ceil, div, linspace}

  -- One call of `time.monotonic()`.
  unfoldable pub monotonic : World num → F × World num
  monotonic w = go w.readings
    where
      go : List F → F × World num
      go [] = (inf, w)
      go (t ∷ ts) = (t, record w { readings = ts })

  -- `HomePlanner.__init__`
  unfoldable pub create :
      (List F → F → F × String)
      → List String
      → List F
      → List F
      → F
      → List F
      → F
      → F
      → Bool
      → HomePlanner num
  create margin_at arm lo hi check_step floor_scales rrt_step smooth_time_s allow_partial = record {
    margin_at = margin_at;
    arm = arm;
    lo = lo;
    hi = hi;
    step = maximum num check_step (lit 1 3);
    scales = floor_scales;
    rrt_step = rrt_step;
    smooth_time_s = smooth_time_s;
    allow_partial = allow_partial;
  }

module _ (num : Num) (hp : HomePlanner num) where
  open num use {F, lt, lit, inf, sub, add, mul, ceil, div, linspace, le_trans, inf_top}

  unfoldable pub margin : List F → F → F × String
  margin q_arm floor_scale = hp.margin_at q_arm floor_scale

  -- `a + s * d`
  abbrev pub sample : List F → List F → F → List F
  sample a d s = zip_with num add a (scaled num s d)

  -- The number of samples of a segment whose largest joint move is `dist`.
  unfoldable pub samples : F → ℕ
  samples dist = min (max (ceil (div dist hp.step) + 1) 2) 400

  -- `order`: the ends first, then the interior; two samples are taken end first.
  unfoldable pub sample_order : List F → List F
  sample_order ss = if ltb 2 (length ss) then lit 1 0 ∷ lit 0 0 ∷ init (drop 1 ss) else reverse ss

  abbrev pub below : F → Option F → Bool
  below m none = false
  below m (some b) = lt m b

  -- The loop over `order`, with `break`.
  unfoldable pub scan : List F → List F → F → Option F → List F → F → String → F × String
  scan a d scale stop_below [] worst wpair = (worst, wpair)
  scan a d scale stop_below (s ∷ ss) worst wpair =
      let (m, pair) = margin (sample a d s) scale in
      let better = scan a d scale stop_below ss m pair in
      let kept = scan a d scale stop_below ss worst wpair in
      if lt m worst then (if below m stop_below then (m, pair) else better) else kept

  -- The samples of the segment a -> b, in the order in which they are tried.
  unfoldable pub order_of : List F → List F → List F
  unfolding samples sample_order
  order_of a b = sample_order (linspace (samples (max_abs num (zip_with num sub b a))))

  unfoldable pub edge_margin : List F → List F → F → Option F → F × String
  unfolding scan order_of
  edge_margin a b floor_scale stop_below =
      scan a (zip_with num sub b a) floor_scale stop_below (order_of a b) inf ""

  -- Every sample of the segment a -> b has at least the clearance `floor`.
  abbrev pub Clear : F → F → List F → List F → Type 0
  Clear scale floor a b =
      All (λ s. lt (margin (sample a (zip_with num sub b a) s) scale).0 floor ≡ false)
        (order_of a b)

  module _ (a d : List F) (scale floor : F) where
    abbrev IsClearAt : F → Type 0
    IsClearAt s = lt (margin (sample a d s) scale).0 floor ≡ false

    scan-le_worst :
        (ss : List F) (worst : F) (p : String)
        → lt worst (scan a d scale (some floor) ss worst p).0 ≡ false
    unfolding scan
    scan-le_worst [] worst p = num.lt_irrefl worst
    scan-le_worst (s ∷ ss) worst p =
        let (m, pair) = margin (sample a d s) scale in
        let r = (scan a d scale (some floor) ss m pair).0 in
        ground (
          arith,
          num.lt_asymm m worst,
          scan-le_worst ss m pair,
          scan-le_worst ss worst p,
          le_trans r m worst,
        )

    scan_sound :
        (ss : List F) (worst : F) (p : String)
        → lt (scan a d scale (some floor) ss worst p).0 floor ≡ false
        → All IsClearAt ss
    unfolding scan
    scan_sound [] worst p h = tt
    scan_sound (s ∷ ss) worst p h =
        let (m, pair) = margin (sample a d s) scale in
        let kept = (scan a d scale (some floor) ss worst p).0 in
        let better = (scan a d scale (some floor) ss m pair).0 in
        ground (
          arith,
          scan-le_worst ss m pair,
          scan-le_worst ss worst p,
          scan_sound ss m pair,
          scan_sound ss worst p,
          le_trans floor better m,
          le_trans floor kept m,
          le_trans kept worst m,
        )

    scan_complete :
        (ss : List F) (worst : F) (p : String)
        → lt worst floor ≡ false
        → All IsClearAt ss
        → lt (scan a d scale (some floor) ss worst p).0 floor ≡ false
    unfolding scan
    scan_complete [] worst p hw h = hw
    scan_complete (s ∷ ss) worst p hw h =
        let (m, pair) = margin (sample a d s) scale in
        ground (arith, scan_complete ss m pair h.0 h.1, scan_complete ss worst p hw h.1)

  -- An edge is accepted at `floor` exactly when every sample of it, the ends included, has at least
  -- that clearance: leaving the loop early changes no verdict.
  pub edge_margin-Clear :
      (a b : List F) (scale floor : F)
      → ((lt (edge_margin a b scale (some floor)).0 floor ≡ false) ↔ Clear scale floor a b)
  unfolding edge_margin
  edge_margin-Clear a b scale floor = (
    scan_sound a (zip_with num sub b a) scale floor (order_of a b) inf "",
    scan_complete a (zip_with num sub b a) scale floor (order_of a b) inf "" (inf_top floor),
  )
