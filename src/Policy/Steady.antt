-- ===== src/Policy/Steady.antt =====
-- The tables that dummy_policy_server.py serves: `check_speed` accepts exactly the steady ones, and what
-- `build_table` keeps of its source.
use vla_mantis.Base.{ℕ, ◌≡◌, refl, ◌↔◌, true, false, List, [], ◌∷◌, arith, not-eq_true}
use vla_mantis.Base.Num.{Num, maximum}
use vla_mantis.Policy.Table.{Casts, speed, speeds_from, peak_from, check_speed}

module _ (num : Num) (casts : Casts num) where
  open num use {F, lt}

  -- No step from a row to the next is faster than the limit.
  abbrev pub Steady : ℕ → F → List F → List (List F) → Type 0
  Steady fps limit r [] = Unit
  Steady fps limit r (r' ∷ rows) =
      (lt limit (speed num casts fps r r') ≡ false) × Steady fps limit r' rows

  abbrev pub IsSteady : ℕ → F → List (List F) → Type 0
  IsSteady fps limit [] = ⊥
  IsSteady fps limit (r ∷ []) = ⊥
  IsSteady fps limit (r ∷ r' ∷ rows) = Steady fps limit r (r' ∷ rows)

  maximum-le :
      (limit m x : F)
      → (lt limit (maximum num m x) ≡ false) ↔ ((lt limit m ≡ false) × (lt limit x ≡ false))
  maximum-le limit m x = (
    ground (arith, num.lt_asymm m x, num.le_trans m x limit, num.le_trans x m limit),
    ground arith,
  )

  peak_from-le :
      (fps : ℕ) (limit m : F) (r : List F) (rows : List (List F))
      → (lt limit (peak_from num casts m (speeds_from num casts fps r rows)) ≡ false)
        ↔ ((lt limit m ≡ false) × Steady fps limit r rows)
  peak_from-le fps limit m r [] = ((λ h. (h, tt)), (λ h. h.0))
  peak_from-le fps limit m r (r' ∷ rows) =
      let x = speed num casts fps r r' in
      let (rise, fall) = peak_from-le fps limit (maximum num m x) r' rows in
      let (split, join) = maximum-le limit m x in
      (
        (λ h. let (hm, steady) = rise h in let (a, b) = split hm in (a, (b, steady))),
        (λ h. fall (join (h.0, h.1.0), h.1.1)),
      )

  -- The check of the speed accepts exactly the tables of two rows or more in which no joint of the arm
  -- moves faster than the limit from one row to the next.
  pub check_speed-IsSteady :
      (table : List (List F)) (fps : ℕ) (limit : F)
      → (check_speed num casts table fps limit ≡ true) ↔ IsSteady fps limit table
  unfolding check_speed
  check_speed-IsSteady [] fps limit = ((λ h. absurd cc), (λ h. absurd h))
  check_speed-IsSteady (r ∷ []) fps limit = ((λ h. absurd cc), (λ h. absurd h))
  check_speed-IsSteady (r ∷ r' ∷ rows) fps limit =
      let (rise, fall) = peak_from-le fps limit (speed num casts fps r r') r' rows in
      ((λ h. rise (not-eq_true _ h)), (λ h. let below = fall h in rw below refl))
