-- ===== src/HomePlanner/Growing.antt =====
-- The search loops of `_rrt` in home_planner.py keep both trees checked, so whatever they return is
-- a certified path that starts at the arm.
use vla_mantis.Base.{
  ℕ, ◌+◌, ◌-◌, ◌<◌, ◌≡◌, ◌≢◌, refl, sym, ◌∙◌, Bool, true, false, not, Option, none, some, List, [],
  ◌∷◌, ◌++◌, arith, last_or, length, length-append, ap, if◌then◌else◌, if-cases, not-eq_false, ◌==◌,
}
use vla_mantis.Base.Num.{Num, gap, le, zip_with, scaled, max_abs, length-zip_with, length-scaled}
use vla_mantis.HomePlanner.Edge.{HomePlanner, World, edge_margin-Clear}
use vla_mantis.HomePlanner.Tiers.{edge, clears}
use vla_mantis.HomePlanner.Rrt.{
  Rng, Tree, extend, node, nearest, steer, join, ok, closest, grow, connect,
}
use vla_mantis.HomePlanner.Certified.{Sampled, Certified}
use vla_mantis.HomePlanner.Branches.{nearest-lt, extend-Grown, get_or-append_length}
use vla_mantis.HomePlanner.Chains.{Checked, node-length, chain-Route, join-Route}

module _ (num : Num) (hp : HomePlanner num) (scale floor : num.F) (q0 home : List num.F) where
  -- A raw path starts at the arm and is certified; a full one ends at home.
  pub data Raw : Option (List (List num.F) × Bool) → Type 0 where
    no_path : Raw none
    raw :
        {pts : List (List num.F)} {partial : Bool}
        → (rest : List (List num.F)) → pts ≡ q0 ∷ rest
        → Certified num hp scale floor q0 rest
        → rest ≢ []
        → (partial ≡ false → last_or q0 rest ≡ home)
        → Raw (some (pts, partial))

  pub data RawFrom (r : Option (List (List num.F) × Bool) × World num) : Type 0 where
    raw_from : Raw r.0 → RawFrom r

  -- The roots of the first and the second tree.
  abbrev pub first_root : Bool → List num.F
  first_root swapped = if swapped then home else q0

  abbrev pub second_root : Bool → List num.F
  second_root swapped = if swapped then q0 else home

  first_root-not : (s : Bool) → first_root (not s) ≡ second_root s
  first_root-not true = refl
  first_root-not false = refl

  second_root-not : (s : Bool) → second_root (not s) ≡ first_root s
  second_root-not true = refl
  second_root-not false = refl

  ne_of_length :
      (rest : List (List num.F)) (k : ℕ) → (length rest ≡ 0 → k ≡ 0) → (k == 0) ≡ false → rest ≢ []
  ne_of_length rest k h b e = ground (arith, h (ap length e))

  closest-Raw :
      (start : Tree num) → Checked num hp scale floor q0 start → Raw (closest num home start)
  unfolding closest
  closest-Raw start g =
      let k = nearest num start home in
      let (rest, e, route, ne) =
        chain-Route num hp scale floor start k g (nearest-lt num start home g.inhabited) in
      if-cases Raw (k == 0) (λ _. no_path)
        (λ far. raw rest e route.certified (ne_of_length rest k ne far) (λ f. cc))

  start-Checked :
      (A B : Tree num) (s : Bool)
      → Checked num hp scale floor (first_root s) A
      → Checked num hp scale floor (second_root s) B
      → Checked num hp scale floor q0 (if s then B else A)
  start-Checked A B true ga gb = gb
  start-Checked A B false ga gb = ga

  ended :
      (A B : Tree num) (s : Bool) (w : World num)
      → Checked num hp scale floor (first_root s) A
      → Checked num hp scale floor (second_root s) B
      → RawFrom (closest num home (if s then B else A), w)
  ended A B s w ga gb = raw_from (closest-Raw (if s then B else A) (start-Checked A B s ga gb))

  ok-Sampled :
      (a b : List num.F)
      → length a ≡ length b
      → clears num hp (edge num hp a b scale floor) floor ≡ true
      → Sampled num hp scale floor a b
  unfolding edge
  ok-Sampled a b same h = (same, (edge_margin-Clear num hp a b scale floor).0 (ground arith))

  -- The two trees met at `qs`, an extension of the second tree towards `qn`.
  met-Raw :
      (s : Bool) (qs qn : List num.F) (A B : Tree num) (k : ℕ)
      → Checked num hp scale floor (first_root s) A
      → Checked num hp scale floor (second_root s) B
      → k < length B.nodes
      → node num A (length A.nodes - 1) ≡ qn
      → Sampled num hp scale floor (node num B k) qs
      → num.lt (gap num qs qn) (num.lit 1 9) ≡ true
      → Raw (some (join num A (extend num B qs k) (length B.nodes) s, false))
  met-Raw true qs qn A B k ga gb hk met clear close =
      let gb' = extend-Grown num (Sampled num hp scale floor) B qs k gb hk clear in
      let (rest, e, route, ne) =
        join-Route num hp scale floor home q0 qs qn A B k ga gb gb' hk met clear close true in
      raw rest e route.certified ne (λ _. route.ends)
  met-Raw false qs qn A B k ga gb hk met clear close =
      let gb' = extend-Grown num (Sampled num hp scale floor) B qs k gb hk clear in
      let (rest, e, route, ne) =
        join-Route num hp scale floor q0 home qs qn A B k ga gb gb' hk met clear close false in
      raw rest e route.certified ne (λ _. route.ends)

  last_of_extend :
      (A : Tree num) (q : List num.F) (i : ℕ)
      → node num (extend num A q i) (length (extend num A q i).nodes - 1) ≡ q
  unfolding extend
  last_of_extend A q i =
      let e : length (A.nodes ++ q ∷ []) - 1 ≡ length A.nodes =
        omega (arith, length-append {0} A.nodes (q ∷ [])) in
      rw e (get_or-append_length A.nodes q [])

  length-extend :
      (B : Tree num) (q : List num.F) (k : ℕ) → length B.nodes < length (extend num B q k).nodes
  unfolding extend
  length-extend B q k = omega (arith, length-append {0} B.nodes (q ∷ []))

  length-steer :
      (step : num.F) (a b : List num.F)
      → length a ≡ length b
      → length a ≡ length (steer num step a b)
  unfolding steer
  length-steer step a b same =
      let d = zip_with num num.sub b a in
      let s = num.div step (max_abs num d) in
      let wide = length-zip_with num num.sub b a (sym same) in
      if-cases (λ (x : List num.F). length a ≡ length x) (le num (max_abs num d) step)
        (λ near. same)
        (λ far.
          let long : length a ≡ length (scaled num s d) =
            same ∙ sym wide ∙ sym (length-scaled num s d) in
          sym (length-zip_with num num.add a (scaled num s d) long))

  module _ (same : length q0 ≡ length home) where
    root-length : (s : Bool) → length (first_root s) ≡ length q0
    root-length true = sym same
    root-length false = refl

    second_root-length : (s : Bool) → length (second_root s) ≡ length q0
    second_root-length true = refl
    second_root-length false = sym same

  module _ (rng : Rng num) (lo hi : List num.F) (deadline : num.F) (same : length q0 ≡ length home)
      (bounded : length lo ≡ length q0) where
    mutual
      unfolding grow

      pub grow-Raw :
          (ts : List num.F) (A B : Tree num) (s : Bool) (n : ℕ)
          → Checked num hp scale floor (first_root s) A
          → Checked num hp scale floor (second_root s) B
          → RawFrom (grow num hp rng home lo hi scale floor deadline ts A B s n)
      grow-Raw [] A B s n ga gb = ended A B s _ ga gb
      grow-Raw (t ∷ ts) A B s n ga gb =
          let qr = rng.uniform n lo hi in
          let ia = nearest num A qr in
          let qn = steer num hp.rrt_step (node num A ia) qr in
          let lt = nearest-lt num A qr ga.inhabited in
          let at_A = node-length num hp scale floor A ia ga lt ∙ root-length same s in
          let drawn = rng.uniform_length n lo hi ∙ bounded in
          let wide = length-steer hp.rrt_step (node num A ia) qr (at_A ∙ sym drawn) in
          let swap =
            grow-Raw ts B A (not s) (n + 1) (rw (first_root-not s) gb)
              (rw (second_root-not s) ga) in
          if-cases RawFrom (le num deadline t) (λ _. ended A B s _ ga gb)
            λ _.
              if-cases RawFrom (ok num hp scale floor (node num A ia) qn)
                (λ clear.
                  connect-Raw ts (extend num A qn ia) B s (n + 1) qn (nearest num B qn)
                    (extend-Grown num (Sampled num hp scale floor) A qn ia ga lt
                      (ok-Sampled (node num A ia) qn wide clear))
                    gb (nearest-lt num B qn gb.inhabited) (last_of_extend A qn ia)
                    (sym wide ∙ at_A))
                (λ _. swap)

      connect-Raw :
          (ts : List num.F) (A B : Tree num) (s : Bool) (n : ℕ) (qn : List num.F) (k : ℕ)
          → Checked num hp scale floor (first_root s) A
          → Checked num hp scale floor (second_root s) B
          → k < length B.nodes
          → node num A (length A.nodes - 1) ≡ qn
          → length qn ≡ length q0
          → RawFrom (connect num hp rng home lo hi scale floor deadline ts A B s n qn k)
      connect-Raw [] A B s n qn k ga gb hk met size = ended A B s _ ga gb
      connect-Raw (t ∷ ts) A B s n qn k ga gb hk met size =
          let qs = steer num hp.rrt_step (node num B k) qn in
          let swap =
            grow-Raw ts B A (not s) n (rw (first_root-not s) gb) (rw (second_root-not s) ga) in
          if-cases RawFrom (le num deadline t) (λ _. swap)
            λ _.
              if-cases RawFrom (not (ok num hp scale floor (node num B k) qs)) (λ _. swap)
                λ allowed.
                  let at_B = node-length num hp scale floor B k gb hk ∙ second_root-length same s in
                  let wide = length-steer hp.rrt_step (node num B k) qn (at_B ∙ sym size) in
                  let clear = ok-Sampled (node num B k) qs wide (not-eq_false _ allowed) in
                  let gb' = extend-Grown num (Sampled num hp scale floor) B qs k gb hk clear in
                  if-cases RawFrom (num.lt (gap num qs qn) (num.lit 1 9))
                    (λ close. raw_from (met-Raw s qs qn A B k ga gb hk met clear close))
                    (λ _.
                      connect-Raw ts A (extend num B qs k) s n qn (length B.nodes) ga gb'
                        (length-extend B qs k) met size)
