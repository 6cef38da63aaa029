-- ===== src/HomePlanner/Smoothing.antt =====
-- `_shortcut` and the end of `_rrt` in home_planner.py keep a path certified, and so does every tier.
use vla_mantis.Base.{
  ℕ, zero, suc, ◌+◌, ◌-◌, ◌≤◌, ◌<◌, ◌≡◌, ◌≢◌, refl, sym, Bool, true, false, Option, none, some,
  List, [], ◌∷◌, ◌++◌, arith, last_or, length, take, drop, get_or, leb, ◌∙◌, if◌then◌else◌,
  if-cases, subst,
}
use vla_mantis.Base.Num.{Num, le, zip_with, length-zip_with, minimum, maximum}
use vla_mantis.HomePlanner.Edge.{HomePlanner, World, monotonic}
use vla_mantis.HomePlanner.Tiers.{
  edge, clears, rrt, rrt_partial, back_outs, plan_greedy, plan_detour,
}
use vla_mantis.HomePlanner.Rrt.{Rng, root_tree, cut, shortcut, smoothed, grow, plan_rrt}
use vla_mantis.HomePlanner.Search.{Tier, run_tier}
use vla_mantis.HomePlanner.Certified.{
  Sampled, Certified, Sound, no_path, path, clears-Segment, Certified-lengths,
}
use vla_mantis.HomePlanner.Tiered.{
  SoundFrom, sound_from, plan_direct-Sound, plan_staged-Sound, greedy_from-Sound, detour_from-Sound,
}
use vla_mantis.HomePlanner.Polyline.{Certified-cut, last_or-concat, last_or-drop}
use vla_mantis.HomePlanner.Branches.{root_tree-Grown}
use vla_mantis.HomePlanner.Growing.{Raw, raw, RawFrom, raw_from, grow-Raw}

append_ne {ℓ} : {A : Type ℓ} (xs ys : List A) → ys ≢ [] → xs ++ ys ≢ []
append_ne [] ys h e = h e
append_ne (x ∷ xs) ys h e = cc

drop_ne {ℓ} : {A : Type ℓ} (j : ℕ) (xs : List A) → j < length xs → drop j xs ≢ []
drop_ne zero [] h e = elim h [ ]
drop_ne zero (x ∷ xs) h e = cc
drop_ne (suc j) [] h e = elim h [ ]
drop_ne (suc j) (x ∷ xs) h e = drop_ne j xs (omega arith) e

cut_cons {ℓ} :
    {A : Type ℓ} (a : A) (rest : List A) (i i' j j' : ℕ)
    → i' ≡ suc i
    → j' ≡ suc j
    → take i' (a ∷ rest) ++ drop j' (a ∷ rest) ≡ a ∷ (take i rest ++ drop j rest)
cut_cons a rest i i' j j' e f = rw (e, f) refl

get_or_cons {ℓ} :
    {A : Type ℓ} (a d : A) (rest : List A) (j j' : ℕ)
    → j' ≡ suc j
    → get_or (a ∷ rest) j' d ≡ get_or rest j d
get_or_cons a d rest j j' f = rw f refl

module _ (num : Num) (hp : HomePlanner num) (rng : Rng num) where
  module _ (scale floor : num.F) (q0 : List num.F) where
    -- A certified polyline, its start included.
    pub record Line (end : List num.F) (pts : List (List num.F)) : Type 0 where
      pub rest : List (List num.F)
      pub starts : pts ≡ q0 ∷ rest
      pub certified : Certified num hp scale floor q0 rest
      pub nonempty : rest ≢ []
      pub ends : last_or q0 rest ≡ end

    cut-Line_at :
        (end : List num.F) (rest : List (List num.F)) (i j : ℕ)
        → i + 2 ≤ j
        → j < suc (length rest)
        → Certified num hp scale floor q0 rest
        → last_or q0 rest ≡ end
        → clears num hp
            (edge num hp (get_or (q0 ∷ rest) i []) (get_or (q0 ∷ rest) j []) scale floor)
            floor
          ≡ true
        → Line end (take (i + 1) (q0 ∷ rest) ++ drop j (q0 ∷ rest))
    cut-Line_at end rest i j ij jl c e clear =
        let k = j - 1 in
        let kl : k < length rest = omega arith in
        let jk : j ≡ suc k = omega arith in
        let at_i = Certified-lengths num hp scale floor q0 rest i c (omega arith) in
        let at_j = Certified-lengths num hp scale floor q0 rest j c jl in
        let s = clears-Segment num hp scale floor _ _ (at_i ∙ sym at_j) clear in
        record {
          rest = take i rest ++ drop k rest;
          starts = cut_cons q0 rest i (i + 1) k j (omega arith) jk;
          certified =
              Certified-cut num hp scale floor q0 rest i k (omega arith) kl c
                (rw (get_or_cons q0 [] rest k j jk) at s);
          nonempty = append_ne (take i rest) (drop k rest) (drop_ne k rest kl);
          ends =
              last_or-concat q0 (take i rest) (drop k rest)
              ∙ last_or-drop (last_or q0 (take i rest)) q0 k rest kl
              ∙ e;
        }

    cut-Line_cons :
        (end : List num.F) (rest : List (List num.F)) (n : ℕ)
        → leb (suc (length rest)) 2 ≡ false
        → Line end (q0 ∷ rest)
        → Certified num hp scale floor q0 rest
        → last_or q0 rest ≡ end
        → Line end (cut num hp rng (q0 ∷ rest) scale floor n)
    unfolding cut
    cut-Line_cons end rest n big l c e =
        let len = suc (length rest) in
        let i = rng.integers n 0 (len - 2) in
        let j = rng.integers (n + 1) (i + 2) len in
        let large : 2 < len = ground arith in
        let ri = rng.integers_range n 0 (len - 2) (omega arith) in
        let rj = rng.integers_range (n + 1) (i + 2) len (omega arith) in
        if-cases (Line end)
          (clears num hp
            (edge num hp (get_or (q0 ∷ rest) i []) (get_or (q0 ∷ rest) j []) scale floor) floor)
          (λ clear. cut-Line_at end rest i j rj.0 rj.1 c e clear) (λ _. l)

    cut-Line :
        (end : List num.F) (pts : List (List num.F)) (n : ℕ)
        → leb (length pts) 2 ≡ false
        → Line end pts
        → Line end (cut num hp rng pts scale floor n)
    cut-Line end pts n big l =
        let given : Line end (q0 ∷ l.rest) = record {
          rest = l.rest;
          starts = refl;
          certified = l.certified;
          nonempty = l.nonempty;
          ends = l.ends;
        } in
        subst (λ p. Line end (cut num hp rng p scale floor n)) (sym l.starts)
          (cut-Line_cons end l.rest n (rw l.starts at big) given l.certified l.ends)

    shortcut-Line :
        (iters : ℕ) (end : List num.F) (pts : List (List num.F)) (deadline : num.F) (w : World num)
        → Line end pts
        → Line end (shortcut num hp rng iters pts scale floor deadline w).0
    unfolding shortcut
    shortcut-Line zero end pts deadline w l = l
    shortcut-Line (suc iters) end pts deadline w l =
        let (t, w') = monotonic num w in
        if-cases (λ (r : List (List num.F) × World num). Line end r.0) (leb (length pts) 2) (λ _. l)
          λ big.
            if-cases (λ (r : List (List num.F) × World num). Line end r.0) (le num deadline t)
              (λ _. l)
              λ _.
                shortcut-Line iters end (cut num hp rng pts scale floor w'.draws) deadline _
                  (cut-Line end pts w'.draws big l)

    smoothed-Sound :
        (home : List num.F) (got : Option (List (List num.F) × Bool)) (w : World num)
        → Raw num hp scale floor q0 home got
        → SoundFrom num hp scale floor q0 (smoothed num hp rng got scale floor w)
    unfolding smoothed
    smoothed-Sound home none w h = sound_from no_path
    smoothed-Sound home (some (pts, partial)) w (raw rest e c ne ends) =
        let (t, w') = monotonic num w in
        let budget =
          if partial then minimum num (num.lit 10 1) hp.smooth_time_s else hp.smooth_time_s in
        let given : Line (last_or q0 rest) pts = record {
          rest = rest;
          starts = e;
          certified = c;
          nonempty = ne;
          ends = refl;
        } in
        let l = shortcut-Line 200 (last_or q0 rest) pts (num.add t budget) w' given in
        sound_from
          (kept (shortcut num hp rng 200 pts scale floor (num.add t budget) w').0 partial l)
      where
        kept :
            (pts' : List (List num.F)) (p : Bool)
            → Line (last_or q0 rest) pts'
            → Sound num hp scale floor q0 (some (drop 1 pts', if p then rrt_partial else rrt))
        kept pts' p l = rw l.starts (path l.certified l.nonempty)

    plan_rrt-Sound :
        (home : List num.F) (deadline : num.F) (w : World num)
        → length q0 ≡ length home
        → length hp.lo ≡ length q0
        → SoundFrom num hp scale floor q0 (plan_rrt num hp rng q0 home scale floor deadline w)
    unfolding plan_rrt
    plan_rrt-Sound home deadline w same bounded =
        let inner = length-zip_with num (minimum num) q0 home same in
        let sized = length-zip_with num (minimum num) hp.lo _ (bounded ∙ sym inner) ∙ bounded in
        let lo = zip_with num (minimum num) hp.lo (zip_with num (minimum num) q0 home) in
        let hi = zip_with num (maximum num) hp.hi (zip_with num (maximum num) q0 home) in
        let C = Sampled num hp scale floor in
        go
          (grow num hp rng home lo hi scale floor deadline w.readings (root_tree num q0)
            (root_tree num home) false w.draws)
          (grow-Raw num hp scale floor q0 home rng lo hi deadline same sized w.readings
            (root_tree num q0) (root_tree num home) false w.draws (root_tree-Grown num C q0)
            (root_tree-Grown num C home))
      where
        go :
            (r : Option (List (List num.F) × Bool) × World num)
            → RawFrom num hp scale floor q0 home r
            → SoundFrom num hp scale floor q0 (smoothed num hp rng r.0 scale floor r.1)
        go r (raw_from h) = smoothed-Sound home r.0 r.1 h

    -- What any tier of the search returns is certified at the floor that it was given.
    pub run_tier-Sound :
        (tier : Tier) (home : List num.F) (deadline : num.F) (w : World num)
        → length q0 ≡ length home
        → length hp.lo ≡ length q0
        → SoundFrom num hp scale floor q0 (run_tier num hp rng tier q0 home scale floor deadline w)
    unfolding run_tier plan_greedy plan_detour
    run_tier-Sound Tier.direct_tier home deadline w same bounded =
        plan_direct-Sound num hp scale floor q0 home w same
    run_tier-Sound Tier.staged_tier home deadline w same bounded =
        plan_staged-Sound num hp scale floor q0 home deadline w same
    run_tier-Sound Tier.greedy_tier home deadline w same bounded =
        greedy_from-Sound num hp scale floor q0 w.readings home deadline q0 [] w.draws tt refl
    run_tier-Sound Tier.detour_tier home deadline w same bounded =
        detour_from-Sound num hp scale floor (back_outs num hp (length q0)) q0 home deadline w same
    run_tier-Sound Tier.rrt_tier home deadline w same bounded =
        plan_rrt-Sound home deadline w same bounded
