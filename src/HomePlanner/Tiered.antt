-- ===== src/HomePlanner/Tiered.antt =====
-- What the tiers of home_planner.py up to `_detour` return is certified, whatever the clock reads.
use vla_mantis.Base.{
  ℕ, ◌≡◌, refl, sym, ◌∙◌, set, length-set, Option, none, some, List, [], ◌∷◌, ◌++◌, last_or,
  last_or-append, get_or, leb, ltb, length, not, ◌||◌, ◌*◌, if-cases, not-eq_false, if◌then◌else◌,
  is_empty,
}
use vla_mantis.Base.Num.{Num, gap, le}
use vla_mantis.HomePlanner.Edge.{HomePlanner, World, monotonic}
use vla_mantis.HomePlanner.Tiers.{
  Found, Method, Group, edge, clears, plan_direct, staged_from, plan_staged, greedy_from, best_move,
  try_fracs, moved, one_at_a_time, joints_left, back_out, backed_out, backed_out_then, better,
  bring_home, stages, fractions, staged, detour_from, from_via,
}
use vla_mantis.HomePlanner.Certified.{
  Segment, Certified, Certified-snoc, Sound, no_path, path, clears-Segment,
}

module _ (num : Num) (hp : HomePlanner num) where
  open num use {F, lt, lit}

  module _ (scale floor : F) where
    -- What a tier leaves behind is sound, whatever the clock reads.
    pub data SoundFrom (a : List F) (r : Found num × World num) : Type 0 where
      sound_from : Sound num hp scale floor a r.0 → SoundFrom a r

    pub SoundFrom-Sound :
        {a : List F} {r : Found num × World num} → SoundFrom a r → Sound num hp scale floor a r.0
    SoundFrom-Sound (sound_from h) = h

    nothing : (a : List F) (w : World num) → SoundFrom a (none, w)
    nothing a w = sound_from no_path

    pub plan_direct-Sound :
        (q0 home : List F) (w : World num)
        → length q0 ≡ length home
        → SoundFrom q0 (plan_direct num hp q0 home scale floor w)
    unfolding plan_direct
    plan_direct-Sound q0 home w same = sound_from (
        if-cases (Sound num hp scale floor q0)
          (clears num hp (edge num hp q0 home scale floor) floor)
          (λ ok. path (clears-Segment num hp scale floor q0 home same ok, tt) (λ e. cc))
          (λ _. no_path))

    -- A detour over one waypoint.
    two-Sound :
        (a via b : List F) (how : Method num) (w : World num)
        → Segment num hp scale floor a via
        → Segment num hp scale floor via b
        → SoundFrom a (some (via ∷ b ∷ [], how), w)
    two-Sound a via b how w h k = sound_from (path (h, (k, tt)) (λ e. cc))

    length-bring_home :
        (g : List ℕ) (home w : List F) → length (bring_home num hp g home w) ≡ length w
    unfolding bring_home
    length-bring_home [] home w = refl
    length-bring_home (i ∷ g) home w =
        length-bring_home g home (set w i (get_or home i (lit 0 0)))
        ∙ length-set w i (get_or home i (lit 0 0))

    length-moved :
        (home cur : List F) (i : ℕ) (f : F) → length (moved num hp home cur i f) ≡ length cur
    unfolding moved
    length-moved home cur i f = length-set cur i _

    length-back_out :
        (q0 : List F) (i : ℕ) (move : F) → length (back_out num hp q0 i move) ≡ length q0
    unfolding back_out
    length-back_out q0 i move = length-set q0 i _

    pub staged_from-Sound :
        (gs : List (Group × List ℕ)) (q0 home : List F) (deadline : F) (w : World num)
        → length q0 ≡ length home
        → SoundFrom q0 (staged_from num hp gs q0 home scale floor deadline w)
    unfolding staged_from
    staged_from-Sound [] q0 home deadline w same = nothing q0 w
    staged_from-Sound ((how, g) ∷ gs) q0 home deadline w same =
        let via = bring_home num hp g home q0 in
        let (t, w') = monotonic num w in
        let ih = staged_from-Sound gs q0 home deadline w' same in
        let kept = length-bring_home g home q0 in
        if-cases (SoundFrom q0) (le num deadline t) (λ _. nothing q0 _)
          λ _.
            if-cases (SoundFrom q0) (is_empty g || leb (length q0) (length g)) (λ _. ih)
              λ _.
                if-cases (SoundFrom q0) (lt (gap num via q0) (lit 1 4)) (λ _. ih)
                  λ _.
                    if-cases (SoundFrom q0)
                      (not (clears num hp (edge num hp q0 via scale floor) floor)) (λ _. ih)
                      λ first.
                        if-cases (SoundFrom q0)
                          (clears num hp (edge num hp via home scale floor) floor)
                          (λ second.
                            two-Sound q0 via home (staged how) w'
                              (clears-Segment num hp scale floor q0 via (sym kept)
                                (not-eq_false _ first))
                              (clears-Segment num hp scale floor via home (kept ∙ same) second))
                          (λ _. ih)

    pub plan_staged-Sound :
        (q0 home : List F) (deadline : F) (w : World num)
        → length q0 ≡ length home
        → SoundFrom q0 (plan_staged num hp q0 home scale floor deadline w)
    unfolding plan_staged
    plan_staged-Sound q0 home deadline w same =
        staged_from-Sound (stages num hp) q0 home deadline w same

    -- The candidate that `best_move` returns is reached from `cur` by a clear edge.
    abbrev Reached : List F → Option (F × List F) → Type 0
    Reached cur none = Unit
    Reached cur (some (m, cand)) = Segment num hp scale floor cur cand

    try_fracs-Reached :
        (fracs : List F) (home cur : List F) (i : ℕ)
        → Reached cur (try_fracs num hp fracs home cur scale floor i)
    unfolding try_fracs
    try_fracs-Reached [] home cur i = tt
    try_fracs-Reached (f ∷ fracs) home cur i =
        if-cases (Reached cur)
          (clears num hp (edge num hp cur (moved num hp home cur i f) scale floor) floor)
          (λ ok. clears-Segment num hp scale floor cur _ (sym (length-moved home cur i f)) ok)
          (λ _. try_fracs-Reached fracs home cur i)

    better-Reached :
        (cur : List F) (b c : Option (F × List F))
        → Reached cur b
        → Reached cur c
        → Reached cur (better num hp b c)
    better-Reached cur b none hb hc = hb
    better-Reached cur none (some c) hb hc = hc
    better-Reached cur (some b) (some c) hb hc =
        if-cases (Reached cur) (lt b.0 c.0) (λ _. hc) (λ _. hb)

    best_move-Reached :
        (left : List ℕ) (best : Option (F × List F)) (home cur : List F)
        → Reached cur best
        → Reached cur (best_move num hp left best home cur scale floor)
    unfolding best_move
    best_move-Reached [] best home cur h = h
    best_move-Reached (i ∷ left) best home cur h =
        best_move-Reached left _ home cur
          (better-Reached cur best _ h (try_fracs-Reached (fractions num hp) home cur i))

    ended-Sound :
        (q0 : List F) (p : List (List F)) (w : World num)
        → Certified num hp scale floor q0 p
        → SoundFrom q0 (if is_empty p then none else some (p, one_at_a_time), w)
    ended-Sound q0 [] w h = nothing q0 w
    ended-Sound q0 (x ∷ xs) w h = sound_from (path h (λ e. cc))

    pub greedy_from-Sound :
        (q0 : List F) (ts : List F) (home : List F) (deadline : F) (cur : List F)
        (p : List (List F)) (n : ℕ)
        → Certified num hp scale floor q0 p
        → last_or q0 p ≡ cur
        → SoundFrom q0 (greedy_from num hp ts home scale floor deadline cur p n)
    unfolding greedy_from
    greedy_from-Sound q0 [] home deadline cur p n c e = nothing q0 _
    greedy_from-Sound q0 (t ∷ ts) home deadline cur p n c e =
        if-cases (SoundFrom q0) (le num deadline t || ltb (3 * length cur) (length p))
          (λ _. nothing q0 _)
          λ _.
            if-cases (SoundFrom q0) (is_empty (joints_left num hp home cur 0))
              (λ _. ended-Sound q0 p _ c)
              λ _.
                further (best_move num hp (joints_left num hp home cur 0) none home cur scale floor)
                  (best_move-Reached (joints_left num hp home cur 0) none home cur tt)
                  (λ q cq eq. greedy_from-Sound q0 ts home deadline q (p ++ q ∷ []) n cq eq)
      where
        further :
            (best : Option (F × List F))
            → Reached cur best
            → ((q : List F)
                → Certified num hp scale floor q0 (p ++ q ∷ [])
                → last_or q0 (p ++ q ∷ []) ≡ q
                → SoundFrom q0 (greedy_from num hp ts home scale floor deadline q (p ++ q ∷ []) n))
            → SoundFrom q0 (elim best [
              | none ↦ (none, record { readings = ts; draws = n })
              | some c' ↦ greedy_from num hp ts home scale floor deadline c'.1 (p ++ c'.1 ∷ []) n
            ])
        further none h ih = nothing q0 _
        further (some b) h ih =
            ih b.1 (Certified-snoc num hp scale floor q0 b.1 p c (rw e h))
              (last_or-append q0 b.1 p [])

    via-Sound :
        (a via : List F) (r : Found num) (w : World num) (next : Found num × World num)
        → Segment num hp scale floor a via
        → Sound num hp scale floor via r
        → SoundFrom a next
        → (how' : Method num → Method num)
        → SoundFrom a (elim r [ none ↦ next | some p ↦ (some (via ∷ p.0, how' p.1), w) ])
    via-Sound a via none w next s h k how' = k
    via-Sound a via (some r) w next s (path c ne) k how' = sound_from (path (s, c) (λ e. cc))

    from_via-Sound :
        (q0 via home : List F) (deadline : F) (i : ℕ) (turn : F) (w : World num)
        (after : World num → Found num × World num)
        → length via ≡ length home
        → Segment num hp scale floor q0 via
        → ((v : World num) → SoundFrom q0 (after v))
        → SoundFrom q0 (from_via num hp via home scale floor deadline i turn w after)
    unfolding from_via
    from_via-Sound q0 via home deadline i turn w after same s ih =
        if-cases (SoundFrom q0) (clears num hp (edge num hp via home scale floor) floor)
          (λ ok.
            two-Sound q0 via home (backed_out i turn) w s
              (clears-Segment num hp scale floor via home same ok))
          (λ _.
            let r = plan_staged num hp via home scale floor deadline w in
            via-Sound q0 via r.0 r.1 (after r.1) s
              (SoundFrom-Sound (plan_staged-Sound via home deadline w same)) (ih r.1)
              (backed_out_then i turn))

    pub detour_from-Sound :
        (moves : List (ℕ × F)) (q0 home : List F) (deadline : F) (w : World num)
        → length q0 ≡ length home
        → SoundFrom q0 (detour_from num hp moves q0 home scale floor deadline w)
    unfolding detour_from
    detour_from-Sound [] q0 home deadline w same = nothing q0 w
    detour_from-Sound ((i, move) ∷ moves) q0 home deadline w same =
        let via = back_out num hp q0 i move in
        let turn = num.sub (get_or via i (lit 0 0)) (get_or q0 i (lit 0 0)) in
        let (t, w') = monotonic num w in
        let ih = λ (v : World num). detour_from-Sound moves q0 home deadline v same in
        let kept = length-back_out q0 i move in
        if-cases (SoundFrom q0) (le num deadline t) (λ _. nothing q0 _)
          λ _.
            if-cases (SoundFrom q0) (lt (num.abs turn) (lit 1 3)) (λ _. ih w')
              λ _.
                if-cases (SoundFrom q0) (not (clears num hp (edge num hp q0 via scale floor) floor))
                  (λ _. ih w')
                  λ first.
                    from_via-Sound q0 via home deadline i turn w'
                      (detour_from num hp moves q0 home scale floor deadline) (kept ∙ same)
                      (clears-Segment num hp scale floor q0 via (sym kept) (not-eq_false _ first))
                      ih
