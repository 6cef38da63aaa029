-- ===== src/Teleop/Ramp.antt =====
-- What the move to home of teleop_mantis.py keeps: the route it walks and the gate over it.
use vla_mantis.Base.{
  ℕ, zero, suc, ◌+◌, ◌<◌, ◌≡◌, ◌≢◌, refl, ◌⊎◌, inl, inr, Bool, true, false, not, ◌&&◌, Option, none,
  some, List, [], ◌∷◌, if◌then◌else◌, if-cases, length, get_elem?, ltb, arith, ap, sym, ◌∙◌, subst,
}
use mathlib.Core.Option.{some-injective}
use vla_mantis.Base.Num.{Num, zip_with, max_abs, gap, minimum}
use vla_mantis.HomePlanner.{margin}
use vla_mantis.Teleop.Home.{
  Ending, aborted, reached, partial, unsettled, Setup, Home, end_home, gate_due, gate_hit, command,
  turn, or_now, arrive, advance, advance_to, home_tick,
}

get_elem?-some {ℓ} :
    {A : Type ℓ} (xs : List A) (i : ℕ) → i < length xs → (a : A) × (get_elem? xs i ≡ some a)
get_elem?-some [] i h = absurd (omega arith)
get_elem?-some (x ∷ xs) zero h = (x, refl)
get_elem?-some (x ∷ xs) (suc i) h = get_elem?-some xs i (omega arith)

module _ (num : Num) (cfg : Setup num) where
  open num use {F, sub, mul, div, lt}

  -- A move to home is at one of its waypoints, and has a pose.
  pub data OnRoute (h : Home num) : Type 0 where
    at_rest : h.active ≡ false → OnRoute h
    on_way : (c : List F) → h.active ≡ true → h.i < length h.wps → h.cur ≡ some c → OnRoute h

  -- What a tick of an active move does: it ends, with no more commands than one and for a reason;
  -- or it goes on over the same route at the same floor, and sends a pose.
  pub data Walked (h h' : Home num) : Type 0 where
    stopped : (why : Ending) → h'.active ≡ false → h'.ending ≡ some why → Walked h h'
    went_on :
        (c : List F)
        → h'.active ≡ true
        → h'.wps ≡ h.wps
        → h'.scale ≡ h.scale
        → h'.floor ≡ h.floor
        → h'.commands ≡ c ∷ h.commands
        → h'.cur ≡ some c
        → h'.last_cmd ≡ some c
        → (h'.i ≡ h.i) ⊎ ((h'.i ≡ h.i + 1) × (h'.i < length h.wps) × (get_elem? h.wps h.i ≡ some c))
        → Walked h h'

  end_home-Walked : (why : Ending) (h t : Home num) → Walked h (end_home num cfg why t)
  unfolding end_home
  end_home-Walked why h t =
      if-cases (Walked h) (t.stop_rec && cfg.has_recorder) (λ e. stopped why refl refl)
        (λ e. stopped why refl refl)

  turn-Walked :
      (now : F) (tgt : List F) (d : Option F) (h : Home num)
      → h.active ≡ true
      → h.i + 1 < length h.wps
      → get_elem? h.wps h.i ≡ some tgt
      → Walked h (turn num cfg now d (command num cfg tgt h))
  turn-Walked now tgt none h a lt_len e = went_on tgt a refl refl refl refl refl refl (inl refl)
  turn-Walked now tgt (some t) h a lt_len e =
      if-cases (Walked h) (not (lt (sub now t) cfg.dwell))
        (λ done. went_on tgt a refl refl refl refl refl refl (inr (refl, lt_len, e)))
        (λ wait. went_on tgt a refl refl refl refl refl refl (inl refl))

  arrive-Walked :
      (now : F) (q tgt : List F) (h : Home num)
      → h.active ≡ true
      → Walked h (arrive num cfg now q tgt (command num cfg tgt h))
  arrive-Walked now q tgt h a =
      if-cases (Walked h) (lt (gap num q tgt) cfg.done_tol)
        (λ near.
          if-cases (Walked h) (lt (gap num q cfg.home_q) cfg.done_tol)
            (λ e. end_home-Walked reached h _) (λ e. end_home-Walked partial h _))
        (λ far.
          if-cases (Walked h) (lt cfg.settle_grace (sub now (or_now num cfg now h.done_t)))
            (λ e. end_home-Walked unsettled h _)
            (λ e. went_on tgt a refl refl refl refl refl refl (inl refl)))

  advance-Walked :
      (dt now : F) (q tgt cur : List F) (h : Home num)
      → h.active ≡ true
      → get_elem? h.wps h.i ≡ some tgt
      → Walked h (advance num cfg dt now q tgt cur h)
  advance-Walked dt now q tgt cur h a e =
      let delta = zip_with num sub tgt cur in
      let dmax = max_abs num delta in
      let stride = mul h.v dt in
      if-cases (Walked h) (lt stride dmax)
        (λ far. went_on _ a refl refl refl refl refl refl (inl refl))
        (λ there.
          if-cases (Walked h) (ltb (h.i + 1) (length h.wps))
            (λ mid. turn-Walked now tgt h.dwell_t h a (ground arith) e)
            (λ last. arrive-Walked now q tgt h a))

  Walked-gate : (t : F) (h k : Home num) → Walked (record h { gate_t = t }) k → Walked h k
  Walked-gate t h k (stopped why a e) = stopped why a e
  Walked-gate t h k (went_on c a w s f cs cu l i) = went_on c a w s f cs cu l i

  OnRoute-Walked : (h k : Home num) → OnRoute h → h.active ≡ true → Walked h k → OnRoute k
  OnRoute-Walked h k o act (stopped why a e) = at_rest a
  OnRoute-Walked h k (at_rest a') act (went_on c a w s f cs cu l i) = absurd cc
  OnRoute-Walked h k (on_way d a' lt_len cur) act (went_on c a w s f cs cu l i) =
      on_way c a (elim i [ inl same ↦ rw (w, same) lt_len | inr (next, there, e) ↦ rw w there ]) cu

  -- What a tick of an active move gives.
  abbrev pub Ticked : Home num → Option (Home num) → Type 0
  Ticked h none = ⊥
  Ticked h (some k) = Walked h k × OnRoute k

  Walked-Ticked : (h k : Home num) → OnRoute h → h.active ≡ true → Walked h k → Ticked h (some k)
  Walked-Ticked h k o act w = (w, OnRoute-Walked h k o act w)

  advance_to-Ticked :
      (dt now : F) (q tgt c : List F) (h x : Home num)
      → get_elem? h.wps h.i ≡ some tgt
      → h.cur ≡ some c
      → Ticked h (some (advance num cfg dt now q tgt c x))
      → Ticked h (advance_to num cfg dt now q (get_elem? h.wps h.i) h.cur x)
  advance_to-Ticked dt now q tgt c h x e cur t =
      subst (λ o. Ticked h (advance_to num cfg dt now q o h.cur x)) (sym e)
        (subst (λ o. Ticked h (advance_to num cfg dt now q (some tgt) o x)) (sym cur) t)

  -- A tick of a move that is at one of its waypoints never raises: the move ends for one of its
  -- reasons, or it goes on over the same route at the same floor and sends a pose; it turns to the
  -- next waypoint only from the waypoint itself, and never past the last one.
  pub home_tick-Ticked :
      (dt now : F) (q : List F) (h : Home num)
      → OnRoute h
      → h.active ≡ true
      → Ticked h (home_tick num cfg dt now q h)
  unfolding home_tick
  home_tick-Ticked dt now q h (at_rest a) act = absurd cc
  home_tick-Ticked dt now q h (on_way c a lt_len cur) act =
      let (tgt, e) = get_elem?-some h.wps h.i lt_len in
      let o = on_way c a lt_len cur in
      let due = gate_due num cfg now h in
      let late = record h { gate_t = now } in
      let on = λ (x : Home num). advance_to num cfg dt now q (get_elem? h.wps h.i) h.cur x in
      if-cases (Ticked h) (due && gate_hit num cfg q h)
        (λ hit. Walked-Ticked h _ o act (end_home-Walked aborted h _))
        (λ clear.
          if-cases (λ (x : Home num). Ticked h (on x)) due
            (λ checked. advance_to-Ticked dt now q tgt c h late e cur (
              Walked-Ticked h _ o act
                (Walked-gate now h _ (advance-Walked dt now q tgt c late a e))))
            (λ unchecked.
              advance_to-Ticked dt now q tgt c h h e cur
                (Walked-Ticked h _ o act (advance-Walked dt now q tgt c h a e))))

  end_home-commands : (why : Ending) (h : Home num) → (end_home num cfg why h).commands ≡ h.commands
  unfolding end_home
  end_home-commands why h =
      if-cases (λ (x : Home num). x.commands ≡ h.commands) (h.stop_rec && cfg.has_recorder)
        (λ e. refl) (λ e. refl)

  stopped-commands :
      (now : F) (why : Ending) (h : Home num) (due : Bool)
      → (end_home num cfg why (if due then record h { gate_t = now } else h)).commands ≡ h.commands
  stopped-commands now why h true = end_home-commands why (record h { gate_t = now })
  stopped-commands now why h false = end_home-commands why h

  -- Where a tick sends a pose and the gate is due in it, the measured pose has at least the route's
  -- floor of clearance, at the smaller of the gate's scale and the route's.
  pub home_tick-gate :
      (dt now : F) (q : List F) (h k : Home num)
      → home_tick num cfg dt now q h ≡ some k
      → k.commands ≢ h.commands
      → gate_due num cfg now h ≡ true
      → lt (margin num cfg.planner q (minimum num cfg.gate_frac h.scale)).0 h.floor ≡ false
  unfolding home_tick
  home_tick-gate dt now q h k e sent due =
      if-cases
        (λ (x : Option (Home num)).
          x ≡ some k
          → lt (margin num cfg.planner q (minimum num cfg.gate_frac h.scale)).0 h.floor ≡ false)
        (gate_due num cfg now h && gate_hit num cfg q h)
        (λ hit e'. absurd (
          sent (
            ap (λ x. x.commands) (sym (some-injective _ _ e'))
            ∙ stopped-commands now aborted h (gate_due num cfg now h))))
        (λ clear e'. sym (ap (λ b. b && gate_hit num cfg q h) due) ∙ clear) e
