-- ===== src/Teleop/Settled.antt =====
-- What a tick of the gripper of teleop_mantis.py sends: its goal follows the operator.
use vla_mantis.Base.{
  Bool, true, false, not, ◌&&◌, Option, none, some, List, ◌∷◌, if◌then◌else◌, if-cases, ◌≡◌, refl,
  sym, ◌∙◌, ◌⊎◌, inl, inr, ap, subst, not-eq_true,
}
use vla_mantis.Base.Num.{Num}
use vla_mantis.Teleop.Gripper.{
  Settings, Gripper, Reading, differs, want, send_grip, toggles, toggle, resend, measured_joint,
  moved, retry, command, grip_update,
}

module _ (num : Num) (cfg : Settings num) where
  open num use {F, sub, abs, lt, lt_irrefl}

  -- The last goal that was sent and not refused is what the operator wants.
  abbrev pub is_settled : Gripper num → Bool
  is_settled g = not (differs num (want num cfg g) g.sent)

  -- What re-sending the opening goal leaves as it is; it sends that goal, or none.
  pub record Kept (rd : Reading num) (g g' : Gripper num) : Type 0 where
    pub want_eq : g'.want_closed ≡ g.want_closed
    pub sent_eq : g'.sent ≡ g.sent
    pub toggle_eq : g'.toggle_t ≡ g.toggle_t
    pub goals_eq :
        (g'.goals ≡ g.goals) ⊎ ((g'.goals ≡ cfg.grip_open ∷ g.goals) × (g'.send_t ≡ rd.now))

  Kept-refl : (rd : Reading num) (g : Gripper num) → Kept rd g g
  Kept-refl rd g = record { want_eq = refl; sent_eq = refl; toggle_eq = refl; goals_eq = inl refl }

  resend-Kept :
      (rd : Reading num) (g : Gripper num)
      → Kept rd g (resend num cfg rd (send_grip num cfg cfg.grip_open rd g))
  resend-Kept rd g =
      if-cases (λ (x : Bool × Gripper num). Kept rd g (resend num cfg rd x)) rd.server_is_ready
        (λ e. record {
          want_eq = refl;
          sent_eq = refl;
          toggle_eq = refl;
          goals_eq = inr (refl, refl);
        })
        (λ e. Kept-refl rd g)

  pub retry-Kept :
      (m : Option F) (rd : Reading num) (g : Gripper num) → Kept rd g (retry num cfg m rd g)
  retry-Kept none rd g = Kept-refl rd g
  retry-Kept (some meas) rd g =
      if-cases (Kept rd g)
        (lt cfg.retry_tol (abs (sub meas cfg.grip_open))
          && lt cfg.retry_period (sub rd.now g.send_t))
        (λ due.
          if-cases (Kept rd g) (lt (moved num cfg meas g.last_w) cfg.retry_tol)
            (λ still.
              let k = resend-Kept rd (record g { last_w = some meas }) in
              record {
                want_eq = k.want_eq;
                sent_eq = k.sent_eq;
                toggle_eq = k.toggle_eq;
                goals_eq = k.goals_eq;
              })
            (λ moving. record {
              want_eq = refl;
              sent_eq = refl;
              toggle_eq = refl;
              goals_eq = inl refl;
            }))
        (λ early. Kept-refl rd g)

  -- What a tick sends: the goal that is wanted after it, at its time; or nothing, and then the last
  -- goal that was sent and not refused was that one already.
  abbrev pub Sends : Reading num → Gripper num → Gripper num → Type 0
  Sends rd g g' =
      ((g'.goals ≡ want num cfg g' ∷ g.goals) × (g'.send_t ≡ rd.now))
      ⊎ ((g'.goals ≡ g.goals) × (differs num (want num cfg g') g.sent ≡ false))

  abbrev pub Settled : Reading num → Gripper num → Gripper num → Type 0
  Settled rd g g' = (is_settled g' ≡ true) × Sends rd g g'

  settled_at : (w : F) → differs num w (some w) ≡ false
  settled_at w = rw (lt_irrefl w) refl

  Kept-Settled :
      (rd : Reading num) (g g' : Gripper num)
      → Kept rd g g'
      → differs num (want num cfg g) g.sent ≡ false
      → want num cfg g ≡ cfg.grip_open
      → Settled rd g g'
  Kept-Settled rd g g' k known opened =
      let same : want num cfg g' ≡ want num cfg g =
        ap (λ (b : Bool). if b then cfg.grip_close else cfg.grip_open) k.want_eq in
      let kept : differs num (want num cfg g') g.sent ≡ false =
        subst (λ w. differs num w g.sent ≡ false) (sym same) known in
      (
        ap not (subst (λ o. differs num (want num cfg g') o ≡ false) (sym k.sent_eq) kept),
        elim k.goals_eq [
          | inl none_sent ↦ inr (none_sent, kept)
          | inr (again, at) ↦ inl (again ∙ ap (λ w. w ∷ g.goals) (sym opened ∙ sym same), at)
        ],
      )

  command-Settled :
      (rd : Reading num) (g : Gripper num)
      → rd.server_is_ready ≡ true
      → Settled rd g (command num cfg rd g)
  command-Settled rd g ready =
      if-cases (λ (g' : Gripper num). Settled rd g g') (differs num (want num cfg g) g.sent)
        (λ new. rw ready (ap not (settled_at (want num cfg g)), inl (refl, refl)))
        (λ known.
          if-cases (λ (g' : Gripper num). Settled rd g g') (not g.want_closed)
            (λ opened.
              Kept-Settled rd g _ (retry-Kept (measured_joint num cfg rd cfg.grip_joint) rd g) known
                (ap (λ (b : Bool). if b then cfg.grip_close else cfg.grip_open)
                  (not-eq_true g.want_closed opened)))
            (λ closed. (ap not known, inr (refl, known))))

  -- Toggling neither sends a goal nor forgets the last one.
  toggle_kept :
      (rd : Reading num) (g : Gripper num)
      → ((toggle num cfg rd g).goals ≡ g.goals) × ((toggle num cfg rd g).sent ≡ g.sent)
  toggle_kept rd g =
      if-cases
        (λ (x : Gripper num).
          let x' : Gripper num = record x { click_was = g.click_now } in
          (x'.goals ≡ g.goals) × (x'.sent ≡ g.sent))
        (toggles num cfg rd g) (λ e. (refl, refl)) (λ e. (refl, refl))

  -- Where the action server is ready, a tick of the gripper either sends exactly one goal, the one that
  -- the operator then wants, or sends none, which takes that the last goal that was sent and not
  -- refused is that one already; and so the last one is what is wanted, also after a refusal.
  pub grip_update-Settled :
      (rd : Reading num) (g : Gripper num)
      → rd.server_is_ready ≡ true
      → Settled rd g (grip_update num cfg rd g)
  unfolding grip_update
  grip_update-Settled rd g ready =
      let x = toggle num cfg rd g in
      let x' = command num cfg rd x in
      let (goals, last) = toggle_kept rd g in
      let (settled, sends) = command-Settled rd x ready in
      (
        settled,
        subst
            (λ (o : Option F).
              ((x'.goals ≡ want num cfg x' ∷ g.goals) × (x'.send_t ≡ rd.now))
              ⊎ ((x'.goals ≡ g.goals) × (differs num (want num cfg x') o ≡ false)))
            last
            (subst
              (λ (gs : List F).
                ((x'.goals ≡ want num cfg x' ∷ gs) × (x'.send_t ≡ rd.now))
                ⊎ ((x'.goals ≡ gs) × (differs num (want num cfg x') x.sent ≡ false)))
              goals sends),
      )
