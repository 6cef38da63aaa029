-- ===== src/Policy/Serving.antt =====
-- What the server of dummy_policy_server.py answers: a window of one trajectory, which its table is
-- continued to by holding its last row or by looping.
use native.Mathlib.Nat.{mod-lt, mod-eq_of_lt}
use mathlib.Core.Option.{some-injective}
use vla_mantis.Base.{
  ℕ, zero, suc, ◌-◌, ◌%◌, ◌≤◌, ◌<◌, ◌≡◌, refl, sym, ap, ◌∙◌, subst, Bool, true, false, Option, none,
  some, List, [], ◌∷◌, map, min, ltb, ltb→lt, length, get_elem?, get_or, ◌==◌, if◌then◌else◌,
  if-cases, arith, range_from,
}
use vla_mantis.Base.Num.{Num}
use vla_mantis.Policy.Table.{
  Casts, Episode, Waypoint, Built, built, other_names, other_fps, bad_source, no_rows, check_speed,
}
use vla_mantis.Policy.Columns.{Order, in_order}
use vla_mantis.Policy.Steady.{IsSteady, check_speed-IsSteady}
use vla_mantis.Policy.Server.{
  ServerConfig, Server, serve_table, create, at_index, past_end, row, cons_row, rows_from,
  order_rows, predict_action_chunk,
}

-- The row of a table of `n` rows that stands at a time.
abbrev pub held : Bool → ℕ → ℕ → ℕ
held true n t = t % n
held false n t = min t (n - 1)

held-lt : (loop : Bool) (n t : ℕ) → 1 ≤ n → held loop n t < n
held-lt true n t h = let p : 0 < n = omega arith in mod-lt t p
held-lt false n t h = omega arith

held_early : (loop : Bool) (n t : ℕ) → t < n → held loop n t ≡ t
held_early true n t h = mod-eq_of_lt h
held_early false n t h = omega arith

get_elem?-get_or {ℓ} :
    {A : Type ℓ} (xs : List A) (i : ℕ) (d : A)
    → i < length xs
    → get_elem? xs i ≡ some (get_or xs i d)
get_elem?-get_or [] i d h = absurd (omega arith)
get_elem?-get_or (x ∷ xs) zero d h = refl
get_elem?-get_or (x ∷ xs) (suc i) d h = get_elem?-get_or xs i d (omega arith)

module _ (num : Num) where
  open num use {F}

  abbrev pub row_at : Server num → ℕ → List F
  row_at s t = get_or s.actions (held s.config.loop (length s.actions) t) []

  -- The endless trajectory that the server plays, in the order of the client's columns.
  abbrev pub trajectory : Server num → ℕ → List F
  trajectory s t = in_order num.inf s.column_order (row_at s t)

  abbrev Rowed : Server num → ℕ → Option (List F) × Server num → Type 0
  Rowed s t x = (f : Bool) × (x ≡ (some (row_at s t), record s { exhausted_logged = f }))

  -- The row at an index that is the held one.
  at_index-held :
      (t i : ℕ) (s : Server num)
      → 1 ≤ length s.actions
      → held s.config.loop (length s.actions) t ≡ i
      → at_index num i s ≡ some (row_at s t)
  at_index-held t i s h same =
      let n = length s.actions in
      let some_row : (n == 0) ≡ false = ground arith in
      let here =
        get_elem?-get_or s.actions (held s.config.loop n t) [] (held-lt s.config.loop n t h) in
      ap (λ (b : Bool). if b then none else get_elem? s.actions i) some_row
      ∙ ap (get_elem? s.actions) (sym same)
      ∙ here

  past_end-Rowed :
      (b : Bool) (t : ℕ) (s : Server num)
      → s.config.loop ≡ b
      → 1 ≤ length s.actions
      → ltb t (length s.actions) ≡ false
      → Rowed s t (past_end num b t s)
  past_end-Rowed true t s e h late =
      let n = length s.actions in
      (s.exhausted_logged, ap (λ o. (o, s)) (at_index-held t (t % n) s h (ap (λ b. held b n t) e)))
  past_end-Rowed false t s e h late =
      let n = length s.actions in
      let last : min t (n - 1) ≡ n - 1 = ground arith in
      let s' : Server num = record s { exhausted_logged = true } in
      (true, ap (λ o. (o, s')) (at_index-held t (n - 1) s h (ap (λ b. held b n t) e ∙ last)))

  row-Rowed : (t : ℕ) (s : Server num) → 1 ≤ length s.actions → Rowed s t (row num t s)
  unfolding row
  row-Rowed t s h =
      let n = length s.actions in
      let loop = s.config.loop in
      if-cases (λ (x : Option (List F) × Server num). Rowed s t x) (ltb t n)
        (λ early.
          let same = held_early loop n t (ltb→lt t n early) in
          let here = get_elem?-get_or s.actions (held loop n t) [] (held-lt loop n t h) in
          (s.exhausted_logged, ap (λ o. (o, s)) (ap (get_elem? s.actions) (sym same) ∙ here)))
        (λ late. past_end-Rowed loop t s refl h late)

  rows_from-Rowed :
      (n t : ℕ) (s : Server num)
      → 1 ≤ length s.actions
      → (f : Bool) × (rows_from num n t s
          ≡ (some (map (row_at s) (range_from t n)), record s { exhausted_logged = f }))
  unfolding rows_from
  rows_from-Rowed zero t s h = (s.exhausted_logged, refl)
  rows_from-Rowed (suc n) t s h =
      let (f, one) = row-Rowed t s h in
      let (g, more) = rows_from-Rowed n (suc t) (record s { exhausted_logged = f }) h in
      (
        g,
        ap (λ (x : Option (List F) × Server num). cons_row num x.0 (rows_from num n (suc t) x.1))
              one
            ∙ ap (cons_row num (some (row_at s t))) more,
      )

  map-map :
      (f : List F → List F) (g : ℕ → List F) (ts : List ℕ)
      → map f (map g ts) ≡ map (λ t. f (g t)) ts
  map-map f g [] = refl
  map-map f g (t ∷ ts) = ap (λ l. f (g t) ∷ l) (map-map f g ts)

  chunk-trajectory :
      (t : ℕ) (s : Server num)
      → 1 ≤ length s.actions
      → 1 ≤ s.config.actions_per_chunk
      → (f : Bool) × (predict_action_chunk num t s ≡ (
        some (map (trajectory s) (range_from t s.config.actions_per_chunk)),
        record s { exhausted_logged = f; last_processed_obs = some t },
      ))
  unfolding predict_action_chunk
  chunk-trajectory t s h per =
      let n = s.config.actions_per_chunk in
      let some_rows : (n == 0) ≡ false = ground arith in
      let (f, rows) = rows_from-Rowed n t s h in
      let s' : Server num = record s { exhausted_logged = f; last_processed_obs = some t } in
      (
        f,
        ap
              (λ (b : Bool).
                if b then (none, s) else order_rows num t s.column_order (rows_from num n t s))
              some_rows
            ∙ ap (order_rows num t s.column_order) rows
            ∙ ap (λ l. (some l, s'))
                (map-map (in_order num.inf s.column_order) (row_at s) (range_from t n)),
      )

module _ (num : Num) (casts : Casts num) where
  open num use {F}

  IsSteady-length :
      (table : List (List F)) (fps : ℕ) (limit : F)
      → IsSteady num casts fps limit table
      → 1 ≤ length table
  IsSteady-length [] fps limit h = absurd h
  IsSteady-length (r ∷ rows) fps limit h = omega arith

  serve_table-IsSteady :
      (config : ServerConfig num) (b : Built num) (s : Server num)
      → serve_table num casts config b ≡ some s
      → IsSteady num casts config.fps config.max_joint_vel s.actions × (s.config ≡ config)
  serve_table-IsSteady config (built t) s =
      if-cases
        (λ (o : Option (Server num)).
          o ≡ some s
          → IsSteady num casts config.fps config.max_joint_vel s.actions × (s.config ≡ config))
        (check_speed num casts t config.fps config.max_joint_vel)
        (λ steady e.
          let same = some-injective _ _ e in
          (
            subst (λ (x : Server num). IsSteady num casts config.fps config.max_joint_vel x.actions)
                same ((check_speed-IsSteady num casts t config.fps config.max_joint_vel).0 steady),
            sym (ap (λ (x : Server num). x.config) same),
          ))
        (λ fast e. absurd cc)
  serve_table-IsSteady config (other_names ns) s = λ e. absurd cc
  serve_table-IsSteady config (other_fps n) s = λ e. absurd cc
  serve_table-IsSteady config (bad_source b) s = λ e. absurd cc
  serve_table-IsSteady config no_rows s = λ e. absurd cc

  -- A server that was created, in whatever order of the columns and whether or not it has logged the
  -- end, and after whatever observation, answers an observation of any time with as many rows as a chunk has, and they are the window
  -- of its one endless trajectory from that time on, which plays its table and then holds the last row,
  -- or plays it again where it loops; nothing but the log's flag and the last observation, which
  -- is then this one, changes. And its table is steady.
  pub created-trajectory :
      (config : ServerConfig num) (ep : Episode num) (ws : List (Waypoint num)) (s : Server num)
      (order : Order) (logged : Bool) (last : Option ℕ) (t : ℕ)
      → create num casts config ep ws ≡ some s
      → 1 ≤ config.actions_per_chunk
      → let live = record s {
        column_order = order;
        exhausted_logged = logged;
        last_processed_obs = last;
      } in
        ((f : Bool) × (predict_action_chunk num t live ≡ (
          some (map (trajectory num live) (range_from t config.actions_per_chunk)),
          record live { exhausted_logged = f; last_processed_obs = some t },
        )))
        × IsSteady num casts config.fps config.max_joint_vel s.actions
  unfolding create
  created-trajectory config ep ws s order logged last t e per =
      let (steady, same) = serve_table-IsSteady config _ s e in
      let live : Server num = record s {
        column_order = order;
        exhausted_logged = logged;
        last_processed_obs = last;
      } in
      let h = IsSteady-length s.actions config.fps config.max_joint_vel steady in
      let per' = subst (λ (c : ServerConfig num). 1 ≤ c.actions_per_chunk) (sym same) per in
      let (f, answer) = chunk-trajectory num t live h per' in
      (
        (
          f,
          subst
              (λ (c : ServerConfig num). predict_action_chunk num t live ≡ (
                some (map (trajectory num live) (range_from t c.actions_per_chunk)),
                record live { exhausted_logged = f; last_processed_obs = some t },
              ))
              same answer,
        ),
        steady,
      )
