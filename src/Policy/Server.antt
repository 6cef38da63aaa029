-- ===== src/Policy/Server.antt =====
-- `class DummyPolicyServer` of dummy_policy_server.py: a policy server that answers from a table. Its
-- transport is the parent class's, which is third-party code.
use vla_mantis.Base.{
  ℕ, zero, suc, ◌-◌, ◌%◌, Bool, true, false, not, ◌||◌, Option, none, some, List, [], ◌∷◌, String,
  map, ltb, length, get_elem?, ◌==◌, if◌then◌else◌,
}
use vla_mantis.Base.Num.{Num}
use vla_mantis.Policy.Table.{
  Casts, Source, Episode, Waypoint, Built, built, other_names, other_fps, bad_source, no_rows,
  build_table, check_speed,
}
use vla_mantis.Policy.Columns.{Order, as_is, reordered, mismatch, in_order, resolve_column_order}

-- `DummyPolicyServerConfig`
pub record ServerConfig (num : Num) : Type 0 where
  pub source : Source
  pub fps : ℕ
  pub actions_per_chunk : ℕ
  pub scale : num.F
  pub max_joint_vel : num.F
  pub loop : Bool

pub record Server (num : Num) : Type 0 where
  pub config : ServerConfig num
  pub actions : List (List num.F)
  pub predicted_timesteps : List ℕ
  pub column_order : Order
  pub exhausted_logged : Bool
  -- `self.last_processed_obs`, by its time step.
  pub last_processed_obs : Option ℕ

-- `t in self._predicted_timesteps`
abbrev pub answered : ℕ → List ℕ → Bool
answered t [] = false
answered t (u ∷ us) = t == u || answered t us

module _ (num : Num) (casts : Casts num) where
  open num use {F}

  abbrev pub serve_table : ServerConfig num → Built num → Option (Server num)
  serve_table config (built t) =
      if check_speed num casts t config.fps config.max_joint_vel
      then some (record {
        config = config;
        actions = t;
        predicted_timesteps = [];
        column_order = as_is;
        exhausted_logged = false;
        last_processed_obs = none;
      })
      else none
  serve_table config (other_names ns) = none
  serve_table config (other_fps n) = none
  serve_table config (bad_source s) = none
  serve_table config no_rows = none

  -- `DummyPolicyServer.__init__`; `none` where the table cannot be built or is too fast.
  unfoldable pub create : ServerConfig num → Episode num → List (Waypoint num) → Option (Server num)
  create config ep ws =
      serve_table config (build_table num casts config.source config.fps config.scale ep ws)

module _ (num : Num) where
  open num use {F}

  abbrev pub accept_order : Order → Server num → Option (Server num)
  accept_order as_is s = some (record s { column_order = as_is })
  accept_order (reordered order) s = some (record s { column_order = reordered order })
  accept_order mismatch s = none

  -- `SendPolicyInstructions`, from the names of the client's features on; `none` is its exception.
  unfoldable pub send_policy_instructions :
      Bool → Option (List String) → Server num → Option (Server num)
  send_policy_instructions false names s = some s
  send_policy_instructions true names s = accept_order (resolve_column_order names) s

  -- `_obs_sanity_checks`
  abbrev pub obs_sanity_checks : ℕ → Server num → Bool
  obs_sanity_checks t s = not (answered t s.predicted_timesteps)

  -- `self.actions[i]` past the end of the table: an empty table has no row to hold.
  abbrev pub at_index : ℕ → Server num → Option (List F)
  at_index i s = if length s.actions == 0 then none else get_elem? s.actions i

  abbrev pub past_end : Bool → ℕ → Server num → Option (List F) × Server num
  past_end true t s = (at_index (t % length s.actions) s, s)
  past_end false t s = (at_index (length s.actions - 1) s, record s { exhausted_logged = true })

  -- `_row`, with what it returns out of range.
  unfoldable pub row : ℕ → Server num → Option (List F) × Server num
  row t s =
      if ltb t (length s.actions) then (get_elem? s.actions t, s) else past_end s.config.loop t s

  abbrev pub cons_row :
      Option (List F) → Option (List (List F)) × Server num → Option (List (List F)) × Server num
  cons_row none (rows, s) = (none, s)
  cons_row (some r) (none, s) = (none, s)
  cons_row (some r) (some rows, s) = (some (r ∷ rows), s)

  -- `[self._row(t_0 + i) for i in range(n)]`
  unfoldable pub rows_from : ℕ → ℕ → Server num → Option (List (List F)) × Server num
  unfolding row
  rows_from zero t s = (some [], s)
  rows_from (suc n) t s = let (r, s') = row t s in cons_row r (rows_from n (suc t) s')

  abbrev pub order_rows :
      ℕ → Order → Option (List (List F)) × Server num → Option (List (List F)) × Server num
  order_rows t_0 order (none, s) = (none, s)
  order_rows t_0 order (some rows, s) =
      (some (map (in_order num.inf order) rows), record s { last_processed_obs = some t_0 })

  -- `_predict_action_chunk`, up to the time stamps; no row at all cannot be stacked.
  unfoldable pub predict_action_chunk : ℕ → Server num → Option (List (List F)) × Server num
  unfolding rows_from
  predict_action_chunk t_0 s =
      let n = s.config.actions_per_chunk in
      if n == 0 then (none, s) else order_rows t_0 s.column_order (rows_from n t_0 s)
