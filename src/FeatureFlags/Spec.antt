-- ===== src/FeatureFlags/Spec.antt =====
-- What the operations on flags promise, without Redis: each reads and writes the collection only.
-- The requests of the bot, answered by the code and by this description.
pub mod Refinement
pub mod Runs
pub mod Membership
pub mod Entering
use sophie.Prelude.{ℕ, Option, none, some, List, [], ◌∷◌, if◌then◌else◌}
use sophie.Prelude.Int.{ℤ, pos, ◌+ℤ◌, leb_ℤ}
use sophie.FeatureFlags.Flags.{FeatureType}
use sophie.FeatureFlags.Definitions.{get_default_value}
use sophie.FeatureFlags.Values.{Floats, Value}
use sophie.FeatureFlags.Rollouts.{
  FeatureRollout, Services, get_rollout_percentage, is_chat_in_rollout, in_percent,
}
use sophie.FeatureFlags.Store.{
  manual, rollout, Collection, FlagState, set_document, delete_document, set_rollout_document,
  delete_rollout_document, stored_value, stored_rollout, set_override, delete_override,
  delete_rollout,
}
use sophie.FeatureFlags.Service.{
  FlagReply, done, answered, bumped, raised, bad_percentage, bad_days, nothing_to_bump, too_large,
  value_written, reply_written, reply_rollout_written, steady, timed, percentage_so_far,
  at_most_all, get_value, set_rollout, set_timed_rollout, bump_rollout,
}

module _ (fl : Floats) where
  -- The calls of other parts of the bot: of a flag, or of a flag in a chat.
  pub data Request : Type 0 where
    ask : FeatureType → Option ℕ → Request
    override : FeatureType → Option ℕ → Value fl → Request
    clear : FeatureType → Option ℕ → Request
    roll_out : FeatureType → ℤ → Value fl → Request
    roll_out_over : FeatureType → ℤ → Value fl → Request
    bump : FeatureType → ℤ → Request
    end_rollout : FeatureType → Request

  module _ (sv : Services fl) (now : ℕ) where
    abbrev pub or_value :
        Option (Value fl)
        → Collection fl
        → Collection fl × Option (Value fl)
        → Collection fl × Option (Value fl)
    or_value (some v) db otherwise = (db, some v)
    or_value none db otherwise = otherwise

    abbrev pub entered :
        FeatureType
        → ℕ
        → Option (FeatureRollout fl)
        → Collection fl
        → Collection fl × Option (Value fl)
    entered f c none db = (db, some (get_default_value fl f))
    entered f c (some r) db =
        if is_chat_in_rollout fl sv f c (get_rollout_percentage fl sv r now)
        then (set_document fl f r.value (some c) rollout db, value_written fl r.value)
        else (db, some (get_default_value fl f))

    abbrev pub rolled_out :
        FeatureType → Option ℕ → Collection fl → Collection fl × Option (Value fl)
    rolled_out f none db = (db, some (get_default_value fl f))
    rolled_out f (some c) db = entered f c (stored_rollout fl sv f db) db

    abbrev pub effective_global :
        FeatureType → Option ℕ → Collection fl → Collection fl × Option (Value fl)
    effective_global f chat db = or_value (stored_value fl f none db) db (rolled_out f chat db)

    -- The override of the chat, else that of the flag, else the rollout's value for a chat in it,
    -- which becomes the chat's override, else the default.
    abbrev pub effective_value :
        FeatureType → Option ℕ → Collection fl → Collection fl × Option (Value fl)
    effective_value f none db = effective_global f none db
    effective_value f (some c) db =
        or_value (stored_value fl f (some c) db) db (effective_global f (some c) db)

    abbrev pub bump_stored :
        FeatureType → ℤ → Option (FeatureRollout fl) → Collection fl → Collection fl × FlagReply fl
    bump_stored f percentage none db = (db, raised nothing_to_bump)
    bump_stored f percentage (some r) db =
        let r' =
          steady fl sv now
            (at_most_all fl sv now (get_rollout_percentage fl sv r now +ℤ percentage)) r.value in
        (set_rollout_document fl f r' db, reply_rollout_written fl r' (bumped r'))

    abbrev pub answer_of : Option (Value fl) → FlagReply fl
    answer_of none = raised too_large
    answer_of (some v) = answered v

    abbrev pub reply_value {ℓ} : {S : Type ℓ} → S × Option (Value fl) → S × FlagReply fl
    reply_value step = (step.0, answer_of step.1)

    abbrev pub promised : Request → Collection fl → Collection fl × FlagReply fl
    promised (ask f chat) db = reply_value (effective_value f chat db)
    promised (override f chat v) db = (set_document fl f v chat manual db, reply_written fl v)
    promised (clear f chat) db = (delete_document fl f chat db, done)
    promised (roll_out f percentage v) db =
        if in_percent fl percentage
        then (
          set_rollout_document fl f (steady fl sv now percentage v) db,
          reply_rollout_written fl (steady fl sv now percentage v) done,
        )
        else (db, raised bad_percentage)
    promised (roll_out_over f days v) db =
        let start = percentage_so_far fl sv now (stored_rollout fl sv f db) in
        if leb_ℤ days (pos 0) then (db, raised bad_days) else (
          set_rollout_document fl f (timed fl sv now start days v) db,
          reply_rollout_written fl (timed fl sv now start days v) done,
        )
    promised (bump f percentage) db =
        if in_percent fl percentage
        then bump_stored f percentage (stored_rollout fl sv f db) db
        else (db, raised bad_percentage)
    promised (end_rollout f) db = (delete_rollout_document fl f db, done)

    abbrev pub performed : Request → FlagState fl → FlagState fl × FlagReply fl
    performed (ask f chat) s = reply_value (get_value fl sv now f chat s)
    performed (override f chat v) s = (set_override fl f chat v manual s, reply_written fl v)
    performed (clear f chat) s = (delete_override fl f chat s, done)
    performed (roll_out f percentage v) s = set_rollout fl sv now f percentage v s
    performed (roll_out_over f days v) s = set_timed_rollout fl sv now f days v s
    performed (bump f percentage) s = bump_rollout fl sv now f percentage s
    performed (end_rollout f) s = (delete_rollout fl sv f s, done)

  -- A run of requests, each at its time.
  abbrev pub promises :
      Services fl → List (ℕ × Request) → Collection fl → Collection fl × List (FlagReply fl)
  promises sv [] db = (db, [])
  promises sv ((now, request) ∷ rest) db =
      let step = promised sv now request db in
      let later = promises sv rest step.0 in (later.0, step.1 ∷ later.1)

  abbrev pub runs :
      Services fl → List (ℕ × Request) → FlagState fl → FlagState fl × List (FlagReply fl)
  runs sv [] s = (s, [])
  runs sv ((now, request) ∷ rest) s =
      let step = performed sv now request s in
      let later = runs sv rest step.0 in (later.0, step.1 ∷ later.1)
