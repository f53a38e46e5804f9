-- ===== src/FeatureFlags/Tests.antt =====
-- Runs of the flags on concrete inputs.
pub mod Stand
use sophie.Prelude.{ℕ, Bool, true, false, Option, none, some, List, [], ◌∷◌, ◌≡◌, refl, arith, inl}
use sophie.Prelude.Int.{ℤ, pos, negsuc}
use sophie.FeatureFlags.Numbers.{codes, int_of_text, text_of_int, strip_start, strip_end}
use sophie.FeatureFlags.Flags.{
  FeatureType, ai_chatbot_request_limit, ai_sophie_inspect_chats, locks, feature_of_name,
  feature_name,
}
use sophie.FeatureFlags.Flags.Names.{feature_of_name-feature_name}
use sophie.FeatureFlags.Definitions.{get_default_value}
use sophie.FeatureFlags.Values.{
  Value, int_value, str_value, bool_value, same_type, parse_feature_value, parse_feature_override,
  serialize_feature_value,
}
use sophie.FeatureFlags.Values.RoundTrip.{parse-serialize, parse-serialize_number}
use sophie.FeatureFlags.Rollouts.{
  FeatureRollout, coerce_dict, get_rollout_percentage, is_chat_in_rollout, in_percent,
}
use sophie.FeatureFlags.Store.{
  FlagState, cached_value, stored_value, stored_rollout, set_override, put_rollout, manual,
}
use sophie.FeatureFlags.Service.{get_value, set_rollout, set_timed_rollout, bump_rollout, steady}
use sophie.FeatureFlags.Service.Overlap.{take_turns, crossed, begun, get_value-crossed}
use sophie.FeatureFlags.Coherence.{IsCoherent, IsReadable}
use sophie.FeatureFlags.Coherence.Overrides.{set_override-IsCoherent}
use sophie.FeatureFlags.Coherence.Rollouts.{put_rollout-IsCoherent}
use sophie.FeatureFlags.Coherence.Percentages.{steady-IsReadableRollout, get_rollout_percentage_in}
use sophie.FeatureFlags.Listing.{list_all}
use sophie.FeatureFlags.Listing.Agreement.{list_all-get_value}
use sophie.FeatureFlags.Spec.{
  Request, ask, override, clear, roll_out, roll_out_over, bump, end_rollout, promises, runs,
}
use sophie.FeatureFlags.Spec.Refinement.{Refines}
use sophie.FeatureFlags.Spec.Runs.{runs-Refines}
use sophie.FeatureFlags.Spec.Membership.{membership_lasts}
use sophie.FeatureFlags.Spec.Entering.{set_timed_rollout_completes, bump_rollout_keeps}
use sophie.FeatureFlags.Tests.Stand.{wholes, wholes_lem, stand_in, stand_in_lem}

abbrev limit : FeatureType
limit = ai_chatbot_request_limit

abbrev nine : Value wholes
nine = int_value (pos 9)

abbrev empty : FlagState wholes
empty = record {
  db = record { overrides = λ f chat. none; rollouts = λ f. none };
  redis = record { cached = λ f chat. none; cached_rollouts = λ f. none };
}

empty-IsCoherent : IsCoherent wholes stand_in empty
unfolding parse_feature_override
empty-IsCoherent = record {
  agrees = λ f chat. record { fresh = inl refl; readable = λ v h. cc };
  agrees_rollout = λ f. record { fresh_rollout = inl refl; readable_rollout = λ r h. cc };
}

nine-IsReadable : IsReadable wholes stand_in limit nine
nine-IsReadable = parse-serialize wholes (int_value (pos 4)) nine wholes_lem refl tt

abbrev half_of_chats : FeatureRollout wholes
half_of_chats = steady wholes stand_in 5 (pos 50) nine

abbrev rolled : FlagState wholes
rolled = put_rollout wholes stand_in limit half_of_chats empty

rolled-IsCoherent : IsCoherent wholes stand_in rolled
rolled-IsCoherent =
    put_rollout-IsCoherent wholes stand_in limit half_of_chats empty
      (λ taken.
        steady-IsReadableRollout wholes stand_in stand_in_lem 5 limit (pos 50) nine refl
          nine-IsReadable refl)
      empty-IsCoherent

parse-serialize_example :
    parse_feature_override wholes
      (some (serialize_feature_value wholes (int_value (negsuc 41))))
      (int_value (pos 4))
    ≡ some (int_value (negsuc 41))
parse-serialize_example =
    parse-serialize wholes (int_value (pos 4)) (int_value (negsuc 41)) wholes_lem refl tt

abbrev requests : List (ℕ × Request wholes)
requests =
    (6, ask limit (some 8))
    ∷ (7, bump limit (pos 20))
    ∷ (8, clear limit none)
    ∷ (9, roll_out_over limit (pos 2) nine)
    ∷ (10, override limit (some 8) nine)
    ∷ (11, end_rollout limit)
    ∷ []

runs-Refines_example :
    Refines wholes stand_in
      (runs wholes stand_in requests rolled)
      (promises wholes stand_in requests rolled.db)
runs-Refines_example =
    runs-Refines wholes stand_in stand_in_lem requests rolled
      (tt, (tt, (tt, (nine-IsReadable, (nine-IsReadable, (tt, tt)))))) rolled-IsCoherent

rolled_stored : stored_rollout wholes stand_in limit rolled.db ≡ some half_of_chats
unfolding put_rollout coerce_dict
rolled_stored = refl

nothing_stored : (chat : Option ℕ) → stored_value wholes limit chat rolled.db ≡ none
unfolding put_rollout
nothing_stored chat = refl

half_now : (now : ℕ) → get_rollout_percentage wholes stand_in half_of_chats now ≡ pos 50
unfolding get_rollout_percentage
half_now now = refl

is_inside :
    (now : ℕ)
    → is_chat_in_rollout wholes stand_in limit 8
        (get_rollout_percentage wholes stand_in half_of_chats now)
      ≡ true
is_inside now = rw (half_now now) refl

abbrev later_requests : List (ℕ × Request wholes)
later_requests = (7, end_rollout limit) ∷ (8, override limit none (int_value (pos 2))) ∷ []

two-IsReadable : IsReadable wholes stand_in limit (int_value (pos 2))
two-IsReadable = parse-serialize wholes (int_value (pos 4)) (int_value (pos 2)) wholes_lem refl tt

membership_lasts_example :
    ((get_value wholes stand_in 6 limit (some 8) rolled).1 ≡ some nine)
    × ((get_value wholes stand_in 9 limit
          (some 8)
          (runs wholes stand_in later_requests
            (get_value wholes stand_in 6 limit (some 8) rolled).0).0).1
        ≡ some nine)
membership_lasts_example =
    membership_lasts wholes stand_in stand_in_lem 6 limit 8 half_of_chats rolled later_requests 9
      rolled-IsCoherent (nothing_stored (some 8)) (nothing_stored none) rolled_stored (is_inside 6)
      (tt, (two-IsReadable, tt)) (tt, (refl, tt))

set_timed_rollout_completes_example :
    (get_value wholes stand_in 172800000006 limit
      (some 8)
      (set_timed_rollout wholes stand_in 6 limit (pos 2) nine rolled).0).1
    ≡ some nine
set_timed_rollout_completes_example =
    set_timed_rollout_completes wholes stand_in stand_in_lem 6 172800000006 limit 8 1 nine rolled
      rolled-IsCoherent nine-IsReadable refl (omega arith) (nothing_stored (some 8))
      (nothing_stored none) (omega arith)

bump_rollout_keeps_example :
    (r' : FeatureRollout wholes) × (stored_rollout wholes stand_in limit
        (bump_rollout wholes stand_in 6 limit (pos 20) rolled).0.db
      ≡ some r')
    × (is_chat_in_rollout wholes stand_in limit 8 (get_rollout_percentage wholes stand_in r' 9)
        ≡ true)
bump_rollout_keeps_example =
    bump_rollout_keeps wholes stand_in stand_in_lem 6 9 limit 8 (pos 20) half_of_chats rolled
      rolled-IsCoherent rolled_stored refl (is_inside 6)

abbrev set_to_nine : FlagState wholes
set_to_nine = set_override wholes limit none nine manual rolled

set_to_nine-IsCoherent : IsCoherent wholes stand_in set_to_nine
set_to_nine-IsCoherent =
    set_override-IsCoherent wholes stand_in limit none nine manual rolled nine-IsReadable
      rolled-IsCoherent

nine_stored : stored_value wholes limit none set_to_nine.db ≡ some nine
unfolding set_override
nine_stored = refl

list_all-get_value_example :
    (some ((list_all wholes set_to_nine).1 limit)
      ≡ (get_value wholes stand_in 6 limit none set_to_nine).1)
    × (some ((list_all wholes set_to_nine).1 limit)
        ≡ (get_value wholes stand_in 6 limit none (list_all wholes set_to_nine).0).1)
list_all-get_value_example =
    list_all-get_value wholes stand_in 6 limit set_to_nine set_to_nine-IsCoherent

-- the same override, in a Redis that has lost it
abbrev uncached : FlagState wholes
uncached = record { db = set_to_nine.db; redis = empty.redis }

nine_missed : cached_value wholes limit none uncached.redis ≡ none
unfolding parse_feature_override
nine_missed = refl

get_value-crossed_example :
    let after = (take_turns wholes limit none (crossed wholes) (begun wholes uncached)).shared in
    (stored_value wholes limit none after.db ≡ none)
    × (get_value wholes stand_in 6 limit none after ≡ (after, some nine))
get_value-crossed_example =
    get_value-crossed wholes stand_in 6 limit nine uncached nine_missed nine_stored nine-IsReadable

parse-serialize_number_example :
    (parse_feature_override wholes
        (some (serialize_feature_value wholes (str_value (text_of_int (negsuc 1001)))))
        (get_default_value wholes ai_sophie_inspect_chats)
      ≡ some (int_value (negsuc 1001)))
    × (same_type wholes (get_default_value wholes ai_sophie_inspect_chats) (int_value (negsuc 1001))
        ≡ false)
unfolding text_of_int
parse-serialize_number_example =
    parse-serialize_number wholes (codes "-1001202504432") (negsuc 1001) refl refl
