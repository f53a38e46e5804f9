-- ===== src/FeatureFlags/Coherence.antt =====
-- The agreement of the Redis hashes with the collection, and what keeps it: the writes that change
-- both, and the warming of the cache after a miss.
pub mod Overrides
pub mod Rollouts
pub mod Percentages
use sophie.Prelude.{
  ℕ, Bool, true, false, ◌&&◌, Option, none, some, if◌then◌else◌, ◌==◌, ◌≡◌, refl, sym, ◌∙◌, ap, ◌⊎◌,
  inl, inr, arith, Bool-cases, Option-cases,
}
use sophie.FeatureFlags.Numbers.{Text}
use sophie.FeatureFlags.Flags.{FeatureType, feature_name}
use sophie.FeatureFlags.Flags.Names.{same_feature_sound, same_text_refl}
use sophie.FeatureFlags.Definitions.{get_default_value}
use sophie.FeatureFlags.Values.{Floats, Value, parse_feature_override, serialize_feature_value}
use sophie.FeatureFlags.Rollouts.{
  in_percent, FeatureRollout, plain_value, Services, coerce_dict, dict_of_rollout,
  coerce_rollout_text, coerce_rollout,
}
use sophie.FeatureFlags.Store.{
  same_place, same_chat, FeatureFlagOverride, Collection, Redis, FlagState, write_hash,
  write_rollout_hash, set_override, delete_override, resolve_cached_override, first_found, warm,
  FeatureFlagOverrideSource, cached_value, is_storable, value_of_document, stored_value,
  rollout_of_text, rollout_of_document, manual, rollout,
}

module _ (fl : Floats) (sv : Services fl) where
  -- Is a value of a flag read back from Redis as it was written?
  abbrev pub IsReadable : FeatureType → Value fl → Type 0
  IsReadable f v =
      parse_feature_override fl (some (serialize_feature_value fl v)) (get_default_value fl f)
      ≡ some v

  -- The same of a rollout, of its value, which Mongo takes, and of its dictionary in the collection,
  -- with percentages that are ones.
  pub record IsReadableRollout (f : FeatureType) (r : FeatureRollout fl) : Type 0 where
    pub from_redis : coerce_rollout_text fl sv (sv.dumps r) ≡ some r
    pub from_db : coerce_dict fl sv (dict_of_rollout fl r) ≡ some r
    pub its_value : IsReadable f r.value
    pub its_storable : is_storable fl r.value ≡ true
    pub its_start : in_percent fl r.start_percentage ≡ true
    pub its_target : in_percent fl r.target_percentage ≡ true

  -- What a text in Redis and a document may say of one flag: the text is unset or unusable, or it
  -- says what the document says, and the value of the document can be cached.
  pub record Agrees (f : FeatureType) (t : Option Text) (o : Option (FeatureFlagOverride fl))
      : Type 0 where
    pub fresh :
        (parse_feature_override fl t (get_default_value fl f) ≡ none)
        ⊎ (parse_feature_override fl t (get_default_value fl f) ≡ value_of_document fl o)
    pub readable : (v : Value fl) → value_of_document fl o ≡ some v → IsReadable f v

  pub record AgreesRollout (f : FeatureType) (t : Option Text) (o : Option (FeatureFlagOverride fl))
      : Type 0 where
    pub fresh_rollout :
        (rollout_of_text fl sv t ≡ none) ⊎ (rollout_of_text fl sv t ≡ rollout_of_document fl sv o)
    pub readable_rollout :
        (r : FeatureRollout fl) → rollout_of_document fl sv o ≡ some r → IsReadableRollout f r

  pub record IsCoherent (s : FlagState fl) : Type 0 where
    pub agrees :
        (f : FeatureType) (chat : Option ℕ)
        → Agrees f (s.redis.cached f chat) (s.db.overrides f chat)
    pub agrees_rollout :
        (f : FeatureType) → AgreesRollout f (s.redis.cached_rollouts f) (s.db.rollouts f)

  pub some_injective {ℓ} : {A : Type ℓ} {x y : A} → some x ≡ some y → x ≡ y
  some_injective h = cc

  pub same_place_feature :
      (f g : FeatureType) (chat chat' : Option ℕ) → same_place f chat g chat' ≡ true → f ≡ g
  same_place_feature f g chat chat' h = same_feature_sound f g (ground arith)

  same_chat_sound : (chat chat' : Option ℕ) → same_chat chat chat' ≡ true → chat ≡ chat'
  same_chat_sound none none h = refl
  same_chat_sound (some a) (some b) h = ap some (ground arith)
  same_chat_sound none (some b) h = cc
  same_chat_sound (some a) none h = cc

  pub same_place_chat :
      (f g : FeatureType) (chat chat' : Option ℕ) → same_place f chat g chat' ≡ true → chat ≡ chat'
  same_place_chat f g chat chat' h = same_chat_sound chat chat' (ground arith)

  pub same_place_refl : (f : FeatureType) (chat : Option ℕ) → same_place f chat f chat ≡ true
  same_place_refl f none = ground (arith, same_text_refl (feature_name f))
  same_place_refl f (some c) = ground (arith, same_text_refl (feature_name f))

  -- A property of a flag that holds after a write at the place written and at every other one.
  pub after_write {ℓ κ} :
      {A : Type ℓ} {B : Type κ} (P : A → B → Type 0) (b : Bool) (x x' : A) (y y' : B)
      → (b ≡ true → P x y)
      → P x' y'
      → P (if b then x else x') (if b then y else y')
  after_write P true x x' y y' here elsewhere = here refl
  after_write P false x x' y y' here elsewhere = elsewhere

  pub after_warming {ℓ} :
      {A : Type ℓ} (P : A → Type 0) (b : Bool) (x x' : A)
      → (b ≡ true → P x)
      → P x'
      → P (if b then x else x')
  after_warming P true x x' here elsewhere = here refl
  after_warming P false x x' here elsewhere = elsewhere
