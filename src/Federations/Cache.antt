-- ===== src/Federations/Cache.antt =====
-- sophie_bot/modules/federations/utils/cache_service.py: the federation keys in Redis. The
-- time-to-live of a key is not modelled as a number: that a key may be gone at any later read is
-- the relation `Expires`.
use sophie.Prelude.{ℕ, Bool, Option, none, some, ◌==◌, ◌&&◌, ◌≡◌, ◌⊎◌, if◌then◌else◌}
use sophie.Prelude.Int.{ℤ, ◌+ℤ◌}
use sophie.Federations.Model.{Cache}

abbrev pub update {ℓ} : {V : Type ℓ} → (ℕ → V) → ℕ → V → ℕ → V
update f k v j = if j == k then v else f j

abbrev pub get_fed_id_for_chat : Cache → ℕ → Option ℕ
get_fed_id_for_chat c chat_iid = c.chat_fed_id chat_iid

abbrev pub set_fed_id_for_chat : Cache → ℕ → ℕ → Cache
set_fed_id_for_chat c chat_iid fed_id = record c {
  chat_fed_id = update c.chat_fed_id chat_iid (some fed_id);
}

abbrev pub invalidate_federation_for_chat : Cache → ℕ → Cache
invalidate_federation_for_chat c chat_iid = record c {
  chat_fed_id = update c.chat_fed_id chat_iid none;
}

abbrev pub get_user_ban_status : Cache → ℕ → ℕ → Option Bool
get_user_ban_status c fed_id user_tid = c.ban_status fed_id user_tid

abbrev pub set_user_ban_status : Cache → ℕ → ℕ → Bool → Cache
set_user_ban_status c fed_id user_tid is_banned = record c {
  ban_status = λ f u. if f == fed_id && u == user_tid then some is_banned else c.ban_status f u;
}

abbrev pub get_ban_count : Cache → ℕ → Option ℤ
get_ban_count c fed_id = c.ban_count fed_id

abbrev pub set_ban_count : Cache → ℕ → ℤ → Cache
set_ban_count c fed_id count = record c { ban_count = update c.ban_count fed_id (some count) }

-- `incrby` on a key that exists
abbrev pub incr : ℤ → Option ℤ → Option ℤ
incr amount none = none
incr amount (some n) = some (n +ℤ amount)

abbrev pub incr_ban_count : Cache → ℕ → ℤ → Cache
incr_ban_count c fed_id amount = record c {
  ban_count = update c.ban_count fed_id (incr amount (c.ban_count fed_id));
}

abbrev pub get_chat_count : Cache → ℕ → Option ℤ
get_chat_count c fed_id = c.chat_count fed_id

abbrev pub set_chat_count : Cache → ℕ → ℤ → Cache
set_chat_count c fed_id count = record c { chat_count = update c.chat_count fed_id (some count) }

abbrev pub incr_chat_count : Cache → ℕ → ℤ → Cache
incr_chat_count c fed_id amount = record c {
  chat_count = update c.chat_count fed_id (incr amount (c.chat_count fed_id));
}

-- Keys run out: each is as it was, or gone.
pub record Expires (c c' : Cache) : Type 0 where
  pub chat_fed_id : (k : ℕ) → (c'.chat_fed_id k ≡ none) ⊎ (c'.chat_fed_id k ≡ c.chat_fed_id k)
  pub ban_status : (f u : ℕ) → (c'.ban_status f u ≡ none) ⊎ (c'.ban_status f u ≡ c.ban_status f u)
  pub ban_count : (k : ℕ) → (c'.ban_count k ≡ none) ⊎ (c'.ban_count k ≡ c.ban_count k)
  pub chat_count : (k : ℕ) → (c'.chat_count k ≡ none) ⊎ (c'.chat_count k ≡ c.chat_count k)
