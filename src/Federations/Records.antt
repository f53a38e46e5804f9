-- ===== src/Federations/Records.antt =====
-- The invariant of the ban records and of their cached counts, over the bans, lazy bans, unbans, counts
-- and checks that `Step` lists (sophie_bot/modules/federations/services/ban.py) and over the expiry of
-- the Redis keys.
use sophie.Prelude.{
  ℕ, ◌≤◌, Option, none, some, String, List, [], ◌∷◌, ◌≡◌, ◌⊎◌, inl, inr, refl, ◌==◌, count, arith,
  Option-cases, Bool-cases, remove_first,
}
use sophie.Prelude.Int.{pos, pos-add_one, pos-sub_one}
use sophie.Prelude.Search.{
  count-append, find-none-count, count-update_first, count-remove_first, count-remove_first_le,
  count-remove_first_other,
}
use sophie.Federations.Model.{Federation, FederationBan, Config, Cache, World, get_by_tid}
use sophie.Federations.Cache.{Expires}
use sophie.Federations.Ban.{
  is_ban_of, is_user_banned, insert_ban, ban_user, unban_user, amend, fresh_ban,
}
use sophie.Federations.Lazy.{lazy_ban, lazy_step, lazy_loop, lazy_ban_in_subscribing_federations}
use sophie.Federations.Subscribers.{get_subscribed_by_chain}
use sophie.Federations.Query.{get_federation_ban_count, is_user_banned_in_chain}

abbrev pub fed_bans : ℕ → List FederationBan → ℕ
fed_bans f bans = count (λ b. b.fed_id == f) bans

-- At most one ban for each federation and user, and no cached count but the number of records.
pub record IsValid (w : World) : Type 0 where
  pub unique : (f u : ℕ) → count (is_ban_of f u) w.bans ≤ 1
  pub counted :
      (f : ℕ)
      → (w.cache.ban_count f ≡ none) ⊎ (w.cache.ban_count f ≡ some (pos (fed_bans f w.bans)))

insert_ban-IsValid :
    (b : FederationBan) (w : World)
    → is_user_banned w b.fed_id b.user_id ≡ none
    → IsValid w
    → IsValid (insert_ban b w)
unfolding is_user_banned
insert_ban-IsValid b w free v = record {
  unique = λ f u. ground (
    arith,
    v.unique f u,
    find-none-count (is_ban_of b.fed_id b.user_id) w.bans free,
    count-append (is_ban_of f u) w.bans (b ∷ []),
  );
  counted = λ f. ground (
    arith,
    v.counted f,
    count-append (λ x. x.fed_id == f) w.bans (b ∷ []),
    pos-add_one (fed_bans f w.bans),
  );
}

module _ (cfg : Config) (fed : Federation) (user by_iid : ℕ) (reason text : Option String)
    (now : ℕ) where
  ban_user-IsValid :
      (w : World) → IsValid w → IsValid (ban_user cfg fed user by_iid reason text now w).1
  unfolding ban_user
  ban_user-IsValid w v = elim (Option-cases (is_user_banned w fed.fed_id user)) [
    | inl free ↦
        let grown = insert_ban-IsValid (fresh_ban cfg fed user by_iid reason text now) w free v in
        record {
          unique = λ f u. ground (arith, v.unique f u, grown.unique f u);
          counted = λ f. ground (arith, v.counted f, grown.counted f);
        }
    | inr (old, found) ↦ record {
      unique = λ f u. ground (
        arith,
        found,
        v.unique f u,
        count-update_first (is_ban_of f u) (is_ban_of fed.fed_id user) (amend reason text)
            (λ x. refl) w.bans,
      );
      counted = λ f. ground (
        arith,
        found,
        v.counted f,
        count-update_first (λ x. x.fed_id == f) (is_ban_of fed.fed_id user) (amend reason text)
            (λ x. refl) w.bans,
      );
    }
  ]

unban_user-IsValid :
    (fed_id user now : ℕ) (w : World) → IsValid w → IsValid (unban_user fed_id user now w).1
unfolding unban_user
unban_user-IsValid fed_id user now w v = elim (Option-cases (is_user_banned w fed_id user)) [
  | inl free ↦ record {
    unique = λ f u. ground (arith, free, v.unique f u);
    counted = λ f. ground (arith, free, v.counted f);
  }
  | inr (b, found) ↦ record {
    unique = λ f u. ground (
      arith,
      found,
      v.unique f u,
      count-remove_first_le (is_ban_of f u) (is_ban_of fed_id user) w.bans,
    );
    counted = λ f. elim (Bool-cases (fed_id == f)) [
      | inl same ↦ ground (
        arith,
        found,
        v.counted f,
        pos-sub_one (fed_bans f w.bans) (fed_bans f (remove_first (is_ban_of fed_id user) w.bans)),
        count-remove_first (λ x. x.fed_id == f) (is_ban_of fed_id user) (λ x h. ground arith) w.bans
            b,
      )
      | inr other ↦ ground (
        arith,
        found,
        v.counted f,
        count-remove_first_other (λ x. x.fed_id == f) (is_ban_of fed_id user) (λ x h. ground arith)
            w.bans,
      )
    ];
  }
]

module _ (origin user by_iid : ℕ) (reason text : Option String) (now : ℕ) where
  lazy_step-IsValid :
      (iid : ℕ) (s : Federation) (results : List (Federation × FederationBan)) (w : World)
      → IsValid w
      → IsValid (lazy_step origin user by_iid reason text now iid s results w).1
  unfolding lazy_step
  lazy_step-IsValid iid s results w v = elim (Option-cases (is_user_banned w s.fed_id user)) [
    | inl free ↦
        let grown = insert_ban-IsValid (lazy_ban origin user by_iid reason text now s) w free v in
        record {
          unique = λ f u. ground (arith, v.unique f u, grown.unique f u);
          counted = λ f. ground (arith, v.counted f, grown.counted f);
        }
    | inr (old, found) ↦ record {
      unique = λ f u. ground (arith, found, v.unique f u);
      counted = λ f. ground (arith, found, v.counted f);
    }
  ]

  lazy_loop-IsValid :
      (iid : ℕ) (subs : List Federation) (results : List (Federation × FederationBan)) (w : World)
      → IsValid w
      → IsValid (lazy_loop origin user by_iid reason text now iid subs results w).1
  unfolding lazy_loop
  lazy_loop-IsValid iid [] results w v = v
  lazy_loop-IsValid iid (s ∷ subs) results w v =
      let (results', w') = lazy_step origin user by_iid reason text now iid s results w in
      lazy_loop-IsValid iid subs results' w' (lazy_step-IsValid iid s results w v)

  lazy_ban-IsValid :
      (w : World)
      → IsValid w
      → IsValid (lazy_ban_in_subscribing_federations origin user by_iid reason text now w).1
  unfolding lazy_ban_in_subscribing_federations
  lazy_ban-IsValid w v = elim (Option-cases (get_by_tid w user)) [
    | inl e ↦ rw (e, lazy_ban_in_subscribing_federations) v
    | inr (model, e) ↦
        rw (e, lazy_ban_in_subscribing_federations)
          (lazy_loop-IsValid model.iid (get_subscribed_by_chain w.feds origin) [] w v)
  ]

-- the cached count, or the count of the records, which is then cached
get_federation_ban_count-IsValid :
    (f : ℕ) (w : World) → IsValid w → IsValid (get_federation_ban_count f w).1
unfolding get_federation_ban_count
get_federation_ban_count-IsValid f w v = record {
  unique = λ g u. ground (arith, v.unique g u);
  counted = λ g. ground (arith, v.counted g);
}

is_user_banned_in_chain-IsValid :
    (f u : ℕ) (w : World) → IsValid w → IsValid (is_user_banned_in_chain f u w).1
unfolding is_user_banned_in_chain
is_user_banned_in_chain-IsValid f u w v = record {
  unique = λ g x. ground (arith, v.unique g x);
  counted = λ g. ground (arith, v.counted g);
}

Expires-IsValid :
    (w : World) (c : Cache) → Expires w.cache c → IsValid w → IsValid (record w { cache = c })
Expires-IsValid w c gone v = record {
  unique = v.unique;
  counted = λ f. ground (arith, gone.ban_count f, v.counted f);
}

-- What may happen to the ban records: the service calls, in any order, and keys that expire.
pub data Step (cfg : Config) (w : World) : World → Type 0 where
  bans :
      (fed : Federation) (user by_iid : ℕ) (reason text : Option String) (now : ℕ)
      → Step cfg w (ban_user cfg fed user by_iid reason text now w).1
  lazy_bans :
      (origin user by_iid : ℕ) (reason text : Option String) (now : ℕ)
      → Step cfg w (lazy_ban_in_subscribing_federations origin user by_iid reason text now w).1
  unbans : (fed_id user now : ℕ) → Step cfg w (unban_user fed_id user now w).1
  counts : (fed_id : ℕ) → Step cfg w (get_federation_ban_count fed_id w).1
  checks : (fed_id user : ℕ) → Step cfg w (is_user_banned_in_chain fed_id user w).1
  expires : (c : Cache) → Expires w.cache c → Step cfg w (record w { cache = c })

pub data Steps (cfg : Config) (w : World) : World → Type 0 where
  done : Steps cfg w w
  more : {v u : World} → Steps cfg w v → Step cfg v u → Steps cfg w u

Step-IsValid : (cfg : Config) {w u : World} → Step cfg w u → IsValid w → IsValid u
Step-IsValid cfg {w} (bans fed user by_iid reason text now) v =
    ban_user-IsValid cfg fed user by_iid reason text now w v
Step-IsValid cfg {w} (lazy_bans origin user by_iid reason text now) v =
    lazy_ban-IsValid origin user by_iid reason text now w v
Step-IsValid cfg {w} (unbans fed_id user now) v = unban_user-IsValid fed_id user now w v
Step-IsValid cfg {w} (counts fed_id) v = get_federation_ban_count-IsValid fed_id w v
Step-IsValid cfg {w} (checks fed_id user) v = is_user_banned_in_chain-IsValid fed_id user w v
Step-IsValid cfg {w} (expires c gone) v = Expires-IsValid w c gone v

-- After any sequence of bans, lazy bans, unbans, counts, checks and expiries from a state that
-- has at most one ban for each federation and user, and right cached counts, the state has both.
pub Steps-IsValid : (cfg : Config) {w u : World} → Steps cfg w u → IsValid w → IsValid u
Steps-IsValid cfg done v = v
Steps-IsValid cfg (more steps s) v = Step-IsValid cfg s (Steps-IsValid cfg steps v)

-- In a valid state the ban count of a federation that is reported, from the cache or not, is the
-- number of its ban records.
pub get_federation_ban_count_lem :
    (f : ℕ) (w : World)
    → IsValid w
    → (get_federation_ban_count f w).0 ≡ pos (count (λ b. b.fed_id == f) w.bans)
unfolding get_federation_ban_count
get_federation_ban_count_lem f w v = ground (arith, v.counted f)
