-- ===== src/Federations/Tests/Bans.antt =====
-- Bans, unbans, checks and the enforcement in chats.
use sophie.Prelude.{
  Bool, [], ◌∷◌, ℕ, none, some, ◌≡◌, ◌≢◌, inl, refl, true, false, ◌==◌, ◌&&◌, ◌||◌, elem, any,
  is_some, arith,
}
use sophie.Federations.Model.{FederationBan, get_federation_by_id}
use sophie.Federations.Chain.{get_subscription_chain, chain_loop, push_all}
use sophie.Federations.Chain.Walk.{Reach, here, next}
use sophie.Federations.Subscribers.{get_subscribed_by_chain}
use sophie.Federations.Ban.{
  ok, is_ban_of, is_user_banned, ban_user, fresh_ban, unban_user, inherited,
  validate_ban_eligibility,
}
use sophie.Federations.Ban.Lookup.{ban_user-is_user_banned, unban_user-is_user_banned}
use sophie.Federations.Query.{is_user_banned_in_chain}
use sophie.Federations.Query.Chained.{
  is_user_banned_in_chain_sound, is_user_banned_in_chain_complete, unban_user-hides_chain,
}
use sophie.Federations.Lazy.{lazy_ban_in_subscribing_federations}
use sophie.Federations.Lazy.Spread.{meets, lazy_ban-banned}
use sophie.Federations.Records.{IsValid, bans, unbans, done, more, Steps-IsValid}
use sophie.Restrictions.Model.{ban, plain, answer, Env, all_permissions}
use sophie.Federations.Enforce.{applied_in, ban_user_in_federation_chats}
use sophie.Federations.Enforce.Noted.{acted, noted_of, ban_user_in_federation_chats-noted}
use sophie.Federations.Tests.State.{
  alpha, beta, old_ban, own_ban, calm, banned_by_beta, banned_by_both, config,
}

abbrev spam_ban : FederationBan
spam_ban = fresh_ban config alpha 113 11 (some "spam") none 7

spam_ban_ok : (ban_user config alpha 113 11 (some "spam") none 7 calm).0 ≡ ok spam_ban
unfolding ban_user validate_ban_eligibility is_user_banned
spam_ban_ok = refl

calm-free : is_user_banned calm 1 113 ≡ none
unfolding is_user_banned
calm-free = refl

both-alpha : is_user_banned banned_by_both 1 113 ≡ some own_ban
unfolding is_user_banned
both-alpha = refl

both-own : inherited banned_by_both 1 113 own_ban ≡ false
both-own = refl

both-beta : is_some (is_user_banned banned_by_both 2 113) ≡ true
unfolding is_user_banned
both-beta = refl

beta-stored : is_user_banned banned_by_beta 2 113 ≡ some old_ban
unfolding is_user_banned
beta-stored = refl

beta-some : is_some (is_user_banned banned_by_beta 2 113) ≡ true
unfolding is_user_banned
beta-some = refl

alpha-beta : Reach calm.feds 1 2
alpha-beta = next here refl

ban_user-is_user_banned_example :
    let r = ban_user config alpha 113 11 (some "spam") none 7 calm in
    (is_user_banned r.1 1 113 ≡ some spam_ban)
    × (spam_ban.reason ≡ some "spam")
    × (spam_ban.original_message_text ≡ none)
ban_user-is_user_banned_example =
    ban_user-is_user_banned config alpha 113 11 (some "spam") none 7 calm spam_ban spam_ban_ok

beta_reported : (is_user_banned_in_chain 1 113 banned_by_beta).0 ≡ some (old_ban, beta)
unfolding is_user_banned_in_chain get_subscription_chain chain_loop push_all
beta_reported = refl

is_user_banned_in_chain_sound_example :
    Reach banned_by_beta.feds 1 2 × (old_ban.user_id ≡ 113) × (beta.fed_id ≡ 2)
is_user_banned_in_chain_sound_example =
    is_user_banned_in_chain_sound 1 113 banned_by_beta old_ban beta beta_reported

known_fed :
    (b : FederationBan)
    → any (is_ban_of b.fed_id b.user_id) banned_by_beta.bans ≡ true
    → get_federation_by_id banned_by_beta.feds b.fed_id ≢ none
known_fed b h = ground arith

is_user_banned_in_chain_complete_example :
    is_some (is_user_banned_in_chain 1 113 banned_by_beta).0 ≡ true
is_user_banned_in_chain_complete_example =
    is_user_banned_in_chain_complete 1 113 2 banned_by_beta (λ e. cc) known_fed alpha-beta beta-some

unban_user-hides_chain_example :
    (is_some (is_user_banned (unban_user 1 113 9 banned_by_both).1 2 113) ≡ true)
    × ((is_user_banned_in_chain 1 113 (unban_user 1 113 9 banned_by_both).1).0 ≡ none)
unban_user-hides_chain_example =
    unban_user-hides_chain 1 113 9 2 banned_by_both own_ban both-alpha both-own alpha-beta
      (λ e. absurd (omega arith)) both-beta

lazy_ban-banned_example :
    is_some (is_user_banned (lazy_ban_in_subscribing_federations 1 113 11 none none 7 calm).1 2 113)
    ≡ (is_some (is_user_banned calm 2 113)
        || any (λ s. (s.fed_id == 2) && meets calm 13 s) (get_subscribed_by_chain calm.feds 1))
lazy_ban-banned_example = lazy_ban-banned 1 113 11 none none 7 2 113 calm

calm-IsValid : IsValid calm
calm-IsValid = record { unique = λ f u. omega arith; counted = λ f. inl refl }

Steps-IsValid_example :
    IsValid (unban_user 1 113 9 (ban_user config alpha 113 11 (some "spam") none 7 calm).1).1
Steps-IsValid_example =
    Steps-IsValid config
      (more (more done (bans alpha 113 11 (some "spam") none 7)) (unbans 1 113 9)) calm-IsValid

banned_by_both-IsValid : IsValid banned_by_both
banned_by_both-IsValid = record { unique = λ f u. ground arith; counted = λ f. inl refl }

abbrev answers : Env
answers = record {
  get_chat_member = answer plain;
  get_chat = answer (some all_permissions);
  restrict_chat_member = λ p until. answer true;
  ban_chat_member = answer true;
  unban_chat_member = answer true;
  now = 100;
  later = 100;
  locked = true;
}

abbrev ban_works : ℕ → Bool
ban_works =
    applied_in ("can_send_messages" ∷ []) (λ tid. answers) ban
      (λ tid. record { snapshot = none; calls = [] })

ban_user_in_federation_chats-noted_example :
    elem 31 (
      noted_of (
        is_user_banned
          (ban_user_in_federation_chats ban_works alpha own_ban 113 none banned_by_both).1
          1
          113))
    ≡ (elem 31 own_ban.banned_chats || acted ban_works alpha own_ban 113 none banned_by_both 31)
ban_user_in_federation_chats-noted_example =
    ban_user_in_federation_chats-noted ban_works alpha own_ban 113 none banned_by_both 31 both-alpha

unban_user-is_user_banned_example :
    ((unban_user 1 113 9 banned_by_both).0 ≡ (true, none))
    × (is_user_banned (unban_user 1 113 9 banned_by_both).1 1 113 ≡ none)
unban_user-is_user_banned_example =
    unban_user-is_user_banned 1 113 9 banned_by_both own_ban both-alpha both-own (omega arith)
