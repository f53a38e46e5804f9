-- ===== src/Antiflood/Burst.antt =====
-- Whoever writes too often in a row, within the window, is caught.
use sophie.Prelude.{
  ℕ, suc, ◌+◌, ◌≤◌, ◌<◌, Option, some, String, List, [], ◌∷◌, ◌≡◌, refl, false, ◌==◌, ◌||◌, leb,
  length, arith, ==_refl,
}
use sophie.Restrictions.Model.{Env}
use sophie.Utils.RateLimit.{live}
use sophie.Utils.RateLimit.Window.{Before, nothing, then_one, lasting}
use sophie.Antiflood.Settings.{AntifloodModel, flood_window_seconds}
use sophie.Antiflood.Enforcer.{
  Chat, Facts, skipped, is_last, increment_flood_count, check_and_enforce, enforce, set_last_user,
  reset_flood_count,
}
use sophie.Antiflood.Streak.{increment-keeps}

increment_live :
    (now u c e : ℕ) (chat : Chat)
    → chat.counts u ≡ lasting c e
    → now < e
    → 1 ≤ c
    → ((increment_flood_count now u chat).0 ≡ c + 1)
      × ((increment_flood_count now u chat).1.counts u ≡ lasting (c + 1) e)
unfolding increment_flood_count live
increment_live now u c e chat h soon some_count =
    let fresh : leb e now ≡ false = ground arith in
    let later : (c + 1 == 1) ≡ false = ground arith in rw (h, fresh, later, ==_refl u) (refl, refl)

increment_first :
    (now u : ℕ) (chat : Chat)
    → ((increment_flood_count now u (set_last_user u (reset_flood_count u chat))).1.last_user
        ≡ some u)
      × ((increment_flood_count now u (set_last_user u (reset_flood_count u chat))).1.counts u
          ≡ lasting 1 (now + flood_window_seconds))
unfolding increment_flood_count live
increment_first now u chat = rw (==_refl u) (refl, refl)

module _ {D : Type 0} (fields : List String) (env : Env) (resolve : String → D → Option ℕ) where
  module _ (settings : AntifloodModel D) (facts : Facts) (u : ℕ)
      (plain : (facts.is_whitelisted || facts.is_admin) ≡ false) where
    -- the chat after messages of the user at these seconds, and none by others
    abbrev pub after : List ℕ → Chat → Chat
    after [] chat = chat
    after (t ∷ ts) chat = after ts (enforce fields env resolve settings facts t u chat).1

    enforce_live :
        (c e t : ℕ) (chat : Chat)
        → chat.last_user ≡ some u
        → chat.counts u ≡ lasting c e
        → t < e
        → 1 ≤ c
        → c + 1 < settings.message_count
        → ((enforce fields env resolve settings facts t u chat).1.last_user ≡ some u)
          × ((enforce fields env resolve settings facts t u chat).1.counts u ≡ lasting (c + 1) e)
    unfolding enforce check_and_enforce
    enforce_live c e t chat last counts soon some_count few =
        let (n, stored) = increment_live t u c e chat counts soon some_count in
        ground (arith, plain, last, ==_refl u, n, stored, increment-keeps t u chat)

    after_live :
        (e : ℕ) (ts : List ℕ) (c : ℕ) (chat : Chat)
        → chat.last_user ≡ some u
        → chat.counts u ≡ lasting c e
        → Before e ts
        → 1 ≤ c
        → c + length ts < settings.message_count
        → ((after ts chat).last_user ≡ some u)
          × ((after ts chat).counts u ≡ lasting (c + length ts) e)
    after_live e [] c chat last counts nothing some_count few =
        let same : c + 0 ≡ c = omega arith in rw same (last, counts)
    after_live e (t ∷ ts) c chat last counts (then_one soon before) some_count few =
        let (last', counts') = enforce_live c e t chat last counts soon some_count (omega arith) in
        let same : c + suc (length ts) ≡ c + 1 + length ts = omega arith in
        rw same (
          after_live e ts (c + 1) (enforce fields env resolve settings facts t u chat).1 last'
            counts' before (omega arith) (omega arith))

    enforce_first :
        (t : ℕ) (chat : Chat)
        → is_last chat.last_user u ≡ false
        → ((enforce fields env resolve settings facts t u chat).1.last_user ≡ some u)
          × ((enforce fields env resolve settings facts t u chat).1.counts u
              ≡ lasting 1 (t + flood_window_seconds))
    unfolding enforce check_and_enforce
    enforce_first t chat other = ground (arith, plain, other, increment_first t u chat)

    enforce_caught :
        (c e t : ℕ) (chat : Chat)
        → chat.last_user ≡ some u
        → chat.counts u ≡ lasting c e
        → t < e
        → 1 ≤ c
        → settings.message_count ≤ c + 1
        → (enforce fields env resolve settings facts t u chat).0 ≡ skipped
    unfolding enforce check_and_enforce
    enforce_caught c e t chat last counts soon some_count enough =
        let (n, stored) = increment_live t u c e chat counts soon some_count in
        ground (arith, plain, last, ==_refl u, n)

    -- A user who is not exempt and was not the last to write, and who then writes, with nobody in
    -- between and within the window, as many messages as the settings name, two or more, is caught at
    -- the last of them: it is kept from the other handlers.
    pub enforce-after :
        (t now : ℕ) (ts : List ℕ) (chat : Chat)
        → is_last chat.last_user u ≡ false
        → Before (t + flood_window_seconds) ts
        → now < t + flood_window_seconds
        → length ts + 2 ≡ settings.message_count
        → (enforce fields env resolve settings facts now u (after (t ∷ ts) chat)).0 ≡ skipped
    enforce-after t now ts chat other before soon many =
        let e : ℕ = t + flood_window_seconds in
        let (last, counts) = enforce_first t chat other in
        let (last', counts') =
          after_live e ts 1 (enforce fields env resolve settings facts t u chat).1 last counts
            before (omega arith) (omega arith) in
        enforce_caught (1 + length ts) e now (after (t ∷ ts) chat) last' counts' soon (omega arith)
          (omega arith)
