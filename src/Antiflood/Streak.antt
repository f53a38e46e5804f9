-- ===== src/Antiflood/Streak.antt =====
-- Nobody is taken for a flooder without having written often enough in a row.
use mathlib.Core.Path.{subst}
use sophie.Prelude.{
  ℕ, suc, ◌≤◌, Bool, Option, none, some, String, List, [], ◌∷◌, ◌++◌, ◌≡◌, refl, ap, true, false,
  ◌==◌, ◌||◌, arith, Bool-cases, Option-cases, inl, inr, ==_iff, ==_refl, if◌then◌else◌,
}
use sophie.Restrictions.Model.{Env}
use sophie.Shared.Actions.{restriction_of}
use sophie.Utils.RateLimit.{live}
use sophie.Antiflood.Settings.{AntifloodModel, get_action_name}
use sophie.Antiflood.Enforcer.{
  Chat, Facts, skipped, increment_flood_count, check_and_enforce, handle_flood, execute_action,
  enforce, set_last_user, reset_flood_count, is_last, delete_message,
}

-- how many of the latest messages are by one user, the latest first
abbrev pub streak : ℕ → List ℕ → ℕ
streak u [] = 0
streak u (m ∷ history) = if m == u then suc (streak u history) else 0

abbrev pub latest : List ℕ → Option ℕ
latest [] = none
latest (m ∷ history) = some m

is_last-eq : (o : Option ℕ) (u : ℕ) → is_last o u ≡ true → o ≡ some u
is_last-eq none u h = cc
is_last-eq (some v) u h = ap some ((==_iff v u).0 h)

pub increment-keeps :
    (now u : ℕ) (chat : Chat) → (increment_flood_count now u chat).1.last_user ≡ chat.last_user
unfolding increment_flood_count
increment-keeps now u chat = refl

-- the count that is answered is the one that is stored, and at most one more than before
increment-count :
    (now u : ℕ) (chat : Chat)
    → (((increment_flood_count now u chat).1.counts u).count ≡ (increment_flood_count now u chat).0)
      × ((increment_flood_count now u chat).0 ≤ suc (chat.counts u).count)
unfolding increment_flood_count live
increment-count now u chat = ground arith

module _ {D : Type 0} (fields : List String) (resolve : String → D → Option ℕ) where
  module _ (settings : AntifloodModel D) (facts : ℕ → Facts) where
    -- The states that the messages of a chat lead to, with their senders, the latest first. Each
    -- message comes at a second and with Telegram's answers to what it causes; a sender is an admin
    -- or on the whitelist for good or not at all.
    pub data Reached : List ℕ → Chat → Type 0 where
      start : {chat : Chat} → chat.last_user ≡ none → Reached [] chat
      message :
          {history : List ℕ} {chat : Chat} (env : Env) (now user_id : ℕ)
          → Reached history chat
          → Reached
              (user_id ∷ history)
              (enforce fields env resolve settings (facts user_id) now user_id chat).1

    abbrev pub is_exempt : ℕ → Bool
    is_exempt u = (facts u).is_whitelisted || (facts u).is_admin

    execute_action-keeps :
        (env : Env) (u : ℕ) (chat : Chat)
        → ((execute_action fields env resolve settings u chat).1.counts ≡ chat.counts)
          × ((execute_action fields env resolve settings u chat).1.last_user ≡ chat.last_user)
    unfolding execute_action
    execute_action-keeps env u chat =
        elim (Option-cases (restriction_of (get_action_name settings.actions))) [
          | inl e ↦ ground arith
          | inr (a, e) ↦ ground arith
        ]

    -- the counter of a user who is taken for a flooder is left, or gone
    handle_flood-counts :
        (env : Env) (u : ℕ) (chat : Chat)
        → ((handle_flood fields env resolve settings u chat).counts u).count ≤ (chat.counts u).count
    unfolding handle_flood
    handle_flood-counts env u chat =
        let asked : Chat = record chat { requests = chat.requests ++ delete_message u ∷ [] } in
        ground (arith, execute_action-keeps env u asked)

    handle_flood-last_user :
        (env : Env) (u : ℕ) (chat : Chat)
        → (handle_flood fields env resolve settings u chat).last_user ≡ chat.last_user
    unfolding handle_flood
    handle_flood-last_user env u chat =
        let asked : Chat = record chat { requests = chat.requests ++ delete_message u ∷ [] } in
        ground (arith, execute_action-keeps env u asked)

    -- the invariant: the last user is the sender of the latest message, and the counter of a sender
    -- who is not exempt is no more than the number of messages in a row
    record Inv (history : List ℕ) (chat : Chat) : Type 0 where
      last : chat.last_user ≡ latest history
      bounded :
          (u : ℕ)
          → is_exempt u ≡ false
          → latest history ≡ some u
          → (chat.counts u).count ≤ streak u history

    check_and_enforce-last_user :
        (env : Env) (now u : ℕ) (chat : Chat)
        → (check_and_enforce fields env resolve settings now u chat).1.last_user ≡ some u
    unfolding check_and_enforce
    check_and_enforce-last_user env now u chat = ground (
      arith,
      is_last-eq chat.last_user u,
      handle_flood-last_user env u (increment_flood_count now u chat).1,
      increment-keeps now u chat,
      increment-keeps now u (set_last_user u (reset_flood_count u chat)),
    )

    check_and_enforce-count :
        (env : Env) (now u : ℕ) (chat : Chat)
        → ((check_and_enforce fields env resolve settings now u chat).1.counts u).count
          ≤ suc (if is_last chat.last_user u then (chat.counts u).count else 0)
    unfolding check_and_enforce
    check_and_enforce-count env now u chat = ground (
      arith,
      handle_flood-counts env u (increment_flood_count now u chat).1,
      increment-count now u chat,
      increment-count now u (set_last_user u (reset_flood_count u chat)),
    )

    -- A message that is taken for a flood comes after enough others of its sender.
    check_and_enforce-flooded :
        (env : Env) (now u : ℕ) (chat : Chat)
        → (check_and_enforce fields env resolve settings now u chat).0 ≡ true
        → (chat.last_user ≡ some u) × (settings.message_count ≤ suc (chat.counts u).count)
    unfolding check_and_enforce
    check_and_enforce-flooded env now u chat h =
        ground (arith, is_last-eq chat.last_user u, increment-count now u chat)

    enforce-last_user :
        (env : Env) (now v : ℕ) (chat : Chat)
        → (enforce fields env resolve settings (facts v) now v chat).1.last_user ≡ some v
    unfolding enforce
    enforce-last_user env now v chat = ground (arith, check_and_enforce-last_user env now v chat)

    enforce-bounded :
        (history : List ℕ) (env : Env) (now v : ℕ) (chat : Chat)
        → Inv history chat
        → is_exempt v ≡ false
        → ((enforce fields env resolve settings (facts v) now v chat).1.counts v).count
          ≤ streak v (v ∷ history)
    unfolding enforce
    enforce-bounded history env now v chat inv plain =
        elim (Bool-cases (is_last chat.last_user v)) [
          | inl e ↦ ground (
            arith,
            e,
            ==_refl v,
            check_and_enforce-count env now v chat,
            inv.last,
            is_last-eq chat.last_user v e,
            inv.bounded v,
          )
          | inr e ↦ ground (arith, e, ==_refl v, check_and_enforce-count env now v chat)
        ]

    Reached-Inv : {history : List ℕ} {chat : Chat} → Reached history chat → Inv history chat
    Reached-Inv (start e) = record { last = e; bounded = λ u plain h. cc }
    Reached-Inv (message {history} {chat} env now v r) =
        let inv = Reached-Inv r in
        record {
          last = enforce-last_user env now v chat;
          bounded = λ u plain h.
              let same : v ≡ u = cc in
              subst
                (λ x.
                  ((enforce fields env resolve settings (facts v) now v chat).1.counts x).count
                  ≤ streak x (v ∷ history))
                same (enforce-bounded history env now v chat inv (ground arith));
        }

    -- When the settings, the feature and who is exempt stayed as they are since the chat was new, a
    -- message that is kept from the other handlers is the latest of as many messages in a row, all by
    -- its sender, as the settings name, and its sender is not exempt.
    pub enforce-streak :
        (history : List ℕ) (chat : Chat) (env : Env) (now u : ℕ)
        → Reached history chat
        → (enforce fields env resolve settings (facts u) now u chat).0 ≡ skipped
        → (settings.message_count ≤ streak u (u ∷ history)) × (is_exempt u ≡ false)
    unfolding enforce
    enforce-streak history chat env now u r h =
        let inv = Reached-Inv r in
        ground (arith, inv.last, inv.bounded u, check_and_enforce-flooded env now u chat)
