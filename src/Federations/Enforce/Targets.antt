-- ===== src/Federations/Enforce/Targets.antt =====
-- In which chats a federation ban acts, and what it notes on the ban.
use sophie.Prelude.{
  ℕ, Bool, Option, List, [], ◌∷◌, ◌++◌, ◌≡◌, refl, true, false, ◌==◌, ◌&&◌, ◌||◌, not, any, keep,
  count, elem, map, arith, elem-append, if◌then◌else◌,
}
use sophie.Federations.Model.{ChatModel, World}
use sophie.Federations.Lazy.{is_channel}
use sophie.Federations.Enforce.{
  run_limited_chat_actions, is_detected, ban_chat, note_chats, unban_chat,
}

-- A chat id is among the banned ones exactly if a chat of that id was detected and the ban went
-- through there.
pub elem-run :
    (applied : ℕ → Bool) (w : World) (user_iid x : ℕ) (all chats : List ChatModel)
    (current : Option ℕ)
    → elem x (run_limited_chat_actions chats (ban_chat applied w user_iid all current))
      ≡ any (λ c. (x == c.iid) && (is_detected w user_iid all current c.iid && applied c.tid)) chats
unfolding run_limited_chat_actions
elem-run applied w user_iid x all [] current = refl
elem-run applied w user_iid x all (c ∷ chats) current =
    ground (arith, elem-run applied w user_iid x all chats current)

-- The ban notes the chats that it had noted, and the chats where it acted, and no other.
pub elem-note_chats :
    (x : ℕ) (chats : List ChatModel) (banned existing noted : List ℕ)
    → elem x (note_chats chats banned existing noted) ≡ (
        elem x noted
        || (elem x (map (λ c. c.iid) chats) && (elem x banned && not (elem x existing))))
unfolding note_chats
elem-note_chats x [] banned existing noted = ground arith
elem-note_chats x (c ∷ chats) banned existing noted = ground (
  arith,
  elem-note_chats x chats banned existing
      (if elem c.iid banned && not (elem c.iid existing) then noted ++ c.iid ∷ [] else noted),
  elem-append x noted (c.iid ∷ []),
)

-- The chats that are looked at are chats of the federation or the current one, and no channels.
pub any-member_chats :
    (p : ChatModel → Bool) (ids : List ℕ) (chats : List ChatModel)
    → any p (keep (λ c. elem c.iid ids && (if is_channel c.type then false else true)) chats)
      ≡ any (λ c. (elem c.iid ids && (if is_channel c.type then false else true)) && p c) chats
any-member_chats p ids [] = refl
any-member_chats p ids (c ∷ chats) = ground (arith, any-member_chats p ids chats)

unban_counts :
    (applied : ℕ → Bool) (chats : List ChatModel)
    → count (λ r. r) (run_limited_chat_actions chats (unban_chat applied))
      ≡ count (λ c. applied c.tid) chats
unfolding run_limited_chat_actions
unban_counts applied [] = refl
unban_counts applied (c ∷ chats) = ground (arith, unban_counts applied chats)
