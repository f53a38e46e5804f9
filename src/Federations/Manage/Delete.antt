-- ===== src/Federations/Manage/Delete.antt =====
-- What the deletion of a federation leaves.
use sophie.Prelude.{
  ℕ, ◌≤◌, Bool, none, List, [], ◌∷◌, ◌≡◌, ◌≢◌, refl, true, false, ◌==◌, ◌&&◌, not, keep, count,
  elem, arith, if◌then◌else◌,
}
use sophie.Prelude.Search.{find-remove_first_other}
use sophie.Federations.Model.{Federation, Cache, World}
use sophie.Federations.Cache.{invalidate_federation_for_chat}
use sophie.Federations.Chain.{subscriptions}
use sophie.Federations.Subscribers.{get_subscribing_federations, ids}
use sophie.Federations.Manage.{
  save_federation, remove, drop_subscriptions, invalidate_chats, delete_federation,
}

-- Does a federation that is found by the id follow another one?
abbrev follows : List Federation → ℕ → ℕ → Bool
follows feds x f = elem x (subscriptions feds f)

-- a saved federation that does not follow another one, among those that are found
save_federation-follows :
    (s : Federation) (x f : ℕ) (feds : List Federation)
    → elem x s.subscribed ≡ false
    → follows (save_federation s feds) x f ≡ (not (s.fed_id == f) && follows feds x f)
save_federation-follows s x f [] h = ground arith
save_federation-follows s x f (g ∷ feds) h = ground (arith, save_federation-follows s x f feds h)

count-zero-elem : (x : ℕ) (xs : List ℕ) → count (λ y. y == x) xs ≡ 0 → elem x xs ≡ false
count-zero-elem x [] h = refl
count-zero-elem x (y ∷ xs) h = ground (arith, count-zero-elem x xs)

elem-remove_once : (x : ℕ) (xs : List ℕ) → count (λ y. y == x) xs ≤ 1 → elem x (remove x xs) ≡ false
elem-remove_once x [] h = refl
elem-remove_once x (y ∷ xs) h = ground (arith, elem-remove_once x xs, count-zero-elem x xs)

-- Every federation of a list follows another one once at most.
pub data FollowsOnce (x : ℕ) : List Federation → Type 0 where
  none_left : FollowsOnce x []
  next_one :
      {s : Federation} {subs : List Federation}
      → count (λ y. y == x) s.subscribed ≤ 1
      → FollowsOnce x subs
      → FollowsOnce x (s ∷ subs)

drop_subscriptions-follows :
    (x f : ℕ) (subs feds : List Federation)
    → FollowsOnce x subs
    → (follows feds x f ≡ true → elem f (ids subs) ≡ true)
    → follows (drop_subscriptions x subs feds) x f ≡ false
unfolding drop_subscriptions
drop_subscriptions-follows x f [] feds once listed = ground arith
drop_subscriptions-follows x f (s ∷ subs) feds (next_one h once) listed =
    let saved : Federation = record s { subscribed = remove x s.subscribed } in
    let rule = save_federation-follows saved x f feds (elem-remove_once x s.subscribed h) in
    drop_subscriptions-follows x f subs (save_federation saved feds) once
      (λ e. ground (arith, rule, listed))

follows-listed :
    (x f : ℕ) (feds : List Federation)
    → follows feds x f ≡ true
    → elem f (ids (get_subscribing_federations feds x)) ≡ true
unfolding get_subscribing_federations
follows-listed x f [] h = h
follows-listed x f (g ∷ feds) h = ground (arith, follows-listed x f feds)

count-keep-none {ℓ} :
    {A : Type ℓ} (q : A → Bool) (xs : List A) → count q (keep (λ x. not (q x)) xs) ≡ 0
count-keep-none q [] = refl
count-keep-none q (x ∷ xs) = ground (arith, count-keep-none q xs)

invalidate_chats-lem :
    (chats : List ℕ) (c : ℕ) (cache : Cache)
    → (invalidate_chats chats cache).chat_fed_id c
      ≡ (if elem c chats then none else cache.chat_fed_id c)
unfolding invalidate_chats
invalidate_chats-lem [] c cache = refl
invalidate_chats-lem (d ∷ chats) c cache =
    ground (arith, invalidate_chats-lem chats c (invalidate_federation_for_chat cache d))

-- After the deletion of a federation there is no ban of it, the chats that it listed, and no others,
-- have lost their cached federation, and no other federation follows it, if each of its followers
-- listed it once.
pub delete_federation_lem :
    (fed : Federation) (w : World) (c f : ℕ)
    → FollowsOnce fed.fed_id (get_subscribing_federations w.feds fed.fed_id)
    → f ≢ fed.fed_id
    → (count (λ b. b.fed_id == fed.fed_id) (delete_federation fed w).bans ≡ 0)
      × ((delete_federation fed w).cache.chat_fed_id c
          ≡ (if elem c fed.chats then none else w.cache.chat_fed_id c))
      × (elem fed.fed_id (subscriptions (delete_federation fed w).feds f) ≡ false)
unfolding delete_federation
delete_federation_lem fed w c f once apart =
    let x = fed.fed_id in
    let dropped = drop_subscriptions x (get_subscribing_federations w.feds x) w.feds in
    (
      count-keep-none (λ b. b.fed_id == x) w.bans,
      invalidate_chats-lem fed.chats c w.cache,
      ground (
        arith,
        drop_subscriptions-follows x f (get_subscribing_federations w.feds x) w.feds once
            (follows-listed x f w.feds),
        find-remove_first_other (λ g. g.fed_id == f) (λ g. g.fed_id == x) (λ g e. ground arith)
            dropped,
      ),
    )
