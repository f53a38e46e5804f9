-- ===== src/Federations/Manage/Subscription.antt =====
-- Subscribing and unsubscribing.
use sophie.Prelude.{
  ℕ, some, List, [], ◌∷◌, ◌++◌, ◌≡◌, ◌≢◌, ◌↔◌, refl, true, false, elem, arith, is_some, elem-append,
  if◌then◌else◌,
}
use sophie.Federations.Model.{Federation, World, get_federation_by_id}
use sophie.Federations.Chain.{subscriptions}
use sophie.Federations.Manage.{
  save_federation, subscribe_to_federation, unsubscribe_from_federation, remove,
}

-- A saved federation is found, when there was one of its id.
pub save_federation-found :
    (fed old : Federation) (feds : List Federation)
    → get_federation_by_id feds fed.fed_id ≡ some old
    → get_federation_by_id (save_federation fed feds) fed.fed_id ≡ some fed
save_federation-found fed old [] h = cc
save_federation-found fed old (f ∷ feds) h = ground (arith, save_federation-found fed old feds)

pub save_federation_twice :
    (a b : Federation) (feds : List Federation)
    → a.fed_id ≡ b.fed_id
    → save_federation b (save_federation a feds) ≡ save_federation b feds
save_federation_twice a b [] h = refl
save_federation_twice a b (f ∷ feds) h = ground (arith, save_federation_twice a b feds h)

pub save_federation_same :
    (fed : Federation) (feds : List Federation)
    → get_federation_by_id feds fed.fed_id ≡ some fed
    → save_federation fed feds ≡ feds
save_federation_same fed [] h = refl
save_federation_same fed (f ∷ feds) h = ground (arith, save_federation_same fed feds)

remove-snoc : (x : ℕ) (xs : List ℕ) → elem x xs ≡ false → remove x (xs ++ x ∷ []) ≡ xs
remove-snoc x [] h = ground arith
remove-snoc x (y ∷ xs) h = ground (arith, remove-snoc x xs)

module _ (fed : Federation) (target : ℕ) (w : World)
    (known : get_federation_by_id w.feds fed.fed_id ≡ some fed) where
  -- A federation, given as it is stored, can subscribe to another one that exists and that it does not
  -- follow yet, and to no other; there is no limit on their number.
  pub subscribe_to_federation_iff : ((subscribe_to_federation fed target w).0 ≡ true) ↔ (
      (is_some (get_federation_by_id w.feds target) ≡ true)
      × (elem target (subscriptions w.feds fed.fed_id) ≡ false)
      × (fed.fed_id ≢ target))
  unfolding subscribe_to_federation
  subscribe_to_federation_iff = (λ h. ground arith, λ h. ground arith)

  abbrev subscribed : Federation
  subscribed = record fed { subscribed = fed.subscribed ++ target ∷ [] }

  -- The subscriptions of the federation end in the new one, or stay, as the call answers.
  pub subscriptions-subscribe_to_federation :
      subscriptions (subscribe_to_federation fed target w).1.feds fed.fed_id ≡ (
        if (subscribe_to_federation fed target w).0
        then subscriptions w.feds fed.fed_id ++ target ∷ []
        else subscriptions w.feds fed.fed_id)
  unfolding subscribe_to_federation
  subscriptions-subscribe_to_federation =
      ground (arith, known, save_federation-found subscribed fed w.feds known)

  -- Unsubscribing takes back a subscription that succeeded, of a federation given as it is stored: the
  -- state is the one before it.
  pub unsubscribe-subscribe :
      (subscribe_to_federation fed target w).0 ≡ true
      → unsubscribe_from_federation subscribed target (subscribe_to_federation fed target w).1
        ≡ (true, w)
  unfolding subscribe_to_federation unsubscribe_from_federation
  unsubscribe-subscribe h = ground (
    arith,
    elem-append target fed.subscribed (target ∷ []),
    remove-snoc target fed.subscribed,
    save_federation_twice subscribed fed w.feds refl,
    save_federation_same fed w.feds known,
  )
