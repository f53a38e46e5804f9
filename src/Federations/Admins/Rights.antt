-- ===== src/Federations/Admins/Rights.antt =====
-- How the admins of a federation change.
use sophie.Prelude.{
  ℕ, ◌≤◌, some, List, [], ◌∷◌, ◌++◌, ◌≡◌, ◌↔◌, refl, true, false, ◌==◌, ◌&&◌, not, elem, length,
  arith, is_some, Option-cases, inl, inr, elem-append, if◌then◌else◌, ==_iff,
}
use sophie.Prelude.Search.{find-passes}
use sophie.Federations.Model.{Federation, World, get_by_iid, get_federation_by_id}
use sophie.Federations.Manage.Subscription.{
  save_federation-found, save_federation_twice, save_federation_same,
}
use sophie.Federations.Admins.{
  done, failed, not_admin, promote_admin, demote_admin, with_admins, without,
}

length-without :
    (x : ℕ) (xs : List ℕ)
    → (length (without x xs) ≤ length xs) × ((length (without x xs) == length xs) ≡ not (elem x xs))
length-without x [] = ground arith
length-without x (y ∷ xs) = ground (arith, length-without x xs)

elem-without : (c x : ℕ) (xs : List ℕ) → elem c (without x xs) ≡ (elem c xs && not (c == x))
elem-without c x [] = refl
elem-without c x (y ∷ xs) = ground (arith, elem-without c x xs)

without_absent : (x : ℕ) (xs : List ℕ) → elem x xs ≡ false → without x xs ≡ xs
without_absent x [] h = refl
without_absent x (y ∷ xs) h = ground (arith, without_absent x xs)

without-snoc : (x : ℕ) (xs : List ℕ) → elem x xs ≡ false → without x (xs ++ x ∷ []) ≡ xs
without-snoc x [] h = ground arith
without-snoc x (y ∷ xs) h = ground (arith, without-snoc x xs)

module _ (fed : Federation) (iid : ℕ) (w : World)
    (known : get_federation_by_id w.feds fed.fed_id ≡ some fed) where
  abbrev promoted : Federation
  promoted = with_admins fed (fed.admins ++ iid ∷ [])

  -- A promotion succeeds exactly for a known user who is no admin yet.
  pub promote_admin_iff :
      ((promote_admin fed iid w).0 ≡ done)
      ↔ ((elem iid fed.admins ≡ false) × (is_some (get_by_iid w iid) ≡ true))
  unfolding promote_admin
  promote_admin_iff = (λ h. ground arith, λ h. ground arith)

  -- A demotion succeeds exactly for an admin, and leaves the admins but that one; a demotion that
  -- fails changes nothing.
  pub demote_admin_lem :
      ((demote_admin fed iid w).0 ≡ (if elem iid fed.admins then done else failed not_admin))
      × (get_federation_by_id (demote_admin fed iid w).1.feds fed.fed_id
          ≡ some (with_admins fed (without iid fed.admins)))
  unfolding demote_admin
  demote_admin_lem = ground (
    arith,
    known,
    length-without iid fed.admins,
    without_absent iid fed.admins,
    save_federation-found (with_admins fed (without iid fed.admins)) fed w.feds known,
  )

  -- A demotion takes back a promotion that succeeded, in a federation given as it is stored: the state
  -- is the one before it.
  pub demote-promote :
      (promote_admin fed iid w).0 ≡ done
      → demote_admin promoted iid (promote_admin fed iid w).1 ≡ (done, w)
  unfolding promote_admin demote_admin
  demote-promote h = elim (Option-cases (get_by_iid w iid)) [
    | inl e ↦ absurd (ground arith)
    | inr (user, e) ↦
        let same = (==_iff user.iid iid).0 (find-passes (λ c. c.iid == iid) w.chats user e) in
        ground (
          arith,
          e,
          same,
          length-without iid (fed.admins ++ iid ∷ []),
          elem-append iid fed.admins (iid ∷ []),
          without-snoc iid fed.admins,
          save_federation_twice promoted fed w.feds refl,
          save_federation_same fed w.feds known,
        )
  ]
