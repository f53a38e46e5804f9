-- ===== src/Federations/Manage/Create.antt =====
-- The limits on the creation of federations.
use text.Mathlib.Text.{◌==◌ as text_eq}
use text.Mathlib.TextEquality.{eq_iff}
use sophie.Prelude.{
  ℕ, ◌≤◌, none, some, String, [], ◌∷◌, ◌++◌, ◌≡◌, true, false, ◌==◌, find, count, arith, is_some,
  Bool-cases, inl, inr,
}
use sophie.Prelude.Search.{count-append, find-none-count, find-append}
use sophie.Federations.Model.{
  ChatModel, Federation, Config, World, get_by_iid, get_federation_by_id,
}
use sophie.Federations.Manage.{
  created, new_federation, create_federation, is_owner, max_federations_per_user,
}

-- Every user but the bot's owner has created as many federations as are allowed at most, and no
-- name is taken twice.
pub record IsLimited (cfg : Config) (w : World) : Type 0 where
  pub creators :
      (iid : ℕ) (user : ChatModel)
      → get_by_iid w iid ≡ some user
      → is_owner cfg user.tid ≡ false
      → count (λ f. f.creator == iid) w.feds ≤ max_federations_per_user
  pub names : (name : String) → count (λ f. text_eq f.fed_name name) w.feds ≤ 1

module _ (cfg : Config) (name : String) (creator_iid fed_id : ℕ) where
  names_after :
      (w : World) (n : String)
      → is_some (find (λ f. text_eq f.fed_name name) w.feds) ≡ false
      → count (λ f. text_eq f.fed_name n) w.feds ≤ 1
      → count (λ f. text_eq f.fed_name n) (w.feds ++ new_federation name creator_iid fed_id ∷ [])
        ≤ 1
  names_after w n free h = elim (Bool-cases (text_eq name n)) [
    | inl e ↦
        let same : name ≡ n = (eq_iff name n).0 e in
        rw (← same) (
          ground (
            arith,
            count-append (λ f. text_eq f.fed_name name) w.feds
                (new_federation name creator_iid fed_id ∷ []),
            find-none-count (λ f. text_eq f.fed_name name) w.feds,
          ))
    | inr e ↦ ground (
      arith,
      count-append (λ f. text_eq f.fed_name n) w.feds (new_federation name creator_iid fed_id ∷ []),
    )
  ]

  -- Creating a federation keeps both limits, whoever creates it.
  pub create_federation-IsLimited :
      (w : World)
      → IsLimited cfg w
      → IsLimited cfg (create_federation cfg name creator_iid fed_id w).1
  unfolding create_federation
  create_federation-IsLimited w v = record {
    creators = λ iid user known plain. ground (
      arith,
      v.creators iid user,
      count-append (λ f. f.creator == iid) w.feds (new_federation name creator_iid fed_id ∷ []),
    );
    names = λ n. ground (arith, v.names n, names_after w n);
  }

  -- A federation that was created is found by its id, when the id is new, and its creator was
  -- known; it has no chats, admins or subscriptions.
  pub create_federation-found :
      (w : World) (f : Federation)
      → get_federation_by_id w.feds fed_id ≡ none
      → (create_federation cfg name creator_iid fed_id w).0 ≡ created f
      → (get_federation_by_id (create_federation cfg name creator_iid fed_id w).1.feds fed_id
          ≡ some f)
        × (f.creator ≡ creator_iid)
        × (is_some (get_by_iid w creator_iid) ≡ true)
        × (f.chats ≡ [])
        × (f.admins ≡ [])
        × (f.subscribed ≡ [])
  unfolding create_federation
  create_federation-found w f fresh h = ground (
    arith,
    find-append (λ g. g.fed_id == fed_id) w.feds (new_federation name creator_iid fed_id ∷ []),
  )
