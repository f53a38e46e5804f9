-- ===== src/Federations/Chats/Membership.antt =====
-- The chats of a federation, their cached number, and the cached federation of a chat.
use sophie.Prelude.{
  ℕ, suc, Bool, Option, none, some, List, [], ◌∷◌, ◌++◌, ◌≡◌, ◌⊎◌, refl, true, false, ◌==◌, elem,
  length, length-append, arith, Option-cases, Bool-cases, inl, inr, elem-append, ==_iff,
  if◌then◌else◌,
}
use sophie.Prelude.Int.{pos, pos-add_one, pos-sub_one}
use sophie.Prelude.Search.{find-passes}
use sophie.Federations.Model.{ChatModel, Federation, World, get_by_iid, get_federation_by_id}
use sophie.Federations.Manage.{save_federation, remove, get_federation_for_chat, find_by_chat}
use sophie.Federations.Manage.Subscription.{save_federation-found}
use sophie.Federations.Chats.{
  with_chats, add_chat_to_federation, remove_chat_from_federation, get_federation_chat_count,
  chat_count_of,
}

-- A saved federation does not change what is found under another id.
save_federation-other :
    (fed : Federation) (f : ℕ) (feds : List Federation)
    → (fed.fed_id == f) ≡ false
    → get_federation_by_id (save_federation fed feds) f ≡ get_federation_by_id feds f
save_federation-other fed f [] h = refl
save_federation-other fed f (g ∷ feds) h = ground (arith, save_federation-other fed f feds)

length-remove : (x : ℕ) (xs : List ℕ) → elem x xs ≡ true → suc (length (remove x xs)) ≡ length xs
length-remove x [] h = cc
length-remove x (y ∷ xs) h = ground (arith, length-remove x xs)

elem-remove_other : (c x : ℕ) (xs : List ℕ) → (c == x) ≡ false → elem c (remove x xs) ≡ elem c xs
elem-remove_other c x [] h = refl
elem-remove_other c x (y ∷ xs) h = ground (arith, elem-remove_other c x xs)

abbrev lists : ℕ → Option Federation → Bool
lists c none = false
lists c (some f) = elem c f.chats

-- Does the federation that is cached for a chat, if there is one, list the chat?
abbrev pub is_cached_right : World → ℕ → Bool
is_cached_right w c = elim (w.cache.chat_fed_id c) [
  | none ↦ true
  | some fed_id ↦ lists c (get_federation_by_id w.feds fed_id)
]

-- The cached number of chats of every federation is that of its document, and the federation that
-- is cached for a chat is one that lists it.
pub record IsCoherent (w : World) : Type 0 where
  pub chat_counts :
      (f : ℕ)
      → (w.cache.chat_count f ≡ none)
        ⊎ (w.cache.chat_count f ≡ some (pos (chat_count_of (get_federation_by_id w.feds f))))
  pub chat_feds : (c : ℕ) → is_cached_right w c ≡ true

get_by_iid-iid :
    (w : World) (iid : ℕ) (chat : ChatModel) → get_by_iid w iid ≡ some chat → chat.iid ≡ iid
get_by_iid-iid w iid chat e =
    (==_iff chat.iid iid).0 (find-passes (λ c. c.iid == iid) w.chats chat e)

module _ (fed : Federation) (chat_iid : ℕ) (w : World)
    (known : get_federation_by_id w.feds fed.fed_id ≡ some fed) where
  abbrev grown : Federation
  grown = with_chats fed (fed.chats ++ chat_iid ∷ [])

  abbrev shrunk : Federation
  shrunk = with_chats fed (remove chat_iid fed.chats)

  -- What is found after the federation was saved with other chats.
  found_after :
      (chats : List ℕ) (f : ℕ)
      → get_federation_by_id (save_federation (with_chats fed chats) w.feds) f
        ≡ (if fed.fed_id == f then some (with_chats fed chats) else get_federation_by_id w.feds f)
  found_after chats f = elim (Bool-cases (fed.fed_id == f)) [
    | inl e ↦
        let same : fed.fed_id ≡ f = (==_iff fed.fed_id f).0 e in
        rw (e, ← same) (save_federation-found (with_chats fed chats) fed w.feds known)
    | inr e ↦ rw e (save_federation-other (with_chats fed chats) f w.feds e)
  ]

  -- the federation that is cached for a chat, if there is one
  abbrev cached_fed : ℕ → ℕ
  cached_fed c = elim (w.cache.chat_fed_id c) [ none ↦ 0 | some fed_id ↦ fed_id ]

  -- Adding a chat to a federation, given as it is stored, keeps the cached numbers of chats and the
  -- cached federations of chats right.
  pub add_chat-IsCoherent : IsCoherent w → IsCoherent (add_chat_to_federation fed chat_iid w).1
  unfolding add_chat_to_federation
  add_chat-IsCoherent v = elim (Option-cases (get_by_iid w chat_iid)) [
    | inl e ↦ rw (e, add_chat_to_federation) v
    | inr (chat, e) ↦
        let same = get_by_iid-iid w chat_iid chat e in
        record {
          chat_counts = λ f. ground (
            arith,
            e,
            same,
            known,
            v.chat_counts f,
            found_after (fed.chats ++ chat.iid ∷ []) f,
            length-append fed.chats (chat.iid ∷ []),
            pos-add_one (length fed.chats),
          );
          chat_feds = λ c. ground (
            arith,
            e,
            known,
            v.chat_feds c,
            found_after (fed.chats ++ chat.iid ∷ []) fed.fed_id,
            found_after (fed.chats ++ chat.iid ∷ []) (cached_fed c),
            elem-append c fed.chats (chat.iid ∷ []),
          );
        }
  ]

  -- Removing a chat from a federation, given as it is stored, keeps the cached numbers of chats and the
  -- cached federations of chats right.
  pub remove_chat-IsCoherent :
      IsCoherent w → IsCoherent (remove_chat_from_federation fed chat_iid w).1
  unfolding remove_chat_from_federation
  remove_chat-IsCoherent v = elim (Option-cases (get_by_iid w chat_iid)) [
    | inl e ↦ rw (e, remove_chat_from_federation) v
    | inr (chat, e) ↦
        let same = get_by_iid-iid w chat_iid chat e in
        record {
          chat_counts = λ f. ground (
            arith,
            e,
            same,
            known,
            v.chat_counts f,
            found_after (remove chat_iid fed.chats) f,
            length-remove chat_iid fed.chats,
            pos-sub_one (length fed.chats) (length (remove chat_iid fed.chats)),
          );
          chat_feds = λ c. ground (
            arith,
            e,
            same,
            known,
            v.chat_feds c,
            found_after (remove chat_iid fed.chats) (cached_fed c),
            elem-remove_other c chat_iid fed.chats,
          );
        }
  ]

  -- A chat that has joined a federation is found to be in it, and the document lists it last.
  pub add_chat-get_federation_for_chat :
      (add_chat_to_federation fed chat_iid w).0 ≡ true
      → (get_federation_for_chat chat_iid (add_chat_to_federation fed chat_iid w).1).0 ≡ some grown
  unfolding add_chat_to_federation get_federation_for_chat
  add_chat-get_federation_for_chat h = elim (Option-cases (get_by_iid w chat_iid)) [
    | inl e ↦ absurd (ground arith)
    | inr (chat, e) ↦ ground (
      arith,
      e,
      get_by_iid-iid w chat_iid chat e,
      found_after (fed.chats ++ chat.iid ∷ []) fed.fed_id,
    )
  ]

-- In a coherent state the federation that is reported for a chat lists it.
pub get_federation_for_chat-lists :
    (w : World) (c : ℕ) (f : Federation)
    → IsCoherent w
    → (get_federation_for_chat c w).0 ≡ some f
    → (elem c f.chats ≡ true)
unfolding get_federation_for_chat
get_federation_for_chat-lists w c f v h = elim (Option-cases (find_by_chat w.feds c)) [
  | inl e ↦ ground (arith, e, v.chat_feds c)
  | inr (g, e) ↦ ground (arith, e, v.chat_feds c, find-passes (λ x. elem c x.chats) w.feds g e)
]

-- In a coherent state the number of chats that is reported, from the cache or not, is that of the
-- federation's document, and 0 for a federation that does not exist.
pub get_federation_chat_count_lem :
    (w : World) (f : ℕ)
    → IsCoherent w
    → (get_federation_chat_count f w).0 ≡ pos (chat_count_of (get_federation_by_id w.feds f))
unfolding get_federation_chat_count
get_federation_chat_count_lem w f v = ground (arith, v.chat_counts f)
