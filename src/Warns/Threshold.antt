-- ===== src/Warns/Threshold.antt =====
-- The warns of a user, up to the threshold.
use sophie.Prelude.{
  ℕ, suc, Bool, Option, none, some, String, List, [], ◌∷◌, ◌++◌, ◌≡◌, refl, true, false, ◌==◌, ◌&&◌,
  not, is_some, leb, count, keep, find, remove_first, length, arith, Bool-cases, Option-cases, inl,
  inr, ==_refl, if◌then◌else◌,
}
use sophie.Prelude.Search.{count-append}
use sophie.Federations.Model.{ChatModel}
use sophie.Restrictions.Model.{Env}
use sophie.Shared.Actions.{StoredAction}
use sophie.Warns.Settings.{WarnSettingsModel}
use sophie.Warns.Warn.{
  WarnModel, Store, is_warn_of, count_user_warns, warn_restriction_of, execute_restriction_action,
  hand_over, execute_warn_actions, punish, warn_user, delete_warn,
}

count-keep-not {ℓ} :
    {A : Type ℓ} (q : A → Bool) (xs : List A) → count q (keep (λ x. not (q x)) xs) ≡ 0
count-keep-not q [] = refl
count-keep-not q (x ∷ xs) = ground (arith, count-keep-not q xs)

count-keep_other {ℓ} :
    {A : Type ℓ} (p q : A → Bool)
    → ((x : A) → p x ≡ true → q x ≡ false)
    → (xs : List A) → count q (keep (λ x. not (p x)) xs) ≡ count q xs
count-keep_other p q apart [] = refl
count-keep_other p q apart (x ∷ xs) = ground (arith, apart x, count-keep_other p q apart xs)

-- Tests for two different pairs never both pass.
is_warn_of-apart :
    (c u c' u' : ℕ) (w : WarnModel)
    → (c == c' && u == u') ≡ false
    → is_warn_of c u w ≡ true
    → is_warn_of c' u' w ≡ false
is_warn_of-apart c u c' u' w h e = ground arith

module _ {D : Type 0} (fields : List String) (envs : ℕ → Env) (resolve : String → D → Option ℕ)
    (is_allowed : String → Bool) (has_trigger : Bool) where
  execute_restriction_action-warns :
      (n : ℕ) (a : StoredAction D) (chat user : ChatModel) (store : Store D)
      → (execute_restriction_action fields envs resolve is_allowed has_trigger n a chat user
          store).1.warns
        ≡ store.warns
  unfolding execute_restriction_action
  execute_restriction_action-warns n a chat user store =
      elim (Option-cases (warn_restriction_of a.name)) [
        | inl e ↦ ground (arith, e)
        | inr (action, e) ↦ ground (arith, e)
      ]

  execute_warn_actions-warns :
      (n : ℕ) (actions : List (StoredAction D)) (chat user : ChatModel) (p : Option String)
      (store : Store D)
      → (execute_warn_actions fields envs resolve is_allowed has_trigger n actions chat user p
          store).1.warns
        ≡ store.warns
  unfolding execute_warn_actions
  execute_warn_actions-warns n [] chat user p store = refl
  execute_warn_actions-warns n (a ∷ actions) chat user p store =
      let (result, store') =
        execute_restriction_action fields envs resolve is_allowed has_trigger n a chat user store in
      let stops = is_some result && not (is_some p) in
      ground (
        arith,
        execute_restriction_action-warns n a chat user store,
        execute_warn_actions-warns (suc n) actions chat user (if stops then result else p) (
            if stops
            then store'
            else hand_over fields envs resolve is_allowed has_trigger a store'),
      )

  punish-warns :
      (n : ℕ) (actions : List (StoredAction D)) (chat user : ChatModel) (store : Store D)
      → (punish fields envs resolve is_allowed has_trigger n actions chat user store).1.warns
        ≡ store.warns
  unfolding punish
  punish-warns n [] chat user store = refl
  punish-warns n (a ∷ actions) chat user store =
      execute_warn_actions-warns n (a ∷ actions) chat user none store

  module _ (settings : WarnSettingsModel D) (chat user admin : ChatModel) (reason : Option String)
      (warn_iid : ℕ) (store : Store D) where
    abbrev new_warn : WarnModel
    new_warn = record {
      iid = warn_iid;
      chat = chat.iid;
      user = user.iid;
      admin = some admin.iid;
      reason = reason;
    }

    abbrev warned : Store D
    warned = record store { warns = store.warns ++ new_warn ∷ [] }

    abbrev acted : Store D
    acted =
        (execute_warn_actions fields envs resolve is_allowed has_trigger 0
          settings.on_each_warn_actions chat user none warned).1

    abbrev cleared : Store D
    cleared = record acted { warns = keep (λ w. not (is_warn_of chat.iid user.iid w)) acted.warns }

    acted_warns : acted.warns ≡ store.warns ++ new_warn ∷ []
    acted_warns = execute_warn_actions-warns 0 settings.on_each_warn_actions chat user none warned

    punished_warns :
        (punish fields envs resolve is_allowed has_trigger
          (length settings.on_each_warn_actions)
          settings.on_max_warn_actions
          chat
          user
          cleared).1.warns
        ≡ cleared.warns
    punished_warns =
        punish-warns (length settings.on_each_warn_actions) settings.on_max_warn_actions chat user
          cleared

    -- A warn raises the number of the user's warns in the chat by one, which is the number that is
    -- answered, and all of them are gone when it reaches the maximum.
    pub warn_user-count :
        let before = count_user_warns store.warns chat.iid user.iid in
        let r =
          warn_user fields envs resolve is_allowed has_trigger settings chat user admin reason
            warn_iid store in
        (r.0.0 ≡ suc before)
        × (count_user_warns r.1.warns chat.iid user.iid
            ≡ (if leb settings.max_warns (suc before) then 0 else suc before))
    unfolding warn_user
    warn_user-count = ground (
      arith,
      acted_warns,
      punished_warns,
      ==_refl chat.iid,
      ==_refl user.iid,
      count-append (is_warn_of chat.iid user.iid) store.warns (new_warn ∷ []),
      count-keep-not (is_warn_of chat.iid user.iid) acted.warns,
    )

    -- The warns of every other user and in every other chat are as they were.
    pub warn_user-others :
        (c u : ℕ)
        → (chat.iid == c && user.iid == u) ≡ false
        → count_user_warns
            (warn_user fields envs resolve is_allowed has_trigger settings chat user admin reason
              warn_iid store).1.warns
            c
            u
          ≡ count_user_warns store.warns c u
    unfolding warn_user
    warn_user-others c u apart = ground (
      arith,
      acted_warns,
      punished_warns,
      apart,
      count-append (is_warn_of c u) store.warns (new_warn ∷ []),
      count-keep_other (is_warn_of chat.iid user.iid) (is_warn_of c u)
          (λ w e. is_warn_of-apart chat.iid user.iid c u w apart e) acted.warns,
    )

count-remove_first_found {ℓ} :
    {A : Type ℓ} (p q : A → Bool) (xs : List A) (x : A)
    → find p xs ≡ some x
    → q x ≡ false
    → count q (remove_first p xs) ≡ count q xs
count-remove_first_found p q [] x h e = refl
count-remove_first_found p q (y ∷ xs) x h e = elim (Bool-cases (p y)) [
  | inl t ↦ let same : y ≡ x = ground arith in rw (t, same, e) refl
  | inr t ↦ ground (arith, t, count-remove_first_found p q xs x)
]

-- A warn is deleted only in the chat that is asked for: the numbers of warns in other chats are as
-- they were.
pub delete_warn-others :
    (warn_iid chat_iid c u : ℕ) (warns : List WarnModel)
    → (chat_iid == c) ≡ false
    → count_user_warns (delete_warn warn_iid chat_iid warns).1 c u ≡ count_user_warns warns c u
unfolding delete_warn
delete_warn-others warn_iid chat_iid c u warns apart =
    elim (Option-cases (find (λ w. w.iid == warn_iid) warns)) [
      | inl e ↦ ground (arith, e)
      | inr (w, e) ↦
          ground
            (arith, e, count-remove_first_found (λ v. v.iid == warn_iid) (is_warn_of c u) warns w e)
    ]
