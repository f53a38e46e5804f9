-- ===== src/Warns/Upsert.antt =====
-- The list of actions of a scope stays within its bound and finds what was put last.
use sophie.Prelude.{
  ◌≤◌, Bool, String, List, [], ◌∷◌, ◌≡◌, refl, length, drop, update_first, arith, length-append,
  length-drop,
}
use sophie.Shared.Actions.{StoredAction}
use sophie.Warns.Settings.{warn_max_actions, is_named, upsert_action}

length-update_first {ℓ} :
    {A : Type ℓ} (p : A → Bool) (g : A → A) (xs : List A) → length (update_first p g xs) ≡ length xs
length-update_first p g [] = refl
length-update_first p g (x ∷ xs) = ground (arith, length-update_first p g xs)

module _ {D : Type 0} (name : String) (d : D) where
  -- An action that is put in keeps a list of two actions or fewer at two or fewer.
  pub length-upsert_action :
      (actions : List (StoredAction D))
      → length actions ≤ warn_max_actions
      → length (upsert_action actions name d) ≤ warn_max_actions
  unfolding upsert_action
  length-upsert_action actions h =
      let action : StoredAction D = record { name = name; action_data = d } in
      ground (
        arith,
        length-update_first (is_named name) (λ _. action) actions,
        length-append actions (action ∷ []),
        length-append (drop 1 actions) (action ∷ []),
        length-drop 1 actions,
      )
