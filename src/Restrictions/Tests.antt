-- ===== src/Restrictions/Tests.antt =====
-- A mute of a user and what comes after it, with one permission field.
use text.Mathlib.Text.{◌==◌ as text_eq}
use sophie.Prelude.{none, some, String, List, [], ◌∷◌, ◌≡◌, refl, true, false}
use sophie.Restrictions.Model.{
  mute, ChatPermissions, Snapshot, restricted, plain, answer, transient, Env, restrict_call, State,
  returns, mute_permissions, all_permissions, owns_restriction,
}
use sophie.Restrictions.Apply.{apply, choose_snapshot, fresh_snapshot}
use sophie.Restrictions.Restore.{restore, both}
use sophie.Restrictions.Ownership.{Remembers, apply-Remembers, apply_transient-owns}
use sophie.Restrictions.RoundTrip.{end_of, restore-apply}

abbrev fields : List String
fields = "can_send_messages" ∷ "can_send_polls" ∷ []

-- a user who is not restricted, and whose requests are all applied
abbrev before_mute : Env
before_mute = record {
  get_chat_member = answer plain;
  get_chat = answer (some all_permissions);
  restrict_chat_member = λ p until. answer true;
  ban_chat_member = answer true;
  unban_chat_member = answer true;
  now = 1000;
  later = 1001;
  locked = true;
}

abbrev after_mute : Env
after_mute = record before_mute { get_chat_member = answer (restricted mute_permissions 0) }

-- some rights
abbrev polls_only : ChatPermissions
polls_only f = text_eq f "can_send_polls"

abbrev was_restricted : Env
was_restricted = record before_mute { get_chat_member = answer (restricted polls_only 1030) }

abbrev declining : Env
declining = record before_mute { restrict_chat_member = λ p until. answer false }

abbrev losing : Env
losing = record before_mute { restrict_chat_member = λ p until. transient }

abbrev untouched : State
untouched = record { snapshot = none; calls = [] }

abbrev mute_snapshot : Snapshot
mute_snapshot = record {
  permissions = some all_permissions;
  restore_group_defaults = false;
  applied_permissions = some mute_permissions;
  pending_permissions = none;
  applied = true;
  previous_until = none;
  applied_until = none;
  expires_at = none;
}

abbrev muted : State
muted = record { snapshot = some mute_snapshot; calls = [] }

mute_owns : owns_restriction fields mute_snapshot (restricted mute_permissions 0) ≡ true
unfolding owns_restriction
mute_owns = refl

apply-Remembers_example :
    Remembers mute_snapshot (apply fields after_mute mute (some 60) muted).1.snapshot
apply-Remembers_example =
    apply-Remembers fields after_mute mute (some 60) muted mute_snapshot
      (restricted mute_permissions 0) refl refl mute_owns

plain_foreign : owns_restriction fields mute_snapshot plain ≡ false
unfolding owns_restriction
plain_foreign = refl

apply_transient-owns_example :
    (s : Snapshot) × ((apply fields losing mute none untouched).1.snapshot ≡ some s)
    × (owns_restriction fields s (restricted mute_permissions 0) ≡ true)
apply_transient-owns_example = apply_transient-owns fields losing none untouched plain refl refl

was-fresh :
    choose_snapshot fields (restricted polls_only 1030) none
    ≡ (fresh_snapshot (restricted polls_only 1030), true)
unfolding choose_snapshot
was-fresh = refl

-- a user who may only send polls, until the second 1030
restore-apply_example :
    let after =
      restore fields after_mute false (apply fields was_restricted mute none untouched).1 in
    (after.0 ≡ returns true)
    × (after.1.calls ≡ (
        restrict_call mute_permissions none
        ∷ restrict_call (both polls_only all_permissions) none
        ∷ []))
    × (end_of after.1.snapshot ≡ some (some 1030))
restore-apply_example =
    restore-apply fields was_restricted after_mute none untouched (restricted polls_only 1030)
      all_permissions was-fresh refl refl refl refl (λ p until. refl)
