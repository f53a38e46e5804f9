-- ===== src/Federations/Admins.antt =====
-- sophie_bot/modules/federations/services/admin.py and permissions.py.
pub mod Rights
use sophie.Prelude.{
  ℕ, Bool, Option, none, some, List, [], ◌∷◌, ◌++◌, true, false, ◌==◌, not, elem, keep, is_some,
  length, if◌then◌else◌,
}
use sophie.Federations.Model.{ChatModel, Federation, World, get_by_iid}
use sophie.Federations.Manage.{save_federation}

-- the messages of `ValueError`
pub data AdminError : Type 0 where
  already_admin user_missing not_admin : AdminError

pub data Outcome : Type 0 where
  done : Outcome
  failed : AdminError → Outcome

abbrev pub with_admins : Federation → List ℕ → Federation
with_admins federation admins = record federation { admins = admins }

unfoldable pub promote_admin : Federation → ℕ → World → Outcome × World
promote_admin federation user_iid w =
    if elem user_iid federation.admins
    then (failed already_admin, w)
    else elim (get_by_iid w user_iid) [
      | none ↦ (failed user_missing, w)
      | some user ↦ (
        done,
        record w {
          feds =
              save_federation (with_admins federation (federation.admins ++ user.iid ∷ [])) w.feds;
        },
      )
    ]

abbrev pub without : ℕ → List ℕ → List ℕ
without user_iid admins = keep (λ a. not (a == user_iid)) admins

unfoldable pub demote_admin : Federation → ℕ → World → Outcome × World
demote_admin federation user_iid w =
    if length (without user_iid federation.admins) == length federation.admins
    then (failed not_admin, w)
    else (
      done,
      record w {
        feds = save_federation (with_admins federation (without user_iid federation.admins)) w.feds;
      },
    )

-- `creator and creator.tid == user_tid`, of a document that may be missing
abbrev pub is_tid : Option ChatModel → ℕ → Bool
is_tid none user_tid = false
is_tid (some c) user_tid = c.tid == user_tid

-- the loop over the admins of `is_admin`
unfoldable pub any_admin : World → List ℕ → ℕ → Bool
any_admin w [] user_tid = false
any_admin w (admin ∷ admins) user_tid =
    let rest = any_admin w admins user_tid in
    if is_tid (get_by_iid w admin) user_tid then true else rest

-- `FederationAdminService.is_admin`
unfoldable pub is_admin : World → Federation → ℕ → Bool
unfolding any_admin
is_admin w federation user_tid =
    if is_tid (get_by_iid w federation.creator) user_tid
    then true
    else any_admin w federation.admins user_tid

-- `ChatModel | BeanieLink[ChatModel]`: a document that is put in place of its link, as
-- `promote_admin` appends one, or the link, by the `_id` that it refers to
pub data Link : Type 0 where
  fetched : ChatModel → Link
  reference : ℕ → Link

-- `FederationPermissionService._resolve_link`
unfoldable pub resolve_link : World → Link → Option ChatModel
resolve_link w (fetched chat) = some chat
resolve_link w (reference iid) = get_by_iid w iid

-- The links of a stored federation are not fetched.
unfoldable pub is_federation_owner : World → Federation → ℕ → Bool
unfolding resolve_link
is_federation_owner w federation user_tid =
    is_tid (resolve_link w (reference federation.creator)) user_tid

-- the loop over the admins of `is_federation_admin`
unfoldable pub any_admin_link : World → List ℕ → ℕ → Bool
unfolding resolve_link
any_admin_link w [] user_tid = false
any_admin_link w (admin ∷ admins) user_tid =
    let rest = any_admin_link w admins user_tid in
    if is_tid (resolve_link w (reference admin)) user_tid then true else rest

unfoldable pub is_federation_admin : World → Federation → ℕ → Bool
unfolding is_federation_owner any_admin_link
is_federation_admin w federation user_tid =
    if is_federation_owner w federation user_tid
    then true
    else any_admin_link w federation.admins user_tid

unfoldable pub can_ban_in_federation : World → Option Federation → ℕ → Bool
unfolding is_federation_admin
can_ban_in_federation w none user_tid = false
can_ban_in_federation w (some federation) user_tid = is_federation_admin w federation user_tid
