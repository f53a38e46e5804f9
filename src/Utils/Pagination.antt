-- ===== src/Utils/Pagination.antt =====
-- sophie_bot/utils/pagination.py. The buttons are the pages that their callbacks lead to.
pub mod Pages
use sophie.Prelude.{
  ℕ, zero, suc, ◌+◌, ◌-◌, ◌*◌, ◌/◌, min, Bool, true, false, Option, none, some, List, [], ◌∷◌, ◌++◌,
  ◌==◌, ltb, length, take, drop, if◌then◌else◌,
}
use sophie.Prelude.Int.{ℤ, pos, negsuc, pos_part}

pub record PaginationPage {ℓ} (A : Type ℓ) : Type ℓ where
  pub page : ℕ
  pub total_pages : ℕ
  pub items : List A
  pub has_previous : Bool
  pub has_next : Bool

-- the number of pages of a positive size
abbrev pub total_pages_of : ℕ → ℕ → ℕ
total_pages_of n page_size = (n + page_size - 1) / page_size

-- a page of a positive size
unfoldable pub page_of {ℓ} : {A : Type ℓ} → List A → ℕ → ℤ → PaginationPage A
page_of items page_size requested_page =
    let total_pages = total_pages_of (length items) page_size in
    if total_pages == 0
    then record { page = 0; total_pages = 0; items = []; has_previous = false; has_next = false }
    else (let page = min (pos_part requested_page) (total_pages - 1) in
        record {
          page = page;
          total_pages = total_pages;
          items = take page_size (drop (page * page_size) items);
          has_previous = ltb 0 page;
          has_next = ltb page (total_pages - 1);
        })

-- `none` is the `ValueError` on a size that is not positive
unfoldable pub paginate {ℓ} : {A : Type ℓ} → List A → ℤ → ℤ → Option (PaginationPage A)
unfolding page_of
paginate items (negsuc n) requested_page = none
paginate items (pos zero) requested_page = none
paginate items (pos (suc k)) requested_page = some (page_of items (suc k) requested_page)

-- the pages that the buttons of a row lead to
unfoldable pub build_pagination_row {ℓ} : {A : Type ℓ} → PaginationPage A → List ℕ
build_pagination_row p =
    (if p.has_previous then (p.page - 1) ∷ [] else [])
    ++ (if p.has_next then (p.page + 1) ∷ [] else [])
