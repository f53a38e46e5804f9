-- ===== src/Utils/Tests.antt =====
-- Pages of three items, and a burst of requests.
use sophie.Prelude.{ℕ, List, [], ◌∷◌, ◌≡◌, arith}
use sophie.Utils.Pagination.Pages.{page_items, page_items_all}
use sophie.Utils.RateLimit.{unset}
use sophie.Utils.RateLimit.Window.{nothing, then_one, passed, passed_lem}

abbrev three : List ℕ
three = 5 ∷ 6 ∷ 7 ∷ []

page_items_all_example : page_items 2 three 0 2 ≡ three
page_items_all_example = page_items_all three 1

-- The third request of the first window is refused; it does not hold up the next window.
passed_lem_example : passed 2 60 (100 ∷ 110 ∷ 159 ∷ 161 ∷ 170 ∷ 180 ∷ []) unset ≡ 4
passed_lem_example =
    passed_lem 2 60 100 161 (110 ∷ 159 ∷ []) (170 ∷ 180 ∷ [])
      (then_one (omega arith) (then_one (omega arith) nothing)) (omega arith)
      (then_one (omega arith) (then_one (omega arith) nothing))
