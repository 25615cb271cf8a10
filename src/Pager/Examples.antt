-- ===== src/Pager/Examples.antt =====
-- The theorem on a listing of three pages, one of them empty.
use s2_sdk_go.Prelude.{ℕ, ◌≡◌, refl, arith, List, [], ◌∷◌, ◌⊎◌, inr}
use s2_sdk_go.Errors.{Err}
use s2_sdk_go.Pager.{PagedResponse, new_pager, next}
use s2_sdk_go.Pager.Listing.{Serves, last, more, walk, walk-Serves}

abbrev pages : List ℕ → Err ⊎ PagedResponse ℕ
pages [] = inr (record { items = 1 ∷ 2 ∷ []; next_key = 5 ∷ [] })
pages (k ∷ []) = inr (record { items = []; next_key = 5 ∷ 6 ∷ [] })
pages (k ∷ ks) = inr (record { items = 3 ∷ []; next_key = [] })

pages-Serves : Serves pages [] (1 ∷ 2 ∷ 3 ∷ []) 3
pages-Serves =
    more [] (1 ∷ 2 ∷ []) 5 [] (3 ∷ []) 2 refl
      (more (5 ∷ []) [] 5 (6 ∷ []) (3 ∷ []) 1 refl (last (5 ∷ 6 ∷ []) (3 ∷ []) refl))

walk-Serves_example : walk pages 3 4 (next pages 3 new_pager) ≡ 1 ∷ 2 ∷ 3 ∷ []
walk-Serves_example =
    walk-Serves pages (1 ∷ 2 ∷ 3 ∷ []) 3 3 4 pages-Serves (omega arith) (omega arith)
