-- ===== src/Pager/Listing.antt =====
-- Walking a pager over a listing gives its items.
use s2_sdk_go.Prelude.{
  ℕ, zero, suc, ◌≤◌, ◌<◌, ◌≡◌, refl, ap, subst, sym, arith, Bool, true, false, none, some, List, [],
  ◌∷◌, ◌++◌, ◌⊎◌, inr, length,
}
use s2_sdk_go.Errors.{Err}
use s2_sdk_go.Pager.{
  PagedResponse, Pager, new_pager, with_page, value, on_fetch, wants_page, fetch_loop, next,
}

module _ {T : Type 0} (fetch : List ℕ → Err ⊎ PagedResponse T) where
  -- From a key on, the pages hold these items, on this many pages.
  pub data Serves : List ℕ → List T → ℕ → Type 0 where
    last :
        (key : List ℕ) (items : List T)
        → fetch key ≡ inr (record { items = items; next_key = [] })
        → Serves key items 1
    more :
        (key : List ℕ) (items : List T) (k : ℕ) (ks : List ℕ) (rest : List T) (n : ℕ)
        → fetch key ≡ inr (record { items = items; next_key = k ∷ ks })
        → Serves (k ∷ ks) rest n
        → Serves key (items ++ rest) (suc n)

  -- `for p.Next() { ... p.Value() ... }`, for at most so many rounds.
  abbrev pub walk : ℕ → ℕ → Pager T × Bool → List T
  walk fuel zero r = []
  walk fuel (suc k) (p, false) = []
  walk fuel (suc k) (p, true) =
      let rest = walk fuel k (next fetch fuel p) in
      elim (value p) [ none ↦ rest | some v ↦ v ∷ rest ]

  abbrev at : List ℕ → Bool → List T → Pager T
  at key d vs = record { start_after = key; done = d; values = vs; err = none }

  -- What a pager that holds some values has still to give.
  data Left (fuel : ℕ) (key : List ℕ) : Bool → List T → List T → Type 0 where
    finished : (vs : List T) → Left fuel key true vs vs
    partway :
        (vs rest : List T) (n : ℕ)
        → Serves key rest n
        → n ≤ fuel
        → Left fuel key false vs (vs ++ rest)

  data Ready (fuel : ℕ) : Pager T × Bool → List T → Type 0 where
    over : (key : List ℕ) → Ready fuel (at key true [], false) []
    yields :
        (key : List ℕ) (d : Bool) (v : T) (vs all : List T)
        → Left fuel key d vs all
        → Ready fuel (at key d (v ∷ vs), true) (v ∷ all)

  stays :
      (fuel n : ℕ) (key : List ℕ) (vs : List T)
      → Ready fuel (fetch_loop fetch n (at key true vs)) vs
  unfolding fetch_loop wants_page
  stays fuel zero key [] = over key
  stays fuel zero key (v ∷ vs) = yields key true v vs vs (finished vs)
  stays fuel (suc n) key [] = over key
  stays fuel (suc n) key (v ∷ vs) = yields key true v vs vs (finished vs)

  has_value :
      (fuel n : ℕ) (key : List ℕ) (v : T) (vs all : List T)
      → Left fuel key false vs all
      → Ready fuel (fetch_loop fetch n (at key false (v ∷ vs))) (v ∷ all)
  unfolding fetch_loop wants_page
  has_value fuel zero key v vs all l = yields key false v vs all l
  has_value fuel (suc n) key v vs all l = yields key false v vs all l

  fetches :
      (fuel n : ℕ) (key : List ℕ) (all : List T) (m : ℕ)
      → Serves key all m
      → m ≤ n
      → n ≤ fuel
      → Ready fuel (fetch_loop fetch n (at key false [])) all
  unfolding fetch_loop wants_page on_fetch with_page
  fetches fuel zero key all m (last k i e) h g = absurd (omega arith)
  fetches fuel zero key all m (more a b c d e f p s) h g = absurd (omega arith)
  fetches fuel (suc n) key all m (last k items e) h g =
      subst (λ r. Ready fuel (on_fetch fetch (fetch_loop fetch n) (at key false []) r) all) (sym e)
        (stays fuel n key items)
  fetches fuel (suc n) key all m (more key' [] k ks rest j e s) h g =
      subst (λ r. Ready fuel (on_fetch fetch (fetch_loop fetch n) (at key false []) r) rest) (sym e)
        (fetches fuel n (k ∷ ks) rest j s (omega arith) (omega arith))
  fetches fuel (suc n) key all m (more key' (v ∷ vs) k ks rest j e s) h g =
      subst
        (λ r.
          Ready fuel (on_fetch fetch (fetch_loop fetch n) (at key false []) r) (v ∷ (vs ++ rest)))
        (sym e) (has_value fuel n (k ∷ ks) v vs (vs ++ rest) (partway vs rest j s (omega arith)))

  -- The loop, on a pager from which the current value has been taken.
  resumes :
      (fuel : ℕ) (key : List ℕ) (d : Bool) (vs all : List T)
      → Left fuel key d vs all
      → Ready fuel (fetch_loop fetch fuel (at key d vs)) all
  resumes fuel key d vs all (finished us) = stays fuel fuel key us
  resumes fuel key d vs all (partway [] rest n s h) = fetches fuel fuel key rest n s h (omega arith)
  resumes fuel key d vs all (partway (u ∷ us) rest n s h) =
      has_value fuel fuel key u us (us ++ rest) (partway us rest n s h)

  next-Ready :
      (fuel : ℕ) (key : List ℕ) (d : Bool) (v : T) (vs all : List T)
      → Left fuel key d vs all
      → Ready fuel (next fetch fuel (at key d (v ∷ vs))) all
  unfolding next
  next-Ready fuel key true v vs all l = resumes fuel key true vs all l
  next-Ready fuel key false v vs all l = resumes fuel key false vs all l

  walk-Ready :
      (fuel k : ℕ) (r : Pager T × Bool) (all : List T)
      → Ready fuel r all
      → length all < k
      → walk fuel k r ≡ all
  unfolding value
  walk-Ready fuel zero r all x h = absurd (omega arith)
  walk-Ready fuel (suc k) r all (over key) h = refl
  walk-Ready fuel (suc k) r all (yields key d v vs us l) h =
      ap (◌∷◌ v) (walk-Ready fuel k _ us (next-Ready fuel key d v vs us l) (omega arith))

  -- If the pages from the empty key on hold some items, then walking a new pager gives these items
  -- in order, pages without items included, and stops, given fuel for a round per page and one
  -- more round of the walk than there are items.
  pub walk-Serves :
      (all : List T) (pages fuel rounds : ℕ)
      → Serves [] all pages
      → pages ≤ fuel
      → length all < rounds
      → walk fuel rounds (next fetch fuel new_pager) ≡ all
  unfolding next new_pager
  walk-Serves all pages fuel rounds s h g =
      walk-Ready fuel rounds _ all (fetches fuel fuel [] all pages s h (omega arith)) g
