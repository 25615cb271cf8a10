-- ===== src/Pager.antt =====
-- s2/iterator.go: the pager over a listing. The call that fetches a page is a parameter: a page for
-- each key, or an error. Keys are bytes; the loop of `next` runs on fuel.
pub mod Listing
mod Examples
use s2_sdk_go.Prelude.{
  ℕ, zero, suc, Bool, true, false, not, ◌&&◌, Option, none, some, List, [], ◌∷◌, ◌⊎◌, inl, inr,
  if◌then◌else◌, is_empty, drop,
}
use s2_sdk_go.Errors.{Err}

pub record PagedResponse (T : Type 0) : Type 0 where
  pub items : List T
  pub next_key : List ℕ

pub record Pager (T : Type 0) : Type 0 where
  pub start_after : List ℕ
  pub done : Bool
  pub values : List T
  pub err : Option Err

module _ {T : Type 0} where
  pub new_pager : Pager T
  new_pager = record { start_after = []; done = false; values = []; err = none }

  -- The pager after a page.
  pub with_page : Pager T → PagedResponse T → Pager T
  with_page p r = elim r.next_key [
    | [] ↦ record p { values = r.items; done = true }
    | k ∷ ks ↦ record p { values = r.items; start_after = k ∷ ks }
  ]

  pub value : Pager T → Option T
  value p = elim p.values [ [] ↦ none | v ∷ vs ↦ some v ]

  module _ (fetch : List ℕ → Err ⊎ PagedResponse T) where
    pub on_fetch : (Pager T → Pager T × Bool) → Pager T → Err ⊎ PagedResponse T → Pager T × Bool
    on_fetch again p (inl e) = (record p { err = some e }, false)
    on_fetch again p (inr r) = again (with_page p r)

    pub wants_page : Pager T → Bool
    wants_page p = is_empty p.values && (not p.done && elim p.err [ none ↦ true | some e ↦ false ])

    pub fetch_loop : ℕ → Pager T → Pager T × Bool
    fetch_loop zero p = (p, not (is_empty p.values))
    fetch_loop (suc n) p =
        let rest = on_fetch (fetch_loop n) p (fetch p.start_after) in
        if wants_page p then rest else (p, not (is_empty p.values))

    pub next : ℕ → Pager T → Pager T × Bool
    next fuel p =
        let q = record p { values = drop 1 p.values } in
        if p.done && is_empty p.values then (p, false) else fetch_loop fuel q
