-- ===== src/CaughtUp/Invariant.antt =====
-- Every future is pending or settled, once; none waits at the tail or after the end.
use s2_sdk_go.Prelude.{
  ap, sym, ◌∙◌, subst, ℕ, ◌+◌, ◌≡◌, refl, Option, none, some, List, [], ◌∷◌, ◌++◌, length, arith,
  count, count-append,
}
use s2_sdk_go.Errors.{session_closed, Err, StreamPosition}
use s2_sdk_go.CaughtUp.{
  CaughtUpState, CaughtUpResult, no_state, settle_all, settle_pending, at_tail, failed,
  set_caught_up_of, set_behind_of, end_of, set_caught_up, set_behind, end_open, end, new_future_of,
  new_future,
}

-- The state with the futures made so far, and what ended the session first, if anything did.
pub record World : Type 0 where
  pub state : CaughtUpState
  pub made : List ℕ
  pub over : Option Err

-- Closing without an error ends a session too; only the first end counts.
abbrev pub over_by : Option Err → Option Err → Option Err
over_by (some old) err = some old
over_by none (some e) = some e
over_by none none = some session_closed

pub data Step (w : World) : World → Type 0 where
  catches_up : (t : StreamPosition) → Step w (record w { state = set_caught_up w.state t })
  falls_behind : Step w (record w { state = set_behind w.state })
  ends :
      (err : Option Err) → Step w (record w { state = end w.state err; over = over_by w.over err })
  asks : (f : ℕ) → Step w (record w { state = new_future w.state f; made = w.made ++ (f ∷ []) })

pub data Reach (w : World) : World → Type 0 where
  here : Reach w w
  next : {u v : World} → Reach w u → Step u v → Reach w v

abbrev pub start : World
start = record { state = no_state; made = []; over = none }

abbrev pub futures : List (ℕ × CaughtUpResult) → List ℕ
futures [] = []
futures ((f, r) ∷ fs) = f ∷ futures fs

-- The number of futures that wait, if something is there that they need not wait for.
abbrev pub waiting_for {ℓ} : {A : Type ℓ} → Option A → List ℕ → ℕ
waiting_for none fs = 0
waiting_for (some a) fs = length fs

nothing_waits {ℓ} : {A : Type ℓ} (o : Option A) → waiting_for o [] ≡ 0
nothing_waits none = refl
nothing_waits (some a) = refl

-- Whatever failed, failed by what ended the session.
abbrev pub FailedBy : Option Err → List (ℕ × CaughtUpResult) → Type 0
FailedBy o [] = Unit
FailedBy o ((f, at_tail t) ∷ rs) = FailedBy o rs
FailedBy o ((f, failed e) ∷ rs) = (o ≡ some e) × FailedBy o rs

pub record IsSettled (c : ℕ) (w : World) : Type 0 where
  pub once : count c w.state.pending + count c (futures w.state.settled) ≡ count c w.made
  pub none_at_tail : waiting_for w.state.tail w.state.pending ≡ 0
  pub none_at_end : waiting_for w.over w.state.pending ≡ 0
  pub ended : w.state.terminal_err ≡ w.over
  pub failures : FailedBy w.over w.state.settled

module _ (c : ℕ) where
  count-settled :
      (rs : List (ℕ × CaughtUpResult)) (f : ℕ) (r : CaughtUpResult)
      → count c (futures (rs ++ ((f, r) ∷ []))) ≡ count c (futures rs) + count c (f ∷ [])
  count-settled [] f r = omega arith
  count-settled ((g, q) ∷ rs) f r = omega (arith, count-settled rs f r)

  count-settle_all :
      (rs : List (ℕ × CaughtUpResult)) (fs : List ℕ) (r : CaughtUpResult)
      → count c (futures (rs ++ settle_all fs r)) ≡ count c (futures rs) + count c fs
  unfolding settle_all
  count-settle_all [] [] r = refl
  count-settle_all [] (f ∷ fs) r = omega (arith, count-settle_all [] fs r)
  count-settle_all ((g, q) ∷ rs) fs r = omega (arith, count-settle_all rs fs r)

  FailedBy-append :
      (o : Option Err) (rs qs : List (ℕ × CaughtUpResult))
      → FailedBy o rs
      → FailedBy o qs
      → FailedBy o (rs ++ qs)
  FailedBy-append o [] qs h k = k
  FailedBy-append o ((f, at_tail t) ∷ rs) qs h k = FailedBy-append o rs qs h k
  FailedBy-append o ((f, failed e) ∷ rs) qs (q, h) k = (q, FailedBy-append o rs qs h k)

  -- Nothing has failed before the end.
  FailedBy-later :
      (e : Err) (rs : List (ℕ × CaughtUpResult)) → FailedBy none rs → FailedBy (some e) rs
  FailedBy-later e [] h = tt
  FailedBy-later e ((f, at_tail t) ∷ rs) h = FailedBy-later e rs h
  FailedBy-later e ((f, failed x) ∷ rs) (q, h) = cc

  caught-FailedBy :
      (o : Option Err) (fs : List ℕ) (t : StreamPosition) → FailedBy o (settle_all fs (at_tail t))
  unfolding settle_all
  caught-FailedBy o [] t = tt
  caught-FailedBy o (f ∷ fs) t = caught-FailedBy o fs t

  ended-FailedBy : (e : Err) (fs : List ℕ) → FailedBy (some e) (settle_all fs (failed e))
  unfolding settle_all
  ended-FailedBy e [] = tt
  ended-FailedBy e (f ∷ fs) = (refl, ended-FailedBy e fs)

  -- Settling all that wait.
  settle-IsSettled :
      (w : World) (s : CaughtUpState) (r : CaughtUpResult) (o : Option Err)
      → s.pending ≡ w.state.pending
      → s.settled ≡ w.state.settled
      → s.terminal_err ≡ o
      → FailedBy o (s.settled ++ settle_all s.pending r)
      → IsSettled c w
      → IsSettled c (record w { state = settle_pending s r; over = o })
  settle-IsSettled w s r o p q x f i =
      let e = count-settle_all s.settled s.pending r in
      record {
        once = omega (arith, e, ap (count c) p, ap (λ y. count c (futures y)) q, i.once);
        none_at_tail = nothing_waits s.tail;
        none_at_end = nothing_waits o;
        ended = x;
        failures = f;
      }

  set_caught_up_of-IsSettled :
      (w : World) (t : StreamPosition) (x : Option Err)
      → w.state.terminal_err ≡ x
      → IsSettled c w
      → IsSettled c (record w { state = set_caught_up_of w.state t x })
  unfolding set_caught_up_of
  set_caught_up_of-IsSettled w t (some e) h i = i
  set_caught_up_of-IsSettled w t none h i =
      settle-IsSettled w (record (w.state) { tail = some t }) (at_tail t) w.over refl refl i.ended
        (FailedBy-append w.over w.state.settled _ i.failures
          (caught-FailedBy w.over w.state.pending t))
        i

  set_behind_of-IsSettled :
      (w : World) (x : Option Err)
      → IsSettled c w
      → IsSettled c (record w { state = set_behind_of w.state x })
  unfolding set_behind_of
  set_behind_of-IsSettled w (some e) i = i
  set_behind_of-IsSettled w none i = record {
    once = i.once;
    none_at_tail = refl;
    none_at_end = i.none_at_end;
    ended = i.ended;
    failures = i.failures;
  }

  -- The first end.
  end_open-IsSettled :
      (w : World) (err : Option Err)
      → w.over ≡ none
      → IsSettled c w
      → IsSettled c (record w { state = end_open w.state err; over = over_by none err })
  unfolding end_open
  end_open-IsSettled w none h i =
      settle-IsSettled w (record (w.state) { terminal_err = some session_closed })
        (failed session_closed) (some session_closed) refl refl refl
        (FailedBy-append (some session_closed) w.state.settled _
          (FailedBy-later session_closed w.state.settled
            (subst (λ o. FailedBy o w.state.settled) h i.failures))
          (ended-FailedBy session_closed w.state.pending))
        i
  end_open-IsSettled w (some e) h i =
      settle-IsSettled w (record (w.state) { tail = none; terminal_err = some e }) (failed e)
        (some e) refl refl refl
        (FailedBy-append (some e) w.state.settled _
          (FailedBy-later e w.state.settled (subst (λ o. FailedBy o w.state.settled) h i.failures))
          (ended-FailedBy e w.state.pending))
        i

  end_of-IsSettled :
      (w : World) (err x : Option Err)
      → w.over ≡ x
      → IsSettled c w
      → IsSettled c (record w { state = end_of w.state err x; over = over_by x err })
  unfolding end_of
  end_of-IsSettled w err (some e) h i = record {
    once = i.once;
    none_at_tail = i.none_at_tail;
    none_at_end = subst (λ o. waiting_for o w.state.pending ≡ 0) h i.none_at_end;
    ended = i.ended ∙ h;
    failures = subst (λ o. FailedBy o w.state.settled) h i.failures;
  }
  end_of-IsSettled w err none h i = end_open-IsSettled w err h i

  new_future_of-IsSettled :
      (w : World) (f : ℕ) (t : Option StreamPosition) (x : Option Err)
      → w.state.tail ≡ t
      → w.over ≡ x
      → IsSettled c w
      → IsSettled c (record w { state = new_future_of w.state f t x; made = w.made ++ (f ∷ []) })
  unfolding new_future_of
  new_future_of-IsSettled w f (some t) x p q i = record {
    once = omega (
      arith,
      i.once,
      count-append c w.made (f ∷ []),
      count-settled w.state.settled f (at_tail t),
    );
    none_at_tail = i.none_at_tail;
    none_at_end = i.none_at_end;
    ended = i.ended;
    failures = FailedBy-append w.over w.state.settled _ i.failures tt;
  }
  new_future_of-IsSettled w f none (some e) p q i = record {
    once =
        omega (
          arith,
          i.once,
          count-append c w.made (f ∷ []),
          count-settled w.state.settled f (failed e),
        );
    none_at_tail = i.none_at_tail;
    none_at_end = i.none_at_end;
    ended = i.ended;
    failures = FailedBy-append w.over w.state.settled _ i.failures (q, tt);
  }
  new_future_of-IsSettled w f none none p q i = record {
    once =
        omega
          (arith, i.once, count-append c w.made (f ∷ []), count-append c w.state.pending (f ∷ []));
    none_at_tail = ap (λ o. waiting_for o (w.state.pending ++ (f ∷ []))) p;
    none_at_end = ap (λ o. waiting_for o (w.state.pending ++ (f ∷ []))) q;
    ended = i.ended;
    failures = i.failures;
  }

  Step-IsSettled : {v w : World} → Step v w → IsSettled c v → IsSettled c w
  unfolding set_caught_up set_behind end new_future
  Step-IsSettled {v} (catches_up t) i = set_caught_up_of-IsSettled v t v.state.terminal_err refl i
  Step-IsSettled {v} falls_behind i = set_behind_of-IsSettled v v.state.terminal_err i
  Step-IsSettled {v} (ends err) i =
      subst
        (λ x. IsSettled c (record v { state = end_of v.state err x; over = over_by v.over err }))
        (sym i.ended) (end_of-IsSettled v err v.over refl i)
  Step-IsSettled {v} (asks f) i =
      subst
        (λ x.
          IsSettled c (record v {
            state = new_future_of v.state f v.state.tail x;
            made = v.made ++ (f ∷ []);
          }))
        (sym i.ended) (new_future_of-IsSettled v f v.state.tail v.over refl refl i)

  Reach-IsSettled : {v w : World} → Reach v w → IsSettled c v → IsSettled c w
  Reach-IsSettled here i = i
  Reach-IsSettled (next r s) i = Step-IsSettled s (Reach-IsSettled r i)

-- After any calls on a new caught-up state, each future made is, as often as it was made, either
-- pending or settled; no future is pending while a tail is known or once the session has been
-- ended; the error that the state keeps is that of the first end, a session that is closed without
-- one keeping its own; and a future that failed did so by that error.
pub Reach-start-IsSettled : {w : World} → Reach start w → (c : ℕ) → IsSettled c w
Reach-start-IsSettled r c =
    Reach-IsSettled c r
      (record { once = refl; none_at_tail = refl; none_at_end = refl; ended = refl; failures = tt })
