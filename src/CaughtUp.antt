-- ===== src/CaughtUp.antt =====
-- s2/read_session.go: the caught-up state of a read session. Each function is what runs under the
-- mutex. A future is known by a number; `settled` lists the results whose channel is closed, the
-- latest last.
pub mod Invariant
mod Examples
use s2_sdk_go.Prelude.{ℕ, Bool, true, false, Option, none, some, List, [], ◌∷◌, ◌++◌}
use s2_sdk_go.Errors.{Err, session_closed, StreamPosition}

pub data CaughtUpResult : Type 0 where
  at_tail : StreamPosition → CaughtUpResult
  failed : Err → CaughtUpResult

pub record CaughtUpState : Type 0 where
  pub tail : Option StreamPosition
  pub terminal_err : Option Err
  pub pending : List ℕ
  pub settled : List (ℕ × CaughtUpResult)

abbrev pub no_state : CaughtUpState
no_state = record { tail = none; terminal_err = none; pending = []; settled = [] }

pub is_caught_up : CaughtUpState → Bool
is_caught_up c = elim c.tail [ some t ↦ true | none ↦ false ]

pub settle_all : List ℕ → CaughtUpResult → List (ℕ × CaughtUpResult)
settle_all [] r = []
settle_all (f ∷ fs) r = (f, r) ∷ settle_all fs r

-- The loop over the pending futures, with the reset behind it.
abbrev pub settle_pending : CaughtUpState → CaughtUpResult → CaughtUpState
settle_pending c r = record c { pending = []; settled = c.settled ++ settle_all c.pending r }

-- Each operation looks at the terminal error first.
set_caught_up_of : CaughtUpState → StreamPosition → Option Err → CaughtUpState
set_caught_up_of c t (some e) = c
set_caught_up_of c t none = settle_pending (record c { tail = some t }) (at_tail t)

pub set_caught_up : CaughtUpState → StreamPosition → CaughtUpState
set_caught_up c t = set_caught_up_of c t c.terminal_err

set_behind_of : CaughtUpState → Option Err → CaughtUpState
set_behind_of c (some e) = c
set_behind_of c none = record c { tail = none }

pub set_behind : CaughtUpState → CaughtUpState
set_behind c = set_behind_of c c.terminal_err

end_open : CaughtUpState → Option Err → CaughtUpState
end_open c none =
    settle_pending (record c { terminal_err = some session_closed }) (failed session_closed)
end_open c (some e) = settle_pending (record c { tail = none; terminal_err = some e }) (failed e)

end_of : CaughtUpState → Option Err → Option Err → CaughtUpState
end_of c err (some e) = c
end_of c err none = end_open c err

pub end : CaughtUpState → Option Err → CaughtUpState
end c err = end_of c err c.terminal_err

new_future_of : CaughtUpState → ℕ → Option StreamPosition → Option Err → CaughtUpState
new_future_of c f (some t) e = record c { settled = c.settled ++ ((f, at_tail t) ∷ []) }
new_future_of c f none (some e) = record c { settled = c.settled ++ ((f, failed e) ∷ []) }
new_future_of c f none none = record c { pending = c.pending ++ (f ∷ []) }

pub new_future : CaughtUpState → ℕ → CaughtUpState
new_future c f = new_future_of c f c.tail c.terminal_err
