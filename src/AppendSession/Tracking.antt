-- ===== src/AppendSession/Tracking.antt =====
-- Results against what was enqueued: in order, once each, with as many records as were sent, at
-- ascending positions.
use s2_sdk_go.Prelude.{
  append_assoc, ℕ, ◌≡◌, ◌≤◌, ◌-◌, refl, sym, ap, subst, false, Option, some, List, [], ◌∷◌, ◌++◌,
  append-nil, if_ind,
}
use s2_sdk_go.Errors.{Err, session_closed}
use s2_sdk_go.Transport.{AppendAck}
use s2_sdk_go.AppendSession.State.{InflightEntry, InflightResult, acked, failed, fail_results}
use s2_sdk_go.AppendSession.Acks.{end_of, ends_by}
use s2_sdk_go.AppendSession.Pump.{mark_sent}
use s2_sdk_go.AppendSession.Submission.{close_results}
use s2_sdk_go.AppendSession.Moves.{Edited, none_left, edit}

-- An ack covers as many records as the entry has.
abbrev pub Fits : ℕ → InflightResult → Type 0
Fits n (failed e) = Unit
Fits n (acked a) = (a.start.seq_num ≤ end_of a) × (end_of a - a.start.seq_num ≡ n)

-- The results are those of the first entries enqueued, in order, and the others are in the queue.
abbrev pub Tracks : List (ℕ × ℕ) → List (ℕ × InflightResult) → List (ℕ × ℕ) → Type 0
Tracks enqueued [] queue = enqueued ≡ queue
Tracks [] (r ∷ rs) queue = ⊥
Tracks ((ch, n) ∷ enqueued) ((c, r) ∷ rs) queue = (ch ≡ c) × Fits n r × Tracks enqueued rs queue

pub Tracks-pop :
    (es : List (ℕ × ℕ)) (rs : List (ℕ × InflightResult)) (ch n : ℕ) (queue : List (ℕ × ℕ))
    (r : InflightResult)
    → Tracks es rs ((ch, n) ∷ queue)
    → Fits n r
    → Tracks es (rs ++ ((ch, r) ∷ [])) queue
Tracks-pop es [] ch n queue r t f =
    subst (λ xs. Tracks xs ((ch, r) ∷ []) queue) (sym t) (refl, f, refl)
Tracks-pop [] (x ∷ rs) ch n queue r t f = t
Tracks-pop ((d, m) ∷ es) ((c, x) ∷ rs) ch n queue r (e, g, t) f =
    (e, g, Tracks-pop es rs ch n queue r t f)

pub Tracks-join :
    (es : List (ℕ × ℕ)) (rs : List (ℕ × InflightResult)) (queue : List (ℕ × ℕ)) (x : ℕ × ℕ)
    → Tracks es rs queue
    → Tracks (es ++ (x ∷ [])) rs (queue ++ (x ∷ []))
Tracks-join es [] queue x t = ap (λ xs. xs ++ (x ∷ [])) t
Tracks-join [] (r ∷ rs) queue x t = absurd t
Tracks-join ((d, m) ∷ es) ((c, r) ∷ rs) queue x (e, g, t) = (e, g, Tracks-join es rs queue x t)

-- Each ack ends behind the one before it; the last of them is kept.
abbrev pub Ascends : Option AppendAck → List (ℕ × InflightResult) → Option AppendAck → Type 0
Ascends before [] last = before ≡ last
Ascends before ((c, failed e) ∷ rs) last = Ascends before rs last
Ascends before ((c, acked a) ∷ rs) last = (ends_by a before ≡ false) × Ascends (some a) rs last

pub Ascends-ack :
    (before : Option AppendAck) (rs : List (ℕ × InflightResult)) (last : Option AppendAck) (ch : ℕ)
    (a : AppendAck)
    → Ascends before rs last
    → ends_by a last ≡ false
    → Ascends before (rs ++ ((ch, acked a) ∷ [])) (some a)
Ascends-ack before [] last ch a h n = (subst (λ x. ends_by a x ≡ false) (sym h) n, refl)
Ascends-ack before ((c, failed e) ∷ rs) last ch a h n = Ascends-ack before rs last ch a h n
Ascends-ack before ((c, acked b) ∷ rs) last ch a (g, h) n =
    (g, Ascends-ack (some b) rs last ch a h n)

pub Ascends-failed :
    (before : Option AppendAck) (rs : List (ℕ × InflightResult)) (last : Option AppendAck) (ch : ℕ)
    (e : Err)
    → Ascends before rs last
    → Ascends before (rs ++ ((ch, failed e) ∷ [])) last
Ascends-failed before [] last ch e h = h
Ascends-failed before ((c, failed f) ∷ rs) last ch e h = Ascends-failed before rs last ch e h
Ascends-failed before ((c, acked b) ∷ rs) last ch e (g, h) =
    (g, Ascends-failed (some b) rs last ch e h)

module _ {C : Type 0} where
  abbrev pub tickets : List (InflightEntry C) → List (ℕ × ℕ)
  tickets [] = []
  tickets (e ∷ es) = (e.result_ch, e.expected_count) ∷ tickets es

  abbrev pub AllPending : List (InflightEntry C) → Type 0
  AllPending [] = Unit
  AllPending (e ∷ es) = (e.completed ≡ false) × AllPending es

  pub tickets-append :
      (xs ys : List (InflightEntry C)) → tickets (xs ++ ys) ≡ tickets xs ++ tickets ys
  tickets-append [] ys = refl
  tickets-append (x ∷ xs) ys = ap (◌∷◌ (x.result_ch, x.expected_count)) (tickets-append xs ys)

  pub AllPending-append :
      (xs ys : List (InflightEntry C)) → AllPending xs → AllPending ys → AllPending (xs ++ ys)
  AllPending-append [] ys a b = b
  AllPending-append (x ∷ xs) ys (h, a) b = (h, AllPending-append xs ys a b)

  pub tickets-Edited : {xs ys : List (InflightEntry C)} → Edited xs ys → tickets xs ≡ tickets ys
  tickets-Edited none_left = refl
  tickets-Edited (edit e start prior p d) =
      ap (◌∷◌ (e.result_ch, e.expected_count)) (tickets-Edited d)

  pub AllPending-Edited :
      {xs ys : List (InflightEntry C)} → Edited xs ys → AllPending xs → AllPending ys
  AllPending-Edited none_left a = tt
  AllPending-Edited (edit e start prior p d) (h, a) = (h, AllPending-Edited d a)

  -- Marking an entry as sent changes neither.
  pub tickets-mark_sent :
      (xs ys : List (InflightEntry C)) (e : InflightEntry C) (s now : ℕ)
      → tickets (xs ++ (mark_sent e s now ∷ ys)) ≡ tickets (xs ++ (e ∷ ys))
  unfolding mark_sent
  tickets-mark_sent [] ys e s now = refl
  tickets-mark_sent (x ∷ xs) ys e s now =
      ap (◌∷◌ (x.result_ch, x.expected_count)) (tickets-mark_sent xs ys e s now)

  pub AllPending-mark_sent :
      (xs ys : List (InflightEntry C)) (e : InflightEntry C) (s now : ℕ)
      → AllPending (xs ++ (e ∷ ys))
      → AllPending (xs ++ (mark_sent e s now ∷ ys))
  unfolding mark_sent
  AllPending-mark_sent [] ys e s now a = a
  AllPending-mark_sent (x ∷ xs) ys e s now (h, a) = (h, AllPending-mark_sent xs ys e s now a)

  -- Failed results, one for each entry, in order.
  pub data FailsAll : List (InflightEntry C) → List (ℕ × InflightResult) → Type 0 where
    no_more : FailsAll [] []
    one_more :
        (e : InflightEntry C) (x : Err) {es : List (InflightEntry C)}
        {rs : List (ℕ × InflightResult)}
        → FailsAll es rs
        → FailsAll (e ∷ es) ((e.result_ch, failed x) ∷ rs)

  pub fail_results-FailsAll :
      (q : List (InflightEntry C)) (err : Err) → AllPending q → FailsAll q (fail_results q err)
  unfolding fail_results
  fail_results-FailsAll [] err a = no_more
  fail_results-FailsAll (e ∷ es) err (h, a) =
      if_ind (FailsAll (e ∷ es)) e.completed (λ t. cc)
        (λ _. one_more e _ (fail_results-FailsAll es err a))

  pub close_results-FailsAll :
      (q : List (InflightEntry C)) → AllPending q → FailsAll q (close_results q)
  unfolding close_results
  close_results-FailsAll [] a = no_more
  close_results-FailsAll (e ∷ es) (h, a) =
      if_ind (FailsAll (e ∷ es)) e.completed (λ t. cc)
        (λ _. one_more e session_closed (close_results-FailsAll es a))

  pub FailsAll-Tracks :
      {q : List (InflightEntry C)} {fs : List (ℕ × InflightResult)} (es : List (ℕ × ℕ))
      (rs : List (ℕ × InflightResult))
      → FailsAll q fs
      → Tracks es rs (tickets q)
      → Tracks es (rs ++ fs) []
  FailsAll-Tracks es rs no_more t = subst (λ xs. Tracks es xs []) (sym (append-nil rs)) t
  FailsAll-Tracks es rs (one_more e x {es = q} {rs = fs} f) t =
      subst (λ xs. Tracks es xs []) (append_assoc rs ((e.result_ch, failed x) ∷ []) fs)
        (FailsAll-Tracks es (rs ++ ((e.result_ch, failed x) ∷ [])) f
          (Tracks-pop es rs e.result_ch e.expected_count (tickets q) (failed x) t tt))

  pub FailsAll-Ascends :
      {q : List (InflightEntry C)} {fs : List (ℕ × InflightResult)} (before : Option AppendAck)
      (rs : List (ℕ × InflightResult)) (last : Option AppendAck)
      → FailsAll q fs
      → Ascends before rs last
      → Ascends before (rs ++ fs) last
  FailsAll-Ascends before rs last no_more h =
      subst (λ xs. Ascends before xs last) (sym (append-nil rs)) h
  FailsAll-Ascends before rs last (one_more e x {es = q} {rs = fs} f) h =
      subst (λ xs. Ascends before xs last) (append_assoc rs ((e.result_ch, failed x) ∷ []) fs)
        (FailsAll-Ascends before (rs ++ ((e.result_ch, failed x) ∷ [])) last f
          (Ascends-failed before rs last e.result_ch x h))
