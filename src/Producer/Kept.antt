-- ===== src/Producer/Kept.antt =====
-- The operations of a producer that say nothing to those who wait for records and barriers.
use s2_sdk_go.Prelude.{ℕ, ◌≡◌, refl, ◌∙◌, List, Option, none, some, if_ind, ltb}
use s2_sdk_go.Context.{ContextError}
use s2_sdk_go.Errors.{Err, context_error}
use s2_sdk_go.Records.{AppendRecord, metered_payload_bytes}
use s2_sdk_go.Batcher.{Batcher, RecordMeta, Select, flush_barrier}
use s2_sdk_go.Producer.{
  Producer, keep_cause, release_bytes, release_producer_permits, set_terminal,
  record_terminal_error, is_session_closed, on_batcher_done, on_ctx_done,
}
use s2_sdk_go.Producer.Submission.{
  refused_with, refusal, within_batch, begin_submit, map_cause, map_submit_error, release_permit,
  after_add, unless_refused, submit_reserved, begin_flush, ordered, order_barrier, closed_batcher,
  begin_close, end_ctx, end_close,
}

pub record Keeps (p q : Producer) : Type 0 where
  pub same_log : q.log ≡ p.log
  pub same_pending : q.pending ≡ p.pending
  pub same_stalled : q.stalled ≡ p.stalled
  pub same_error : q.append_err ≡ p.append_err

-- What holds of all but these four fields.
abbrev kept :
    (p q : Producer)
    → q.log ≡ p.log
    → q.pending ≡ p.pending
    → q.stalled ≡ p.stalled
    → q.append_err ≡ p.append_err
    → Keeps p q
kept p q a b c d = record { same_log = a; same_pending = b; same_stalled = c; same_error = d }

pub alike : (p : Producer) → Keeps p p
alike p = kept p p refl refl refl refl

then_Keeps : {p q r : Producer} → Keeps p q → Keeps q r → Keeps p r
then_Keeps k l =
    kept _ _ (l.same_log ∙ k.same_log) (l.same_pending ∙ k.same_pending)
      (l.same_stalled ∙ k.same_stalled) (l.same_error ∙ k.same_error)

set_terminal-Keeps : (o : Option Err) (p : Producer) (e : Err) → Keeps p (set_terminal o p e).0
unfolding set_terminal
set_terminal-Keeps none p e = kept p _ refl refl refl refl
set_terminal-Keeps (some old) p e = alike p

pub record_terminal_error-Keeps : (p : Producer) (e : Err) → Keeps p (record_terminal_error p e).0
unfolding record_terminal_error
record_terminal_error-Keeps p e = set_terminal-Keeps p.terminal_err p e

pub release_producer_permits-Keeps :
    (p : Producer) (ms : List RecordMeta) → Keeps p (release_producer_permits p ms)
unfolding release_producer_permits release_bytes
release_producer_permits-Keeps p ms = kept p _ refl refl refl refl

-- A terminal error comes first.
unless_terminal :
    (p : Producer) (o : Option Err) (x : Producer × Option Err)
    → Keeps p x.0
    → let y : Producer × Option Err = elim o [ some e ↦ (p, some e) | none ↦ x ] in Keeps p y.0
unless_terminal p none x k = k
unless_terminal p (some e) x k = alike p

unless_terminal_err :
    (p : Producer) (o : Option Err) (x : Producer × Err)
    → Keeps p x.0
    → let y : Producer × Err = elim o [ some e ↦ (p, e) | none ↦ x ] in Keeps p y.0
unless_terminal_err p none x k = k
unless_terminal_err p (some e) x k = alike p

refused_ctx :
    (p : Producer) (o : Option ContextError)
    → let y : Producer × Option Err = elim o [
      | none ↦ (p, none)
      | some x ↦ refused_with (record_terminal_error p (context_error x))
    ] in
      Keeps p y.0
unfolding refused_with
refused_ctx p none = alike p
refused_ctx p (some x) = record_terminal_error-Keeps p (context_error x)

refusal-Keeps : (p : Producer) → Keeps p (refusal p).0
unfolding refusal
refusal-Keeps p = unless_terminal p p.terminal_err _ (
    if_ind (λ (x : Producer × Option Err). Keeps p x.0) p.closing (λ _. alike p)
      (λ _. refused_ctx p p.ctx))

within_batch-Keeps :
    (p : Producer) (r : AppendRecord) (x : Producer × Option Err)
    → Keeps p x.0
    → Keeps p (within_batch r x).0
unfolding within_batch
within_batch-Keeps p r (q, some e) k = k
within_batch-Keeps p r (q, none) k =
    if_ind (λ (x : Producer × Option Err). Keeps p x.0)
      (ltb q.batcher.opts.max_metered_bytes (metered_payload_bytes r)) (λ _. k) (λ _. k)

pub begin_submit-Keeps : (p : Producer) (r : AppendRecord) → Keeps p (begin_submit p r).0
unfolding begin_submit
begin_submit-Keeps p r = within_batch-Keeps p r (refusal p) (refusal-Keeps p)

map_cause-Keeps : (p : Producer) (o : Option Err) (e : Err) → Keeps p (map_cause p o e).0
unfolding map_cause
map_cause-Keeps p none e = alike p
map_cause-Keeps p (some c) e =
    if_ind (λ (x : Producer × Err). Keeps p x.0) (is_session_closed c) (λ _. alike p)
      (λ _. record_terminal_error-Keeps p c)

pub map_submit_error-Keeps : (p : Producer) (e : Err) → Keeps p (map_submit_error p e).0
unfolding map_submit_error
map_submit_error-Keeps p e = unless_terminal_err p p.terminal_err _ (
    if_ind (λ (x : Producer × Err). Keeps p x.0) p.closing (λ _. alike p)
      (λ _. map_cause-Keeps p p.submit_cause e))

release_permit-Keeps : (p : Producer) (k : ℕ) → Keeps p (release_permit p k)
unfolding release_permit release_bytes
release_permit-Keeps p k = kept p _ refl refl refl refl

after_add-Keeps : (p : Producer) (k : ℕ) (x : Batcher × Option Err) → Keeps p (after_add p k x).0
unfolding after_add
after_add-Keeps p k (b, none) = kept p _ refl refl refl refl
after_add-Keeps p k (b, some e) =
    then_Keeps (kept p (record p { batcher = b }) refl refl refl refl) (release_permit-Keeps _ k)

unless_refused-Keeps :
    (p : Producer) (x : Producer × Option Err) (r : AppendRecord) (ch k : ℕ) (first last : Select)
    → Keeps p x.0
    → Keeps p (unless_refused x r ch k first last).0
unfolding unless_refused
unless_refused-Keeps p (q, some e) r ch k first last h = then_Keeps h (release_permit-Keeps q k)
unless_refused-Keeps p (q, none) r ch k first last h = then_Keeps h (after_add-Keeps q k _)

pub submit_reserved-Keeps :
    (p : Producer) (r : AppendRecord) (ch : ℕ) (first last : Select)
    → Keeps p (submit_reserved p r ch first last).0
unfolding submit_reserved
submit_reserved-Keeps p r ch first last =
    unless_refused-Keeps p _ r ch _ first last
      (then_Keeps (kept p _ refl refl refl refl) (refusal-Keeps _))

pub begin_flush-Keeps : (p : Producer) → Keeps p (begin_flush p).0
unfolding begin_flush
begin_flush-Keeps p = refusal-Keeps p

ordered-Keeps : (p : Producer) (o : Option Err) → Keeps p (ordered p o).0
unfolding ordered refused_with
ordered-Keeps p none = alike p
ordered-Keeps p (some e) =
    if_ind (λ (x : Producer × Option Err). Keeps p x.0) (is_session_closed e) (λ _. alike p)
      (λ _. record_terminal_error-Keeps p e)

pub order_barrier-Keeps :
    (p : Producer) (barrier : ℕ) (first : Select) (ctx : Option ContextError) (last : Select)
    → Keeps p (order_barrier p barrier first ctx last).0
unfolding order_barrier
order_barrier-Keeps p barrier first ctx last =
    then_Keeps (kept p _ refl refl refl refl)
      (ordered-Keeps _ (flush_barrier p.batcher barrier first ctx last).1)

closed_batcher-Keeps : (p : Producer) (x : Batcher × Option Err) → Keeps p (closed_batcher p x)
unfolding closed_batcher
closed_batcher-Keeps p (b, none) = kept p _ refl refl refl refl
closed_batcher-Keeps p (b, some e) =
    then_Keeps (kept p (record p { batcher = b }) refl refl refl refl)
      (record_terminal_error-Keeps _ e)

pub begin_close-Keeps : (p : Producer) (s : Select) → Keeps p (begin_close p s)
unfolding begin_close
begin_close-Keeps p s = then_Keeps (kept p _ refl refl refl refl) (closed_batcher-Keeps _ _)

end_ctx-Keeps : (p : Producer) (o : Option ContextError) → Keeps p (end_ctx p o)
unfolding end_ctx
end_ctx-Keeps p none = alike p
end_ctx-Keeps p (some x) = record_terminal_error-Keeps p (context_error x)

pub end_close-Keeps : (p : Producer) → Keeps p (end_close p).0
unfolding end_close
end_close-Keeps p = then_Keeps (end_ctx-Keeps p p.ctx) (kept _ _ refl refl refl refl)

pub on_ctx_done-Keeps : (p : Producer) (x : ContextError) → Keeps p (on_ctx_done p x)
unfolding on_ctx_done
on_ctx_done-Keeps p x =
    if_ind (Keeps p) p.closing (λ _. alike p) (λ _. record_terminal_error-Keeps p (context_error x))

pub on_batcher_done-Keeps : (p : Producer) (cause : Err) → Keeps p (on_batcher_done p cause)
unfolding on_batcher_done
on_batcher_done-Keeps p cause =
    let k =
      kept p (record p { submit_cause = keep_cause p.submit_cause cause }) refl refl refl refl in
    if_ind (Keeps p) (is_session_closed cause) (λ _. k)
      (λ _. then_Keeps k (record_terminal_error-Keeps _ cause))
