-- ===== src/Retry/AppendLoop/Runs.antt =====
-- What holds of a run of the append loop from any round on, knowing whether an earlier attempt is
-- uncertain.
use s2_sdk_go.Prelude.{
  ℕ, zero, suc, ◌+◌, ◌-◌, ◌≤◌, ◌<◌, ◌≡◌, refl, ◌⊎◌, inl, inr, Bool, true, false, not, ◌||◌, Option,
  none, some, ◌==◌, arith, if_ind, from_next, subst,
}
use s2_sdk_go.Context.{ContextError}
use s2_sdk_go.Errors.{
  Err, context_error, has_no_side_effects, is_indefinite, as_s2_error, with_prior_uncertainty,
}
use s2_sdk_go.Errors.Uncertainty.{with_prior_uncertainty_lem}
use s2_sdk_go.Retry.{
  RetryConfig, config_or_default, attempts_of, is_network_error, should_retry_network_error,
  should_retry_error,
}
use s2_sdk_go.Retry.Loop.Laws.{attempts_of-pos}
use s2_sdk_go.Retry.Loop.{
  CallResult, returned, failed, Round, Outcome, value, error, nothing, Run, unless_done,
  backoff_wait,
}
use s2_sdk_go.Retry.AppendLoop.{
  append_error, append_finish, append_on_error, append_on_result, append_loop, with_append_retries,
}

module _ {T : Type 0} (env : ℕ → Round T) (c : RetryConfig) where
  -- Attempt n failed, and its error rules out that it took effect.
  abbrev pub Harmless : ℕ → Type 0
  Harmless n = (e : Err) × ((env n).result ≡ failed e) × (has_no_side_effects e ≡ true)

  -- An attempt that was followed by another one.
  abbrev pub Retried : ℕ → Type 0
  Retried n =
      (e : Err) × ((env n).result ≡ failed e)
      × (((is_network_error (env n).ctx_classify e ≡ true) × (should_retry_network_error c ≡ true))
          ⊎ (should_retry_error e c ≡ true))

  -- From a success the value, from a harmless error the harmlessness of all attempts from n on.
  abbrev pub Claims : ℕ → ℕ → Outcome T → Type 0
  Claims n last (value v) = (env last).result ≡ returned v
  Claims n last (error e) = has_no_side_effects e ≡ true → (i : ℕ) → n ≤ i → i ≤ last → Harmless i
  Claims n last nothing = ⊥

  abbrev pub IsHarmlessError : Outcome T → Type 0
  IsHarmlessError (value v) = ⊥
  IsHarmlessError (error e) = has_no_side_effects e ≡ true
  IsHarmlessError nothing = ⊥

  -- A run that enters round n knowing whether an earlier attempt is uncertain.
  pub record IsRun (n : ℕ) (prior : Bool) (r : Run T) : Type 0 where
    pub starts : n - 1 ≤ r.0
    pub bounded : r.0 ≤ attempts_of c
    pub retried : (i : ℕ) → n ≤ i → i < r.0 → Retried i
    pub certain : IsHarmlessError r.1 → prior ≡ false
    pub claims : Claims n r.0 r.1

  harmless-prior :
      (e : Err) (prior : Bool)
      → has_no_side_effects (with_prior_uncertainty e prior) ≡ true
      → (prior ≡ false) × (has_no_side_effects e ≡ true)
  harmless-prior e true h = ground (arith, (with_prior_uncertainty_lem e true).1)
  harmless-prior e false h = ground (arith, (with_prior_uncertainty_lem e false).2)

  context-uncertain : (x : ContextError) → has_no_side_effects (context_error x) ≡ false
  unfolding has_no_side_effects is_indefinite as_s2_error
  context-uncertain x = refl

  module _ (n : ℕ) (pos : 1 ≤ n) (within : n ≤ attempts_of c) (prior : Bool) where
    stops :
        (e : Err)
        → (env n).result ≡ failed e
        → IsRun n prior (n, error (with_prior_uncertainty e prior))
    stops e h = record {
      starts = omega arith;
      bounded = within;
      retried = λ i a b. absurd (omega arith);
      certain = λ k. (harmless-prior e prior k).0;
      claims = λ k i a b.
          let s : n ≡ i = omega arith in subst Harmless s (e, h, (harmless-prior e prior k).1);
    }

    cancelled :
        (x : ContextError) (m : ℕ) → n - 1 ≤ m → m ≤ n → IsRun n prior (m, error (context_error x))
    cancelled x m a b = record {
      starts = a;
      bounded = omega arith;
      retried = λ i d e. absurd (omega arith);
      certain = λ k. ground (arith, context-uncertain x);
      claims = λ k i d e. ground (arith, context-uncertain x);
    }

    extend :
        (last : ℕ) (o : Outcome T)
        → (IsHarmlessError o → Harmless n)
        → Claims (n + 1) last o
        → Claims n last o
    extend last (value v) g h = h
    extend last (error e) g h =
        λ k i a b. from_next Harmless n i a (g k) (λ l. h k i (omega arith) b)
    extend last nothing g h = h

    goes_on :
        (next : Bool) (r : Run T)
        → Retried n
        → (next ≡ false → (prior ≡ false) × Harmless n)
        → IsRun (n + 1) next r
        → IsRun n prior r
    goes_on next r t g y = record {
      starts = omega (arith, y.starts);
      bounded = y.bounded;
      retried = λ i a b. from_next Retried n i a t (λ l. y.retried i (omega arith) b);
      certain = λ k. (g (y.certain k)).0;
      claims = extend r.0 r.1 (λ k. (g (y.certain k)).1) y.claims;
    }

    waits :
        (w : Option ContextError) (next : Bool) (r : Run T)
        → Retried n
        → (next ≡ false → (prior ≡ false) × Harmless n)
        → IsRun (n + 1) next r
        → IsRun n prior (unless_done w n r)
    unfolding unless_done
    waits none next r t g y = goes_on next r t g y
    waits (some x) next r t g y = cancelled x n (omega arith) (omega arith)

    finish-IsRun :
        (w : Option ContextError) (e : Err)
        → (env n).result ≡ failed e
        → IsRun n prior (append_finish env w c n (some e) prior)
    unfolding append_finish unless_done append_error
    finish-IsRun none e h = stops e h
    finish-IsRun (some x) e h = cancelled x n (omega arith) (omega arith)

    on_error-IsRun :
        (w : Option ContextError) (e : Err) (again : Bool → Run T)
        → (env n).result ≡ failed e
        → (n < attempts_of c → (p : Bool) → IsRun (n + 1) p (again p))
        → IsRun n prior (append_on_error env w c n e prior again)
    unfolding append_on_error
    on_error-IsRun w e again h y =
        if_ind (IsRun n prior) (is_network_error (env n).ctx_classify e)
          (λ t.
            if_ind (IsRun n prior) (n == attempts_of c || not (should_retry_network_error c))
              (λ _. finish-IsRun w e h)
              (λ l.
                waits (backoff_wait env c n) true (again true) (e, h, inl (t, ground (arith, l)))
                  (λ k. cc) (y (ground (arith, l)) true)))
          (λ _.
            if_ind (IsRun n prior) (not (should_retry_error e c) || n == attempts_of c)
              (λ _. stops e h)
              (λ l.
                waits (backoff_wait env c n) (prior || not (has_no_side_effects e)) (again _)
                  (e, h, inr (ground (arith, l)))
                  (λ k. (ground (arith, k), (e, h, ground (arith, k)))) (y (ground (arith, l)) _)))

    on_result-IsRun :
        (w : Option ContextError) (r : CallResult T) (again : Err → Bool → Run T)
        → (env n).result ≡ r
        → ((e : Err) → n < attempts_of c → (p : Bool) → IsRun (n + 1) p (again e p))
        → IsRun n prior (append_on_result env w c n r prior again)
    unfolding append_on_result unless_done
    on_result-IsRun w (returned v) again h y = record {
      starts = omega arith;
      bounded = within;
      retried = λ i a b. absurd (omega arith);
      certain = λ k. absurd k;
      claims = h;
    }
    on_result-IsRun w (failed e) again h y = unless (env n).ctx_after
      where
        unless :
            (a : Option ContextError)
            → IsRun n prior (unless_done a n (append_on_error env w c n e prior (again e)))
        unless none = on_error-IsRun w e (again e) h (y e)
        unless (some x) = cancelled x n (omega arith) (omega arith)

    before :
        (a : Option ContextError) (r : Run T)
        → IsRun n prior r
        → IsRun n prior (unless_done a (n - 1) r)
    unfolding unless_done
    before none r y = y
    before (some x) r y = cancelled x (n - 1) (omega arith) (omega arith)

  loop-IsRun :
      (w : Option ContextError) (left n : ℕ) (last : Option Err) (prior : Bool)
      → 1 ≤ n
      → n ≤ attempts_of c
      → n + left ≡ attempts_of c + 1
      → IsRun n prior (append_loop env w c left n last prior)
  unfolding append_loop
  loop-IsRun w zero n last prior p q e = absurd (omega arith)
  loop-IsRun w (suc left) n last prior p q e = before n p q prior (env n).ctx_before _ (
      on_result-IsRun n p q prior w (env n).result _ refl
        (λ x l u. loop-IsRun w left (n + 1) (some x) u (omega arith) (omega arith) (omega arith)))

pub with_append_retries-IsRun :
    {T : Type 0} (env : ℕ → Round T) (ctx_end : Option ContextError) (config : Option RetryConfig)
    → IsRun env (config_or_default config) 1 false (with_append_retries env ctx_end config)
unfolding with_append_retries
with_append_retries-IsRun env w config =
    loop-IsRun env c w (attempts_of c) 1 none false (omega arith) (attempts_of-pos _) (omega arith)
  where
    c : RetryConfig
    c = config_or_default config
