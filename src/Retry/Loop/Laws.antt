-- ===== src/Retry/Loop/Laws.antt =====
-- Which failures are retried, how often, and what the caller is told.
use s2_sdk_go.Prelude.{
  ℕ, zero, suc, ◌+◌, ◌-◌, ◌≤◌, ◌<◌, ◌≡◌, refl, ap, ◌∙◌, ◌⊎◌, inl, inr, true, not, Option, none,
  some, ◌==◌, ltb, arith, if_ind, from_next,
}
use s2_sdk_go.Context.{ContextError}
use s2_sdk_go.Errors.{Err, S2Error, s2_error, context_error, as_s2_error, is_retryable}
use s2_sdk_go.Retry.{RetryConfig, config_or_default, attempts_of, is_network_error}
use s2_sdk_go.Retry.Loop.{
  CallResult, returned, failed, Round, Outcome, value, error, nothing, Run, unless_done, last_error,
  backoff_wait, finish, on_s2_error, on_error, on_result, attempt_loop, with_retries,
}

module _ {T : Type 0} (env : ℕ → Round T) (max : ℕ) where
  -- The failures after which the operation is called again.
  abbrev pub IsTransient : ℕ → Err → Type 0
  IsTransient n e =
      (is_network_error (env n).ctx_classify e ≡ true)
      ⊎ ((s : S2Error) × (as_s2_error e ≡ some s) × (is_retryable s ≡ true))

  abbrev pub Retried : ℕ → Type 0
  Retried n = (e : Err) × ((env n).result ≡ failed e) × IsTransient n e

  -- The error handed out is the failure itself, or the `*S2Error` within it.
  abbrev pub Reports : Err → Err → Type 0
  Reports r e = (r ≡ e) ⊎ ((s : S2Error) × (as_s2_error e ≡ some s) × (r ≡ s2_error s))

module _ {T : Type 0} (env : ℕ → Round T) (max : ℕ) (w : Option ContextError)
    (c : RetryConfig) where
  -- After n calls: what the context says at the end, before the next call, behind the last one, or
  -- when the wait behind that one ends.
  abbrev pub Ended : ℕ → ContextError → Type 0
  Ended n x =
      (w ≡ some x)
      ⊎ (((env (n + 1)).ctx_before ≡ some x)
          ⊎ ((1 ≤ n) × (((env n).ctx_after ≡ some x) ⊎ (backoff_wait env c n ≡ some x))))

  -- A value is the last call's. An error is the context's, or the last call's.
  abbrev pub Explained : ℕ → Outcome T → Type 0
  Explained n (value v) = (env n).result ≡ returned v
  Explained n (error r) =
      ((x : ContextError) × Ended n x × (r ≡ context_error x))
      ⊎ ((e : Err) × ((env n).result ≡ failed e) × Reports env max r e)
  Explained n nothing = ⊥

  pub record IsRun (n : ℕ) (r : Run T) : Type 0 where
    pub starts : n - 1 ≤ r.0
    pub bounded : r.0 ≤ max
    pub retried : (i : ℕ) → n ≤ i → i < r.0 → Retried env max i
    explained : Explained r.0 r.1

  module _ (n : ℕ) (pos : 1 ≤ n) (within : n ≤ max) where
    stops : (o : Outcome T) → Explained n o → IsRun n (n, o)
    stops o x = record {
      starts = omega arith;
      bounded = within;
      retried = λ i a b. absurd (omega arith);
      explained = x;
    }

    cancelled : (x : ContextError) → Ended n x → IsRun n (n, error (context_error x))
    cancelled x h = stops (error (context_error x)) (inl (x, h, refl))

    goes_on : (r : Run T) → Retried env max n → IsRun (n + 1) r → IsRun n r
    goes_on r t y = record {
      starts = omega (arith, y.starts);
      bounded = y.bounded;
      retried = λ i a b. from_next (Retried env max) n i a t (λ l. y.retried i (omega arith) b);
      explained = y.explained;
    }

    waits :
        (v : Option ContextError) (r : Run T)
        → backoff_wait env c n ≡ v
        → Retried env max n
        → IsRun (n + 1) r
        → IsRun n (unless_done v n r)
    unfolding unless_done
    waits none r h t y = goes_on r t y
    waits (some x) r h t y = cancelled x (inr (inr (pos, inr h)))

    ended :
        (v : Option ContextError) (e : Err)
        → w ≡ v
        → (env n).result ≡ failed e
        → IsRun n (unless_done v n (n, last_error (some e)))
    unfolding unless_done last_error
    ended none e q h = stops (error e) (inr (e, h, inl refl))
    ended (some x) e q h = cancelled x (inl q)

    finish-IsRun : (e : Err) → (env n).result ≡ failed e → IsRun n (finish env w c max n (some e))
    unfolding finish
    finish-IsRun e h = ended w e refl h

    -- The next round is only reached with an attempt to spare.
    on_s2_error-IsRun :
        (e : Err) (o : Option S2Error) (again : Run T)
        → as_s2_error e ≡ o
        → (env n).result ≡ failed e
        → (n < max → IsRun (n + 1) again)
        → IsRun n (on_s2_error env w c max n e o again)
    unfolding on_s2_error
    on_s2_error-IsRun e none again a h y = stops (error e) (inr (e, h, inl refl))
    on_s2_error-IsRun e (some s) again a h y =
        if_ind (IsRun n) (n == max) (λ _. finish-IsRun e h)
          (λ last.
            if_ind (IsRun n) (not (is_retryable s))
              (λ _. stops (error (s2_error s)) (inr (e, h, inr (s, a, refl))))
              (λ t.
                waits (backoff_wait env c n) again refl (e, h, inr (s, a, ground (arith, t)))
                  (y (ground (arith, last)))))

    on_error-IsRun :
        (e : Err) (again : Run T)
        → (env n).result ≡ failed e
        → (n < max → IsRun (n + 1) again)
        → IsRun n (on_error env w c max n e again)
    unfolding on_error
    on_error-IsRun e again h y =
        if_ind (IsRun n) (is_network_error (env n).ctx_classify e)
          (λ t.
            if_ind (IsRun n) (ltb n max)
              (λ l. waits (backoff_wait env c n) again refl (e, h, inl t) (y (ground (arith, l))))
              (λ _. stops (error e) (inr (e, h, inl refl))))
          (λ _. on_s2_error-IsRun e (as_s2_error e) again refl h y)

    on_result-IsRun :
        (res : CallResult T) (again : Err → Run T)
        → (env n).result ≡ res
        → ((e : Err) → n < max → IsRun (n + 1) (again e))
        → IsRun n (on_result env w c max n res again)
    unfolding on_result unless_done
    on_result-IsRun (returned v) again h y = stops (value v) h
    on_result-IsRun (failed e) again h y = unless (env n).ctx_after refl
      where
        unless :
            (a : Option ContextError)
            → (env n).ctx_after ≡ a
            → IsRun n (unless_done a n (on_error env w c max n e (again e)))
        unless none q = on_error-IsRun e (again e) h (y e)
        unless (some x) q = cancelled x (inr (inr (pos, inl q)))

    before :
        (a : Option ContextError) (r : Run T)
        → (env n).ctx_before ≡ a
        → IsRun n r
        → IsRun n (unless_done a (n - 1) r)
    unfolding unless_done
    before none r h y = y
    before (some x) r h y = record {
      starts = omega arith;
      bounded = omega arith;
      retried = λ i b c. absurd (omega arith);
      explained = inl (x, inr (inl (ap (λ i. (env i).ctx_before) (omega (arith, pos)) ∙ h)), refl);
    }

  loop-IsRun :
      (left n : ℕ) (last : Option Err)
      → 1 ≤ n
      → n ≤ max
      → n + left ≡ max + 1
      → IsRun n (attempt_loop env w c max left n last)
  unfolding attempt_loop
  loop-IsRun zero n last p q e = absurd (omega arith)
  loop-IsRun (suc left) n last p q e = before n p q (env n).ctx_before _ refl (
      on_result-IsRun n p q (env n).result _ refl
        (λ x l. loop-IsRun left (n + 1) (some x) (omega arith) (omega arith) (omega arith)))

pub attempts_of-pos : (c : RetryConfig) → 1 ≤ attempts_of c
unfolding attempts_of
attempts_of-pos c = ground arith

with_retries-IsRun :
    {T : Type 0} (env : ℕ → Round T) (ctx_end : Option ContextError) (config : Option RetryConfig)
    → IsRun env
        (attempts_of (config_or_default config))
        ctx_end
        (config_or_default config)
        1
        (with_retries env ctx_end config)
unfolding with_retries
with_retries-IsRun env w config =
    loop-IsRun env max w c max 1 none (omega arith) (attempts_of-pos _) (omega arith)
  where
    c : RetryConfig
    c = config_or_default config

    max : ℕ
    max = attempts_of c

module _ {T : Type 0} (env : ℕ → Round T) (ctx_end : Option ContextError)
    (config : Option RetryConfig) where
  -- Every attempt of the retry loop that was followed by another one came before the last one
  -- allowed, and failed on the network or with a retryable S2 error.
  pub with_retries-Retried :
      (i : ℕ)
      → 1 ≤ i
      → i < (with_retries env ctx_end config).0
      → (i < attempts_of (config_or_default config))
        × Retried env (attempts_of (config_or_default config)) i
  with_retries-Retried i a b =
      let r = with_retries-IsRun env ctx_end config in (omega (arith, r.bounded), r.retried i a b)

  -- The retry loop makes at most the configured number of calls, and always has an outcome: the
  -- value of its last call; the last call's failure, as it is or as the S2 error within it; or the
  -- error that the context really has, where the loop ends: before the next call, behind the last
  -- one, as the wait behind that ends, or when all is done.
  pub with_retries-Explained :
      let run = with_retries env ctx_end config in
      (run.0 ≤ attempts_of (config_or_default config))
      × Explained env
          (attempts_of (config_or_default config))
          ctx_end
          (config_or_default config)
          run.0
          run.1
  with_retries-Explained = let r = with_retries-IsRun env ctx_end config in (r.bounded, r.explained)
