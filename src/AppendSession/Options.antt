-- ===== src/AppendSession/Options.antt =====
-- The options that a session starts with are usable, and complete.
use text.Mathlib.Text.{◌==◌ as str_eq}
use s2_sdk_go.Prelude.{
  subst, sym, ◌∙◌, ℕ, ◌≤◌, ◌≡◌, refl, ap, arith, true, false, Option, none, some, if◌then◌else◌,
  ◌==◌, ltb, if_ind, ◌⊎◌, inl, inr, ℤ, pos, is_positive,
}
use s2_sdk_go.Errors.{Err}
use s2_sdk_go.Retry.{config_or_default, RetryConfig}
use s2_sdk_go.AppendSession.{
  AppendSessionOptions, min_inflight_bytes, override, fill, with_retry, with_defaults,
  apply_append_session_defaults,
}

pub record IsComplete (c : RetryConfig) : Type 0 where
  pub some_attempts : is_positive c.max_attempts ≡ true
  pub some_min : is_positive c.min_base_delay ≡ true
  pub some_max : is_positive c.max_base_delay ≡ true
  pub some_policy : str_eq c.append_retry_policy "" ≡ false

pub IsUsable : {C : Type 0} → AppendSessionOptions C → Type 0
IsUsable o =
    (min_inflight_bytes ≤ o.max_inflight_bytes)
    × ((c : RetryConfig) × (o.retry_config ≡ some c) × IsComplete c)

positive_or :
    (i : ℤ) (n : ℕ)
    → is_positive (pos n) ≡ true
    → is_positive (if is_positive i then i else pos n) ≡ true
positive_or i n h = if_ind (λ j. is_positive j ≡ true) (is_positive i) (λ t. t) (λ _. h)

fill-IsComplete : (c : RetryConfig) → IsComplete (fill c)
unfolding fill
fill-IsComplete c = record {
  some_attempts = positive_or c.max_attempts _ refl;
  some_min = positive_or c.min_base_delay _ refl;
  some_max = positive_or c.max_base_delay _ refl;
  some_policy =
      if_ind (λ s. str_eq s "" ≡ false) (str_eq c.append_retry_policy "") (λ _. refl) (λ f. f);
}

fill_complete : (c : RetryConfig) → IsComplete c → fill c ≡ c
unfolding fill
fill_complete c i = rw (i.some_attempts, i.some_min, i.some_max, i.some_policy)

override_complete : (b c : RetryConfig) → IsComplete c → override b (some c) ≡ c
unfolding override
override_complete b c i = rw (i.some_attempts, i.some_min, i.some_max, i.some_policy)

module _ {C : Type 0} where
  -- The result is an error, or options with a property.
  abbrev pub Result : (AppendSessionOptions C → Type 0) → Err ⊎ AppendSessionOptions C → Type 0
  Result P (inl e) = Unit
  Result P (inr o) = P o

  with_defaults-IsUsable :
      (o : AppendSessionOptions C) (base : Option RetryConfig)
      → Result IsUsable (with_defaults o base)
  unfolding with_defaults IsUsable
  with_defaults-IsUsable o base =
      if_ind (Result IsUsable) (o.max_inflight_bytes == 0)
        (λ _. (omega arith, (_, refl, fill-IsComplete _)))
        (λ _.
          if_ind (Result IsUsable) (ltb o.max_inflight_bytes min_inflight_bytes) (λ _. tt)
            (λ n. (ground arith, (_, refl, fill-IsComplete _))))

  apply_append_session_defaults-IsUsable :
      (o : Option (AppendSessionOptions C)) (base : Option RetryConfig)
      → Result IsUsable (apply_append_session_defaults o base)
  unfolding apply_append_session_defaults
  apply_append_session_defaults-IsUsable none base = with_defaults-IsUsable _ base
  apply_append_session_defaults-IsUsable (some o) base = with_defaults-IsUsable o base

  with_retry_complete :
      (o : AppendSessionOptions C) (base : Option RetryConfig) (c : RetryConfig)
      → o.retry_config ≡ some c
      → IsComplete c
      → with_retry o base ≡ o
  with_retry_complete o base c h i =
      let e =
        ap (λ r. some (fill (override (config_or_default base) r))) h
        ∙ ap some (ap fill (override_complete (config_or_default base) c i) ∙ fill_complete c i)
        ∙ sym h in
      ap (λ r. record o { retry_config = r }) e

  IsUsable-apply_append_session_defaults :
      (o : AppendSessionOptions C) (base : Option RetryConfig)
      → IsUsable o
      → apply_append_session_defaults (some o) base ≡ inr o
  unfolding apply_append_session_defaults with_defaults IsUsable
  IsUsable-apply_append_session_defaults o base (b, (c, h, i)) =
      let P : Err ⊎ AppendSessionOptions C → Type 0 = (λ r. r ≡ inr o) in
      if_ind P (o.max_inflight_bytes == 0) (λ z. absurd (ground arith))
        (λ _.
          if_ind P (ltb o.max_inflight_bytes min_inflight_bytes) (λ z. absurd (ground arith))
            (λ _. ap inr (with_retry_complete o base c h i)))

  -- If the defaults of append session options are applied with success, the result allows 1 MiB in
  -- flight at least and has a retry configuration whose attempts, delays and policy are all set;
  -- and applying them once more, over whatever retry configuration of a client, changes nothing.
  pub apply_append_session_defaults-Stable :
      (o : Option (AppendSessionOptions C)) (base later : Option RetryConfig)
      (r : AppendSessionOptions C)
      → apply_append_session_defaults o base ≡ inr r
      → IsUsable r × (apply_append_session_defaults (some r) later ≡ inr r)
  apply_append_session_defaults-Stable o base later r h =
      let u : IsUsable r =
        subst (Result IsUsable) h (apply_append_session_defaults-IsUsable o base) in
      (u, IsUsable-apply_append_session_defaults r later u)
