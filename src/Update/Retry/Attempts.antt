-- ===== src/Update/Retry/Attempts.antt =====
-- How often a retry loop calls, what it returns, and how long it sleeps.
use exobrain.Prelude.{
  ℕ, zero, suc, ◌+◌, ◌-◌, ◌*◌, ◌^◌, min, List, ◌∷◌, ◌≤◌, ◌<◌, ◌≡◌, ◌⊎◌, refl, true, false, not, [],
  arith, ◌||◌, leb, length, ap, if_ind, sym, subst,
}
use native.Mathlib.Decide.{dec_lt}
use native.Mathlib.Numerals.{add-one}
use exobrain.Update.Retry.{
  Exc, Outcome, value, error, Final, returned, step_error, Run, is_transient_error, backoff, after,
  attempt_once, attempts_from, call_with_retry, delay_of,
}

module _ {R : Type 0} where
  abbrev pub ended : Outcome R → Final R
  ended (value v) = returned v
  ended (error exc) = step_error exc

module _ {R : Type 0} (call : ℕ → Outcome R) (uniform : ℕ → ℕ → ℕ → ℕ)
    (max_attempts base_delay max_delay : ℕ) where
  -- The outcome of attempt `n` ends the loop.
  abbrev pub Ends : ℕ → Outcome R → Type 0
  Ends n (value v) = Unit
  Ends n (error exc) = (is_transient_error exc ≡ false) ⊎ (n ≡ max_attempts)

  abbrev pub IsRepeated : Outcome R → Type 0
  IsRepeated (value v) = ⊥
  IsRepeated (error exc) = is_transient_error exc ≡ true

  -- From attempt `first` on, the loop repeats the calls below `last`, and ends with that of `last`.
  pub record EndsAt (first last : ℕ) (run : Run R) : Type 0 where
    pub from_first : first ≤ last
    pub in_bounds : last ≤ max_attempts
    pub repeated : (k : ℕ) → first ≤ k → k < last → IsRepeated (call k)
    pub ends : Ends last (call last)
    pub final : run.final ≡ ended (call last)
    pub calls : run.calls + first ≡ suc last
    pub pauses : length run.sleeps + first ≡ last

  abbrev run_from : ℕ → ℕ → Run R
  run_from = attempts_from call uniform max_attempts base_delay max_delay

  abbrev once : ℕ → Outcome R → Run R → Run R
  once = attempt_once call uniform max_attempts base_delay max_delay

  -- One attempt that is repeated, before a loop that ends.
  EndsAt-after :
      (first last delay : ℕ) (run : Run R)
      → IsRepeated (call first)
      → EndsAt (suc first) last run
      → EndsAt first last (after call uniform max_attempts base_delay max_delay delay run)
  EndsAt-after first last delay run again x = record {
    from_first = omega (arith, x.from_first);
    in_bounds = x.in_bounds;
    repeated = λ k low high. elim (dec_lt first k) [
      | yes above ↦ x.repeated k above high
      | no not_above ↦ subst (λ n. IsRepeated (call n)) (omega arith) again
    ];
    ends = x.ends;
    final = x.final;
    calls = omega (arith, x.calls);
    pauses = omega (arith, x.pauses);
  }

  -- One attempt that ends the loop.
  EndsAt-last :
      (n : ℕ) (o : Outcome R)
      → call n ≡ o
      → n ≤ max_attempts
      → Ends n o
      → EndsAt n n (record { final = ended o; calls = 1; sleeps = [] })
  EndsAt-last n o e bound h = record {
    from_first = omega arith;
    in_bounds = bound;
    repeated = λ k low high. absurd (omega arith);
    ends = subst (Ends n) (sym e) h;
    final = rw e;
    calls = omega arith;
    pauses = omega arith;
  }

  abbrev Ending : ℕ → Run R → Type 0
  Ending first run = (last : ℕ) × EndsAt first last run

  -- An attempt that raised: `exc` is repeated if it is transient and attempts are left.
  error-Ending :
      (first : ℕ) (exc : Exc) (next : Run R)
      → call first ≡ error exc
      → first ≤ max_attempts
      → (first < max_attempts → Ending (suc first) next)
      → Ending first (once first (error exc) next)
  unfolding attempt_once
  error-Ending first exc next e bound more =
      if_ind (Ending first) (not (is_transient_error exc) || leb max_attempts first)
        (λ stop. (first, EndsAt-last first (error exc) e bound (ground arith)))
        (λ go_on.
          let (last, x) = more (ground arith) in
          (last, EndsAt-after first last _ next (subst IsRepeated (sym e) (ground arith)) x))

  attempts_from-Ending :
      (rounds first : ℕ)
      → first + rounds ≡ max_attempts
      → (o : Outcome R) → call first ≡ o
      → Ending first (once first o (run_from rounds (first + 1)))
  unfolding attempts_from attempt_once
  attempts_from-Ending rounds first end (value v) e =
      (first, EndsAt-last first (value v) e (omega arith) tt)
  attempts_from-Ending zero first end (error exc) e =
      error-Ending first exc _ e (omega arith) (λ below. absurd (omega arith))
  attempts_from-Ending (suc rounds) first end (error exc) e =
      error-Ending first exc _ e (omega arith) (λ below.
        rw (← add-one)
          (attempts_from-Ending rounds (first + 1) (omega arith) (call (first + 1)) refl))

  -- With at least one attempt allowed, the loop calls until a call returns, raises what is not
  -- transient, or was the last one allowed; it gives what that call gave, and pauses once between
  -- two calls. It never falls through.
  pub call_with_retry-EndsAt :
      0 < max_attempts
      → (last : ℕ) × EndsAt 1 last (call_with_retry call uniform max_attempts base_delay max_delay)
  unfolding call_with_retry attempts_from
  call_with_retry-EndsAt some_attempt =
      let e : max_attempts ≡ suc (max_attempts - 1) = omega arith in
      subst (λ n. Ending 1 (run_from n 1)) (sym e)
        (attempts_from-Ending (max_attempts - 1) 1 (omega arith) (call 1) refl)

  -- The pauses in fifths, from the one with number `k` on, counted from 0: the base delay is doubled
  -- after each pause, up to the longest delay, and at most a fifth of that is added.
  abbrev pub ArePauses : ℕ → List ℕ → Type 0
  ArePauses k [] = Unit
  ArePauses k (s ∷ sleeps) =
      (5 * min max_delay (base_delay * 2 ^ k) ≤ s)
      × (s ≤ 6 * min max_delay (base_delay * 2 ^ k))
      × ArePauses (suc k) sleeps

  abbrev delay : ℕ → ℕ
  delay = delay_of call uniform max_attempts base_delay max_delay

  module _ (drawn : (n b : ℕ) → uniform n 0 b ≤ b) where
    within : (b u : ℕ) → u ≤ b → (5 * b ≤ 5 * b + u) × (5 * b + u ≤ 6 * b)
    within b u h = (omega arith, omega arith)

    delay-bounds :
        (k : ℕ)
        → (5 * min max_delay (base_delay * 2 ^ k) ≤ delay (suc k))
          × (delay (suc k) ≤ 6 * min max_delay (base_delay * 2 ^ k))
    unfolding delay_of backoff
    delay-bounds k =
        let back : suc k - 1 ≡ k = omega arith in
        subst (λ b. (5 * b ≤ delay (suc k)) × (delay (suc k) ≤ 6 * b))
          (ap (λ n. min max_delay (base_delay * 2 ^ n)) back)
          (within (backoff base_delay max_delay (suc k)) _
            (drawn (suc k) (backoff base_delay max_delay (suc k))))

    once-pauses :
        (k : ℕ) (o : Outcome R) (next : Run R)
        → ArePauses (suc k) next.sleeps
        → ArePauses k (once (suc k) o next).sleeps
    unfolding attempt_once delay_of backoff
    once-pauses k (value v) next h = tt
    once-pauses k (error exc) next h =
        if_ind (λ (r : Run R). ArePauses k r.sleeps)
          (not (is_transient_error exc) || leb max_attempts (suc k)) (λ _. tt)
          (λ _. let (low, high) = delay-bounds k in (low, high, h))

    attempts_from-pauses : (rounds k : ℕ) → ArePauses k (run_from rounds (suc k)).sleeps
    unfolding attempts_from
    attempts_from-pauses zero k = tt
    attempts_from-pauses (suc rounds) k =
        once-pauses k (call (suc k)) (run_from rounds (suc k + 1))
          (rw add-one (attempts_from-pauses rounds (suc k)))

    -- Where random.uniform(0, b) gives at most b, the pause of number k, counted from 0, lasts at
    -- least the smaller of the longest delay and the base delay times 2 ^ k, and at most six fifths of
    -- that.
    pub call_with_retry-pauses :
        ArePauses 0 (call_with_retry call uniform max_attempts base_delay max_delay).sleeps
    unfolding call_with_retry
    call_with_retry-pauses = attempts_from-pauses max_attempts 0
