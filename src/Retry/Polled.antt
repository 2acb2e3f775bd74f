-- ===== src/Retry/Polled.antt =====
-- The results and the end of the polling loop of crates/aa-ra-client/src/retry.rs.
use prolog_forge.Prelude.{
  ℕ, zero, suc, ◌+◌, ◌<◌, ◌⊎◌, ◌≡◌, refl, sym, ap, subst, ◌∙◌, List, [], ◌∷◌, ◌++◌, append_assoc,
  some, Bool, true, false, Str, bytes, ◌-◌, arith, Bool-cases, inl, inr, Result, err,
}
use prolog_forge.Rename.Workspace.{WorkspaceEdit}
use prolog_forge.Retry.Poll.{
  ClientError, timeout, Payload, IndexingSignal, ready, hard_failure, not_ready, RetryAttempt,
  RetryOutcome, classify_indexing_signal, retry_from, retry_with,
}

module _ (parse : Str → Payload) (reply : ℕ → Result ClientError WorkspaceEdit)
    (late : ℕ → Bool) where
  -- The attempt with index `i`, which is counted from 1, and what was seen at it.
  abbrev pub seen : ℕ → Str → RetryAttempt
  seen i reason = record { attempt = suc i; reason = reason }

  -- A run from attempt `i` on, with the attempts that it makes: it ends at an attempt that is answered for
  -- good, or whose deadline has passed, and waits at each attempt before.
  pub data Polled : ℕ → Result ClientError WorkspaceEdit → List RetryAttempt → Type 0 where
    answered :
        {i : ℕ}
        → classify_indexing_signal parse (reply i) ≡ ready
        → Polled i (reply i) (seen i [] ∷ [])
    failed :
        {i : ℕ}
        → classify_indexing_signal parse (reply i) ≡ hard_failure
        → Polled i (reply i) (seen i (bytes "hard-failure") ∷ [])
    expired :
        {i : ℕ} {reason : Str}
        → classify_indexing_signal parse (reply i) ≡ not_ready reason
        → late i ≡ true
        → Polled i (err timeout) (seen i reason ∷ [])
    waited :
        {i : ℕ} {reason : Str} {edit : Result ClientError WorkspaceEdit} {made : List RetryAttempt}
        → classify_indexing_signal parse (reply i) ≡ not_ready reason
        → late i ≡ false
        → Polled (suc i) edit made
        → Polled i edit (seen i reason ∷ made)

  signal_cases :
      (s : IndexingSignal)
      → (s ≡ ready) ⊎ (s ≡ hard_failure) ⊎ ((reason : Str) × (s ≡ not_ready reason))
  signal_cases ready = inl refl
  signal_cases hard_failure = inr (inl refl)
  signal_cases (not_ready reason) = inr (inr (reason, refl))

  abbrev stopped : List RetryAttempt → ℕ → Str → Result ClientError WorkspaceEdit → RetryOutcome
  stopped attempts i reason edit = record { edit = edit; attempts = attempts ++ seen i reason ∷ [] }

  -- From the attempts listed before, the outcome and the attempts that were made since.
  abbrev Since : ℕ → List RetryAttempt → RetryOutcome → Type 0
  Since i attempts out =
      (made : List RetryAttempt) × Polled i out.edit made × (out.attempts ≡ attempts ++ made)

  stopped-Since :
      (i : ℕ) (attempts : List RetryAttempt) (reason : Str)
      (edit : Result ClientError WorkspaceEdit) (out : RetryOutcome)
      → some (stopped attempts i reason edit) ≡ some out
      → Polled i edit (seen i reason ∷ [])
      → Since i attempts out
  stopped-Since i attempts reason edit out h polled =
      let same : stopped attempts i reason edit ≡ out = cc in
      subst (Since i attempts) same (seen i reason ∷ [], polled, refl)

  retry_from-Since :
      (fuel i : ℕ) (attempts : List RetryAttempt) (out : RetryOutcome)
      → retry_from parse reply late fuel i attempts ≡ some out
      → Since i attempts out
  unfolding retry_from
  retry_from-Since zero i attempts out h = cc
  retry_from-Since (suc fuel) i attempts out h =
      elim (signal_cases (classify_indexing_signal parse (reply i))) [
        | inl signal ↦
            stopped-Since i attempts [] (reply i) out (rw (signal, retry_from) at h)
              (answered signal)
        | inr (inl signal) ↦
            stopped-Since i attempts (bytes "hard-failure") (reply i) out
              (rw (signal, retry_from) at h) (failed signal)
        | inr (inr (reason, signal)) ↦ elim (Bool-cases (late i)) [
          | inl over ↦
              stopped-Since i attempts reason (err timeout) out (rw (signal, over, retry_from) at h)
                (expired signal over)
          | inr early ↦
              let (made, polled, listed) =
                retry_from-Since fuel (suc i) (attempts ++ seen i reason ∷ []) out
                  (rw (signal, early, retry_from) at h) in
              (
                seen i reason ∷ made,
                waited signal early polled,
                listed ∙ append_assoc attempts (seen i reason ∷ []) made,
              )
        ]
      ]

  -- When the loop ends, it has waited at every attempt but the last, before the deadline; the last attempt
  -- was answered, with an edit or an error that is no sign of indexing, and the answer is the result, or
  -- the deadline had passed and the result is a timeout. The outcome lists exactly these attempts, by
  -- their numbers from 1, each with the sign that the server was not ready, and the last with no reason
  -- when it was answered with an edit and with `hard-failure` when with an error.
  pub retry_with-Polled :
      (fuel : ℕ) (out : RetryOutcome)
      → retry_with parse reply late fuel ≡ some out
      → Polled 0 out.edit out.attempts
  unfolding retry_with
  retry_with-Polled fuel out h =
      let (made, polled, listed) = retry_from-Since fuel 0 [] out h in
      subst (Polled 0 out.edit) (sym listed) polled

  retry_from_ends :
      (fuel i left : ℕ) (attempts : List RetryAttempt)
      → late (i + left) ≡ true
      → left < fuel
      → (out : RetryOutcome) × (retry_from parse reply late fuel i attempts ≡ some out)
  unfolding retry_from
  retry_from_ends zero i left attempts h k = absurd (omega arith)
  retry_from_ends (suc fuel) i left attempts h k =
      elim (signal_cases (classify_indexing_signal parse (reply i))) [
        | inl signal ↦ (stopped attempts i [] (reply i), rw (signal, retry_from) refl)
        | inr (inl signal) ↦
            (stopped attempts i (bytes "hard-failure") (reply i), rw (signal, retry_from) refl)
        | inr (inr (reason, signal)) ↦ elim (Bool-cases (late i)) [
          | inl over ↦ (stopped attempts i reason (err timeout), rw (signal, over, retry_from) refl)
          | inr early ↦
              let longer = attempts ++ record { attempt = suc i; reason = reason } ∷ [] in
              let later : (suc i + (left - 1)) ≡ i + left = omega (arith, not_now left h early) in
              let (out, ends) =
                retry_from_ends fuel (suc i) (left - 1) longer (ap late later ∙ h)
                  (omega (arith, not_now left h early)) in
              (out, rw (signal, early, retry_from) ends)
        ]
      ]
    where
      not_now : (left : ℕ) → late (i + left) ≡ true → late i ≡ false → 0 < left
      not_now zero h e = let same : i + 0 ≡ i = omega arith in absurd (cc (ap late same, h, e))
      not_now (suc left) h e = omega arith

  -- Once the deadline has passed after some attempt, the loop ends with more fuel than that attempt's index.
  pub retry_with_ends :
      (fuel n : ℕ)
      → late n ≡ true
      → n < fuel
      → (out : RetryOutcome) × (retry_with parse reply late fuel ≡ some out)
  unfolding retry_with
  retry_with_ends fuel n h k =
      let same : 0 + n ≡ n = omega arith in retry_from_ends fuel 0 n [] (ap late same ∙ h) k
