-- ===== src/Telemetry/Retry.antt =====
-- `sendWithRetry` of uis/backoffice/services/telemetry-service.ts: one batch, up to four requests.
-- The answer to each request is an argument.
use native.Mathlib.Nat.{pow-suc}
use miguel_n_ai_trackflow_pr.Common.{
  Bool, Bool-cases, arith, false, if◌then◌else◌, inl, inr, leb, ltb, not, refl, subst, suc, sym,
  true, zero, ℕ, ℕ_discrete, ◌&&◌, ◌*◌, ◌+◌, ◌<◌, ◌==◌, ◌^◌, ◌↔◌, ◌≡◌, ◌≤◌, ◌⊎◌,
}
use miguel_n_ai_trackflow_pr.Telemetry.Defs.{max_retries, retry_base_delay_ms}

-- What `await fetch(...)` does: an HTTP status, or a throw.
pub data Answer : Type 0 where
  status : ℕ → Answer
  thrown : Answer

-- `response.ok`
abbrev pub is_ok : ℕ → Bool
is_ok s = leb 200 s && leb s 299

-- A status at which the loop gives up.
abbrev pub is_refusal : ℕ → Bool
is_refusal s = leb 400 s && ltb s 500 && not (s == 429)

pub record Sent : Type 0 where
  pub delivered : Bool
  pub requests : ℕ
  pub slept_ms : ℕ

-- `attempt > 0`: sleep first.
abbrev pause : ℕ → ℕ
pause zero = 0
pause (suc a) = retry_base_delay_ms * 2 ^ a

-- The loop with `left` attempts to go, the next of which is `attempt`.
attempts : (ℕ → Answer) → ℕ → ℕ → ℕ → Sent
attempts answer zero attempt slept = record {
  delivered = false;
  requests = attempt;
  slept_ms = slept;
}
attempts answer (suc left) attempt slept =
    let slept' = slept + pause attempt in
    let retry = attempts answer left (suc attempt) slept' in
    elim (answer attempt) [
      | status s ↦
          if is_ok s
          then record { delivered = true; requests = suc attempt; slept_ms = slept' }
          else if is_refusal s
          then record { delivered = false; requests = suc attempt; slept_ms = slept' }
          else retry
      | thrown ↦ retry
    ]

unfoldable pub send_with_retry : (ℕ → Answer) → Sent
unfolding attempts
send_with_retry answer = attempts answer (suc max_retries) 0 0

-- An answer after which the loop tries again.
abbrev pub IsRetryable : Answer → Type 0
IsRetryable (status s) = (is_ok s ≡ false) × (is_refusal s ≡ false)
IsRetryable thrown = Unit {0}

abbrev pub IsOk : Answer → Type 0
IsOk (status s) = is_ok s ≡ true
IsOk thrown = ⊥

-- Which requests were sent and how long the loop slept before them: `suc k` requests, with pauses
-- of 1, 2, 4, … seconds between them.
pub record Backoff (hi : ℕ) (r : Sent) : Type 0 where
  pub pauses : ℕ
  pub counted : r.requests ≡ suc pauses
  pub doubled : r.slept_ms + retry_base_delay_ms ≡ retry_base_delay_ms * 2 ^ pauses
  pub most : pauses ≤ hi

-- A request that the endpoint accepts, with only failures worth a retry before it.
pub record Succeeds (answer : ℕ → Answer) (first bound : ℕ) : Type 0 where
  pub at : ℕ
  pub late : first ≤ at
  pub early : at < bound
  pub accepted : IsOk (answer at)
  pub before : (k : ℕ) → first ≤ k → k < at → IsRetryable (answer k)

module _ (answer : ℕ → Answer) where
  not-Ok-Retryable : (a : Answer) → IsOk a → IsRetryable a → ⊥
  not-Ok-Retryable (status s) p q = cc
  not-Ok-Retryable thrown p q = p

  Succeeds-later :
      {n b : ℕ} → IsRetryable (answer n) → Succeeds answer (suc n) b → Succeeds answer n b
  Succeeds-later {n} r s = record {
    at = s.at;
    late = omega (arith, s.late);
    early = s.early;
    accepted = s.accepted;
    before = λ k p q. elim (ℕ_discrete n k) [
      | yes e ↦ subst (λ j. IsRetryable (answer j)) e r
      | no ne ↦ s.before k (omega arith) q
    ];
  }

  Succeeds-here : {n b : ℕ} → n < b → IsOk (answer n) → Succeeds answer n b
  Succeeds-here {n} h ok = record {
    at = n;
    late = omega arith;
    early = h;
    accepted = ok;
    before = λ k p q. absurd (omega arith);
  }

  Succeeds-tail :
      {n b : ℕ}
      → (IsOk (answer n) → ⊥)
      → Succeeds answer n b
      → Succeeds answer (suc n) b × IsRetryable (answer n)
  Succeeds-tail {n} bad s = elim (ℕ_discrete n s.at) [
    | yes e ↦ absurd (bad (subst (λ j. IsOk (answer j)) (sym e) s.accepted))
    | no ne ↦ (
      record {
        at = s.at;
        late = omega (arith, s.late);
        early = s.early;
        accepted = s.accepted;
        before = λ k p q. s.before k (omega arith) q;
      },
      s.before n (omega arith) (omega (arith, s.late)),
    )
  ]

  IsRefused : Answer → Type 0
  IsRefused (status s) = (is_ok s ≡ false) × (is_refusal s ≡ true)
  IsRefused thrown = ⊥

  judge : (a : Answer) → IsOk a ⊎ IsRefused a ⊎ IsRetryable a
  unfolding IsRefused
  judge (status s) = ground arith
  judge thrown = inr (inr tt)

  module _ (left n slept : ℕ) where
    attempts-Ok :
        (a : Answer) → answer n ≡ a → IsOk a → (attempts answer (suc left) n slept).delivered ≡ true
    unfolding attempts
    attempts-Ok (status s) e ok = ground arith
    attempts-Ok thrown e ok = absurd ok

    attempts-Refused :
        (a : Answer)
        → answer n ≡ a
        → IsRefused a
        → (attempts answer (suc left) n slept).delivered ≡ false
    unfolding attempts IsRefused
    attempts-Refused (status s) e bad = ground arith
    attempts-Refused thrown e bad = absurd bad

    attempts-Retryable :
        (a : Answer)
        → answer n ≡ a
        → IsRetryable a
        → attempts answer (suc left) n slept ≡ attempts answer left (suc n) (slept + pause n)
    unfolding attempts
    attempts-Retryable (status s) e r = ground arith
    attempts-Retryable thrown e r = ground arith

  Refused-not : (a : Answer) → IsRefused a → (IsOk a → ⊥) × (IsRetryable a → ⊥)
  unfolding IsRefused
  Refused-not (status s) h = (λ p. cc, λ r. cc)
  Refused-not thrown h = absurd h

  attempts_iff :
      (left n b slept : ℕ)
      → n + left ≡ b
      → ((attempts answer left n slept).delivered ≡ true) ↔ Succeeds answer n b
  unfolding attempts
  attempts_iff zero n b slept e = (λ h. cc, λ s. absurd (omega (arith, s.late, s.early)))
  attempts_iff (suc left) n b slept e = elim (judge (answer n)) [
    | inl ok ↦ (λ _. Succeeds-here (omega arith) ok, λ _. attempts-Ok left n slept _ refl ok)
    | inr (inl bad) ↦
        let not_ok = (Refused-not (answer n) bad).0 in
        let not_later = (Refused-not (answer n) bad).1 in
        (
          λ h. cc (attempts-Refused left n slept _ refl bad),
          λ s. absurd (not_later (Succeeds-tail not_ok s).1),
        )
    | inr (inr r) ↦
        let ih = attempts_iff left (suc n) b (slept + pause n) (omega arith) in
        let same = attempts-Retryable left n slept _ refl r in
        (
          λ h. Succeeds-later r (ih.0 (rw same at h)),
          λ s. rw same (ih.1 (Succeeds-tail (λ p. not-Ok-Retryable _ p r) s).0),
        )
  ]

  stops :
      (d : Bool) (n slept hi : ℕ)
      → slept + 1000 ≡ 1000 * 2 ^ n
      → n ≤ hi
      → Backoff hi (record { delivered = d; requests = suc n; slept_ms = slept })
  stops d n slept hi e h = record { pauses = n; counted = refl; doubled = e; most = h }

  attempts_cases {κ} :
      (P : Sent → Type κ) (left n slept : ℕ) (a : Answer)
      → answer n ≡ a
      → ((d : Bool) → P (record { delivered = d; requests = suc n; slept_ms = slept + pause n }))
      → P (attempts answer left (suc n) (slept + pause n))
      → P (attempts answer (suc left) n slept)
  unfolding attempts
  attempts_cases P left n slept thrown e stop retry = rw (e, attempts) retry
  attempts_cases P left n slept (status s) e stop retry = elim (Bool-cases (is_ok s)) [
    | inl ok ↦ rw (e, attempts, ok) (stop true)
    | inr bad ↦ elim (Bool-cases (is_refusal s)) [
      | inl no_use ↦ rw (e, attempts, bad, no_use) (stop false)
      | inr again ↦ rw (e, attempts, bad, again) retry
    ]
  ]

  attempts-Backoff :
      (left n hi slept : ℕ)
      → slept + pause n + 1000 ≡ 1000 * 2 ^ n
      → n + left ≡ hi
      → Backoff hi (attempts answer (suc left) n slept)
  unfolding attempts
  attempts-Backoff zero n hi slept e h =
      attempts_cases (Backoff hi) 0 n slept _ refl (λ d. stops d n _ hi e (omega arith))
        (stops false n _ hi e (omega arith))
  attempts-Backoff (suc left) n hi slept e h =
      attempts_cases (Backoff hi) (suc left) n slept _ refl (λ d. stops d n _ hi e (omega arith))
        (attempts-Backoff left (suc n) hi (slept + pause n) (omega (arith, pow-suc 2 n))
          (omega arith))

-- A batch is delivered exactly when one of the first four requests is answered by a 2xx status and
-- every request before it was answered by a status worth a retry (none of 2xx, and of 4xx only 429)
-- or not at all.
pub send_with_retry_iff :
    (answer : ℕ → Answer) → ((send_with_retry answer).delivered ≡ true) ↔ Succeeds answer 0 4
unfolding send_with_retry
send_with_retry_iff answer = attempts_iff answer 4 0 4 0 (omega arith)

-- Whatever the answers, the loop ends after at least one and at most four requests, and has slept
-- 1000 * (2 ^ pauses - 1) milliseconds, where `pauses` is one less than the number of requests.
pub send_with_retry-Backoff : (answer : ℕ → Answer) → Backoff max_retries (send_with_retry answer)
unfolding send_with_retry
send_with_retry-Backoff answer = attempts-Backoff answer 3 0 3 0 (omega arith) (omega arith)
