-- ===== src/Worker/Batch/Retry.antt =====
-- `_retry_phase`: when it returns, with what, and what holds after it.
use meshy.Prelude.{
  ℕ, zero, suc, ◌≤◌, ◌≡◌, refl, ap, ◌∙◌, Bool, true, false, ok, err, arith, ◌↔◌, ◌⊎◌, inl, inr,
}
use meshy.Worker.Types.{TqError, Environment, Tq, waits}
use meshy.Worker.Batch.{
  Ran, count_error, record_call, last_attempt, wait_then, attempt, retry_phase,
}

module _ {D M A : Type 0} (env : Environment D M) (fn : Tq D M → Ran D M A) where
  -- The worker before the next attempt.
  abbrev pub after_failure : Tq D M → Tq D M
  after_failure s = record_call waits true (count_error s)

  -- The attempts before number `k` raise and the stop event is not set after them; that one returns.
  abbrev pub SucceedsAt : ℕ → Tq D M → A → Tq D M → Type 0
  SucceedsAt zero t a u = fn t ≡ (ok a, u)
  SucceedsAt (suc k) t a u =
      (e : TqError) × (s : Tq D M) × (fn t ≡ (err e, s))
      × (env.stop_is_set s.history ≡ false)
      × SucceedsAt k (after_failure s) a u

  last_attempt-ok :
      (x : Ran D M A) (a : A) (u : Tq D M) → last_attempt env x ≡ (ok a, u) → x ≡ (ok a, u)
  unfolding last_attempt
  last_attempt-ok (ok b, s) a u h = h
  last_attempt-ok (err e, s) a u h = cc

  wait_then-ok :
      (b : Bool) (again : Tq D M → Ran D M A) (s : Tq D M) (a : A) (u : Tq D M)
      → wait_then env b again s ≡ (ok a, u)
      → (b ≡ false) × (again s ≡ (ok a, u))
  unfolding wait_then
  wait_then-ok true again s a u h = cc
  wait_then-ok false again s a u h = (refl, h)

  attempt-ok :
      (x : Ran D M A) (again : Tq D M → Ran D M A) (a : A) (u : Tq D M)
      → attempt env x again ≡ (ok a, u)
      → (x ≡ (ok a, u))
        ⊎ ((e : TqError) × (s : Tq D M) × (x ≡ (err e, s))
            × (env.stop_is_set s.history ≡ false)
            × (again (after_failure s) ≡ (ok a, u)))
  unfolding attempt
  attempt-ok (ok b, s) again a u h = inl h
  attempt-ok (err e, s) again a u h =
      let w = wait_then-ok (env.stop_is_set s.history) again (after_failure s) a u h in
      inr (e, s, refl, w.0, w.1)

  returns-SucceedsAt :
      (n : ℕ) (t : Tq D M) (a : A) (u : Tq D M)
      → retry_phase env fn n t ≡ (ok a, u)
      → (k : ℕ) × (k ≤ n) × SucceedsAt k t a u
  unfolding retry_phase
  returns-SucceedsAt zero t a u h = (0, omega arith, last_attempt-ok (fn t) a u h)
  returns-SucceedsAt (suc n) t a u h =
      elim (attempt-ok (fn t) (λ s. retry_phase env fn n s) a u h) [
        | inl e ↦ (0, omega arith, e)
        | inr (e, s, f, w, g) ↦
            let r = returns-SucceedsAt n (after_failure s) a u g in
            (suc r.0, omega (arith, r.1), (e, s, f, w, r.2))
      ]

  at_once :
      (n : ℕ) (t : Tq D M) (a : A) (u : Tq D M)
      → fn t ≡ (ok a, u)
      → retry_phase env fn n t ≡ (ok a, u)
  unfolding retry_phase last_attempt attempt
  at_once zero t a u h = rw (h, last_attempt) refl
  at_once (suc n) t a u h = rw (h, attempt) refl

  SucceedsAt-returns :
      (n k : ℕ) (t : Tq D M) (a : A) (u : Tq D M)
      → k ≤ n
      → SucceedsAt k t a u
      → retry_phase env fn n t ≡ (ok a, u)
  unfolding retry_phase attempt wait_then
  SucceedsAt-returns n zero t a u p h = at_once n t a u h
  SucceedsAt-returns zero (suc k) t a u p h = absurd (omega (arith, p))
  SucceedsAt-returns (suc n) (suc k) t a u p (e, s, f, w, g) =
      rw (f, w, attempt, wait_then)
        (SucceedsAt-returns n k (after_failure s) a u (omega (arith, p)) g)

  -- `_retry_phase` with `n` retries returns a value exactly where one of the attempts 0 to n returns
  -- it, all before it raise, and the stop event is not set after any of those.
  pub retry_phase_iff :
      (n : ℕ) (t : Tq D M) (a : A) (u : Tq D M)
      → (retry_phase env fn n t ≡ (ok a, u)) ↔ ((k : ℕ) × (k ≤ n) × SucceedsAt k t a u)
  retry_phase_iff n t a u =
      (returns-SucceedsAt n t a u, λ r. SucceedsAt-returns n r.0 t a u r.1 r.2)

  -- What holds before a phase and is kept by attempts and waits holds after it, and held before the
  -- attempt that returned.
  pub record Retried (P : Tq D M → Type 0) (r : Ran D M A) : Type 0 where
    pub holds : P r.1
    pub returned : (a : A) → r.0 ≡ ok a → (s : Tq D M) × P s × (fn s ≡ (ok a, r.1))

  module _ (P : Tq D M → Type 0) (attempts : (s : Tq D M) → P s → P (fn s).1)
      (failures : (s : Tq D M) → P s → P (count_error s))
      (waits_too : (s : Tq D M) → P s → P (after_failure s)) where
    last_attempt-Retried :
        (t : Tq D M) (x : Ran D M A) → fn t ≡ x → P t → P x.1 → Retried P (last_attempt env x)
    unfolding last_attempt
    last_attempt-Retried t (ok a, s) e p q = record {
      holds = q;
      returned = λ b f. (t, p, e ∙ ap (λ r. (r, s)) f);
    }
    last_attempt-Retried t (err x, s) e p q = record { holds = failures s q; returned = λ b f. cc }

    wait_then-Retried :
        (b : Bool) (again : Tq D M → Ran D M A) (s : Tq D M)
        → P s
        → ((v : Tq D M) → P v → Retried P (again v))
        → Retried P (wait_then env b again s)
    unfolding wait_then
    wait_then-Retried true again s p h = record { holds = p; returned = λ b f. cc }
    wait_then-Retried false again s p h = h s p

    attempt-Retried :
        (t : Tq D M) (x : Ran D M A) (again : Tq D M → Ran D M A)
        → fn t ≡ x
        → P t
        → P x.1
        → ((v : Tq D M) → P v → Retried P (again v))
        → Retried P (attempt env x again)
    unfolding attempt
    attempt-Retried t (ok a, s) again e p q h = record {
      holds = q;
      returned = λ b f. (t, p, e ∙ ap (λ r. (r, s)) f);
    }
    attempt-Retried t (err x, s) again e p q h =
        wait_then-Retried (env.stop_is_set s.history) again (after_failure s) (waits_too s q) h

    pub retry_phase-Retried : (n : ℕ) (t : Tq D M) → P t → Retried P (retry_phase env fn n t)
    unfolding retry_phase
    retry_phase-Retried zero t p = last_attempt-Retried t (fn t) refl p (attempts t p)
    retry_phase-Retried (suc n) t p =
        attempt-Retried t (fn t) (λ s. retry_phase env fn n s) refl p (attempts t p)
          (λ v q. retry_phase-Retried n v q)
