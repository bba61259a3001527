-- ===== src/Services/Readiness/Laws.antt =====
-- The attempts are enough: a wait that times out has waited for its whole time.
use atlas_manager.Base.{
  ℕ, zero, suc, ◌+◌, ◌-◌, ◌*◌, ◌/◌, ◌≤◌, ◌≡◌, refl, sym, ap, ◌∙◌, ◌⊎◌, inl, inr, arith, Str, Option,
  some, none, Result, ok, err,
}
use atlas_manager.Base.Int.{ℤ, pos, pos_part, neg_part, ◌+ℤ◌, ◌-ℤ◌, ◌≤ℤ◌, ◌<ℤ◌, +ℤ_parts, -ℤ_parts}
use native.Mathlib.Nat.{lt-div-mul-add}
use atlas_manager.Services.Readiness.{
  ReadinessTimes, WaitError, readiness_timeout, check_failed, CheckResult, ready, not_ready,
  check_threw, WaitPorts, positive, next_wait, attempt, wait_with, wait_checked, wait_for_readiness,
}

next_wait-none :
    (i : ℕ) (deadline now : ℤ) → next_wait (pos (suc i)) deadline now ≡ none → deadline ≤ℤ now
next_wait-none i deadline now h = ground (arith, -ℤ_parts deadline now)

next_wait-some :
    (i : ℕ) (deadline now t : ℤ)
    → next_wait (pos (suc i)) deadline now ≡ some t
    → (now <ℤ deadline) × (pos 1 ≤ℤ t) × ((t ≡ pos (suc i)) ⊎ (t ≡ deadline -ℤ now))
next_wait-some i deadline now t h = ground (arith, -ℤ_parts deadline now)

-- The time that is left is covered by the attempts that are left.
abbrev Covered : ℕ → ℤ → ℤ → ℕ → Type 0
Covered i deadline now m = deadline ≤ℤ (now +ℤ pos (m * suc i))

suc_mul : (m n : ℕ) → suc m * n ≡ n + m * n
suc_mul m n = omega arith

Covered-step :
    (i m : ℕ) (deadline now now' now'' t : ℤ)
    → now ≤ℤ now'
    → (now' +ℤ t) ≤ℤ now''
    → (now' <ℤ deadline)
    → (t ≡ pos (suc i)) ⊎ (t ≡ deadline -ℤ now')
    → Covered i deadline now (suc m)
    → Covered i deadline now'' m
Covered-step i m deadline now now' now'' t a b c (inl e) h = omega (
  arith,
  +ℤ_parts now (pos (suc m * suc i)),
  +ℤ_parts now' t,
  +ℤ_parts now'' (pos (m * suc i)),
  suc_mul m (suc i),
  ap pos_part e,
  ap neg_part e,
)
Covered-step i m deadline now now' now'' t a b c (inr e) h = omega (
  arith,
  +ℤ_parts now' t,
  +ℤ_parts now'' (pos (m * suc i)),
  -ℤ_parts deadline now',
  ap pos_part e,
  ap neg_part e,
)

module _ {W : Type 0} (ports : WaitPorts W) (id : Str)
    (checks : (w : W) → ports.now w ≤ℤ ports.now (ports.check id w).0)
    (sleeps : (t : ℤ) (w : W)
      → pos 1 ≤ℤ t
      → (ports.now w +ℤ t) ≤ℤ ports.now (ports.sleep t w)) where
  step_result :
      (i : ℕ) (deadline : ℤ) (m : ℕ) (w w' : W)
      → ((t : ℤ)
          → next_wait (pos (suc i)) deadline (ports.now (ports.check id w).0) ≡ some t
          → attempt ports id (pos (suc i)) deadline m (ports.sleep t (ports.check id w).0)
            ≡ (w', err readiness_timeout)
          → deadline ≤ℤ ports.now w')
      → attempt ports id (pos (suc i)) deadline (suc m) w ≡ (w', err readiness_timeout)
      → deadline ≤ℤ ports.now w'
  unfolding attempt
  step_result i deadline m w w' ih e =
      by_check (ports.check id w).1
        (next_wait (pos (suc i)) deadline (ports.now (ports.check id w).0)) refl e
    where
      by_check :
          (c : CheckResult) (n : Option ℤ)
          → next_wait (pos (suc i)) deadline (ports.now (ports.check id w).0) ≡ n
          → ◌≡◌ {A = W × Result WaitError Str}
              (elim c [
                | check_threw ↦ ((ports.check id w).0, err check_failed)
                | ready t ↦ ((ports.check id w).0, ok t)
                | not_ready ↦ elim n [
                  | none ↦ ((ports.check id w).0, err readiness_timeout)
                  | some t ↦
                      attempt ports id (pos (suc i)) deadline m (ports.sleep t (ports.check id w).0)
                ]
              ])
              (w', err readiness_timeout)
          → deadline ≤ℤ ports.now w'
      by_check check_threw n k e = cc
      by_check (ready t) n k e = cc
      by_check not_ready none k e =
          let same : (ports.check id w).0 ≡ w' = cc in
          rw (← same) (next_wait-none i deadline (ports.now (ports.check id w).0) k)
      by_check not_ready (some t) k e = ih t k e

  attempt-waits :
      (i m : ℕ) (deadline : ℤ) (w w' : W)
      → Covered i deadline (ports.now w) m
      → attempt ports id (pos (suc i)) deadline (suc m) w ≡ (w', err readiness_timeout)
      → deadline ≤ℤ ports.now w'
  unfolding attempt
  attempt-waits i zero deadline w w' h e =
      step_result i deadline zero w w'
        (λ t k r.
          let (early, long, which) =
            next_wait-some i deadline (ports.now (ports.check id w).0) t k in
          absurd (omega (arith, checks w, early, h, +ℤ_parts (ports.now w) (pos (zero * suc i)))))
        e
  attempt-waits i (suc m) deadline w w' h e =
      step_result i deadline (suc m) w w'
        (λ t k r.
          let (early, long, which) =
            next_wait-some i deadline (ports.now (ports.check id w).0) t k in
          let slept = ports.sleep t (ports.check id w).0 in
          attempt-waits i m deadline slept w'
            (Covered-step i m deadline (ports.now w) (ports.now (ports.check id w).0)
              (ports.now slept) t (checks w) (sleeps t (ports.check id w).0 long) early which h)
            r)
        e

-- On a clock that does not go back and that a sleep takes forward by its length, a wait that times out ends when
-- the timeout of the service has passed: the attempts are enough. The policy is of positive numbers.
pub wait_for_readiness-timeout :
    {W : Type 0} (ports : WaitPorts W) (id : Str) (p : ReadinessTimes) (w w' : W)
    (timeout interval : ℕ)
    → ((w : W) → ports.now w ≤ℤ ports.now (ports.check id w).0)
    → ((t : ℤ) (w : W) → pos 1 ≤ℤ t → (ports.now w +ℤ t) ≤ℤ ports.now (ports.sleep t w))
    → ports.find_by_id id ≡ some p
    → p.timeout_milliseconds ≡ pos (suc timeout)
    → p.poll_interval_milliseconds ≡ pos (suc interval)
    → wait_for_readiness ports id w ≡ (w', err readiness_timeout)
    → (ports.now w +ℤ pos (suc timeout)) ≤ℤ ports.now w'
unfolding wait_for_readiness
wait_for_readiness-timeout ports id p w w' timeout interval checks sleeps found long often e =
    attempt-waits ports id checks sleeps interval ((suc timeout + suc interval - 1) / suc interval)
      (ports.now w +ℤ pos (suc timeout)) w w'
      (omega (
        arith,
        enough,
        +ℤ_parts (ports.now w) (pos (suc timeout)),
        +ℤ_parts (ports.now w) (pos (rounds * suc interval)),
      ))
      (sym started ∙ e)
  where
    rounds : ℕ
    rounds = (suc timeout + suc interval - 1) / suc interval

    enough : suc timeout ≤ rounds * suc interval
    enough = omega (
      arith,
      lt-div-mul-add {a = suc timeout + suc interval - 1} {b = suc interval} (omega arith),
    )

    started : wait_for_readiness ports id w ≡ wait_with ports id (suc timeout) (suc interval) w
    started =
        rw (found, wait_for_readiness)
          (ap (λ a. wait_checked ports id (positive a) (positive p.poll_interval_milliseconds) w)
              long
            ∙ ap (λ b. wait_checked ports id (ok (suc timeout)) (positive b) w) often)
