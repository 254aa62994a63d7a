-- ===== src/Resilience/Retry/Bounded.antt =====
-- A retry loop that follows tenacity's documented rule, by fuel: the attempts that are left.
use krossdb.Common.{
  ℕ, suc, zero, ◌+◌, ◌-◌, ◌≡◌, refl, Bool, Result, ok, raise, Exec, arith, ltb, ap, if◌then◌else◌,
  ◌&&◌,
}
use krossdb.Errors.{Exn}
use krossdb.Resilience.Retry.{AsyncRetrying, next_attempt}

module _ {S A : Type 0} (limit : ℕ) (retry : Exn → Bool) (block : Exec S Exn A) where
  abbrev attempts : ℕ → ℕ → Exec S Exn A
  attempts zero n s = block s
  attempts (suc f) n s = next_attempt (attempts f) retry limit n (block s)

  attempts_last :
      (n : ℕ) (again : ℕ → Exec S Exn A) (p : Result Exn A × S)
      → limit - n ≡ 0
      → p ≡ next_attempt again retry limit n p
  attempts_last n again (ok a, s) h = refl
  attempts_last n again (raise e, s) h = ground arith

  pub attempts_step :
      (f n : ℕ) (s : S)
      → limit - n ≡ f
      → attempts f n s ≡ next_attempt (λ m. attempts (limit - m) m) retry limit n (block s)
  attempts_step zero n s h = attempts_last n (λ m. attempts (limit - m) m) (block s) h
  attempts_step (suc f) n s h = let e : f ≡ limit - (n + 1) = omega arith in same (block s) e
    where
      same :
          (p : Result Exn A × S)
          → f ≡ limit - (n + 1)
          → next_attempt (attempts f) retry limit n p
            ≡ next_attempt (λ m. attempts (limit - m) m) retry limit n p
      same (ok a, t) e = refl
      same (raise x, t) e =
          ap (λ g. if◌then◌else◌ (retry x && ltb n limit) (attempts g (n + 1) t) (raise x, t)) e

abbrev pub bounded : {S A : Type 0} → AsyncRetrying S A
bounded = record {
  loop = λ limit retry block n s. attempts limit retry block (limit - n) n s;
  loop_step = λ limit retry block n s. attempts_step limit retry block (limit - n) n s refl;
}
