-- ===== src/Job/Backoff.antt =====
-- DefaultRetryPolicy.Backoff of job/retry_policy.go against its description: the delay doubles up to
-- the cap, whatever the shift and the product do in 64 bits.
use Prim.Native.Nat.{min}
use native.Mathlib.Nat.{two-pow-succ}
use native.Mathlib.Decide.{dec_lt}
use go_hypercube.Common.{
  ℕ, zero, suc, ◌+◌, ◌-◌, ◌*◌, ◌^◌, ◌<◌, ◌≡◌, refl, Bool, true, ◌&&◌, nat_beq, nat_beq_iff, arith,
  nat_eq, sym, ◌∙◌,
}
use go_hypercube.Job.{default_retry_policy, second, minute, shifted, backoff, int64_mod}

-- The policy's delay is the described one.
agrees_at : ℕ → Bool
agrees_at attempt =
    nat_beq (backoff default_retry_policy attempt) (min (2 ^ attempt * second) (5 * minute))

agrees_below : ℕ → Bool
unfolding agrees_at
agrees_below zero = true
agrees_below (suc n) = agrees_at n && agrees_below n

agrees_at-lt :
    (bound attempt : ℕ) → attempt < bound → agrees_below bound ≡ true → agrees_at attempt ≡ true
unfolding agrees_below
agrees_at-lt zero attempt small h = absurd (omega arith)
agrees_at-lt (suc bound) attempt small h = ground (arith, agrees_at-lt bound attempt)

small_shifts : agrees_below 64 ≡ true
unfolding agrees_below backoff
small_shifts = refl

-- From 64 on the shift leaves a multiple of 2 ^ 64.
large_shift : (k : ℕ) → (j : ℕ) × (2 ^ (k + 64) ≡ suc j * int64_mod)
large_shift zero = (0, refl)
large_shift (suc k) =
    let (j, h) = large_shift k in
    let e : suc k + 64 ≡ suc (k + 64) = omega arith in
    (suc (j + j), rw (e, two-pow-succ (k + 64)) (omega (arith, h)))

shifted_large : (k : ℕ) → shifted (k + 64) ≡ 0
unfolding shifted
shifted_large k = let (j, h) = large_shift k in rw h (omega arith)

backoff_large : (k : ℕ) → backoff default_retry_policy (k + 64) ≡ 5 * minute
unfolding backoff
backoff_large k = ground (arith, shifted_large k)

min_large : (k : ℕ) → min (2 ^ (k + 64) * second) (5 * minute) ≡ 5 * minute
min_large k = let (j, h) = large_shift k in rw h (omega arith)

-- The default policy waits 2 ^ attempt seconds, and 5 minutes where that is less. No attempt makes
-- the shift or the product overflow into another delay.
pub backoff-min :
    (attempt : ℕ) → backoff default_retry_policy attempt ≡ min (2 ^ attempt * second) (5 * minute)
unfolding agrees_at
backoff-min attempt = elim (dec_lt attempt 64) [
  | yes small ↦ (nat_beq_iff _ _).0 (agrees_at-lt 64 attempt small small_shifts)
  | no large ↦
      let e : attempt ≡ attempt - 64 + 64 = omega arith in
      rw e (backoff_large (attempt - 64) ∙ sym (min_large (attempt - 64)))
]
