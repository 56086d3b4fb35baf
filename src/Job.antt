-- ===== src/Job.antt =====
-- job/: the optional declarations of a job, and the default retry policy.
pub mod Backoff
mod Tests
use go_hypercube.Common.{
  ℕ, ◌*◌, ◌%◌, ◌^◌, Bool, Option, none, some, ◌||◌, ◌&&◌, ltb, leb, ◌==◌, if◌then◌else◌, Text,
  text_eq, nat_eq, [], ◌∷◌,
}

-- A time.Duration is an int64 of nanoseconds. Here it is its bit pattern, so that from
-- `int64_min` on it stands for a negative value.
abbrev pub int64_mod : ℕ
int64_mod = 2 ^ 64

abbrev pub int64_min : ℕ
int64_min = 2 ^ 63

abbrev pub second : ℕ
second = 1_000_000_000

abbrev pub minute : ℕ
minute = 60 * second

-- DefaultRetryPolicy
pub record DefaultRetryPolicy : Type 0 where
  pub cap : ℕ
  pub max_attempts : ℕ

abbrev pub default_retry_policy : DefaultRetryPolicy
default_retry_policy = record { cap = 5 * minute; max_attempts = 5 }

-- `time.Duration(1<<uint(attempt)) * time.Second`, for the value of uint(attempt).
unfoldable pub shifted : ℕ → ℕ
shifted attempt = (2 ^ attempt % int64_mod) * second % int64_mod

-- `duration > d.cap || duration <= 0`, for a cap that is not negative.
abbrev pub is_past : ℕ → ℕ → Bool
is_past limit duration =
    (ltb duration int64_min && ltb limit duration) || (duration == 0) || leb int64_min duration

-- DefaultRetryPolicy.Backoff
unfoldable pub backoff : DefaultRetryPolicy → ℕ → ℕ
unfolding shifted
backoff d attempt =
    let duration = shifted attempt in if is_past d.cap duration then d.cap else duration

-- RetryPolicy, the interface: MaxAttempts and Backoff.
pub record RetryPolicy : Type 0 where
  pub max_attempts : ℕ
  pub backoff_of : ℕ → ℕ

-- RetryPolicyFor
unfoldable pub retry_policy_for : Option RetryPolicy → RetryPolicy
retry_policy_for (some policy) = policy
retry_policy_for none = record {
  max_attempts = default_retry_policy.max_attempts;
  backoff_of = backoff default_retry_policy;
}

abbrev pub default_queue : Text
default_queue = b'd' ∷ b'e' ∷ b'f' ∷ b'a' ∷ b'u' ∷ b'l' ∷ b't' ∷ []

-- QueueNameFor
unfoldable pub queue_name_for : Option Text → Text
queue_name_for none = default_queue
queue_name_for (some name) = if name == [] then default_queue else name

-- VisibilityTimeoutFor
unfoldable pub visibility_timeout_for : Option ℕ → ℕ
visibility_timeout_for none = 0
visibility_timeout_for (some timeout) = timeout
