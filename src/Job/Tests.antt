-- ===== src/Job/Tests.antt =====
-- The default policy of job/retry_policy.go and the defaults of a job, on concrete values.
use Prim.Native.Nat.{min}
use go_hypercube.Common.{◌*◌, ◌^◌, ◌≡◌, refl, some, [], text_beq}
use go_hypercube.Job.{second, minute, default_retry_policy, backoff, default_queue, queue_name_for}
use go_hypercube.Job.Backoff.{backoff-min}

first_delay : backoff default_retry_policy 1 ≡ 2 * second
unfolding backoff
first_delay = refl

overflowing_delay : backoff default_retry_policy 64 ≡ 5 * minute
unfolding backoff
overflowing_delay = refl

unnamed_queue : queue_name_for (some []) ≡ default_queue
unfolding queue_name_for text_beq
unnamed_queue = refl

backoff-min_example : backoff default_retry_policy 3 ≡ min (2 ^ 3 * second) (5 * minute)
backoff-min_example = backoff-min 3
