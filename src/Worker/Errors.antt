-- ===== src/Worker/Errors.antt =====
-- Errors as app/queue.go looks into them: errors.Is, errors.As and batchItemError, over the errors
-- of queue/err.go.
use go_hypercube.Common.{
  ℕ, Bool, true, false, Option, none, some, Text, ◌==◌, nat_eq, if◌then◌else◌,
}

-- The sentinel errors of the queue package, and those that a context's Err returns.
pub data Sentinel : Type 0 where
  empty invalid_argument already_exists not_found : Sentinel
  canceled deadline_exceeded : Sentinel

mutual
  -- An error: a sentinel, another text, one that `%w` wraps, or a *BatchError.
  pub data GoError : Type 0 where
    sentinel : Sentinel → GoError
    other : Text → GoError
    wrapped : Text → GoError → GoError
    batch : Items → GoError

  -- BatchError.Failed: the Msg pointer and the Err of each item.
  pub data Items : Type 0 where
    nil : Items
    item : ℕ → GoError → Items → Items

abbrev pub is_not_found_sentinel : Sentinel → Bool
is_not_found_sentinel not_found = true
is_not_found_sentinel _ = false

-- errors.Is(err, queue.ErrNotFound). A *BatchError wraps nothing.
unfoldable pub is_not_found : GoError → Bool
is_not_found (sentinel s) = is_not_found_sentinel s
is_not_found (other t) = false
is_not_found (wrapped t e) = is_not_found e
is_not_found (batch items) = false

-- errors.As(err, &batchErr)
unfoldable pub as_batch : GoError → Option Items
as_batch (sentinel s) = none
as_batch (other t) = none
as_batch (wrapped t e) = as_batch e
as_batch (batch items) = some items

-- The loop of batchItemError: the Err of the first item with this Msg.
unfoldable pub item_of : ℕ → Items → Option GoError
item_of pointer nil = none
item_of pointer (item p e items) = if p == pointer then some e else item_of pointer items

abbrev pub item_or : GoError → ℕ → Option Items → GoError
item_or e pointer none = e
item_or e pointer (some items) = elim (item_of pointer items) [ none ↦ e | some e' ↦ e' ]

-- batchItemError
unfoldable pub batch_item_error : GoError → ℕ → GoError
unfolding as_batch item_of
batch_item_error e pointer = item_or e pointer (as_batch e)

abbrev pub sentinel_code : Sentinel → ℕ
sentinel_code empty = 0
sentinel_code invalid_argument = 1
sentinel_code already_exists = 2
sentinel_code not_found = 3
sentinel_code canceled = 4
sentinel_code deadline_exceeded = 5

-- errors.Is(err, target), where the target is a sentinel.
unfoldable pub errors_is : GoError → Sentinel → Bool
errors_is (sentinel s) target = sentinel_code s == sentinel_code target
errors_is (other t) target = false
errors_is (wrapped t e) target = errors_is e target
errors_is (batch items) target = false
