-- ===== src/Worker/Loop.antt =====
-- Worker, consumeQueue and WorkerOptions of app/queue.go. What Pop returns, and what the context and
-- the timer do, is a list of rounds for each consumer.
use go_hypercube.Common.{
  ℕ, zero, suc, Bool, true, false, Option, none, some, List, [], ◌∷◌, ◌++◌, ◌==◌, if◌then◌else◌,
  Text, text_eq, nat_eq,
}
use go_hypercube.Namespaced.{Namespaced}
use go_hypercube.Worker.{Job, Message, Command, Cause, Event, process_message}
use go_hypercube.Worker.Errors.{GoError, Sentinel, empty, errors_is}

-- What a Pop returns; none is a nil message.
pub data Popped : Type 0 where
  messages : List (Option Message) → Popped
  pop_failed : GoError → Popped

-- One round of the loop of consumeQueue: what Pop returns, what ctx.Err returns then, and whether the
-- timer of waitForQueueRetry fires before the context ends.
pub record Round : Type 0 where
  pub popped : Popped
  pub context_error : Option Sentinel
  pub timer_fires : Bool

-- What a consumer does: it processes a message, calls op.ErrorHandler, or waits.
pub data Act : Type 0 where
  processed : Message → List Event → Act
  pop_reported : GoError → Act
  nil_reported : Act
  waited : ℕ → Act

-- WorkerOptions; zero stands for every Concurrency and ErrorBackoff that is not positive, and the
-- flag tells whether ErrorHandler is given.
pub record WorkerOptions : Type 0 where
  pub queue_name : Text
  pub concurrency : ℕ
  pub error_backoff : ℕ
  pub has_handler : Bool

abbrev pub default_worker_concurrency : ℕ
default_worker_concurrency = 1

-- 200 milliseconds
abbrev pub default_worker_error_backoff : ℕ
default_worker_error_backoff = 200000000

-- WorkerOptions.applyDefaults
unfoldable pub apply_defaults : WorkerOptions → WorkerOptions
apply_defaults op = record op {
  concurrency = if op.concurrency == 0 then default_worker_concurrency else op.concurrency;
  error_backoff = if op.error_backoff == 0 then default_worker_error_backoff else op.error_backoff;
  has_handler = true;
}

-- `ctx.Err() != nil && errors.Is(err, ctx.Err())`
abbrev pub is_context_error : GoError → Option Sentinel → Bool
is_context_error e none = false
is_context_error e (some s) = errors_is e s

pub data Worked : Type 0 where
  name_required : Worked
  worked : List (List Act) → Worked

module _ (jobs : List (Namespaced Job)) (queue : Command → Option GoError)
    (encode : Cause → Text → Option Text) where
  -- The loop over the messages of a Pop.
  unfoldable pub handle_messages : List (Option Message) → List Act
  handle_messages [] = []
  handle_messages (none ∷ msgs) = nil_reported ∷ handle_messages msgs
  handle_messages (some msg ∷ msgs) =
      processed msg (process_message jobs queue encode msg) ∷ handle_messages msgs

  -- The branch of consumeQueue behind an error of Pop, and whether the loop goes on.
  unfoldable pub after_pop_error : ℕ → GoError → Round → List Act × Bool
  after_pop_error delay e r =
      if is_context_error e r.context_error
      then ([], false)
      else if errors_is e empty
      then ([], true)
      else (pop_reported e ∷ waited delay ∷ [], r.timer_fires)

  -- The body of the loop of consumeQueue.
  unfoldable pub consume_round : ℕ → Round → List Act × Bool
  unfolding handle_messages after_pop_error
  consume_round delay r = elim r.popped [
    | messages msgs ↦ (handle_messages msgs, true)
    | pop_failed e ↦ after_pop_error delay e r
  ]

  -- consumeQueue over its first rounds, as many as are given.
  unfoldable pub consume_queue : ℕ → List Round → List Act
  unfolding consume_round
  consume_queue delay [] = []
  consume_queue delay (r ∷ rounds) =
      let (acts, on) = consume_round delay r in
      elim on [ true ↦ acts ++ consume_queue delay rounds | false ↦ acts ]

  -- The consumers that Worker starts; the n-th has the rounds of n.
  unfoldable pub consumers : ℕ → ℕ → (ℕ → List Round) → List (List Act)
  unfolding consume_queue
  consumers zero delay rounds = []
  consumers (suc n) delay rounds = consume_queue delay (rounds n) ∷ consumers n delay rounds

  -- Worker
  unfoldable pub worker : WorkerOptions → (ℕ → List Round) → Worked
  unfolding consumers apply_defaults
  worker op rounds =
      if op.queue_name == []
      then name_required
      else (let op' = apply_defaults op in
          worked (consumers op'.concurrency op'.error_backoff rounds))
