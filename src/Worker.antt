-- ===== src/Worker.antt =====
-- app/queue.go: dispatching a job, and what a worker does with one delivery. The queue driver, the
-- handlers and the JSON encoder are parameters.
mod Tests
pub mod Errors
pub mod Settle
pub mod Life
pub mod Loop
pub mod Consume
pub mod Consumers
pub mod Dispatch
use go_hypercube.Common.{
  ℕ, zero, suc, ◌+◌, Bool, true, false, Option, none, some, List, [], ◌∷◌, ◌++◌, ◌==◌,
  if◌then◌else◌, Text, text_eq, nat_eq, leb,
}
use go_hypercube.Namespaced.{Namespaced, get}
use go_hypercube.Job.{RetryPolicy, retry_policy_for, queue_name_for, visibility_timeout_for}
use go_hypercube.Worker.Errors.{GoError, other, wrapped, is_not_found, batch_item_error}

-- job.Job with the optional interfaces of the job package; `handle` gives the error of a run of
-- Handle on a payload, or none.
pub record Job : Type 0 where
  pub job_name : Text
  pub handle : Text → Option Text
  pub retry_policy : Option RetryPolicy
  pub queue_name : Option Text
  pub visibility_timeout : Option ℕ

abbrev pub name : Job → Text
name j = j.job_name

-- queue.Message; `pointer` is its address, and `driver_data` the driver's.
pub record Message : Type 0 where
  pub pointer : ℕ
  pub id : Text
  pub queue_name : Text
  pub namespace : Text
  pub job_name : Text
  pub delay : ℕ
  pub payload : Text
  pub extra : Text
  pub attempt : ℕ
  pub visibility_timeout : ℕ
  pub driver_data : Text

-- The calls of queue.Queue that the app makes with one message.
pub data Command : Type 0 where
  push ack retry dead_letter : Message → Command

-- job.DispatchConfig
pub record DispatchConfig : Type 0 where
  pub delay : ℕ
  pub visibility_timeout : ℕ

pub data Dispatched : Type 0 where
  sent : Dispatched
  job_not_found : Dispatched
  push_failed : GoError → Dispatched

-- `var x T` of a message, with the fields that `dispatch` sets.
unfoldable pub dispatch_message : Text → Text → Text → DispatchConfig → Job → Message
dispatch_message namespace job_name payload config j = record {
  pointer = 0;
  id = [];
  queue_name = queue_name_for j.queue_name;
  namespace = namespace;
  job_name = job_name;
  delay = config.delay;
  payload = payload;
  extra = [];
  attempt = 0;
  visibility_timeout =
      if config.visibility_timeout == 0
      then visibility_timeout_for j.visibility_timeout
      else config.visibility_timeout;
  driver_data = [];
}

abbrev pub push_result : Option GoError → Dispatched
push_result none = sent
push_result (some e) = push_failed e

module _ (jobs : List (Namespaced Job)) (queue : Command → Option GoError) where
  -- App.dispatch: the commands that it sends, and what it returns.
  unfoldable pub dispatch : Text → Text → Text → DispatchConfig → List Command × Dispatched
  unfolding dispatch_message
  dispatch namespace job_name payload config = elim (get name namespace job_name jobs) [
    | none ↦ ([], job_not_found)
    | some j ↦
        let c = push (dispatch_message namespace job_name payload config j) in
        (c ∷ [], push_result (queue c))
  ]

-- Why a message is dead-lettered.
pub data Cause : Type 0 where
  not_registered : Text → Text → Cause
  handler_failed : Text → Cause

-- What a worker does: a command to the queue, or a line in the log.
pub data Event : Type 0 where
  command : Command → Event
  unregistered exhausted : Event
  no_longer_current settlement_failed : Event

module _ (jobs : List (Namespaced Job)) (queue : Command → Option GoError)
    (encode : Cause → Text → Option Text) where
  abbrev pub log_line : Bool → Event
  log_line true = no_longer_current
  log_line false = settlement_failed

  -- logSettlementError, after a command that returned the error.
  abbrev pub log_error : Message → Option GoError → List Event
  log_error msg none = []
  log_error msg (some e) = log_line (is_not_found (batch_item_error e msg.pointer)) ∷ []

  abbrev pub settle : Message → Command → List Event
  settle msg c = command c ∷ log_error msg (queue c)

  abbrev pub wrap_error : Message → Option GoError → Option GoError
  wrap_error msg none = none
  wrap_error msg (some e) = some (wrapped msg.id e)

  -- deadLetter: what it does, and the error that it returns.
  abbrev pub send_dead : Message → Option Text → List Event × Option GoError
  send_dead msg none = ([], some (wrapped msg.id (other [])))
  send_dead msg (some extra) =
      let c = dead_letter (record msg { extra = extra }) in
      (command c ∷ [], wrap_error msg (queue c))

  -- A call of deadLetter and, where it returns an error, of logSettlementError.
  unfoldable pub dead_letter_message : Message → Cause → List Event
  dead_letter_message msg cause =
      let (events, error) = send_dead msg (encode cause msg.extra) in events ++ log_error msg error

  -- The part of processMessage behind a failed run.
  unfoldable pub after_failure : Job → Message → Text → List Event
  unfolding dead_letter_message
  after_failure j msg error =
      let policy = retry_policy_for j.retry_policy in
      let msg' = record msg { delay = policy.backoff_of msg.attempt } in
      if leb policy.max_attempts msg.attempt
      then exhausted ∷ dead_letter_message msg (handler_failed error)
      else settle msg' (retry msg')

  abbrev pub after_run : Job → Message → Option Text → List Event
  after_run j msg none = settle msg (ack msg)
  after_run j msg (some error) = after_failure j msg error

  -- processMessage
  unfoldable pub process_message : Message → List Event
  unfolding after_failure
  process_message msg = elim (get name msg.namespace msg.job_name jobs) [
    | none ↦ unregistered ∷ dead_letter_message msg (not_registered msg.job_name msg.namespace)
    | some j ↦ after_run j msg (j.handle msg.payload)
  ]
