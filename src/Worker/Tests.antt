-- ===== src/Worker/Tests.antt =====
-- A worker with one job that always fails.
use go_hypercube.Common.{
  ℕ, ◌≡◌, refl, ◌≢◌, none, some, Option, List, [], ◌∷◌, Text, text_beq, arith,
}
use go_hypercube.Namespaced.{Namespaced, new_namespaced, get}
use go_hypercube.Job.{retry_policy_for}
use go_hypercube.Worker.Errors.{GoError}
use go_hypercube.Worker.{
  Job, name, Message, Command, Cause, command, exhausted, dead_letter, process_message,
  after_failure, dead_letter_message,
}
use go_hypercube.Worker.Settle.{commands, IsSettled, process_message_lem}
use go_hypercube.Worker.{DispatchConfig}
use go_hypercube.Worker.Life.{deliver, IsLife, deliver_lem}
use go_hypercube.Common.{true, false, All}
use go_hypercube.Worker.Errors.{sentinel, other, canceled, errors_is}
use go_hypercube.Worker.Loop.{
  Round, messages, pop_failed, processed, nil_reported, pop_reported, waited, WorkerOptions,
  handle_messages, after_pop_error, consume_round, consume_queue,
}
use go_hypercube.Worker.Consume.{Served, IsDone, messages_of, consume_queue_lem}

abbrev failing_job : Job
failing_job = record {
  job_name = b'j' ∷ [];
  handle = λ payload. some payload;
  retry_policy = none;
  queue_name = none;
  visibility_timeout = none;
}

abbrev jobs : List (Namespaced Job)
jobs = new_namespaced [] failing_job ∷ []

abbrev accepting : Command → Option GoError
accepting c = none

abbrev encode : Cause → Text → Option Text
encode cause extra = some (b'!' ∷ extra)

abbrev message_at : ℕ → Message
message_at attempt = record {
  pointer = 7;
  id = b'm' ∷ [];
  queue_name = [];
  namespace = [];
  job_name = b'j' ∷ [];
  delay = 0;
  payload = b'p' ∷ [];
  extra = [];
  attempt = attempt;
  visibility_timeout = 0;
  driver_data = [];
}

encode-total : (cause : Cause) (extra : Text) → encode cause extra ≢ none
encode-total cause extra h = absurd (cc h)

found_job : get name [] (b'j' ∷ []) jobs ≡ some failing_job
unfolding get new_namespaced text_beq
found_job = refl

last_attempt :
    process_message jobs accepting encode (message_at 5)
    ≡ exhausted ∷ command (dead_letter (record (message_at 5) { extra = b'!' ∷ [] })) ∷ []
unfolding process_message after_failure dead_letter_message get new_namespaced text_beq
    retry_policy_for
last_attempt = refl

process_message_lem_example :
    IsSettled jobs accepting encode
      (message_at 2)
      (commands (process_message jobs accepting encode (message_at 2)))
process_message_lem_example = process_message_lem jobs accepting encode (message_at 2) encode-total

deliver_lem_example :
    IsLife jobs accepting encode failing_job 4
      (message_at 0)
      (deliver jobs accepting encode 9 (message_at 0))
unfolding retry_policy_for
deliver_lem_example =
    deliver_lem jobs accepting encode failing_job (b'p' ∷ []) encode-total 4 9 (message_at 0)
      found_job refl refl (omega arith)

abbrev soon : DispatchConfig
soon = record { delay = 5; visibility_timeout = 0 }

-- A Pop with a message and a nil one, one that fails, one that ends with the context, and one that is
-- not reached.
abbrev rounds : List Round
rounds =
    record {
      popped = messages (some (message_at 2) ∷ none ∷ []);
      context_error = none;
      timer_fires = true;
    }
    ∷ record { popped = pop_failed (other []); context_error = none; timer_fires = true }
    ∷ record {
      popped = pop_failed (sentinel canceled);
      context_error = some canceled;
      timer_fires = true;
    }
    ∷ record {
      popped = messages (some (message_at 3) ∷ []);
      context_error = some canceled;
      timer_fires = true;
    }
    ∷ []

consumed :
    consume_queue jobs accepting encode 200 rounds
    ≡ processed (message_at 2) (process_message jobs accepting encode (message_at 2))
      ∷ nil_reported
      ∷ pop_reported (other [])
      ∷ waited 200
      ∷ []
unfolding consume_queue consume_round handle_messages after_pop_error errors_is
consumed = refl

consume_queue_lem_example :
    Served rounds (messages_of (consume_queue jobs accepting encode 200 rounds))
    × All (IsDone jobs accepting encode) (consume_queue jobs accepting encode 200 rounds)
consume_queue_lem_example = consume_queue_lem jobs accepting encode encode-total 200 rounds

abbrev options : WorkerOptions
options = record { queue_name = b'q' ∷ []; concurrency = 3; error_backoff = 0; has_handler = false }
