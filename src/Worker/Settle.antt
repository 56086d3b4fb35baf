-- ===== src/Worker/Settle.antt =====
-- processMessage of app/queue.go: the command that settles a delivery.
use native.Mathlib.Decide.{dec_lt}
use go_hypercube.Common.{
  ◌<◌, ◌≤◌, ◌≡◌, refl, ◌≢◌, ◌⊎◌, inl, inr, true, false, Option, none, some, List, [], ◌∷◌, Text,
  leb, arith, Option-cases, Bool-cases, ◌∙◌,
}
use go_hypercube.Namespaced.{Namespaced, get}
use go_hypercube.Job.{RetryPolicy, retry_policy_for}
use go_hypercube.Worker.Errors.{GoError, is_not_found, batch_item_error}
use go_hypercube.Worker.{
  Job, name, Message, Command, push, ack, retry, dead_letter, Cause, not_registered, handler_failed,
  Event, command, log_error, settle, wrap_error, dead_letter_message, after_failure, after_run,
  process_message,
}

-- The commands among the events.
pub commands : List Event → List Command
commands [] = []
commands (command c ∷ events) = c ∷ commands events
commands (e ∷ events) = commands events

module _ (jobs : List (Namespaced Job)) (queue : Command → Option GoError)
    (encode : Cause → Text → Option Text) where
  -- The message found its job, whose run failed.
  pub record Failed (msg : Message) : Type 0 where
    pub job : Job
    pub error : Text
    pub found : get name msg.namespace msg.job_name jobs ≡ some job
    pub failed : job.handle msg.payload ≡ some error

  abbrev pub policy : Job → RetryPolicy
  policy j = retry_policy_for j.retry_policy

  -- A command may settle the message: it is acknowledged after a run without error, retried after a
  -- failed one that the policy does not count as the last, with the policy's delay, and dead-lettered
  -- when the job is unknown or its last attempt failed. All other fields are as the driver gave them.
  abbrev pub IsDue : Message → Command → Type 0
  IsDue msg (push m) = ⊥
  IsDue msg (ack m) =
      (m ≡ msg)
      × ((j : Job) × (get name msg.namespace msg.job_name jobs ≡ some j)
          × (j.handle msg.payload ≡ none))
  IsDue msg (retry m) =
      (f : Failed msg) × (msg.attempt < (policy f.job).max_attempts)
      × (m ≡ record msg { delay = (policy f.job).backoff_of msg.attempt })
  IsDue msg (dead_letter m) =
      (m ≡ record msg { extra = m.extra })
      × ((get name msg.namespace msg.job_name jobs ≡ none)
            × (encode (not_registered msg.job_name msg.namespace) msg.extra ≡ some m.extra)
          ⊎ ((f : Failed msg) × ((policy f.job).max_attempts ≤ msg.attempt)
              × (encode (handler_failed f.error) msg.extra ≡ some m.extra)))

  commands-log_error :
      (msg : Message) (e : Option GoError) → commands (log_error jobs queue encode msg e) ≡ []
  unfolding commands
  commands-log_error msg none = refl
  commands-log_error msg (some e) =
      elim (Bool-cases (is_not_found (batch_item_error e msg.pointer))) [
        | inl h ↦ rw h refl
        | inr h ↦ rw h refl
      ]

  commands-settle :
      (msg : Message) (c : Command) → commands (settle jobs queue encode msg c) ≡ c ∷ []
  unfolding commands
  commands-settle msg c = rw (commands-log_error msg (queue c)) refl

  pub commands-dead_letter :
      (msg : Message) (cause : Cause) (extra : Text)
      → encode cause msg.extra ≡ some extra
      → commands (dead_letter_message jobs queue encode msg cause)
        ≡ dead_letter (record msg { extra = extra }) ∷ []
  unfolding commands dead_letter_message
  commands-dead_letter msg cause extra h =
      let c = dead_letter (record msg { extra = extra }) in
      rw h (rw (commands-log_error msg (wrap_error jobs queue encode msg (queue c))) refl)

  commands-unregistered :
      (msg : Message)
      → get name msg.namespace msg.job_name jobs ≡ none
      → commands (process_message jobs queue encode msg)
        ≡ commands
            (dead_letter_message jobs queue encode msg (not_registered msg.job_name msg.namespace))
  unfolding commands process_message
  commands-unregistered msg h = rw (h, process_message, commands) refl

  pub commands-run :
      (msg : Message) (j : Job)
      → get name msg.namespace msg.job_name jobs ≡ some j
      → process_message jobs queue encode msg
        ≡ after_run jobs queue encode j msg (j.handle msg.payload)
  unfolding process_message
  commands-run msg j h = rw (h, process_message) refl

  pub commands-retry :
      (msg : Message) (j : Job) (error : Text)
      → msg.attempt < (policy j).max_attempts
      → commands (after_failure jobs queue encode j msg error)
        ≡ retry (record msg { delay = (policy j).backoff_of msg.attempt }) ∷ []
  unfolding after_failure
  commands-retry msg j error h =
      let go : leb (policy j).max_attempts msg.attempt ≡ false = ground arith in
      let msg' = record msg { delay = (policy j).backoff_of msg.attempt } in
      rw go (commands-settle msg' (retry msg'))

  pub commands-exhausted :
      (msg : Message) (j : Job) (error : Text)
      → (policy j).max_attempts ≤ msg.attempt
      → commands (after_failure jobs queue encode j msg error)
        ≡ commands (dead_letter_message jobs queue encode msg (handler_failed error))
  unfolding after_failure commands
  commands-exhausted msg j error h =
      let stop : leb (policy j).max_attempts msg.attempt ≡ true = ground arith in rw stop refl

  -- A delivery is settled by exactly one command, and the command is the one that is due.
  abbrev pub IsSettled : Message → List Command → Type 0
  IsSettled msg cs = (c : Command) × (cs ≡ c ∷ []) × IsDue msg c

  IsSettled-failure :
      (msg : Message) (j : Job) (error : Text)
      → ((cause : Cause) (extra : Text) → encode cause extra ≢ none)
      → get name msg.namespace msg.job_name jobs ≡ some j
      → j.handle msg.payload ≡ some error
      → IsSettled msg (commands (after_failure jobs queue encode j msg error))
  IsSettled-failure msg j error total found failed =
      let f : Failed msg = record { job = j; error = error; found = found; failed = failed } in
      elim (dec_lt msg.attempt (policy j).max_attempts) [
        | yes again ↦ (_, commands-retry msg j error again, (f, again, refl))
        | no last ↦ elim (Option-cases (encode (handler_failed error) msg.extra)) [
          | inl bad ↦ absurd (total _ _ bad)
          | inr (extra, good) ↦ (
            _,
            commands-exhausted msg j error (omega arith)
                ∙ commands-dead_letter msg (handler_failed error) extra good,
            (refl, inr (f, omega arith, good)),
          )
        ]
      ]

  -- Where failures can be encoded, processMessage settles every delivery by exactly one command:
  -- Ack after a run without error, Retry with the policy's delay after a failed run below the
  -- policy's number of attempts, DeadLetter with the encoded cause after the last one or where no
  -- such job is registered. No field but Delay or Extra is changed.
  pub process_message_lem :
      (msg : Message)
      → ((cause : Cause) (extra : Text) → encode cause extra ≢ none)
      → IsSettled msg (commands (process_message jobs queue encode msg))
  process_message_lem msg total = elim (Option-cases (get name msg.namespace msg.job_name jobs)) [
    | inl missing ↦
        elim (Option-cases (encode (not_registered msg.job_name msg.namespace) msg.extra)) [
          | inl bad ↦ absurd (total _ _ bad)
          | inr (extra, good) ↦ (
            _,
            commands-unregistered msg missing
                ∙ commands-dead_letter msg (not_registered msg.job_name msg.namespace) extra good,
            (refl, inl (missing, good)),
          )
        ]
    | inr (j, found) ↦ rw (commands-run msg j found) (elim (Option-cases (j.handle msg.payload)) [
      | inl done ↦ rw done (_, commands-settle msg (ack msg), (refl, (j, found, done)))
      | inr (error, failed) ↦ rw failed (IsSettled-failure msg j error total found failed)
    ])
  ]
