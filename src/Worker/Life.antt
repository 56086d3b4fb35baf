-- ===== src/Worker/Life.antt =====
-- What becomes of a message whose job keeps failing: app/queue.go together with the contract of
-- Queue.Pop and Queue.Retry in queue/queue.go.
use go_hypercube.Common.{
  ℕ, zero, suc, ◌+◌, ◌-◌, ◌<◌, ◌≡◌, refl, ◌≢◌, ◌∙◌, inl, inr, Option, none, some, List, [], ◌∷◌,
  ◌++◌, Text, arith, Option-cases, ap,
}
use go_hypercube.Namespaced.{Namespaced, get}
use go_hypercube.Worker.Errors.{GoError}
use go_hypercube.Worker.{
  Job, name, Message, Command, retry, dead_letter, Cause, handler_failed, after_run, after_failure,
  process_message,
}
use go_hypercube.Worker.Settle.{
  commands, policy, commands-run, commands-retry, commands-exhausted, commands-dead_letter,
}

-- A delivery as Pop hands it out: Attempt incremented, Delay reset.
pub pop : Message → Message
pop msg = record msg { attempt = msg.attempt + 1; delay = 0 }

-- Retry makes the message pending again, with the fields that the caller left; after any other
-- command no further delivery comes.
abbrev pub follow : (Message → List Command) → List Command → List Command
follow redeliver [] = []
follow redeliver (retry msg ∷ cs) = redeliver msg
follow redeliver (c ∷ cs) = []

module _ (jobs : List (Namespaced Job)) (queue : Command → Option GoError)
    (encode : Cause → Text → Option Text) where
  -- The commands for one message over at most `rounds` deliveries.
  pub deliver : ℕ → Message → List Command
  deliver zero msg = []
  deliver (suc rounds) msg =
      let cs = commands (process_message jobs queue encode (pop msg)) in
      cs ++ follow (deliver rounds) cs

  -- `k` retries, each a delivery later and with the policy's delay for its attempt, and then a
  -- dead-lettering.
  abbrev pub IsLife : Job → ℕ → Message → List Command → Type 0
  IsLife j zero msg cs =
      (last : Message) × (cs ≡ dead_letter last ∷ []) × (last.attempt ≡ msg.attempt + 1)
  IsLife j (suc k) msg cs =
      (next : Message) × (later : List Command) × (cs ≡ retry next ∷ later)
      × (next.attempt ≡ msg.attempt + 1)
      × (next.delay ≡ (policy jobs queue encode j).backoff_of (msg.attempt + 1))
      × IsLife j k next later

  deliver-retry :
      (rounds : ℕ) (msg next : Message)
      → commands (process_message jobs queue encode (pop msg)) ≡ retry next ∷ []
      → deliver (suc rounds) msg ≡ retry next ∷ deliver rounds next
  unfolding deliver
  deliver-retry rounds msg next h = rw h refl

  deliver-dead_letter :
      (rounds : ℕ) (msg last : Message)
      → commands (process_message jobs queue encode (pop msg)) ≡ dead_letter last ∷ []
      → deliver (suc rounds) msg ≡ dead_letter last ∷ []
  unfolding deliver
  deliver-dead_letter rounds msg last h = rw h refl

  module _ (j : Job) (error : Text)
      (total : (cause : Cause) (extra : Text) → encode cause extra ≢ none) where
    process-failed :
        (msg : Message)
        → get name msg.namespace msg.job_name jobs ≡ some j
        → j.handle msg.payload ≡ some error
        → process_message jobs queue encode (pop msg)
          ≡ after_failure jobs queue encode j (pop msg) error
    unfolding pop
    process-failed msg found failed =
        commands-run jobs queue encode (pop msg) j found
        ∙ ap (after_run jobs queue encode j (pop msg)) failed

    -- A message whose registered job fails on every attempt is delivered until its attempts are
    -- those that the policy allows, at least once: every delivery but the last is answered by Retry,
    -- and the last by DeadLetter.
    pub deliver_lem :
        (k rounds : ℕ) (msg : Message)
        → get name msg.namespace msg.job_name jobs ≡ some j
        → j.handle msg.payload ≡ some error
        → (policy jobs queue encode j).max_attempts - (msg.attempt + 1) ≡ k
        → k < rounds
        → IsLife j k msg (deliver rounds msg)
    unfolding pop
    deliver_lem k zero msg found failed left enough = absurd (omega arith)
    deliver_lem zero (suc rounds) msg found failed left enough =
        elim (Option-cases (encode (handler_failed error) msg.extra)) [
          | inl bad ↦ absurd (total _ _ bad)
          | inr (extra, good) ↦ (
            _,
            deliver-dead_letter rounds msg _ (
                ap commands (process-failed msg found failed)
                ∙ commands-exhausted jobs queue encode (pop msg) j error (omega arith)
                ∙ commands-dead_letter jobs queue encode (pop msg) (handler_failed error) extra
                    good),
            refl,
          )
        ]
    deliver_lem (suc k) (suc rounds) msg found failed left enough =
        let next = record (pop msg) {
          delay = (policy jobs queue encode j).backoff_of (msg.attempt + 1);
        } in
        (
          next,
          deliver rounds next,
          deliver-retry rounds msg next (
              ap commands (process-failed msg found failed)
              ∙ commands-retry jobs queue encode (pop msg) j error (omega arith)),
          refl,
          refl,
          deliver_lem k rounds next found failed (omega arith) (omega arith),
        )
