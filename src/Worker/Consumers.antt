-- ===== src/Worker/Consumers.antt =====
-- Worker of app/queue.go: how many consumers it runs, how long they wait, and what each of them does.
use go_hypercube.Common.{
  ℕ, ◌<◌, ◌≡◌, ◌≢◌, ◌⊎◌, Option, List, [], ◌∷◌, Text, text_eq, nat_eq, All, length,
}
use go_hypercube.Namespaced.{Namespaced}
use go_hypercube.Worker.{Job, Command, Cause}
use go_hypercube.Worker.Errors.{GoError}
use go_hypercube.Worker.Loop.{
  Round, Act, processed, pop_reported, nil_reported, waited, WorkerOptions, Worked, name_required,
  worked,
}
use go_hypercube.Worker.Consume.{Served, messages_of, IsDone}

-- A wait lasts as long as it should.
abbrev pub Waits : ℕ → Act → Type 0
Waits delay (processed msg events) = Unit
Waits delay (pop_reported e) = Unit
Waits delay nil_reported = Unit
Waits delay (waited d) = d ≡ delay

-- A number of the options, or the default where it is not given.
abbrev pub IsOr : ℕ → ℕ → ℕ → Type 0
IsOr default given n = (given ≡ 0) × (n ≡ default) ⊎ (0 < given) × (n ≡ given)

module _ (jobs : List (Namespaced Job)) (queue : Command → Option GoError)
    (encode : Cause → Text → Option Text) where
  -- What the consumers have done: the one with n others behind it has processed what it was handed in
  -- the rounds of n, settled each message by one command, and waited for the given time.
  abbrev pub Ran : ℕ → (ℕ → List Round) → List (List Act) → Type 0
  Ran delay rounds [] = Unit
  Ran delay rounds (acts ∷ runs) =
      Served (rounds (length runs)) (messages_of acts)
      × All (IsDone jobs queue encode) acts
      × All (Waits delay) acts
      × Ran delay rounds runs

  -- What Worker's result says.
  abbrev pub Works : WorkerOptions → (ℕ → List Round) → Worked → Type 0
  Works op rounds name_required = op.queue_name ≡ []
  Works op rounds (worked runs) =
      (op.queue_name ≢ [])
      × IsOr 1 op.concurrency (length runs)
      × ((delay : ℕ) × IsOr 200000000 op.error_backoff delay × Ran delay rounds runs)
