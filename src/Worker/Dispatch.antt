-- ===== src/Worker/Dispatch.antt =====
-- App.dispatch of app/queue.go: the message that a dispatch pushes.
use go_hypercube.Common.{◌≡◌, ◌≢◌, ◌⊎◌, Option, some, List, [], Text, text_eq, nat_eq}
use go_hypercube.Namespaced.{Namespaced, get}
use go_hypercube.Job.{visibility_timeout_for}
use go_hypercube.Worker.Errors.{GoError}
use go_hypercube.Worker.{Job, name, Message, Command, DispatchConfig}

module _ (jobs : List (Namespaced Job)) (queue : Command → Option GoError)
    (namespace job_name payload : Text) (config : DispatchConfig) where
  -- The message carries the given payload and delay, is new, names a queue, and leads a worker to the
  -- job `j`; a timeout in the call wins over the one that the job declares.
  pub record IsFor (j : Job) (m : Message) : Type 0 where
    pub finds : get name m.namespace m.job_name jobs ≡ some j
    pub queued : m.queue_name ≢ []
    pub carries : m.payload ≡ payload
    pub waits : m.delay ≡ config.delay
    pub is_new : m.attempt ≡ 0
    pub timeout :
        (config.visibility_timeout ≢ 0) × (m.visibility_timeout ≡ config.visibility_timeout)
        ⊎ (config.visibility_timeout ≡ 0)
          × (m.visibility_timeout ≡ visibility_timeout_for j.visibility_timeout)
