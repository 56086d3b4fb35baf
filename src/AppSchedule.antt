-- ===== src/AppSchedule.antt =====
-- app/schedule.go, and the scheduling calls of plugin/job.go and job/schedule.go with the callbacks
-- that Setup of app/app.go supplies.
mod Tests
pub mod Isolation
use go_hypercube.Common.{ℕ, Option, none, some, List, [], ◌∷◌, ◌++◌, map, Text}
use go_hypercube.Namespaced.{Namespaced}
use go_hypercube.Worker.{
  Job, DispatchConfig, Command, Dispatched, sent, job_not_found, push_failed, dispatch,
}
use go_hypercube.Worker.Errors.{GoError}
use go_hypercube.Scheduler.{
  CronJob, Gocron, JobConfig, Scheduled, scheduled, refused, Removed, removed, removal_failed,
  schedule, jobs_in_namespace, remove_job_in_namespace,
}

-- A task that the app hands to the scheduler: a caller's function, which gives an error or none, or
-- the function that scheduleDispatch makes of its arguments.
pub data Task : Type 0 where
  callback : Option Text → Task
  dispatching : Text → Text → Text → DispatchConfig → Task

-- What a task does: a command to the queue, or a line in the log.
pub data TaskEvent : Type 0 where
  sent_command : Command → TaskEvent
  dispatch_failed task_failed : TaskEvent

abbrev pub log_dispatch : Dispatched → List TaskEvent
log_dispatch sent = []
log_dispatch job_not_found = dispatch_failed ∷ []
log_dispatch (push_failed e) = dispatch_failed ∷ []

module _ (jobs : List (Namespaced Job)) (queue : Command → Option GoError) where
  -- The task's own function: what it does, and the error that it returns.
  unfoldable pub run_task : Task → List TaskEvent × Option Text
  run_task (callback error) = ([], error)
  run_task (dispatching namespace job_name payload config) =
      let (commands, result) = dispatch jobs queue namespace job_name payload config in
      (map sent_command commands ++ log_dispatch result, none)

  abbrev pub log_task : Option Text → List TaskEvent
  log_task none = []
  log_task (some error) = task_failed ∷ []

  -- The function that Schedule of scheduler/scheduler.go hands to gocron.
  unfoldable pub run_scheduled : Task → List TaskEvent
  unfolding run_task
  run_scheduled task = let (events, error) = run_task task in events ++ log_task error

-- The results of the app's calls, whose scheduler may be missing.
pub data Tried (R : Type 0) : Type 0 where
  unavailable : Tried R
  tried : R → Tried R

module _ {G O : Type 0} (cron : Gocron G O Task) where
  -- App.schedule; App.Schedule is the case of the host's namespace.
  unfoldable pub schedule_for :
      Text → ℕ → Text → Option Task → JobConfig O → Option G → Tried (Scheduled G)
  schedule_for namespace fresh crontab task config none = unavailable
  schedule_for namespace fresh crontab task config (some g) =
      tried (schedule cron fresh crontab task (record config { namespace = namespace }) g)

  -- App.scheduleDispatch; App.ScheduleDispatch is the case of the host's namespace.
  unfoldable pub schedule_dispatch_for :
      Text → ℕ → Text → Text → Text → DispatchConfig → JobConfig O → Option G → Tried (Scheduled G)
  unfolding schedule_for
  schedule_dispatch_for namespace fresh crontab job_name payload dispatch_config config scheduler =
      schedule_for namespace fresh crontab
        (some (dispatching namespace job_name payload dispatch_config)) config scheduler

  -- App.ScheduledJobs
  unfoldable pub scheduled_jobs : Option G → List CronJob
  scheduled_jobs none = []
  scheduled_jobs (some g) = cron.jobs g

  -- App.scheduledJobs
  unfoldable pub scheduled_jobs_for : Text → Option G → List CronJob
  scheduled_jobs_for namespace none = []
  scheduled_jobs_for namespace (some g) = jobs_in_namespace cron namespace g

  abbrev pub after_removal : Option G → Removed G
  after_removal none = removal_failed
  after_removal (some g) = removed g

  -- App.RemoveScheduledJob
  unfoldable pub remove_scheduled_job : ℕ → Option G → Tried (Removed G)
  remove_scheduled_job id none = unavailable
  remove_scheduled_job id (some g) = tried (after_removal (cron.remove_job id g))

  -- App.removeScheduledJob
  unfoldable pub remove_scheduled_job_for : Text → ℕ → Option G → Tried (Removed G)
  remove_scheduled_job_for namespace id none = unavailable
  remove_scheduled_job_for namespace id (some g) =
      tried (remove_job_in_namespace cron namespace id g)

  -- The scheduling callbacks of plugin.Options and job.Options; none is nil.
  pub record Callbacks : Type 0 where
    pub on_schedule : Option (ℕ → Text → Option Task → JobConfig O → Option G → Tried (Scheduled G))
    pub on_schedule_dispatch :
        Option
          (ℕ → Text → Text → Text → DispatchConfig → JobConfig O → Option G → Tried (Scheduled G))
    pub on_scheduled_jobs : Option (Option G → List CronJob)
    pub on_remove_scheduled_job : Option (ℕ → Option G → Tried (Removed G))

  -- The callbacks that Setup, Boot and processMessage supply to a plugin or a job.
  abbrev pub callbacks_for : Text → Callbacks
  callbacks_for namespace = record {
    on_schedule = some (schedule_for namespace);
    on_schedule_dispatch = some (schedule_dispatch_for namespace);
    on_scheduled_jobs = some (scheduled_jobs_for namespace);
    on_remove_scheduled_job = some (remove_scheduled_job_for namespace);
  }

  -- Schedule of plugin.App and of job.App.
  unfoldable pub plugin_schedule :
      Callbacks → ℕ → Text → Option Task → JobConfig O → Option G → Tried (Scheduled G)
  plugin_schedule app fresh crontab task config scheduler = elim app.on_schedule [
    | none ↦ unavailable
    | some f ↦ f fresh crontab task config scheduler
  ]

  -- ScheduleDispatch of plugin.App and of job.App.
  unfoldable pub plugin_schedule_dispatch :
      Callbacks
      → ℕ
      → Text
      → Text
      → Text
      → DispatchConfig
      → JobConfig O
      → Option G
      → Tried (Scheduled G)
  plugin_schedule_dispatch app fresh crontab job_name payload dispatch_config config scheduler =
      elim app.on_schedule_dispatch [
        | none ↦ unavailable
        | some f ↦ f fresh crontab job_name payload dispatch_config config scheduler
      ]

  -- ScheduledJobs of plugin.App and of job.App.
  unfoldable pub plugin_scheduled_jobs : Callbacks → Option G → List CronJob
  plugin_scheduled_jobs app scheduler = elim app.on_scheduled_jobs [
    | none ↦ []
    | some f ↦ f scheduler
  ]

  -- RemoveScheduledJob of plugin.App and of job.App.
  unfoldable pub plugin_remove_scheduled_job : Callbacks → ℕ → Option G → Tried (Removed G)
  plugin_remove_scheduled_job app id scheduler = elim app.on_remove_scheduled_job [
    | none ↦ unavailable
    | some f ↦ f id scheduler
  ]
