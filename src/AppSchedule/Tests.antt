-- ===== src/AppSchedule/Tests.antt =====
-- Calls of one namespace beside a schedule of another.
use go_hypercube.Common.{
  Text, ◌≡◌, ◌↔◌, refl, false, none, some, ℕ, List, [], ◌∷◌, text_eq, text_beq, contains,
}
use go_hypercube.Parser.Strings.{codes, has_prefix}
use go_hypercube.Scheduler.{
  CronJob, Gocron, JobConfig, any_reserved, has_id, owned_by, schedule, jobs_in_namespace,
  remove_job_in_namespace,
}
use go_hypercube.Scheduler.Tags.{IsIn}
use go_hypercube.Scheduler.Table.{Entry, Table, as_job, put, Implements, Implements-put}
use go_hypercube.Scheduler.Sample.{settle, without, list_cron, list_cron-IsGocron}
use go_hypercube.AppSchedule.{
  Task, callback, schedule_for, schedule_dispatch_for, remove_scheduled_job_for, plugin_schedule,
  plugin_schedule_dispatch, plugin_remove_scheduled_job,
}
use go_hypercube.AppSchedule.Isolation.{
  Call, schedule_call, schedule_dispatch_call, remove_call, step, run, callers,
  run-jobs_in_namespace,
}

abbrev cron : Gocron (List CronJob) ℕ Task
cron = list_cron Task

abbrev nightly : Entry
nightly = record { owner = codes "owner"; entry_name = codes "nightly"; entry_tags = [] }

abbrev empty : Table
empty id = none

abbrev one : List CronJob
one = as_job 7 nightly ∷ []

empty-Implements : Implements cron [] empty
empty-Implements = record { listed = λ j i. absurd i; held = λ id e r. absurd (cc (r)) }

one-Implements : Implements cron one (put 7 nightly empty)
unfolding any_reserved has_id
one-Implements =
    Implements-put cron [] one empty 7 nightly empty-Implements refl refl (λ k. (λ i. i, λ i. i))

abbrev config : JobConfig ℕ
config = record {
  config_id = 0;
  config_name = codes "report";
  namespace = [];
  config_tags = [];
  options = [];
}

-- The blog schedules a report, fails to remove the host's schedule, and enqueues a job each night.
abbrev calls : List (Text × Call ℕ)
calls =
    (codes "blog", schedule_call 8 (codes "0 1 * * *") (some (callback none)) config)
    ∷ (codes "blog", remove_call 7)
    ∷ (
      codes "blog",
      schedule_dispatch_call 9 (codes "0 2 * * *") (codes "mail") []
          (record { delay = 0; visibility_timeout = 0 }) config,
    )
    ∷ []

program : Unit {0}
unfolding settle step run schedule_for schedule_dispatch_for remove_scheduled_job_for
    plugin_schedule plugin_schedule_dispatch plugin_remove_scheduled_job schedule jobs_in_namespace
    remove_job_in_namespace any_reserved has_id owned_by has_prefix contains text_beq without
program = tt

three_jobs :
    run cron calls one
    ≡ as_job 9 (record { owner = codes "blog"; entry_name = codes "report"; entry_tags = [] })
      ∷ as_job 8 (record { owner = codes "blog"; entry_name = codes "report"; entry_tags = [] })
      ∷ one
unfolding program
three_jobs = refl

others : contains (callers cron calls) (codes "owner") ≡ false
unfolding program
others = refl

run-jobs_in_namespace_example :
    IsIn (as_job 7 nightly) (jobs_in_namespace cron (codes "owner") (run cron calls one))
    ↔ IsIn (as_job 7 nightly) (jobs_in_namespace cron (codes "owner") one)
run-jobs_in_namespace_example =
    run-jobs_in_namespace cron calls one (put 7 nightly empty) (codes "owner") (as_job 7 nightly)
      (list_cron-IsGocron Task) one-Implements others
