-- ===== src/Scheduler/Tests.antt =====
-- Two schedules of two owners.
use go_hypercube.Common.{
  ℕ, ◌≡◌, ◌↔◌, refl, none, some, List, [], ◌∷◌, text_eq, nat_eq, text_beq, contains,
}
use go_hypercube.Parser.Strings.{codes, has_prefix}
use go_hypercube.Scheduler.{
  CronJob, Gocron, JobConfig, scheduled, refused, duplicate_id, job_not_found, any_reserved, has_id,
  owned_by, schedule, jobs_in_namespace, remove_job_in_namespace,
}
use go_hypercube.Scheduler.Tags.{IsIn}
use go_hypercube.Scheduler.Sample.{settle, without, list_cron, list_cron-IsGocron}
use go_hypercube.Scheduler.Table.{Entry, Table, as_job, put, Implements, Implements-put}
use go_hypercube.Scheduler.Refine.{
  Meets, schedule_lem, IsOwned, jobs_in_namespace_lem, Forgets, remove_job_in_namespace_lem,
}

abbrev cron : Gocron (List CronJob) ℕ (Unit {0})
cron = list_cron (Unit {0})

abbrev nightly : Entry
nightly = record { owner = codes "owner"; entry_name = codes "nightly"; entry_tags = [] }

abbrev report : Entry
report = record {
  owner = codes "blog";
  entry_name = codes "report";
  entry_tags = codes "slow" ∷ [];
}

abbrev empty : Table
empty id = none

abbrev one : Table
one = put 7 nightly empty

abbrev two : Table
two = put 8 report one

empty-Implements : Implements cron [] empty
empty-Implements = record { listed = λ j i. absurd i; held = λ id e r. absurd (cc (r)) }

one-Implements : Implements cron (as_job 7 nightly ∷ []) one
unfolding any_reserved has_id
one-Implements =
    Implements-put cron [] (as_job 7 nightly ∷ []) empty 7 nightly empty-Implements refl refl
      (λ k. (λ i. i, λ i. i))

abbrev both : List CronJob
both = as_job 8 report ∷ as_job 7 nightly ∷ []

two-Implements : Implements cron both two
unfolding any_reserved has_id has_prefix
two-Implements =
    Implements-put cron (as_job 7 nightly ∷ []) both one 8 report one-Implements refl refl
      (λ k. (λ i. i, λ i. i))

abbrev report_config : JobConfig ℕ
report_config = record {
  config_id = 8;
  config_name = codes "report";
  namespace = codes "blog";
  config_tags = codes "slow" ∷ [];
  options = 7 ∷ [];
}

program : Unit {0}
unfolding settle schedule jobs_in_namespace remove_job_in_namespace any_reserved has_id owned_by
    has_prefix contains text_beq without
program = tt

report_scheduled :
    schedule cron 9 (codes "* * * * *") (some tt) report_config (as_job 7 nightly ∷ [])
    ≡ scheduled (as_job 8 report) both
unfolding program
report_scheduled = refl

report_refused :
    schedule cron 9 (codes "* * * * *") (some tt) report_config both ≡ refused duplicate_id
unfolding program
report_refused = refl

not_of_owner : remove_job_in_namespace cron (codes "owner") 8 both ≡ job_not_found
unfolding program
not_of_owner = refl

schedule_lem_example :
    Meets cron 9
      (codes "* * * * *")
      report_config
      (as_job 7 nightly ∷ [])
      one
      (some tt)
      (schedule cron 9 (codes "* * * * *") (some tt) report_config (as_job 7 nightly ∷ []))
schedule_lem_example =
    schedule_lem cron 9 (codes "* * * * *") report_config (as_job 7 nightly ∷ []) one (some tt)
      (list_cron-IsGocron (Unit {0})) one-Implements

jobs_in_namespace_lem_example :
    IsIn (as_job 8 report) (jobs_in_namespace cron (codes "blog") both)
    ↔ IsOwned cron (codes "blog") two (as_job 8 report)
jobs_in_namespace_lem_example =
    jobs_in_namespace_lem cron both two (codes "blog") (as_job 8 report) two-Implements

remove_job_in_namespace_lem_example :
    Forgets cron (codes "blog") 8 two (remove_job_in_namespace cron (codes "blog") 8 both)
remove_job_in_namespace_lem_example =
    remove_job_in_namespace_lem cron both two (codes "blog") 8 (list_cron-IsGocron (Unit {0}))
      two-Implements
