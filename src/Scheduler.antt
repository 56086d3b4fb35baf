-- ===== src/Scheduler.antt =====
-- scheduler/scheduler.go: cron schedules with an owner. The package gocron is a parameter.
mod Tests
pub mod Tags
pub mod Table
pub mod Sample
pub mod Refine
use go_hypercube.Common.{
  ℕ, Bool, true, false, Option, none, some, List, [], ◌∷◌, ◌++◌, ◌||◌, ◌==◌, if◌then◌else◌, Text,
  text_eq, nat_eq, contains, map,
}
use go_hypercube.Parser.Strings.{codes, has_prefix}

-- gocron.Job, by its ID, Name and Tags; an ID is a number of 128 bits.
pub record CronJob : Type 0 where
  pub job_id : ℕ
  pub job_name : Text
  pub tags : List Text

-- gocron.JobOption: WithIdentifier, WithName and WithTags, and the options that a caller gives.
pub data JobOption (O : Type 0) : Type 0 where
  given : O → JobOption O
  with_identifier : ℕ → JobOption O
  with_name : Text → JobOption O
  with_tags : List Text → JobOption O

-- gocron.Scheduler with its states `G`, its options `O` and tasks `T`: Jobs, NewJob and RemoveJob,
-- where none is an error. NewJob is given the options in the order in which it applies them.
pub record Gocron (G O T : Type 0) : Type 0 where
  pub jobs : G → List CronJob
  pub new_job : Text → T → List (JobOption O) → G → Option G
  pub remove_job : ℕ → G → Option G

-- JobConfig
pub record JobConfig (O : Type 0) : Type 0 where
  pub config_id : ℕ
  pub config_name : Text
  pub namespace : Text
  pub config_tags : List Text
  pub options : List O

pub data ScheduleError : Type 0 where
  nil_task empty_namespace empty_name reserved_tag duplicate_id not_created : ScheduleError

-- What Schedule returns, with the new state of the scheduler where it changes.
pub data Scheduled (G : Type 0) : Type 0 where
  scheduled : CronJob → G → Scheduled G
  refused : ScheduleError → Scheduled G

-- What RemoveJobInNamespace returns; `removal_failed` is an error of RemoveJob.
pub data Removed (G : Type 0) : Type 0 where
  removed : G → Removed G
  job_not_found removal_failed : Removed G

-- NamespaceTag
abbrev pub namespace_tag : Text → Text
namespace_tag namespace = codes "namespace:" ++ namespace

-- The loop over the tags of a configuration.
unfoldable pub any_reserved : List Text → Bool
any_reserved [] = false
any_reserved (tag ∷ tags) = if has_prefix (codes "namespace:") tag then true else any_reserved tags

-- The loops that look for an ID.
unfoldable pub has_id : List CronJob → ℕ → Bool
has_id [] id = false
has_id (j ∷ js) id = if j.job_id == id then true else has_id js id

-- The loop of JobsInNamespace.
unfoldable pub owned_by : Text → List CronJob → List CronJob
owned_by namespace [] = []
owned_by namespace (j ∷ js) =
    if contains j.tags (namespace_tag namespace)
    then j ∷ owned_by namespace js
    else owned_by namespace js

module _ {G O T : Type 0} (cron : Gocron G O T) where
  -- The configured ID, or for uuid.Nil the one that uuid.New makes.
  abbrev pub id_or_new : ℕ → JobConfig O → ℕ
  id_or_new fresh config = if config.config_id == 0 then fresh else config.config_id

  abbrev pub identity : ℕ → JobConfig O → CronJob
  identity fresh config = record {
    job_id = id_or_new fresh config;
    job_name = config.config_name;
    tags = namespace_tag config.namespace ∷ config.config_tags;
  }

  -- The options of NewJob: the configured ones, and behind them the identity.
  abbrev pub job_options : JobConfig O → CronJob → List (JobOption O)
  job_options config j =
      map given config.options
      ++ with_identifier j.job_id ∷ with_name j.job_name ∷ with_tags j.tags ∷ []

  abbrev pub added : CronJob → Option G → Scheduled G
  added j none = refused not_created
  added j (some g) = scheduled j g

  -- The part of Schedule under the lock.
  abbrev pub create : Text → T → JobConfig O → CronJob → G → Scheduled G
  create crontab task config j g =
      if has_id (cron.jobs g) j.job_id
      then refused duplicate_id
      else added j (cron.new_job crontab task (job_options config j) g)

  abbrev pub schedule_task : ℕ → Text → T → JobConfig O → G → Scheduled G
  schedule_task fresh crontab task config g =
      if config.namespace == []
      then refused empty_namespace
      else if config.config_name == []
      then refused empty_name
      else if any_reserved config.config_tags
      then refused reserved_tag
      else create crontab task config (identity fresh config) g

  -- Schedule; a task of none is nil, and `fresh` is what uuid.New makes.
  unfoldable pub schedule : ℕ → Text → Option T → JobConfig O → G → Scheduled G
  unfolding any_reserved has_id
  schedule fresh crontab none config g = refused nil_task
  schedule fresh crontab (some task) config g = schedule_task fresh crontab task config g

  -- JobsInNamespace
  unfoldable pub jobs_in_namespace : Text → G → List CronJob
  unfolding owned_by
  jobs_in_namespace namespace g = owned_by namespace (cron.jobs g)

  abbrev pub after_removal : Option G → Removed G
  after_removal none = removal_failed
  after_removal (some g) = removed g

  -- RemoveJobInNamespace
  unfoldable pub remove_job_in_namespace : Text → ℕ → G → Removed G
  unfolding jobs_in_namespace has_id
  remove_job_in_namespace namespace id g =
      if has_id (jobs_in_namespace namespace g) id
      then after_removal (cron.remove_job id g)
      else job_not_found
