-- ===== src/Scheduler/Sample.antt =====
-- An implementation of what is used of gocron, as a list of jobs.
use go_hypercube.Common.{
  ℕ, ◌≡◌, ◌≢◌, ◌↔◌, ◌⊎◌, refl, subst, some, List, [], ◌∷◌, ◌++◌, ◌==◌, ==_iff, if◌then◌else◌,
  text_eq, nat_eq, arith,
}
use go_hypercube.Scheduler.{
  CronJob, JobOption, given, with_identifier, with_name, with_tags, Gocron,
}
use go_hypercube.Scheduler.Tags.{IsIn}
use go_hypercube.Scheduler.Table.{IsGocron}

-- The jobs without the one with the ID.
unfoldable pub without : ℕ → List CronJob → List CronJob
without id [] = []
without id (j ∷ js) = if j.job_id == id then without id js else j ∷ without id js

IsIn-without :
    (id : ℕ) (js : List CronJob) (k : CronJob)
    → IsIn k (without id js) ↔ (IsIn k js × (k.job_id ≢ id))
unfolding without
IsIn-without id [] k = (λ h. absurd h, λ h. absurd h.0)
IsIn-without id (j ∷ js) k = ground (arith, IsIn-without id js k, ==_iff j.job_id id)

abbrev no_job : CronJob
no_job = record { job_id = 0; job_name = []; tags = [] }

-- The options applied in order, each over the one before it.
unfoldable pub settle : List (JobOption ℕ) → CronJob → CronJob
settle [] j = j
settle (given o ∷ options) j = settle options j
settle (with_identifier id ∷ options) j = settle options (record j { job_id = id })
settle (with_name n ∷ options) j = settle options (record j { job_name = n })
settle (with_tags ts ∷ options) j = settle options (record j { tags = ts })

settle-identity :
    (first : List (JobOption ℕ)) (j d : CronJob)
    → settle (first ++ with_identifier j.job_id ∷ with_name j.job_name ∷ with_tags j.tags ∷ []) d
      ≡ j
unfolding settle
settle-identity [] j d = refl
settle-identity (given o ∷ first) j d = settle-identity first j d
settle-identity (with_identifier id ∷ first) j d = settle-identity first j _
settle-identity (with_name n ∷ first) j d = settle-identity first j _
settle-identity (with_tags ts ∷ first) j d = settle-identity first j _

module _ (T : Type 0) where
  abbrev pub list_cron : Gocron (List CronJob) ℕ T
  list_cron = record {
    jobs = λ g. g;
    new_job = λ crontab task options g. some (settle options no_job ∷ g);
    remove_job = λ id g. some (without id g);
  }

  pub list_cron-IsGocron : IsGocron list_cron
  list_cron-IsGocron = record {
    new_job-jobs = λ crontab task first j g g' free h k.
        let e : j ∷ g ≡ g' = cc (h, settle-identity first j no_job) in
        subst (λ l. IsIn k l ↔ ((k ≡ j) ⊎ IsIn k g)) e (λ i. i, λ i. i);
    remove_job-jobs = λ id g found. (without id g, refl, IsIn-without id g);
  }
