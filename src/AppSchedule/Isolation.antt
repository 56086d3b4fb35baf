-- ===== src/AppSchedule/Isolation.antt =====
-- app/schedule.go: what plugins and jobs schedule and remove stays within their namespaces.
use go_hypercube.Common.{
  ℕ, ◌≡◌, ◌≢◌, ◌↔◌, refl, ap, sym, Option, none, some, List, [], ◌∷◌, ◌==◌, ==_iff, nat_eq, text_eq,
  arith, map, contains, contains-cons, false, Text, Bool-cases, inl, inr, ◌∙◌,
}
use go_hypercube.Worker.{DispatchConfig}
use go_hypercube.Scheduler.{
  CronJob, Gocron, JobConfig, Scheduled, scheduled, refused, Removed, removed, job_not_found,
  removal_failed, id_or_new, schedule, jobs_in_namespace, remove_job_in_namespace,
}
use go_hypercube.Scheduler.Tags.{IsIn}
use go_hypercube.Scheduler.Table.{Entry, Table, put, forget, IsGocron, Implements}
use go_hypercube.Scheduler.Refine.{
  Meets, entry, schedule_lem, jobs_in_namespace_lem, Forgets, remove_job_in_namespace_lem,
}
use go_hypercube.AppSchedule.{
  Task, dispatching, Tried, unavailable, tried, schedule_for, schedule_dispatch_for,
  remove_scheduled_job_for, callbacks_for, plugin_schedule, plugin_schedule_dispatch,
  plugin_remove_scheduled_job,
}

-- A scheduling call of a plugin or a job.
pub data Call (O : Type 0) : Type 0 where
  schedule_call : ℕ → Text → Option Task → JobConfig O → Call O
  schedule_dispatch_call : ℕ → Text → Text → Text → DispatchConfig → JobConfig O → Call O
  remove_call : ℕ → Call O

-- The namespace has the same schedules in both tables.
abbrev pub Same : Text → Table → Table → Type 0
Same namespace table table' =
    (id : ℕ) (e : Entry) → e.owner ≡ namespace → (table id ≡ some e) ↔ (table' id ≡ some e)

Same-put :
    (id : ℕ) (e : Entry) (table : Table) (namespace : Text)
    → table id ≡ none
    → namespace ≢ e.owner
    → Same namespace table (put id e table)
Same-put id e table namespace free apart k x o =
    ground (arith, ==_iff k id, ap table, ap (λ (y : Entry). y.owner))

Same-forget :
    (id : ℕ) (e : Entry) (table : Table) (namespace : Text)
    → table id ≡ some e
    → namespace ≢ e.owner
    → Same namespace table (forget id table)
Same-forget id e table namespace held apart k x o = (
  λ r. elim (Bool-cases (k == id)) [
    | inl here ↦
        let q : table k ≡ table id = ap table ((==_iff k id).0 here) in
        let same : x ≡ e = cc (r, held, q) in
        absurd (apart (sym o ∙ ap (λ (y : Entry). y.owner) same))
    | inr other ↦ ground (arith)
  ],
  λ r. ground (arith, ==_iff k id),
)

module _ {G O : Type 0} (cron : Gocron G O Task) where
  abbrev pub after_scheduling : G → Tried (Scheduled G) → G
  after_scheduling g unavailable = g
  after_scheduling g (tried (refused e)) = g
  after_scheduling g (tried (scheduled j g')) = g'

  abbrev pub after_removing : G → Tried (Removed G) → G
  after_removing g unavailable = g
  after_removing g (tried job_not_found) = g
  after_removing g (tried removal_failed) = g
  after_removing g (tried (removed g')) = g'

  -- The scheduler after a call of a plugin or a job of the namespace.
  unfoldable pub step : Text → Call O → G → G
  step namespace (schedule_call fresh crontab task config) g =
      after_scheduling g
        (plugin_schedule cron (callbacks_for cron namespace) fresh crontab task config (some g))
  step namespace (schedule_dispatch_call fresh crontab job_name payload dispatch_config config) g =
      after_scheduling g (
        plugin_schedule_dispatch cron (callbacks_for cron namespace) fresh crontab job_name payload
          dispatch_config config (some g))
  step namespace (remove_call id) g =
      after_removing g (plugin_remove_scheduled_job cron (callbacks_for cron namespace) id (some g))

  -- The scheduler after calls of several namespaces, in their order.
  unfoldable pub run : List (Text × Call O) → G → G
  unfolding step
  run [] g = g
  run ((namespace, call) ∷ calls) g = run calls (step namespace call g)

  -- The scheduler implements a table that differs at most in the schedules of one namespace.
  abbrev Moved : Text → Table → G → Type 0
  Moved namespace table g =
      (table' : Table) × Implements cron g table'
      × ((other : Text) → other ≢ namespace → Same other table table')

  scheduled-Moved :
      (fresh : ℕ) (crontab : Text) (config : JobConfig O) (g : G) (table : Table)
      (task : Option Task)
      → Implements cron g table
      → (r : Scheduled G) → Meets cron fresh crontab config g table task r
      → Moved config.namespace table (after_scheduling g (tried r))
  scheduled-Moved fresh crontab config g table task h (refused e) m =
      (table, h, λ other apart id x o. (λ q. q, λ q. q))
  scheduled-Moved fresh crontab config g table none h (scheduled j g') m = absurd (m.0 refl)
  scheduled-Moved fresh crontab config g table (some t) h (scheduled j g')
        (_, _, _, _, free, _, h') =
      let id = id_or_new cron fresh config in
      let e = entry cron fresh crontab config g table in
      (put id e table, h', λ other apart. Same-put id e table other free apart)

  removed-Moved :
      (namespace : Text) (id : ℕ) (g : G) (table : Table)
      → Implements cron g table
      → (r : Removed G) → Forgets cron namespace id table r
      → Moved namespace table (after_removing g (tried r))
  removed-Moved namespace id g table h job_not_found m =
      (table, h, λ other apart id x o. (λ q. q, λ q. q))
  removed-Moved namespace id g table h removal_failed m = absurd m
  removed-Moved namespace id g table h (removed g') (e, r, o, h') =
      (forget id table, h', λ other apart. Same-forget id e table other r (λ q. apart (q ∙ o)))

  step-Moved :
      (namespace : Text) (call : Call O) (g : G) (table : Table)
      → IsGocron cron
      → Implements cron g table
      → Moved namespace table (step namespace call g)
  unfolding step schedule_for schedule_dispatch_for remove_scheduled_job_for plugin_schedule
      plugin_schedule_dispatch plugin_remove_scheduled_job
  step-Moved namespace (schedule_call fresh crontab task config) g table laws h =
      let config' = record config { namespace = namespace } in
      scheduled-Moved fresh crontab config' g table task h
        (schedule cron fresh crontab task config' g)
        (schedule_lem cron fresh crontab config' g table task laws h)
  step-Moved namespace (schedule_dispatch_call fresh crontab job_name payload d config) g table laws
        h =
      let config' = record config { namespace = namespace } in
      let task : Option Task = some (dispatching namespace job_name payload d) in
      scheduled-Moved fresh crontab config' g table task h
        (schedule cron fresh crontab task config' g)
        (schedule_lem cron fresh crontab config' g table task laws h)
  step-Moved namespace (remove_call id) g table laws h =
      removed-Moved namespace id g table h (remove_job_in_namespace cron namespace id g)
        (remove_job_in_namespace_lem cron g table namespace id laws h)

  abbrev pub callers : List (Text × Call O) → List Text
  callers calls = map (λ c. c.0) calls

  run-Same :
      (calls : List (Text × Call O)) (g : G) (table : Table) (namespace : Text)
      → IsGocron cron
      → Implements cron g table
      → contains (callers calls) namespace ≡ false
      → (table' : Table) × Implements cron (run calls g) table' × Same namespace table table'
  unfolding run
  run-Same [] g table namespace laws h silent = (table, h, λ id x o. (λ q. q, λ q. q))
  run-Same ((caller, call) ∷ calls) g table namespace laws h silent =
      let (table', h', same) = step-Moved caller call g table laws h in
      let rest : contains (callers calls) namespace ≡ false =
        ground (arith, contains-cons caller (callers calls) namespace) in
      let apart : namespace ≢ caller = λ q.
        ground (arith, contains-cons caller (callers calls) namespace, ==_iff caller namespace) in
      let (table2, h2, same2) = run-Same calls (step caller call g) table' namespace laws h' rest in
      (
        table2,
        h2,
        λ id x o.
            let (to, back) = same namespace apart id x o in
            let (to2, back2) = same2 id x o in (λ q. to2 (to q), λ q. back (back2 q)),
      )

  -- While gocron does what it documents, the calls of the plugins and jobs of other namespaces, in any
  -- number and order, leave the schedules that a namespace lists as they were.
  pub run-jobs_in_namespace :
      (calls : List (Text × Call O)) (g : G) (table : Table) (namespace : Text) (j : CronJob)
      → IsGocron cron
      → Implements cron g table
      → contains (callers calls) namespace ≡ false
      → IsIn j (jobs_in_namespace cron namespace (run calls g))
        ↔ IsIn j (jobs_in_namespace cron namespace g)
  run-jobs_in_namespace calls g table namespace j laws h silent =
      let (table', h', same) = run-Same calls g table namespace laws h silent in
      let now = jobs_in_namespace_lem cron (run calls g) table' namespace j h' in
      let before = jobs_in_namespace_lem cron g table namespace j h in
      (
        λ i. let (e, r, o, s) = now.0 i in before.1 (e, (same j.job_id e o).1 r, o, s),
        λ i. let (e, r, o, s) = before.0 i in now.1 (e, (same j.job_id e o).0 r, o, s),
      )
