-- ===== src/Scheduler/Refine.antt =====
-- scheduler/scheduler.go keeps a table from IDs to schedules with an owner.
use go_hypercube.Common.{
  ℕ, ◌≡◌, ◌≢◌, ◌↔◌, inl, inr, refl, ap, sym, ◌∙◌, subst, true, false, Option, none, some, [], ◌==◌,
  ==_iff, Text, text_eq, nat_eq, contains, Bool-cases, map,
}
use go_hypercube.Scheduler.{
  CronJob, Gocron, JobConfig, Scheduled, scheduled, refused, nil_task, empty_namespace, empty_name,
  reserved_tag, duplicate_id, not_created, Removed, removed, job_not_found, removal_failed,
  namespace_tag, any_reserved, has_id, id_or_new, identity, schedule, jobs_in_namespace,
  remove_job_in_namespace, added, create, job_options, given,
}
use go_hypercube.Scheduler.Tags.{
  IsIn, IsIn-has_id, has_id-IsIn, IsIn-owned_by, contains-namespace_tag,
}
use go_hypercube.Scheduler.Table.{
  Entry, Table, put, forget, as_job, IsGocron, Implements, has_id-free, has_id-taken,
  Implements-put, Implements-forget, has_id-held,
}

module _ {G O T : Type 0} (cron : Gocron G O T) where
  module _ (fresh : ℕ) (crontab : Text) (config : JobConfig O) (g : G) (table : Table) where
    abbrev pub entry : Entry
    entry = record {
      owner = config.namespace;
      entry_name = config.config_name;
      entry_tags = config.config_tags;
    }

    -- What each result of Schedule says of the table and of the configuration.
    abbrev pub Meets : Option T → Scheduled G → Type 0
    Meets task (refused nil_task) = task ≡ none
    Meets task (refused empty_namespace) = config.namespace ≡ []
    Meets task (refused empty_name) = config.config_name ≡ []
    Meets task (refused reserved_tag) = any_reserved config.config_tags ≡ true
    Meets task (refused duplicate_id) = table (id_or_new cron fresh config) ≢ none
    Meets none (refused not_created) = ⊥
    Meets (some t) (refused not_created) =
        cron.new_job crontab t (job_options cron config (identity cron fresh config)) g ≡ none
    Meets task (scheduled j g') =
        (task ≢ none)
        × (config.namespace ≢ [])
        × (config.config_name ≢ [])
        × (any_reserved config.config_tags ≡ false)
        × (table (id_or_new cron fresh config) ≡ none)
        × (j ≡ as_job (id_or_new cron fresh config) entry)
        × Implements cron g' (put (id_or_new cron fresh config) entry table)

    create-Meets :
        (t : T)
        → IsGocron cron
        → Implements cron g table
        → config.namespace ≢ []
        → config.config_name ≢ []
        → any_reserved config.config_tags ≡ false
        → Meets (some t) (create cron crontab t config (identity cron fresh config) g)
    create-Meets t laws h named titled plain =
        let j = identity cron fresh config in
        elim (Bool-cases (has_id (cron.jobs g) j.job_id)) [
          | inl taken ↦ rw taken (has_id-taken cron g table j.job_id h taken)
          | inr free ↦ rw free (go free (cron.new_job crontab t (job_options cron config j) g) refl)
        ]
      where
        go :
            has_id (cron.jobs g) (id_or_new cron fresh config) ≡ false
            → (o : Option G)
            → cron.new_job crontab t (job_options cron config (identity cron fresh config)) g ≡ o
            → Meets (some t) (added cron (identity cron fresh config) o)
        go free none r = r
        go free (some g') r = (
          λ q. cc (q),
          named,
          titled,
          plain,
          has_id-free cron g table (id_or_new cron fresh config) h free,
          refl,
          Implements-put cron g g' table (id_or_new cron fresh config) entry h plain free (
              laws.new_job-jobs crontab t (map given config.options) (identity cron fresh config) g
                g' free r),
        )

    -- While gocron does what it documents, Schedule implements an insertion into the table: it adds
    -- the schedule where the task, the namespace and the name are given, no tag is reserved and no
    -- schedule has its ID, and otherwise says truly which of these fails, or that gocron refused.
    pub schedule_lem :
        (task : Option T)
        → IsGocron cron
        → Implements cron g table
        → Meets task (schedule cron fresh crontab task config g)
    unfolding schedule
    schedule_lem none laws h = refl
    schedule_lem (some t) laws h = elim (Bool-cases (config.namespace == [])) [
      | inl empty ↦ rw empty ((==_iff config.namespace []).0 empty)
      | inr named ↦ rw named (elim (Bool-cases (config.config_name == [])) [
        | inl empty ↦ rw empty ((==_iff config.config_name []).0 empty)
        | inr titled ↦ rw titled (elim (Bool-cases (any_reserved config.config_tags)) [
          | inl reserved ↦ rw reserved reserved
          | inr plain ↦ rw plain (
              create-Meets t laws h (λ e. cc (named, (==_iff config.namespace []).1 e))
                (λ e. cc (titled, (==_iff config.config_name []).1 e)) plain)
        ])
      ])
    ]

  contains-as_job :
      (j : CronJob) (e : Entry) (namespace : Text)
      → j ≡ as_job j.job_id e
      → any_reserved e.entry_tags ≡ false
      → contains j.tags (namespace_tag namespace) ≡ (e.owner == namespace)
  contains-as_job j e namespace s plain =
      ap (λ k. contains k.tags (namespace_tag namespace)) s
      ∙ contains-namespace_tag e.owner namespace e.entry_tags plain

  -- The job is the table's entry under its ID, and the namespace owns it.
  abbrev pub IsOwned : Text → Table → CronJob → Type 0
  IsOwned namespace table j =
      (e : Entry) × (table j.job_id ≡ some e) × (e.owner ≡ namespace) × (j ≡ as_job j.job_id e)

  -- Where the scheduler implements the table, JobsInNamespace lists exactly the schedules that the
  -- namespace owns.
  pub jobs_in_namespace_lem :
      (g : G) (table : Table) (namespace : Text) (j : CronJob)
      → Implements cron g table
      → IsIn j (jobs_in_namespace cron namespace g) ↔ IsOwned namespace table j
  unfolding jobs_in_namespace
  jobs_in_namespace_lem g table namespace j h = (
    λ i.
        let (listed, tagged) = (IsIn-owned_by namespace (cron.jobs g) j).0 i in
        let (e, r, s, p) = h.listed j listed in
        (e, r, (==_iff e.owner namespace).0 (sym (contains-as_job j e namespace s p) ∙ tagged), s),
    λ (e, r, o, s).
        let i : IsIn j (cron.jobs g) =
          subst (λ k. IsIn k (cron.jobs g)) (sym s) (h.held j.job_id e r) in
        let (x, r', s', p) = h.listed j i in
        let same : x ≡ e = cc (r, r') in
        let owned : x.owner ≡ namespace = ap (λ (y : Entry). y.owner) same ∙ o in
        (IsIn-owned_by namespace (cron.jobs g) j).1
          (i, contains-as_job j x namespace s' p ∙ (==_iff x.owner namespace).1 owned),
  )

  -- What each result of RemoveJobInNamespace says of the table.
  abbrev pub Forgets : Text → ℕ → Table → Removed G → Type 0
  Forgets namespace id table (removed g') =
      (e : Entry) × (table id ≡ some e)
      × (e.owner ≡ namespace)
      × Implements cron g' (forget id table)
  Forgets namespace id table job_not_found = (e : Entry) → table id ≡ some e → e.owner ≢ namespace
  Forgets namespace id table removal_failed = ⊥

  -- While gocron does what it documents, RemoveJobInNamespace implements a removal from the table: it
  -- removes the schedule with the ID where the namespace owns it, and otherwise says that there is
  -- none.
  pub remove_job_in_namespace_lem :
      (g : G) (table : Table) (namespace : Text) (id : ℕ)
      → IsGocron cron
      → Implements cron g table
      → Forgets namespace id table (remove_job_in_namespace cron namespace id g)
  unfolding remove_job_in_namespace
  remove_job_in_namespace_lem g table namespace id laws h =
      elim (Bool-cases (has_id (jobs_in_namespace cron namespace g) id)) [
        | inl found ↦ rw found (
            let (j, i, q) = IsIn-has_id (jobs_in_namespace cron namespace g) id found in
            let (e, r, o, s) = (jobs_in_namespace_lem g table namespace j h).0 i in
            let r' : table id ≡ some e = ap table (sym q) ∙ r in
            let (g', step, law) = laws.remove_job-jobs id g (has_id-held cron g table id e h r') in
            rw step (e, r', o, Implements-forget cron g g' table id h law))
        | inr missing ↦ rw missing (λ e r o.
            let i = (jobs_in_namespace_lem g table namespace (as_job id e) h).1 (e, r, o, refl) in
            cc (missing, has_id-IsIn (jobs_in_namespace cron namespace g) (as_job id e) i))
      ]
