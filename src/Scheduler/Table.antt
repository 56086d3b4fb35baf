-- ===== src/Scheduler/Table.antt =====
-- scheduler/scheduler.go as a table from IDs to schedules with an owner.
use go_hypercube.Common.{
  ℕ, ◌≡◌, ◌≢◌, ◌↔◌, ◌⊎◌, inl, inr, refl, ap, sym, ◌∙◌, subst, true, false, Option, none, some, List,
  [], ◌++◌, ◌∷◌, ◌==◌, ==_iff, ==_refl, Text, text_eq, nat_eq, arith, if◌then◌else◌, Option-cases,
}
use go_hypercube.Scheduler.{
  CronJob, JobOption, with_identifier, with_name, with_tags, Gocron, namespace_tag, any_reserved,
  has_id,
}
use go_hypercube.Scheduler.Tags.{IsIn, IsIn-has_id, has_id-IsIn}

-- A schedule of the abstract table.
pub record Entry : Type 0 where
  pub owner : Text
  pub entry_name : Text
  pub entry_tags : List Text

abbrev pub Table : Type 0
Table = ℕ → Option Entry

abbrev pub put : ℕ → Entry → Table → Table
put id e table k = if k == id then some e else table k

abbrev pub forget : ℕ → Table → Table
forget id table k = if k == id then none else table k

abbrev pub as_job : ℕ → Entry → CronJob
as_job id e = record {
  job_id = id;
  job_name = e.entry_name;
  tags = namespace_tag e.owner ∷ e.entry_tags;
}

put-same : (id : ℕ) (e : Entry) (table : Table) → put id e table id ≡ some e
put-same id e table = ground (arith, ==_refl id)

put-other : (id : ℕ) (e : Entry) (table : Table) (k : ℕ) → k ≢ id → put id e table k ≡ table k
put-other id e table k apart = ground (arith, ==_iff k id)

put-cases :
    (id : ℕ) (e : Entry) (table : Table) (k : ℕ) (x : Entry)
    → put id e table k ≡ some x
    → (k ≡ id) × (e ≡ x) ⊎ (k ≢ id) × (table k ≡ some x)
put-cases id e table k x h = ground (arith, ==_iff k id)

forget-cases :
    (id : ℕ) (table : Table) (k : ℕ) (x : Entry)
    → forget id table k ≡ some x
    → (k ≢ id) × (table k ≡ some x)
forget-cases id table k x h = ground (arith, ==_iff k id)

forget-other : (id : ℕ) (table : Table) (k : ℕ) → k ≢ id → forget id table k ≡ table k
forget-other id table k apart = ground (arith, ==_iff k id)

module _ {G O T : Type 0} (cron : Gocron G O T) where
  -- The documented behaviour of gocron: NewJob applies its options in order, and adds one job where
  -- none has its ID: an identity at the end of the options is the job's. RemoveJob removes the job with
  -- an ID.
  pub record IsGocron : Type 0 where
    pub new_job-jobs :
        (crontab : Text) (task : T) (first : List (JobOption O)) (j : CronJob) (g g' : G)
        → has_id (cron.jobs g) j.job_id ≡ false
        → cron.new_job crontab task
            (first ++ with_identifier j.job_id ∷ with_name j.job_name ∷ with_tags j.tags ∷ [])
            g
          ≡ some g'
        → (k : CronJob) → IsIn k (cron.jobs g') ↔ ((k ≡ j) ⊎ IsIn k (cron.jobs g))
    pub remove_job-jobs :
        (id : ℕ) (g : G)
        → has_id (cron.jobs g) id ≡ true
        → (g' : G) × (cron.remove_job id g ≡ some g')
          × ((k : CronJob) → IsIn k (cron.jobs g') ↔ (IsIn k (cron.jobs g) × (k.job_id ≢ id)))

  -- The job is the table's entry under its ID, and none of its other tags is reserved.
  abbrev pub IsEntry : Table → CronJob → Type 0
  IsEntry table j =
      (e : Entry) × (table j.job_id ≡ some e)
      × (j ≡ as_job j.job_id e)
      × (any_reserved e.entry_tags ≡ false)

  -- The jobs are the entries of the table, each under its ID.
  pub record Implements (g : G) (table : Table) : Type 0 where
    pub listed : (j : CronJob) → IsIn j (cron.jobs g) → IsEntry table j
    pub held : (id : ℕ) (e : Entry) → table id ≡ some e → IsIn (as_job id e) (cron.jobs g)

  pub has_id-held :
      (g : G) (table : Table) (id : ℕ) (e : Entry)
      → Implements g table
      → table id ≡ some e
      → has_id (cron.jobs g) id ≡ true
  has_id-held g table id e h r = has_id-IsIn (cron.jobs g) (as_job id e) (h.held id e r)

  pub has_id-free :
      (g : G) (table : Table) (id : ℕ)
      → Implements g table
      → has_id (cron.jobs g) id ≡ false
      → table id ≡ none
  has_id-free g table id h free = elim (Option-cases (table id)) [
    | inl r ↦ r
    | inr (e, r) ↦ absurd (cc (free, has_id-held g table id e h r))
  ]

  pub has_id-taken :
      (g : G) (table : Table) (id : ℕ)
      → Implements g table
      → has_id (cron.jobs g) id ≡ true
      → table id ≢ none
  has_id-taken g table id h taken r =
      let (j, i, e) = IsIn-has_id (cron.jobs g) id taken in
      let (x, q, _, _) = h.listed j i in cc (q, r, ap table e)

  pub Implements-put :
      (g g' : G) (table : Table) (id : ℕ) (e : Entry)
      → Implements g table
      → any_reserved e.entry_tags ≡ false
      → has_id (cron.jobs g) id ≡ false
      → ((k : CronJob) → IsIn k (cron.jobs g') ↔ ((k ≡ as_job id e) ⊎ IsIn k (cron.jobs g)))
      → Implements g' (put id e table)
  Implements-put g g' table id e h plain free law = record {
    listed = λ j i. elim ((law j).0 i) [
      | inl q ↦ subst (IsEntry (put id e table)) (sym q) (e, put-same id e table, refl, plain)
      | inr old ↦
          let (x, r, s, p) = h.listed j old in
          let apart : j.job_id ≢ id =
            λ q. cc (free, has_id-IsIn (cron.jobs g) j old, ap (has_id (cron.jobs g)) q) in
          (x, put-other id e table j.job_id apart ∙ r, s, p)
    ];
    held = λ id' e' r. elim (put-cases id e table id' e' r) [
      | inl (q, q') ↦
          (law (as_job id' e')).1 (inl (ap (λ k. as_job k e') q ∙ ap (as_job id) (sym q')))
      | inr (apart, r') ↦ (law (as_job id' e')).1 (inr (h.held id' e' r'))
    ];
  }

  pub Implements-forget :
      (g g' : G) (table : Table) (id : ℕ)
      → Implements g table
      → ((k : CronJob) → IsIn k (cron.jobs g') ↔ (IsIn k (cron.jobs g) × (k.job_id ≢ id)))
      → Implements g' (forget id table)
  Implements-forget g g' table id h law = record {
    listed = λ j i.
        let (old, apart) = (law j).0 i in
        let (x, r, s, p) = h.listed j old in (x, forget-other id table j.job_id apart ∙ r, s, p);
    held = λ id' e' r.
        let (apart, r') = forget-cases id table id' e' r in
        (law (as_job id' e')).1 (h.held id' e' r', apart);
  }
