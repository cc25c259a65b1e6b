-- ===== src/Registry/Links.antt =====
-- A data source with a job stays registered: internal/connectors/manager.go with the jobs of
-- internal/orchestrator/multi_orchestrator.go.
use elasticrelay.Common.{
  ◌≡◌, refl, ap, inl, inr, some, Bool, true, [], ◌∷◌, arith, ltb, Bool-cases, Option-cases, Bytes,
  length, str_eq, str_eq_iff, str_eq_refl, Dict, lookup, insert, modify, has_key, lookup-insert,
  lookup-remove, lookup-modify, has_key-lookup, has_key-insert,
}
use elasticrelay.Registry.Sources.{
  DataSourceConfig, ConnectorInstance, Connectors, register_data_source, unregister_data_source,
  busy, with_job, new_instance, add_job_to_data_source, JobConfig, Orchestrator, job_name,
  create_job, is_supported,
}
use mathlib.Core.Path.{subst₂}

-- The source of a job is registered, and has the job among its active ones.
abbrev pub HasSource : Connectors → Bytes → Bytes → Type 0
HasSource m job source =
    (c : ConnectorInstance) × (lookup source m ≡ some c) × (has_key job c.active_jobs ≡ true)

abbrev pub IsLinked : Orchestrator → Type 0
IsLinked o =
    (id : Bytes) (job : JobConfig)
    → lookup id o.jobs ≡ some job
    → HasSource o.connectors id job.source_id

register-HasSource :
    (made : DataSourceConfig → Bool) (source : DataSourceConfig) (m : Connectors) (job id : Bytes)
    → HasSource m job id
    → HasSource (register_data_source made source m).0 job id
unfolding register_data_source
register-HasSource made source m job id (c, found, active) =
    elim (Bool-cases (has_key source.id m)) [
      | inl there ↦ rw there (c, found, active)
      | inr free ↦
          let kept : lookup id (insert source.id (new_instance source) m) ≡ some c = ground (
            arith,
            lookup-insert source.id id (new_instance source) m,
            str_eq_iff source.id id,
            has_key-lookup source.id m,
            free,
            found,
          ) in
          elim (Bool-cases (is_supported source.type)) [
            | inl known ↦ elim (Bool-cases (made source)) [
              | inl fine ↦ rw (free, known, fine) (c, kept, active)
              | inr bad ↦ rw (free, known, bad) (c, found, active)
            ]
            | inr unknown ↦ rw (free, unknown) (c, found, active)
          ]
    ]

has_key-length :
    (job : Bytes) (jobs : Dict Bool) → has_key job jobs ≡ true → ltb 0 (length jobs) ≡ true
unfolding has_key
has_key-length job [] h = absurd (cc)
has_key-length job (x ∷ jobs) h = ground arith

-- While a job has a data source, UnregisterDataSource refuses to remove it and changes nothing.
pub unregister_data_source-busy :
    (m : Connectors) (job id : Bytes) → HasSource m job id → unregister_data_source id m ≡ (m, busy)
unfolding unregister_data_source
unregister_data_source-busy m job id (c, found, active) =
    rw (found, unregister_data_source) (rw (has_key-length job c.active_jobs active) refl)

unregister-HasSource :
    (other : Bytes) (m : Connectors) (job id : Bytes)
    → HasSource m job id
    → HasSource (unregister_data_source other m).0 job id
unfolding unregister_data_source
unregister-HasSource other m job id h = elim (Bool-cases (str_eq other id)) [
  | inl same ↦ rw ((str_eq_iff other id).0 same) (rw (unregister_data_source-busy m job id h) h)
  | inr apart ↦
      let (c, found, active) = h in
      elim (Option-cases (lookup other m)) [
        | inl absent ↦ rw (absent, unregister_data_source) h
        | inr (d, there) ↦ elim (Bool-cases (ltb 0 (length d.active_jobs))) [
          | inl used ↦ rw (there, unregister_data_source) (rw used h)
          | inr idle ↦
              rw (there, unregister_data_source)
                (rw idle (c, ground (arith, lookup-remove other id m, apart, found), active))
        ]
      ]
]

modify-HasSource :
    (new other : Bytes) (m : Connectors) (job id : Bytes)
    → HasSource m job id
    → HasSource (modify other (with_job new) m) job id
modify-HasSource new other m job id (c, found, active) = elim (Bool-cases (str_eq other id)) [
  | inl same ↦ (
    with_job new c,
    ground (arith, lookup-modify other id (with_job new) m, same, found),
    ground (arith, has_key-insert new job true c.active_jobs, active),
  )
  | inr apart ↦ (c, ground (arith, lookup-modify other id (with_job new) m, apart, found), active)
]

new-HasSource :
    (job id : Bytes) (m : Connectors)
    → has_key id m ≡ true
    → HasSource (modify id (with_job job) m) job id
new-HasSource job id m there = elim (Option-cases (lookup id m)) [
  | inl absent ↦ absurd (ground (arith, has_key-lookup id m, absent, there))
  | inr (c, found) ↦ (
    with_job job c,
    ground (arith, lookup-modify id id (with_job job) m, str_eq_refl id, found),
    ground (arith, has_key-insert job job true c.active_jobs, str_eq_refl job),
  )
]

abbrev linked_jobs : Orchestrator → Bytes → JobConfig → Orchestrator
linked_jobs o id config = record o {
  jobs = insert id (record config { id = id }) o.jobs;
  connectors = modify config.source_id (with_job id) o.connectors;
}

linked_jobs-IsLinked :
    (o : Orchestrator) (id : Bytes) (config : JobConfig)
    → has_key config.source_id o.connectors ≡ true
    → IsLinked o
    → IsLinked (linked_jobs o id config)
linked_jobs-IsLinked o id config there linked j job found = elim (Bool-cases (str_eq id j)) [
  | inl same ↦
      let is_new : record config { id = id } ≡ job =
        ground (arith, lookup-insert id j (record config { id = id }) o.jobs, same, found) in
      subst₂
        (λ (i : Bytes) (s : Bytes).
          HasSource (modify config.source_id (with_job id) o.connectors) i s)
        ((str_eq_iff id j).0 same) (ap (λ (c : JobConfig). c.source_id) is_new)
        (new-HasSource id config.source_id o.connectors there)
  | inr apart ↦
      let was : lookup j o.jobs ≡ some job =
        ground (arith, lookup-insert id j (record config { id = id }) o.jobs, apart, found) in
      modify-HasSource id config.source_id o.connectors j job.source_id (linked j job was)
]

create_job-IsLinked :
    (from_clock : Bytes) (config : JobConfig) (o : Orchestrator)
    → IsLinked o
    → IsLinked (create_job from_clock config o).0
unfolding create_job add_job_to_data_source
create_job-IsLinked from_clock config o linked =
    elim (Bool-cases (has_key (job_name from_clock config) o.jobs)) [
      | inl there ↦ rw there linked
      | inr free ↦ elim (Bool-cases (has_key config.source_id o.connectors)) [
        | inr lacks ↦ rw (free, lacks) linked
        | inl source ↦ elim (Bool-cases (has_key config.sink_id o.sinks)) [
          | inr lacks ↦ rw (free, source, lacks) linked
          | inl sink ↦
              rw (free, source, sink)
                (linked_jobs-IsLinked o (job_name from_clock config) config source linked)
        ]
      ]
    ]

-- The calls on the registry and the jobs, in any order; no code removes a job.
pub data Step : Orchestrator → Orchestrator → Type 0 where
  register :
      (made : DataSourceConfig → Bool) (source : DataSourceConfig) (o : Orchestrator)
      → Step o (record o { connectors = (register_data_source made source o.connectors).0 })
  unregister :
      (id : Bytes) (o : Orchestrator)
      → Step o (record o { connectors = (unregister_data_source id o.connectors).0 })
  create :
      (from_clock : Bytes) (config : JobConfig) (o : Orchestrator)
      → Step o (create_job from_clock config o).0

pub data Reach (s : Orchestrator) : Orchestrator → Type 0 where
  here : Reach s s
  next : {o p : Orchestrator} → Reach s o → Step o p → Reach s p

Step-IsLinked : {o p : Orchestrator} → Step o p → IsLinked o → IsLinked p
Step-IsLinked (Step.register made source o) linked =
    λ j job found. register-HasSource made source o.connectors j job.source_id (linked j job found)
Step-IsLinked (Step.unregister id o) linked =
    λ j job found. unregister-HasSource id o.connectors j job.source_id (linked j job found)
Step-IsLinked (Step.create from_clock config o) linked =
    create_job-IsLinked from_clock config o linked

Reach-IsLinked : {o p : Orchestrator} → Reach o p → IsLinked o → IsLinked p
Reach-IsLinked Reach.here linked = linked
Reach-IsLinked (Reach.next r step) linked = Step-IsLinked step (Reach-IsLinked r linked)

-- After any registrations and removals of data sources and any creations of jobs, started where this held,
-- the data source of each job is registered and has the job among its active ones, and an attempt to
-- remove this source is refused and changes nothing.
pub Reach-HasSource :
    {o p : Orchestrator}
    → Reach o p
    → IsLinked o
    → (id : Bytes) (job : JobConfig) → lookup id p.jobs ≡ some job
    → HasSource p.connectors id job.source_id
      × (unregister_data_source job.source_id p.connectors ≡ (p.connectors, busy))
Reach-HasSource {o} {p} r linked id job found =
    let has : HasSource p.connectors id job.source_id = Reach-IsLinked r linked id job found in
    (has, unregister_data_source-busy p.connectors id job.source_id has)
