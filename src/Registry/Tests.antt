-- ===== src/Registry/Tests.antt =====
-- A data source with a job on it.
use elasticrelay.Common.{◌≡◌, refl, some, true, codes, [], ◌∷◌, lookup, has_key, str_eq, insert}
use elasticrelay.Common.Int.{pos}
use elasticrelay.Registry.Sources.{
  DataSourceConfig, JobConfig, Orchestrator, register_data_source, unregister_data_source, busy,
  create_job,
}
use elasticrelay.Registry.Links.{IsLinked, Step, Reach, Reach-HasSource}

abbrev shop : DataSourceConfig
shop = record {
  id = codes "s";
  type = codes "mysql";
  host = codes "db";
  port = pos 3306;
  user = codes "u";
  database = codes "shop";
  server_id = 100;
}

abbrev job : JobConfig
job = record { id = codes "j"; source_id = codes "s"; sink_id = codes "es"; enabled = true }

abbrev empty : Orchestrator
empty = record { connectors = []; jobs = []; sinks = (codes "es", tt) ∷ [] }

abbrev with_source : Orchestrator
with_source = record empty { connectors = (register_data_source (λ s. true) shop []).0 }

abbrev with_job_on_it : Orchestrator
with_job_on_it = (create_job [] job with_source).0

run : Reach empty with_job_on_it
run =
    Reach.next (Reach.next Reach.here (Step.register (λ s. true) shop empty))
      (Step.create [] job with_source)

empty-IsLinked : IsLinked empty
unfolding lookup
empty-IsLinked id c found = absurd (cc)

found_job : lookup (codes "j") with_job_on_it.jobs ≡ some job
unfolding lookup create_job register_data_source has_key str_eq insert
found_job = refl

Reach-HasSource_example :
    unregister_data_source (codes "s") with_job_on_it.connectors ≡ (with_job_on_it.connectors, busy)
Reach-HasSource_example = (Reach-HasSource run empty-IsLinked (codes "j") job found_job).1
