-- ===== src/Registry/Sources.antt =====
-- ConnectorManager of internal/connectors/manager.go and CreateJob of
-- internal/orchestrator/multi_orchestrator.go. Whether the constructor of a connector succeeds is a
-- parameter; a connector itself is not looked into.
use elasticrelay.Common.{
  ℕ, Option, none, some, Bool, true, ◌||◌, ◌&&◌, not, List, [], ◌∷◌, leb, ltb, ◌==◌, if◌then◌else◌,
  Bytes, codes, length, str_eq, Dict, lookup, insert, remove, modify, has_key,
}
use elasticrelay.Common.Int.{ℤ, pos, leb_ℤ, ltb_ℤ}

-- What of DataSourceConfig the registry reads.
pub record DataSourceConfig : Type 0 where
  pub id : Bytes
  pub type : Bytes
  pub host : Bytes
  pub port : ℤ
  pub user : Bytes
  pub database : Bytes
  pub server_id : ℕ

-- ConnectorInstance; the set of jobs is a map to true.
pub record ConnectorInstance : Type 0 where
  pub id : Bytes
  pub type : Bytes
  pub config : DataSourceConfig
  pub active_jobs : Dict Bool

abbrev pub Connectors : Type 0
Connectors = Dict ConnectorInstance

abbrev pub is_supported : Bytes → Bool
is_supported type =
    str_eq type (codes "mysql")
    || (str_eq type (codes "postgresql") || str_eq type (codes "mongodb"))

pub data RegisterResult : Type 0 where
  registered already unsupported not_made : RegisterResult

abbrev pub new_instance : DataSourceConfig → ConnectorInstance
new_instance source = record {
  id = source.id;
  type = source.type;
  config = source;
  active_jobs = [];
}

-- RegisterDataSource
unfoldable pub register_data_source :
    (DataSourceConfig → Bool) → DataSourceConfig → Connectors → Connectors × RegisterResult
register_data_source made source m =
    if has_key source.id m
    then (m, already)
    else if not (is_supported source.type)
    then (m, unsupported)
    else if made source
    then (insert source.id (new_instance source) m, registered)
    else (m, not_made)

pub data UnregisterResult : Type 0 where
  unregistered not_found busy : UnregisterResult

-- UnregisterDataSource
unfoldable pub unregister_data_source : Bytes → Connectors → Connectors × UnregisterResult
unregister_data_source id m = elim (lookup id m) [
  | none ↦ (m, not_found)
  | some instance_ ↦
      if ltb 0 (length instance_.active_jobs) then (m, busy) else (remove id m, unregistered)
]

abbrev pub with_job : Bytes → ConnectorInstance → ConnectorInstance
with_job job c = record c { active_jobs = insert job true c.active_jobs }

abbrev pub without_job : Bytes → ConnectorInstance → ConnectorInstance
without_job job c = record c { active_jobs = remove job c.active_jobs }

-- AddJobToDataSource, with whether it returns an error; the instance is shared.
unfoldable pub add_job_to_data_source : Bytes → Bytes → Connectors → Connectors × Bool
add_job_to_data_source id job m = (modify id (with_job job) m, not (has_key id m))

-- RemoveJobFromDataSource
unfoldable pub remove_job_from_data_source : Bytes → Bytes → Connectors → Connectors × Bool
remove_job_from_data_source id job m = (modify id (without_job job) m, not (has_key id m))

-- LoadFromMultiConfig: a source that cannot be registered is skipped.
unfoldable pub load_from_multi_config :
    (DataSourceConfig → Bool) → List DataSourceConfig → Connectors → Connectors
load_from_multi_config made [] m = m
load_from_multi_config made (s ∷ ss) m =
    load_from_multi_config made ss (register_data_source made s m).0

-- The errors of validateDataSource.
pub data Invalid : Type 0 where
  no_host bad_port no_user no_database no_server_id : Invalid

-- validateDataSource
unfoldable pub validate_data_source : ConnectorInstance → Option Invalid
validate_data_source c =
    if leb (length c.config.host) 0
    then some no_host
    else if leb_ℤ c.config.port (pos 0) || ltb_ℤ (pos 65535) c.config.port
    then some bad_port
    else if leb (length c.config.user) 0
    then some no_user
    else if leb (length c.config.database) 0
    then some no_database
    else if str_eq c.config.type (codes "mysql") && (c.config.server_id == 0)
    then some no_server_id
    else none

-- ValidateDataSources
unfoldable pub validate_data_sources : Connectors → List (Bytes × Invalid)
validate_data_sources [] = []
validate_data_sources ((id, c) ∷ m) = elim (validate_data_source c) [
  | none ↦ validate_data_sources m
  | some e ↦ (id, e) ∷ validate_data_sources m
]

-- What of SyncJobConfig, and of the job made from it, names the source and the sink.
pub record JobConfig : Type 0 where
  pub id : Bytes
  pub source_id : Bytes
  pub sink_id : Bytes
  pub enabled : Bool

-- The registry, the jobs and the sinks of MultiOrchestrator.
pub record Orchestrator : Type 0 where
  pub connectors : Connectors
  pub jobs : Dict JobConfig
  pub sinks : Dict (Unit {0})

pub data CreateResult : Type 0 where
  created exists no_source no_sink : CreateResult

-- The id of a job without one is made from the clock.
abbrev pub job_name : Bytes → JobConfig → Bytes
job_name from_clock c = if leb (length c.id) 0 then from_clock else c.id

-- CreateJob, for a configuration that is read, up to the start of the job.
unfoldable pub create_job : Bytes → JobConfig → Orchestrator → Orchestrator × CreateResult
create_job from_clock config o =
    let id = job_name from_clock config in
    if has_key id o.jobs
    then (o, exists)
    else if not (has_key config.source_id o.connectors)
    then (o, no_source)
    else if not (has_key config.sink_id o.sinks)
    then (o, no_sink)
    else (
      record o {
        jobs = insert id (record config { id = id }) o.jobs;
        connectors = (add_job_to_data_source config.source_id id o.connectors).0;
      },
      created,
    )
