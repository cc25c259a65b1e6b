-- ===== src/Sync/Retry.antt =====
-- The retry of items of the dead letter queue by the jobs, and the removal of items that no job can
-- take: retryDLQItem, processTransformBatch, processSinkBatch and cleanupOrphanedDLQItems in
-- internal/orchestrator/multi_orchestrator.go. The jobs stand in the order in which a run over the map
-- meets them. What the services of each job come to is a parameter.
use elasticrelay.Common.{
  ℕ, ◌≡◌, ◌↔◌, ◌⊎◌, inl, inr, Bool-cases, Option-cases, some_injective, refl, sym, ap, ◌∙◌, Option,
  none, some, Bool, true, false, List, [], ◌∷◌, ◌++◌, leb, if◌then◌else◌, Bytes, codes, length,
  str_eq, Dict, has_key,
}
use elasticrelay.Gateway.{ChangeEvent}
use elasticrelay.Dlq.Item.{Item, resolved, begin, attempt}
use elasticrelay.Dlq.Attempts.{attempt_outcome}

-- What a job shows here: whether it is enabled.
abbrev pub Jobs : Type 0
Jobs = Dict Bool

abbrev pub first_enabled : Jobs → Option Bytes
first_enabled [] = none
first_enabled ((id, true) ∷ jobs) = some id
first_enabled ((id, false) ∷ jobs) = first_enabled jobs

abbrev pub compatible : Jobs → Item → Option Bytes
compatible jobs item =
    if leb 1 (length (ChangeEvent.data_text (Item.event item))) then first_enabled jobs else none

-- The job that retries an item: its own, or else any that is enabled.
unfoldable pub job_for : Jobs → Item → Option Bytes
job_for jobs item =
    if has_key (Item.job_id item) jobs then some (Item.job_id item) else compatible jobs item

-- What a stream to a service comes to: the error text of the step that fails.
pub data StreamRun : Type 0 where
  not_opened not_sent not_closed broken : Bytes → StreamRun
  finished : StreamRun

-- processTransformBatch: the error; what it returns besides is dropped by its caller.
unfoldable pub process_transform_batch : StreamRun → Option Bytes
process_transform_batch (not_opened text) = some (codes "failed to open transform stream: " ++ text)
process_transform_batch (not_sent text) = some (codes "failed to send event to transform: " ++ text)
process_transform_batch (not_closed text) =
    some (codes "failed to close transform send stream: " ++ text)
process_transform_batch (broken text) = some (codes "failed to receive from transform: " ++ text)
process_transform_batch finished = none

-- processSinkBatch
unfoldable pub process_sink_batch : StreamRun → Option Bytes
process_sink_batch (not_opened text) = some (codes "failed to open sink stream: " ++ text)
process_sink_batch (not_sent text) = some (codes "failed to send event to sink: " ++ text)
process_sink_batch (not_closed text) = some (codes "failed to close sink stream: " ++ text)
process_sink_batch (broken text) = some (codes "failed to close sink stream: " ++ text)
process_sink_batch finished = none

-- The services of each job.
pub record Services : Type 0 where
  pub transform : Bytes → StreamRun
  pub sink : Bytes → StreamRun

-- The error of a retry, and what has been sent to the sink of a job.
abbrev pub Retried : Type 0
Retried = Option Bytes × List (Bytes × ChangeEvent)

abbrev pub sent_by : Bytes → ChangeEvent → StreamRun → List (Bytes × ChangeEvent)
sent_by job event (not_opened text) = []
sent_by job event (not_sent text) = []
sent_by job event run = (job, event) ∷ []

abbrev pub sunk_by : Bytes → ChangeEvent → StreamRun → Retried
sunk_by job event run = (process_sink_batch run, sent_by job event run)

-- The switch on the type of the error.
unfoldable pub retry_kind : Services → ChangeEvent → Bytes → Bytes → Retried
retry_kind s event job kind =
    if str_eq kind (codes "transform")
    then (process_transform_batch (Services.transform s job), [])
    else if str_eq kind (codes "sink")
    then sunk_by job event (Services.sink s job)
    else (some (codes "unknown error type: " ++ kind), [])

unfoldable pub retry_with : Services → Item → Option Bytes → Retried
unfolding retry_kind
retry_with s item none = (some (codes "no compatible job available for item " ++ Item.id item), [])
retry_with s item (some job) = retry_kind s (Item.event item) job (Item.error_type item)

-- retryDLQItem
unfoldable pub retry_dlq_item : Jobs → Services → Item → Retried
unfolding retry_with
retry_dlq_item jobs s item = retry_with s item (job_for jobs item)

-- The job that may retry an item: its own if it is there, else one that is enabled, for an item with data.
abbrev pub IsChosen : Jobs → Item → Bytes → Type 0
IsChosen jobs item job =
    ((has_key item.job_id jobs ≡ true) × (job ≡ item.job_id))
    ⊎ ((has_key item.job_id jobs ≡ false)
        × (leb 1 (length item.event.data_text) ≡ true)
        × (before : Jobs) × (after : Jobs) × (jobs ≡ before ++ ((job, true) ∷ after)))

-- The event has been sent to the sink of a job that may retry it, and the sink has acknowledged it.
abbrev pub WasDelivered : Jobs → Services → Item → Type 0
WasDelivered jobs s item =
    (job : Bytes) × IsChosen jobs item job
    × ((retry_dlq_item jobs s item).1 ≡ (job, item.event) ∷ [])
    × (s.sink job ≡ finished)

first_enabled-In :
    (jobs : Jobs) (job : Bytes)
    → first_enabled jobs ≡ some job
    → (before : Jobs) × (after : Jobs) × (jobs ≡ before ++ ((job, true) ∷ after))
first_enabled-In [] job h = absurd (cc)
first_enabled-In ((id, true) ∷ jobs) job h =
    ([], jobs, ap (λ (i : Bytes). (i, true) ∷ jobs) (some_injective h))
first_enabled-In ((id, false) ∷ jobs) job h =
    let (before, after, is) = first_enabled-In jobs job h in
    ((id, false) ∷ before, after, ap (λ js. (id, false) ∷ js) is)

job_for-IsChosen :
    (jobs : Jobs) (item : Item) (job : Bytes)
    → job_for jobs item ≡ some job
    → IsChosen jobs item job
unfolding job_for
job_for-IsChosen jobs item job h = elim (Bool-cases (has_key item.job_id jobs)) [
  | inl own ↦ inl (own, sym (some_injective (rw own at h)))
  | inr gone ↦ elim (Bool-cases (leb 1 (length item.event.data_text))) [
    | inl data_there ↦
        let (before, after, is) = first_enabled-In jobs job (rw (gone, data_there) at h) in
        inr (gone, data_there, before, after, is)
    | inr empty ↦ let no : none ≡ some job = rw (gone, empty) at h in absurd (cc)
  ]
]

retry_kind-sink :
    (s : Services) (event : ChangeEvent) (job : Bytes)
    → retry_kind s event job (codes "sink") ≡ sunk_by job event (Services.sink s job)
unfolding retry_kind str_eq
retry_kind-sink s event job = refl

retry_sink :
    (jobs : Jobs) (s : Services) (item : Item) (job : Bytes)
    → Item.error_type item ≡ codes "sink"
    → job_for jobs item ≡ some job
    → retry_dlq_item jobs s item ≡ sunk_by job (Item.event item) (Services.sink s job)
unfolding retry_dlq_item retry_with
retry_sink jobs s item job sink chosen =
    ap (retry_with s item) chosen
    ∙ ap (retry_kind s (Item.event item) job) sink
    ∙ retry_kind-sink s (Item.event item) job

retry_jobless :
    (jobs : Jobs) (s : Services) (item : Item)
    → job_for jobs item ≡ none
    → retry_dlq_item jobs s item
      ≡ (some (codes "no compatible job available for item " ++ Item.id item), [])
unfolding retry_dlq_item retry_with
retry_jobless jobs s item nobody = ap (retry_with s item) nobody

fine-finished : (run : StreamRun) → process_sink_batch run ≡ none → run ≡ finished
unfolding process_sink_batch
fine-finished (not_opened text) h = absurd (cc)
fine-finished (not_sent text) h = absurd (cc)
fine-finished (not_closed text) h = absurd (cc)
fine-finished (broken text) h = absurd (cc)
fine-finished finished h = refl

sent_by-job :
    (job job' : Bytes) (event : ChangeEvent) (run : StreamRun)
    → sent_by job event run ≡ (job', event) ∷ []
    → job ≡ job'
sent_by-job job job' event (not_opened text) h = absurd (cc)
sent_by-job job job' event (not_sent text) h = absurd (cc)
sent_by-job job job' event (not_closed text) h = cc
sent_by-job job job' event (broken text) h = cc
sent_by-job job job' event finished h = cc

retry_dlq_item-WasDelivered :
    (jobs : Jobs) (s : Services) (item : Item)
    → item.error_type ≡ codes "sink"
    → ((retry_dlq_item jobs s item).0 ≡ none) ↔ WasDelivered jobs s item
unfolding process_sink_batch
retry_dlq_item-WasDelivered jobs s item sink = elim (Option-cases (job_for jobs item)) [
  | inl nobody ↦
      let is = retry_jobless jobs s item nobody in
      (
        λ h. let no = sym (ap (λ (r : Retried). r.0) is) ∙ h in absurd (cc),
        λ (job, chosen, sent, ended).
            let no = sym (ap (λ (r : Retried). r.1) is) ∙ sent in absurd (cc),
      )
  | inr (job, found) ↦
      let is = retry_sink jobs s item job sink found in
      (
        λ h.
            let ended = fine-finished (s.sink job) (sym (ap (λ (r : Retried). r.0) is) ∙ h) in
            (
              job,
              job_for-IsChosen jobs item job found,
              ap (λ (r : Retried). r.1) is ∙ ap (sent_by job item.event) ended,
              ended,
            ),
        λ (job', chosen, sent, ended).
            let same =
              sent_by-job job job' item.event (s.sink job)
                (sym (ap (λ (r : Retried). r.1) is) ∙ sent) in
            ap (λ (r : Retried). r.0) is
            ∙ ap (λ j. process_sink_batch (s.sink j)) same
            ∙ ap process_sink_batch ended,
      )
]

begin-error_type : (now : ℕ) (item : Item) → Item.error_type (begin now item) ≡ Item.error_type item
unfolding begin
begin-error_type now item = refl

-- A try of an item that failed at the sink resolves it exactly when its event has been sent to the sink of a job
-- and that sink has acknowledged it; the job is the item's own if it is there, and else one that is
-- enabled, for an item whose event has data.
pub attempt-retry_dlq_item :
    (jobs : Jobs) (s : Services) (now : ℕ) (item : Item)
    → item.error_type ≡ codes "sink"
    → ((attempt (λ it. (retry_dlq_item jobs s it).0) now item).status ≡ resolved)
      ↔ WasDelivered jobs s (begin now item)
attempt-retry_dlq_item jobs s now item sink =
    let outcome = attempt_outcome (λ it. (retry_dlq_item jobs s it).0) now item in
    let delivered =
      retry_dlq_item-WasDelivered jobs s (begin now item) (begin-error_type now item ∙ sink) in
    (λ r. delivered.0 (outcome.2.0 r), λ d. outcome.2.1 (delivered.1 d))
