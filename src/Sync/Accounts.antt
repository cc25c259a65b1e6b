-- ===== src/Sync/Accounts.antt =====
-- What holds in every history of a job's change pipeline
-- (internal/orchestrator/multi_orchestrator.go): no event is lost from the buffers or overtakes
-- another, the buffers stay within their bounds, and checkpoints are those of events the sink took.
use elasticrelay.Common.{
  ◌≤◌, ◌<◌, ◌≡◌, refl, sym, ap, ◌∙◌, inl, inr, Option, List, [], ◌∷◌, ◌++◌, append_assoc,
  append-nil, arith, All, All-append, Bytes, Dict, length, length-append,
}
use elasticrelay.Gateway.{Checkpoint, ChangeEvent}
use elasticrelay.Sync.Job.{
  SyncJob, Flushed, batch_size, queue_size, marked, send, reset_cdc_buffers, last_checkpoint,
  batched,
}
use elasticrelay.Sync.History.{
  History, Fate, flushed, dropped, tagged, events_of, gone, sent, after_step, after_reset,
  last_checkpoint-append, events_of-append, events_of-tagged, FewCommits, IsOutcome, IsSplit,
  IsSplit-empty, IsConfirmed, flush_batch-IsOutcome, take_event-IsOutcome, Step, Reach,
}

-- The invariant. `base` is the last checkpoint of the job at the start.
pub record IsSound (base : Option Checkpoint) (h : History) : Type 0 where
  pub accounted :
      h.accepted ≡ events_of h.settled ++ (SyncJob.batch h.job ++ SyncJob.cdc_events h.job)
  pub short_batch : length (SyncJob.batch h.job) < batch_size
  pub short_queue : length (SyncJob.cdc_events h.job) ≤ queue_size
  pub last : SyncJob.last_cp h.job ≡ last_checkpoint base h.sunk
  pub confirmed : All (IsConfirmed base h.sunk) h.commits

IsConfirmed-later :
    (base : Option Checkpoint) (sunk more : List ChangeEvent) (cs : List Checkpoint)
    → All (IsConfirmed base sunk) cs
    → All (IsConfirmed base (sunk ++ more)) cs
IsConfirmed-later base sunk more [] all = tt
IsConfirmed-later base sunk more (c ∷ cs) ((first, later, same, at), all) = (
  (first, later ++ more, ap (λ es. es ++ more) same ∙ append_assoc first later more, at),
  IsConfirmed-later base sunk more cs all,
)

FewCommits-IsConfirmed :
    (base last : Option Checkpoint) (sunk : List ChangeEvent) (cs : List Checkpoint)
    → last ≡ last_checkpoint base sunk
    → FewCommits last cs
    → All (IsConfirmed base sunk) cs
FewCommits-IsConfirmed base last sunk cs same (inl e) = rw e tt
FewCommits-IsConfirmed base last sunk cs same (inr (c, e, at)) =
    rw e ((sunk, [], sym (append-nil sunk), sym same ∙ at), tt)

-- What a step of the batch processor does to the accounts.
split_accounts :
    (settled : List (Fate × ChangeEvent)) (before left rest : List ChangeEvent)
    → before ≡ gone before left ++ left
    → events_of settled ++ (before ++ rest)
      ≡ events_of (settled ++ tagged flushed (gone before left)) ++ (left ++ rest)
split_accounts settled before left rest same =
    ap (λ es. events_of settled ++ (es ++ rest)) same
    ∙ ap (λ es. events_of settled ++ es) (append_assoc (gone before left) left rest)
    ∙ sym (append_assoc (events_of settled) (gone before left) (left ++ rest))
    ∙ ap (λ es. es ++ (left ++ rest))
        (ap (λ es. events_of settled ++ es) (sym (events_of-tagged flushed (gone before left)))
          ∙ sym (events_of-append settled (tagged flushed (gone before left))))

after_step-IsSound :
    (base : Option Checkpoint) (before : List ChangeEvent) (r : Flushed) (h : History) (j : SyncJob)
    → IsSound base h
    → SyncJob.batch h.job ++ SyncJob.cdc_events h.job ≡ before ++ j.cdc_events
    → length j.cdc_events ≤ queue_size
    → j.last_cp ≡ SyncJob.last_cp h.job
    → IsSplit before (SyncJob.batch r.0)
    → IsOutcome j r
    → IsSound base (after_step before r h)
after_step-IsSound base before r h j s moved queue kept (split, short_left) (q, last, few) =
    let now_last : SyncJob.last_cp r.0 ≡ last_checkpoint base (h.sunk ++ r.1) =
      last
      ∙ ap (λ c. last_checkpoint c r.1) (kept ∙ s.last)
      ∙ sym (last_checkpoint-append base h.sunk r.1) in
    record {
      accounted =
          s.accounted
          ∙ ap (λ es. events_of h.settled ++ es) moved
          ∙ split_accounts h.settled before (SyncJob.batch r.0) j.cdc_events split
          ∙ ap
              (λ es.
                events_of (h.settled ++ tagged flushed (gone before (SyncJob.batch r.0)))
                ++ (SyncJob.batch r.0 ++ es))
              (sym q);
      short_batch = short_left;
      short_queue = rw q queue;
      last = now_last;
      confirmed =
          All-append (IsConfirmed base (h.sunk ++ r.1)) h.commits r.2
            (IsConfirmed-later base h.sunk r.1 h.commits s.confirmed)
            (FewCommits-IsConfirmed base (SyncJob.last_cp r.0) (h.sunk ++ r.1) r.2 now_last few);
    }

sent-IsSound :
    (base : Option Checkpoint) (e : ChangeEvent) (h : History)
    → length (SyncJob.cdc_events h.job) < queue_size
    → IsSound base h
    → IsSound base (sent e h)
unfolding send
sent-IsSound base e h room s =
    let m = marked (SyncJob.source_id h.job) e ∷ [] in
    let q = SyncJob.cdc_events h.job in
    let b = SyncJob.batch h.job in
    record {
      accounted =
          ap (λ es. es ++ m) s.accounted
          ∙ append_assoc (events_of h.settled) (b ++ q) m
          ∙ ap (λ es. events_of h.settled ++ es) (append_assoc b q m);
      short_batch = s.short_batch;
      short_queue = omega (arith, room, length-append q m);
      last = s.last;
      confirmed = s.confirmed;
    }

after_reset-IsSound :
    (base : Option Checkpoint) (h : History) → IsSound base h → IsSound base (after_reset h)
unfolding reset_cdc_buffers
after_reset-IsSound base h s =
    let all = SyncJob.batch h.job ++ SyncJob.cdc_events h.job in
    record {
      accounted =
          s.accounted
          ∙ ap (λ es. events_of h.settled ++ es) (sym (events_of-tagged dropped all))
          ∙ sym (events_of-append h.settled (tagged dropped all))
          ∙ sym (append-nil (events_of (h.settled ++ tagged dropped all)));
      short_batch = omega arith;
      short_queue = omega arith;
      last = s.last;
      confirmed = s.confirmed;
    }

module _ {Json : Type 0} (decode : Bytes → Option (Option (Dict Json)))
    (marshal : Dict Json → Option Bytes) (text : Bytes → Json) (base : Option Checkpoint) where
  Step-IsSound : {h k : History} → Step decode marshal text h k → IsSound base h → IsSound base k
  Step-IsSound (Step.accept e h room) s = sent-IsSound base e h room s
  Step-IsSound (Step.restart h) s = after_reset-IsSound base h s
  Step-IsSound (Step.tick run r h flushes) s =
      let (cleared, outcome) = flush_batch-IsOutcome decode marshal text run h.job flushes in
      after_step-IsSound base (SyncJob.batch h.job) r h h.job s refl s.short_queue refl
        (IsSplit-empty (SyncJob.batch h.job) (SyncJob.batch r.0) cleared) outcome
  Step-IsSound (Step.take run e rest r h waiting takes) s =
      let (split, outcome) = take_event-IsOutcome decode marshal text run e rest h.job takes in
      after_step-IsSound base (SyncJob.batch h.job ++ (e ∷ [])) r h (batched e rest h.job) s
        (ap (λ es. SyncJob.batch h.job ++ es) waiting
          ∙ sym (append_assoc (SyncJob.batch h.job) (e ∷ []) rest))
        (omega (arith, s.short_queue, ap length waiting)) refl split outcome

  -- After any steps of the pipeline from a sound history: the events that Send accepted are, in order,
  -- those that were flushed or dropped by a restart, then the batch, then the channel; the batch has
  -- fewer than 100 events and the channel at most 2,000; the last checkpoint is that of the last event
  -- that the sink took, or the one at the start; and each committed checkpoint was the last one when the
  -- sink had taken some of the first of its events.
  pub Reach-IsSound :
      {h k : History} → Reach decode marshal text h k → IsSound base h → IsSound base k
  Reach-IsSound Reach.here s = s
  Reach-IsSound (Reach.next r step) s = Step-IsSound step (Reach-IsSound r s)
