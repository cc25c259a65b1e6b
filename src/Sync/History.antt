-- ===== src/Sync/History.antt =====
-- Histories of a job's change pipeline: sends, the batch processor's steps and resets in any order, with
-- any answers of the services. The processor holds the batch's lock during a flush, so that each step is
-- one transition; the send of an event waits while the channel is full. A panic ends the program.
use elasticrelay.Common.{
  ℕ, zero, suc, ◌+◌, ◌≤◌, ◌<◌, ◌≡◌, ◌⊎◌, refl, sym, ap, ◌∙◌, inl, inr, Option, none, some, Bool,
  true, false, List, [], ◌∷◌, ◌++◌, map, append_assoc, append-nil, arith, All, All-append, leb,
  if◌then◌else◌, Bool-cases, Option-cases, some_injective, Bytes, length, length-append, Dict,
}
use elasticrelay.Gateway.{Checkpoint, ChangeEvent}
use elasticrelay.Sync.Job.{
  SyncJob, FlushRun, Flushed, CommitRun, committed, batch_size, queue_size, marked, send,
  reset_cdc_buffers, commit_now, commit_of, commit_checkpoint, transform_events, send_to_sink,
  last_checkpoint, flush_transformed, enrich_all, flush_of, flush_batch, batched, take_event,
  format_checkpoint_position, is_early,
}
use elasticrelay.Sync.Flush.{commit_checkpoint-Kept}
use elasticrelay.Common
use mathlib.Core.Path.{subst}

-- How an event leaves the pipeline.
pub data Fate : Type 0 where
  flushed dropped : Fate

-- A job with what has happened to it: the events that Send accepted, those that left the buffers, those
-- that the sink took, and the checkpoints that were committed, each in order.
pub record History : Type 0 where
  pub job : SyncJob
  pub accepted : List ChangeEvent
  pub settled : List (Fate × ChangeEvent)
  pub sunk : List ChangeEvent
  pub commits : List Checkpoint

abbrev pub tagged : Fate → List ChangeEvent → List (Fate × ChangeEvent)
tagged f [] = []
tagged f (e ∷ es) = (f, e) ∷ tagged f es

abbrev pub events_of : List (Fate × ChangeEvent) → List ChangeEvent
events_of [] = []
events_of ((f, e) ∷ xs) = e ∷ events_of xs

-- A step empties the batch or leaves it as it is.
abbrev pub gone : List ChangeEvent → List ChangeEvent → List ChangeEvent
gone before [] = before
gone before (e ∷ es) = []

abbrev pub sent : ChangeEvent → History → History
sent e h = record h {
  job = send e h.job;
  accepted = h.accepted ++ (marked (SyncJob.source_id h.job) e ∷ []);
}

abbrev pub after_step : List ChangeEvent → Flushed → History → History
after_step before r h = record h {
  job = r.0;
  settled = h.settled ++ tagged flushed (gone before (SyncJob.batch r.0));
  sunk = h.sunk ++ r.1;
  commits = h.commits ++ r.2;
}

abbrev pub after_reset : History → History
after_reset h = record h {
  job = reset_cdc_buffers h.job;
  settled = h.settled ++ tagged dropped (SyncJob.batch h.job ++ SyncJob.cdc_events h.job);
}

pub last_checkpoint-append :
    (c : Option Checkpoint) (xs ys : List ChangeEvent)
    → last_checkpoint c (xs ++ ys) ≡ last_checkpoint (last_checkpoint c xs) ys
last_checkpoint-append c [] ys = refl
last_checkpoint-append c (e ∷ xs) ys = last_checkpoint-append e.checkpoint xs ys

pub events_of-append :
    (xs ys : List (Fate × ChangeEvent)) → events_of (xs ++ ys) ≡ events_of xs ++ events_of ys
events_of-append [] ys = refl
events_of-append ((f, e) ∷ xs) ys = ap (λ (es : List ChangeEvent). e ∷ es) (events_of-append xs ys)

pub events_of-tagged : (f : Fate) (es : List ChangeEvent) → events_of (tagged f es) ≡ es
events_of-tagged f [] = refl
events_of-tagged f (e ∷ es) = ap (λ (xs : List ChangeEvent). e ∷ xs) (events_of-tagged f es)

-- The commits of one flush: none, or the last checkpoint.
abbrev pub FewCommits : Option Checkpoint → List Checkpoint → Type 0
FewCommits last cs = (cs ≡ []) ⊎ ((c : Checkpoint) × (cs ≡ c ∷ []) × (last ≡ some c))

commit_now-FewCommits :
    (p : Bytes) (c : Checkpoint) (run : CommitRun) (j : SyncJob)
    → FewCommits (some c) (commit_now p c run j).1
commit_now-FewCommits p c CommitRun.dial_failed j = inl refl
commit_now-FewCommits p c CommitRun.commit_failed j = inl refl
commit_now-FewCommits p c (committed at) j = inr (c, refl, refl)

commit_of-FewCommits :
    (now : ℕ) (run : CommitRun) (j : SyncJob) (last : Option Checkpoint)
    → FewCommits last (commit_of now run j last).1
unfolding commit_of
commit_of-FewCommits now run j none = inl refl
commit_of-FewCommits now run j (some c) =
    elim (Bool-cases
      (Common.str_eq (format_checkpoint_position (some c)) j.last_committed_cp_position)) [
        | inl same ↦ rw same (inl refl)
        | inr moved ↦ elim (Bool-cases (is_early now j.last_checkpoint_commit_at)) [
          | inl early ↦ rw (moved, early) (inl refl)
          | inr late ↦
              rw (moved, late) (commit_now-FewCommits (format_checkpoint_position (some c)) c run j)
        ]
      ]

-- What every flush keeps.
abbrev pub IsOutcome : SyncJob → Flushed → Type 0
IsOutcome j r =
    (r.0.cdc_events ≡ j.cdc_events)
    × (r.0.last_cp ≡ last_checkpoint j.last_cp r.1)
    × FewCommits r.0.last_cp r.2

flush_transformed-IsOutcome :
    (run : FlushRun) (events : List ChangeEvent) (j : SyncJob)
    → ((flush_transformed run events j).0.batch ≡ []) × IsOutcome j (flush_transformed run events j)
unfolding flush_transformed commit_checkpoint
flush_transformed-IsOutcome run [] j = (refl, (refl, refl, inl refl))
flush_transformed-IsOutcome run (e ∷ es) j = elim (Option-cases (send_to_sink run.sink)) [
  | inl taken ↦
      let moved = record j { last_cp = last_checkpoint none (e ∷ es) } in
      let (c, s, b, q, last, dlq) = commit_checkpoint-Kept run.now run.commit moved in
      rw (taken, flush_transformed)
        (refl, (q, last, rw last (commit_of-FewCommits run.now run.commit moved moved.last_cp)))
  | inr (text, refused) ↦ rw (refused, flush_transformed) (refl, (refl, refl, inl refl))
]

-- What is gone from the batch and what is left make up the batch, and what is left is short.
abbrev pub IsSplit : List ChangeEvent → List ChangeEvent → Type 0
IsSplit before left = (before ≡ gone before left ++ left) × (length left < batch_size)

pub IsSplit-empty : (before left : List ChangeEvent) → left ≡ [] → IsSplit before left
IsSplit-empty before left e = rw e (sym (append-nil before), omega arith)

IsSplit-same : (before : List ChangeEvent) → length before < batch_size → IsSplit before before
IsSplit-same [] h = (refl, h)
IsSplit-same (e ∷ es) h = (refl, h)

-- The checkpoint of the last of the first events that the sink took, or the one before them.
abbrev pub IsConfirmed : Option Checkpoint → List ChangeEvent → Checkpoint → Type 0
IsConfirmed base sunk c =
    (first : List ChangeEvent) × (later : List ChangeEvent) × (sunk ≡ first ++ later)
    × (last_checkpoint base first ≡ some c)

module _ {Json : Type 0} (decode : Bytes → Option (Option (Dict Json)))
    (marshal : Dict Json → Option Bytes) (text : Bytes → Json) where
  flush_of-IsOutcome :
      (run : FlushRun) (j : SyncJob) (b : List ChangeEvent) {r : Flushed}
      → j.batch ≡ b
      → flush_of decode marshal text run j b ≡ some r
      → (r.0.batch ≡ []) × IsOutcome j r
  unfolding flush_of
  flush_of-IsOutcome run j [] same e =
      subst (λ (r : Flushed). (r.0.batch ≡ []) × IsOutcome j r) (some_injective e)
        (same, (refl, refl, inl refl))
  flush_of-IsOutcome run j (x ∷ xs) same e =
      elim (Option-cases (enrich_all decode marshal text j.source_id (x ∷ xs))) [
        | inl panic ↦ absurd (cc (rw (panic, flush_of) at e))
        | inr (events, enriches) ↦
            subst (λ (r : Flushed). (r.0.batch ≡ []) × IsOutcome j r)
              (some_injective (rw (enriches, flush_of) at e))
              (flush_transformed-IsOutcome run (transform_events run.transform events) j)
      ]

  pub flush_batch-IsOutcome :
      (run : FlushRun) (j : SyncJob) {r : Flushed}
      → flush_batch decode marshal text run j ≡ some r
      → (r.0.batch ≡ []) × IsOutcome j r
  unfolding flush_batch
  flush_batch-IsOutcome run j e = flush_of-IsOutcome run j j.batch refl e

  pub take_event-IsOutcome :
      (run : FlushRun) (e : ChangeEvent) (rest : List ChangeEvent) (j : SyncJob) {r : Flushed}
      → take_event decode marshal text run e rest j ≡ some r
      → IsSplit (j.batch ++ (e ∷ [])) r.0.batch × IsOutcome (batched e rest j) r
  unfolding take_event
  take_event-IsOutcome run e rest j {r} got =
      elim (Bool-cases (leb batch_size (length (j.batch ++ (e ∷ []))))) [
        | inl full ↦
            let (cleared, outcome) =
              flush_batch-IsOutcome run (batched e rest j) (rw full at got) in
            (IsSplit-empty (j.batch ++ (e ∷ [])) r.0.batch cleared, outcome)
        | inr room ↦
            subst
              (λ (r : Flushed).
                IsSplit (j.batch ++ (e ∷ [])) r.0.batch × IsOutcome (batched e rest j) r)
              (some_injective (rw room at got))
              (IsSplit-same (j.batch ++ (e ∷ [])) (ground (arith, room)), (refl, refl, inl refl))
      ]

  -- One step of the pipeline.
  pub data Step : History → History → Type 0 where
    accept :
        (e : ChangeEvent) (h : History)
        → length (SyncJob.cdc_events h.job) < queue_size
        → Step h (sent e h)
    take :
        (run : FlushRun) (e : ChangeEvent) (rest : List ChangeEvent) (r : Flushed) (h : History)
        → SyncJob.cdc_events h.job ≡ e ∷ rest
        → take_event decode marshal text run e rest h.job ≡ some r
        → Step h (after_step (SyncJob.batch h.job ++ (e ∷ [])) r h)
    tick :
        (run : FlushRun) (r : Flushed) (h : History)
        → flush_batch decode marshal text run h.job ≡ some r
        → Step h (after_step (SyncJob.batch h.job) r h)
    restart : (h : History) → Step h (after_reset h)

  pub data Reach (s : History) : History → Type 0 where
    here : Reach s s
    next : {h k : History} → Reach s h → Step h k → Reach s k
