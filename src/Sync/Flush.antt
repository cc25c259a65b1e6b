-- ===== src/Sync/Flush.antt =====
-- What a flush does (flushBatch and commitCheckpoint of internal/orchestrator/multi_orchestrator.go),
-- with the dead letter queue of internal/dlq/dlq.go.
use elasticrelay.Common.{
  ℕ, ◌≡◌, refl, ap, ◌∙◌, inl, inr, Option, none, some, true, false, List, [], ◌∷◌, Bool-cases,
  Bytes, str_eq, Dict, has_key,
}
use elasticrelay.Gateway.{Checkpoint, ChangeEvent}
use elasticrelay.Dlq.Item.{Item}
use elasticrelay.Dlq.Queue.{Items, Manager, dedupe_key, has_active, item_id, add_failed_event}
use elasticrelay.Sync.Job.{
  SyncJob, FlushRun, Moment, CommitRun, committed, commit_now, is_early, format_checkpoint_position,
  commit_of, commit_checkpoint, TransformRun, transform_events, send_to_sink, failure,
  last_checkpoint, advance, flush_transformed, enrich_all, flush_of, flush_batch,
}

-- Each failure gets an id that no item of the queue has: the ids hold the time in nanoseconds.
abbrev pub AreFresh : Bytes → Bytes → List (Moment × ChangeEvent) → Manager → Type 0
AreFresh id text [] d = Unit
AreFresh id text ((m, e) ∷ rest) d =
    (has_key (item_id id e m.stamp) d.items ≡ false)
    × AreFresh id text rest (add_failed_event (failure id text m e) m.write d).0

-- Whether an item of the event waits for a retry.
abbrev pub IsQueued : Bytes → Items → ChangeEvent → Type 0
IsQueued id items e = has_active (dedupe_key id e e.checkpoint) items ≡ true

-- A commit leaves all but the two fields about the last commit.
abbrev pub Kept : SyncJob → SyncJob → Type 0
Kept j j' =
    (j'.id ≡ j.id)
    × (j'.source_id ≡ j.source_id)
    × (j'.batch ≡ j.batch)
    × (j'.cdc_events ≡ j.cdc_events)
    × (j'.last_cp ≡ j.last_cp)
    × (j'.dlq_manager ≡ j.dlq_manager)

commit_now-Kept :
    (p : Bytes) (c : Checkpoint) (run : CommitRun) (j : SyncJob) → Kept j (commit_now p c run j).0
commit_now-Kept p c CommitRun.dial_failed j = (refl, refl, refl, refl, refl, refl)
commit_now-Kept p c CommitRun.commit_failed j = (refl, refl, refl, refl, refl, refl)
commit_now-Kept p c (committed at) j = (refl, refl, refl, refl, refl, refl)

commit_of-Kept :
    (now : ℕ) (run : CommitRun) (j : SyncJob) (c : Option Checkpoint)
    → Kept j (commit_of now run j c).0
unfolding commit_of
commit_of-Kept now run j none = (refl, refl, refl, refl, refl, refl)
commit_of-Kept now run j (some c) =
    elim (Bool-cases (str_eq (format_checkpoint_position (some c)) j.last_committed_cp_position)) [
      | inl same ↦ rw same (refl, refl, refl, refl, refl, refl)
      | inr moved ↦ elim (Bool-cases (is_early now j.last_checkpoint_commit_at)) [
        | inl early ↦ rw (moved, early) (refl, refl, refl, refl, refl, refl)
        | inr late ↦
            rw (moved, late) (commit_now-Kept (format_checkpoint_position (some c)) c run j)
      ]
    ]

pub commit_checkpoint-Kept :
    (now : ℕ) (run : CommitRun) (j : SyncJob) → Kept j (commit_checkpoint now run j).0
unfolding commit_checkpoint
commit_checkpoint-Kept now run j = commit_of-Kept now run j j.last_cp

flush_transformed-accepted :
    (run : FlushRun) (events : List ChangeEvent) (j : SyncJob)
    → send_to_sink run.sink ≡ none
    → (j' : SyncJob) × (cs : List Checkpoint) × (flush_transformed run events j ≡ (j', events, cs))
      × (j'.batch ≡ [])
      × (j'.dlq_manager ≡ j.dlq_manager)
      × (j'.last_cp ≡ last_checkpoint j.last_cp events)
unfolding flush_transformed
flush_transformed-accepted run [] j taken = (record j { batch = [] }, [], refl, refl, refl, refl)
flush_transformed-accepted run (e ∷ es) j taken =
    let moved = record j { last_cp = last_checkpoint none (e ∷ es) } in
    let (c, s, b, q, last, dlq) = commit_checkpoint-Kept run.now run.commit moved in
    (
      (advance run (e ∷ es) j).0,
      (advance run (e ∷ es) j).2,
      rw (taken, flush_transformed) refl,
      refl,
      dlq,
      last,
    )

-- What comes of a batch at the transform service.
abbrev pub IsReply : TransformRun → List ChangeEvent → List ChangeEvent → Type 0
IsReply TransformRun.no_client batch delivered = delivered ≡ batch
IsReply TransformRun.open_failed batch delivered = delivered ≡ batch
IsReply TransformRun.send_failed batch delivered = delivered ≡ batch
IsReply TransformRun.close_failed batch delivered = delivered ≡ batch
IsReply (TransformRun.ended replies) batch delivered = delivered ≡ replies
IsReply (TransformRun.broken replies) batch delivered = delivered ≡ replies

transform_events-IsReply :
    (run : TransformRun) (batch : List ChangeEvent) → IsReply run batch (transform_events run batch)
unfolding transform_events
transform_events-IsReply TransformRun.no_client batch = refl
transform_events-IsReply TransformRun.open_failed batch = refl
transform_events-IsReply TransformRun.send_failed batch = refl
transform_events-IsReply TransformRun.close_failed batch = refl
transform_events-IsReply (TransformRun.ended replies) batch = refl
transform_events-IsReply (TransformRun.broken replies) batch = refl

module _ {Json : Type 0} (decode : Bytes → Option (Option (Dict Json)))
    (marshal : Dict Json → Option Bytes) (text : Bytes → Json) (run : FlushRun) (j : SyncJob)
    {e : ChangeEvent} {es events : List ChangeEvent} (some_batch : j.batch ≡ e ∷ es)
    (enriches : enrich_all decode marshal text j.source_id (e ∷ es) ≡ some events) where
  flush_batch-eq :
      flush_batch decode marshal text run j
      ≡ some (flush_transformed run (transform_events run.transform events) j)
  unfolding flush_batch
  flush_batch-eq = ap (flush_of decode marshal text run j) some_batch ∙ rw (enriches, flush_of)

  -- Where the sink takes a batch, the events that count as delivered are those that came back from the
  -- transform service, also when its reply has broken off, or the batch itself if none came: without a client, or when
  -- the stream fails before the reply. The batch is cleared, the last checkpoint is that of the last
  -- of these events, if there is one, and the dead letter queue does not change, so that events that a
  -- broken reply lacks are in neither.
  pub flush_batch-accepted :
      send_to_sink run.sink ≡ none
      → (delivered : List ChangeEvent) × (j' : SyncJob) × (cs : List Checkpoint) × (flush_batch
            decode marshal text run j
          ≡ some (j', delivered, cs))
        × IsReply run.transform events delivered
        × (j'.batch ≡ [])
        × (j'.dlq_manager ≡ j.dlq_manager)
        × (j'.last_cp ≡ last_checkpoint j.last_cp delivered)
  flush_batch-accepted taken =
      let (j', cs, same, cleared, kept, last) =
        flush_transformed-accepted run (transform_events run.transform events) j taken in
      (
        transform_events run.transform events,
        j',
        cs,
        flush_batch-eq ∙ ap some same,
        transform_events-IsReply run.transform events,
        cleared,
        kept,
        last,
      )
