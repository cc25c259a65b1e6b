-- ===== src/Mongo/Tests.antt =====
-- A run of the checkpoints of internal/connectors/mongodb/checkpoint.go.
use elasticrelay.Common.{
  ◌≡◌, refl, some, true, false, codes, [], ◌∷◌, insert, lookup, modify, str_eq, Bytes,
}
use elasticrelay.Common.Int.{pos, wrap64, ◌+ℤ◌}
use elasticrelay.Mongo.Store.{
  MongoCheckpoint, missing, written, failed, CheckpointManager, new_checkpoint_manager, load, save,
  get, update, increment_event_count,
}
use elasticrelay.Mongo.Saved.{IsSound, AllKept, Step, Reach, Reach-Reloads}

abbrev checkpoint : MongoCheckpoint
checkpoint = record {
  job_id = codes "j";
  resume_token = codes "82";
  database = codes "shop";
  collection = [];
  last_update = 0;
  event_count = pos 2;
  cluster_time = 7;
  cluster_order = 1;
}

abbrev first : CheckpointManager
first = new_checkpoint_manager missing

-- An update whose file cannot be written, and then a count.
abbrev after_failure : CheckpointManager
after_failure = record {
  file = missing;
  checkpoints = some ((codes "j", some (record checkpoint { last_update = 5 })) ∷ []);
}

abbrev counted_once : CheckpointManager
counted_once = record {
  file = missing;
  checkpoints =
      some ((codes "j", some (record checkpoint { last_update = 5; event_count = pos 3 })) ∷ []);
}

abbrev as_is : Bytes → Bytes
as_is s = s

run : Reach as_is first (save as_is written counted_once).0 true
unfolding update save new_checkpoint_manager insert load increment_event_count get lookup modify
    str_eq wrap64 ◌+ℤ◌
run =
    Reach.next
      (Reach.next
        (Reach.next (Reach.next Reach.here (Step.loads first (λ h. absurd (cc))))
          (Step.updated 5 checkpoint (failed missing) first after_failure true refl))
        (Step.counts (codes "j") after_failure counted_once refl))
      (Step.saved written counted_once)

first-IsSound : IsSound first
unfolding new_checkpoint_manager
first-IsSound = ([], refl, tt)

all_kept : AllKept as_is (save as_is written counted_once).0
unfolding save
all_kept = ((refl, refl, refl, refl, refl), tt)

Reach-Reloads_example :
    (load (new_checkpoint_manager (save as_is written counted_once).0.file)).1 ≡ false
Reach-Reloads_example = (Reach-Reloads as_is run first-IsSound all_kept).1
