-- ===== src/Mongo/Saved.antt =====
-- What the checkpoint file of the MongoDB connector (internal/connectors/mongodb/checkpoint.go) holds
-- after the calls that save it.
use elasticrelay.Common.{
  ℕ, ◌≡◌, ◌≢◌, refl, sym, ap, ◌∙◌, inl, inr, Option, none, some, Bool, true, false, not, [], ◌∷◌,
  arith, if◌then◌else◌, Bool-cases, some_injective, Bytes, str_eq, str_eq_iff, lookup, insert,
  remove, modify, has_key, IsMap, AllEntries, insert-IsMap, remove-IsMap, modify-IsMap,
  lookup-insert, modify, has_key-lookup,
}
use elasticrelay.Mongo.Store.{
  MongoCheckpoint, Checkpoints, File, null, holds, Write, written, failed, CheckpointManager,
  new_checkpoint_manager, merge, or_empty, loaded, load, contents, marshalled, save, get, put,
  update, without, delete, counted, count_in, unless_nil, increment_event_count,
}
use mathlib.Core.Path.{subst}
use mathlib.Core.Option

abbrev Entry : Type 0
Entry = Option (Option MongoCheckpoint)

abbrev over : Entry → Entry → Entry
over none old = old
over (some c) old = some c

over-if :
    (k id : Bytes) (c : Option MongoCheckpoint) (m : Checkpoints) (x : Entry)
    → has_key id m ≡ false
    → over (lookup k m) (if str_eq id k then some c else x)
      ≡ over (if str_eq id k then some c else lookup k m) x
over-if k id c m x free = elim (Bool-cases (str_eq id k)) [
  | inl same ↦
      let absent : lookup k m ≡ none =
        ground (arith, has_key-lookup id m, free, str_eq_iff id k, same) in
      rw (same, absent) refl
  | inr apart ↦ rw apart refl
]

lookup-merge :
    (k : Bytes) (m old : Checkpoints)
    → IsMap m
    → lookup k (merge m old) ≡ over (lookup k m) (lookup k old)
unfolding merge lookup
lookup-merge k [] old u = refl
lookup-merge k ((id, c) ∷ m) old u =
    lookup-merge k m (insert id c old) u.1
    ∙ ap (over (lookup k m)) (lookup-insert id k c old)
    ∙ over-if k id c m (lookup k old) u.0

over-none : (x : Entry) → over x none ≡ x
over-none none = refl
over-none (some c) = refl

merge-IsMap : (m old : Checkpoints) → IsMap old → IsMap (merge m old)
unfolding merge
merge-IsMap [] old u = u
merge-IsMap ((id, c) ∷ m) old u = merge-IsMap m (insert id c old) (insert-IsMap id c old u)

-- The manager has a map, whose keys differ.
abbrev pub IsSound : CheckpointManager → Type 0
IsSound cm = (m : Checkpoints) × (cm.checkpoints ≡ some m) × IsMap m

-- A map and a file that holds no JSON null leave a map.
loaded-IsMap :
    (file : File) (m : Checkpoints)
    → file ≢ null
    → IsMap m
    → (m' : Checkpoints) × ((loaded file (some m)).0 ≡ some m') × IsMap m'
loaded-IsMap File.missing m h u = ([], refl, tt)
loaded-IsMap File.unreadable m h u = (m, refl, u)
loaded-IsMap File.garbled m h u = (m, refl, u)
loaded-IsMap null m h u = absurd (h refl)
loaded-IsMap (holds new) m h u = (merge new m, refl, merge-IsMap new m u)

unless_nil-same :
    (cm : CheckpointManager) (found : Entry) {p : CheckpointManager}
    → unless_nil cm found ≡ some p
    → cm ≡ p
unless_nil-same cm none h = some_injective h
unless_nil-same cm (some none) h = absurd (cc)
unless_nil-same cm (some (some c)) h = some_injective h

module _ (utf8 : Bytes → Bytes) where
  -- encoding/json keeps the texts of an entry, which are UTF-8.
  abbrev pub IsKept : Bytes → Option MongoCheckpoint → Type 0
  IsKept id none = utf8 id ≡ id
  IsKept id (some c) =
      (utf8 id ≡ id)
      × (utf8 c.job_id ≡ c.job_id)
      × (utf8 c.resume_token ≡ c.resume_token)
      × (utf8 c.database ≡ c.database)
      × (utf8 c.collection ≡ c.collection)

  marshalled-kept : (m : Checkpoints) → AllEntries IsKept m → marshalled utf8 m ≡ m
  unfolding marshalled
  marshalled-kept [] h = refl
  marshalled-kept ((id, none) ∷ m) (k, h) = rw (k, marshalled-kept m h) refl
  marshalled-kept ((id, some c) ∷ m) ((k, a, b, d, e), h) =
      rw (k, a, b, d, e, marshalled-kept m h) refl

  -- The texts of the manager's map are UTF-8.
  abbrev pub AllKept : CheckpointManager → Type 0
  AllKept cm = AllEntries IsKept (or_empty cm.checkpoints)

  abbrev Reloads : CheckpointManager → Type 0
  Reloads cm =
      ((load (new_checkpoint_manager cm.file)).1 ≡ false)
      × ((id : Bytes) → get id (load (new_checkpoint_manager cm.file)).0 ≡ get id cm)

  -- The calls on a manager, with whether the call saves the map and returns no error. Load is called on a
  -- file that holds no JSON null.
  pub data Step : CheckpointManager → CheckpointManager → Bool → Type 0 where
    loads : (cm : CheckpointManager) → cm.file ≢ null → Step cm (load cm).0 false
    updated :
        (now : ℕ) (c : MongoCheckpoint) (write : Write) (cm p : CheckpointManager) (err : Bool)
        → update utf8 now c write cm ≡ some (p, err)
        → Step cm p (not err)
    deleted :
        (id : Bytes) (write : Write) (cm : CheckpointManager)
        → Step cm (delete utf8 id write cm).0 (not (delete utf8 id write cm).1)
    saved :
        (write : Write) (cm : CheckpointManager)
        → Step cm (save utf8 write cm).0 (not (save utf8 write cm).1)
    counts :
        (id : Bytes) (cm p : CheckpointManager)
        → increment_event_count id cm ≡ some p
        → Step cm p false

  pub data Reach (s : CheckpointManager) : CheckpointManager → Bool → Type 0 where
    here : Reach s s false
    next :
        {cm p : CheckpointManager} {before now : Bool}
        → Reach s cm before
        → Step cm p now
        → Reach s p now

  abbrev Holds : CheckpointManager → Bool → Type 0
  Holds p ok = IsSound p × (ok ≡ true → p.file ≡ contents utf8 p.checkpoints)

  save-Holds :
      (write : Write) (cm : CheckpointManager)
      → IsSound cm
      → Holds (save utf8 write cm).0 (not (save utf8 write cm).1)
  unfolding save
  save-Holds written cm h = (h, λ ok. refl)
  save-Holds (failed rest) cm h = (h, λ ok. absurd (cc))

  update_writes :
      (now : ℕ) (c : MongoCheckpoint) (write : Write) (cm : CheckpointManager) (m : Checkpoints)
      → cm.checkpoints ≡ some m
      → update utf8 now c write cm
        ≡ some (save utf8 write (record cm { checkpoints = put now c (some m) }))
  unfolding update
  update_writes now c write cm m is = rw is refl

  increment-IsSound :
      (id : Bytes) (cm p : CheckpointManager)
      → increment_event_count id cm ≡ some p
      → IsSound cm
      → IsSound p
  unfolding increment_event_count
  increment-IsSound id cm p ran (m, is, u) = subst IsSound (unless_nil-same _ (get id cm) ran) (
    modify id (Option.map counted) m,
    ap (count_in id) is,
    modify-IsMap id (Option.map counted) m u,
  )

  Step-Holds : {cm p : CheckpointManager} {ok : Bool} → Step cm p ok → IsSound cm → Holds p ok
  unfolding delete load
  Step-Holds (Step.loads cm h) (m, is, u) =
      let (m', now, u') = loaded-IsMap cm.file m h u in
      ((m', ap (λ o. (loaded cm.file o).0) is ∙ now, u'), λ ok. absurd (cc))
  Step-Holds (Step.updated now c write cm p err ran) (m, is, u) =
      let after : CheckpointManager = record cm { checkpoints = put now c (some m) } in
      let same : save utf8 write after ≡ (p, err) =
        some_injective (sym (update_writes now c write cm m is) ∙ ran) in
      subst (λ (r : CheckpointManager × Bool). Holds r.0 (not r.1)) same
        (save-Holds write after (
          insert c.job_id (some (record c { last_update = now })) m,
          refl,
          insert-IsMap c.job_id _ m u,
        ))
  Step-Holds (Step.deleted id write cm) (m, is, u) =
      save-Holds write (record cm { checkpoints = without id cm.checkpoints })
        (remove id m, ap (without id) is, remove-IsMap id m u)
  Step-Holds (Step.saved write cm) h = save-Holds write cm h
  Step-Holds (Step.counts id cm p ran) h = (increment-IsSound id cm p ran h, λ ok. absurd (cc))

  Reach-Holds : {cm p : CheckpointManager} {ok : Bool} → Reach cm p ok → IsSound cm → Holds p ok
  Reach-Holds Reach.here h = (h, λ ok. absurd (cc))
  Reach-Holds (Reach.next r step) h = Step-Holds step (Reach-Holds r h).0

  file-Reloads :
      (p : CheckpointManager)
      → IsSound p
      → AllKept p
      → p.file ≡ contents utf8 p.checkpoints
      → Reloads p
  unfolding load new_checkpoint_manager get lookup
  file-Reloads p (m, is, u) kept same =
      let kept' : AllEntries IsKept m =
        subst (λ (o : Option Checkpoints). AllEntries IsKept (or_empty o)) is kept in
      let file : p.file ≡ holds m =
        same ∙ ap (contents utf8) is ∙ ap holds (marshalled-kept m kept') in
      rw (file, is) (refl, λ id. lookup-merge id m [] u ∙ over-none (lookup id m))

  -- Start from a manager with a map, and let any calls of Load, Update, Delete, Save and IncrementEventCount
  -- follow that do not panic, each Load on a file that holds no JSON null. The manager then still
  -- has a map. If the last call saves the map and returns no error, and the texts of the map are UTF-8, a new
  -- manager loads the file without an error and finds under each job the checkpoint that this one has.
  pub Reach-Reloads :
      {cm p : CheckpointManager}
      → Reach cm p true
      → IsSound cm
      → AllKept p
      → IsSound p
        × ((load (new_checkpoint_manager p.file)).1 ≡ false)
        × ((id : Bytes) → get id (load (new_checkpoint_manager p.file)).0 ≡ get id p)
  Reach-Reloads {cm} {p} r h kept =
      let now = Reach-Holds r h in
      let again = file-Reloads p now.0 kept (now.1 refl) in (now.0, again.0, again.1)
