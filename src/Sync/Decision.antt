-- ===== src/Sync/Decision.antt =====
-- When a job starts with an initial sync (needsInitialSync of
-- internal/orchestrator/multi_orchestrator.go).
use elasticrelay.Common.{
  ℕ, zero, suc, ◌+◌, ◌<◌, ◌^◌, ◌≡◌, ◌≢◌, ◌↔◌, ◌⊎◌, refl, ap, ◌∙◌, inl, inr, Option, none, some,
  Bool, true, false, List, [], ◌∷◌, arith, if◌then◌else◌, Bytes,
}
use elasticrelay.Common.Int.{
  ℤ, pos, negsuc, ◌+ℤ◌, wrap64, ltb_ℤ, pos_part, neg_part, wrap64-eq, add-pos,
}
use elasticrelay.Checkpoints.Legacy.{MysqlPosition}
use elasticrelay.Sync.Initial.{
  is_initial_sync_enabled, should_force_initial_sync, CheckpointFile, Described, failed, index,
  count_documents, Start, has_valid_checkpoint, describe_all, tables_of, target_system_has_data,
  unless_valid, needs_initial_sync,
}

-- Some index exists and has documents.
abbrev pub HasDocuments : List Described → Type 0
HasDocuments [] = ⊥
HasDocuments (index true n ∷ ds) = (0 < pos_part n) ⊎ HasDocuments ds
HasDocuments (index false n ∷ ds) = HasDocuments ds
HasDocuments (failed ∷ ds) = HasDocuments ds

abbrev pub total : List Described → ℕ
total [] = 0
total (index true n ∷ ds) = pos_part n + total ds
total (index false n ∷ ds) = total ds
total (failed ∷ ds) = total ds

-- No count is negative.
abbrev pub AreCounts : List Described → Type 0
AreCounts [] = Unit
AreCounts (index true n ∷ ds) = (neg_part n ≡ 0) × AreCounts ds
AreCounts (index false n ∷ ds) = AreCounts ds
AreCounts (failed ∷ ds) = AreCounts ds

add_count :
    (t : ℕ) (n : ℤ)
    → neg_part n ≡ 0
    → t + pos_part n < 2 ^ 63
    → wrap64 (pos t +ℤ n) ≡ pos (t + pos_part n)
add_count t (pos m) h small = rw (add-pos t m) (wrap64-eq (pos (t + m)) (omega arith))
add_count t (negsuc m) h small = absurd (omega arith)

count_documents-total :
    (ds : List Described) (t : ℕ)
    → AreCounts ds
    → t + total ds < 2 ^ 63
    → count_documents ds (pos t) ≡ pos (t + total ds)
unfolding count_documents
count_documents-total [] t counts small = ap pos (omega arith)
count_documents-total (index true n ∷ ds) t counts small =
    rw (add_count t n counts.0 (omega arith))
      (count_documents-total ds (t + pos_part n) counts.1 (omega arith) ∙ ap pos (omega arith))
count_documents-total (index false n ∷ ds) t counts small = count_documents-total ds t counts small
count_documents-total (failed ∷ ds) t counts small = count_documents-total ds t counts small

HasDocuments-total : (ds : List Described) → HasDocuments ds → 0 < total ds
HasDocuments-total [] h = absurd h
HasDocuments-total (index true n ∷ ds) (inl h) = omega arith
HasDocuments-total (index true n ∷ ds) (inr h) = omega (arith, HasDocuments-total ds h)
HasDocuments-total (index false n ∷ ds) h = HasDocuments-total ds h
HasDocuments-total (failed ∷ ds) h = HasDocuments-total ds h

total-HasDocuments : (ds : List Described) → 0 < total ds → HasDocuments ds
total-HasDocuments [] h = omega arith
total-HasDocuments (index true (pos (suc n)) ∷ ds) h = inl (omega arith)
total-HasDocuments (index true (pos zero) ∷ ds) h = inr (total-HasDocuments ds (omega arith))
total-HasDocuments (index true (negsuc n) ∷ ds) h = inr (total-HasDocuments ds (omega arith))
total-HasDocuments (index false n ∷ ds) h = total-HasDocuments ds h
total-HasDocuments (failed ∷ ds) h = total-HasDocuments ds h

positive : (n : ℕ) → (ltb_ℤ (pos 0) (pos n) ≡ true) ↔ (0 < n)
positive n = (λ h. ground arith, λ h. ground arith)

has_data_iff :
    (b : Bool) (ds : List Described)
    → AreCounts ds
    → total ds < 2 ^ 63
    → ((if b then ltb_ℤ (pos 0) (count_documents ds (pos 0)) else false) ≡ true)
      ↔ ((b ≡ true) × HasDocuments ds)
has_data_iff false ds counts small = (λ h. absurd (cc), λ (h, d). absurd (cc))
has_data_iff true ds counts small =
    let sum : count_documents ds (pos 0) ≡ pos (total ds) =
      count_documents-total ds 0 counts (omega arith) ∙ ap pos (omega arith) in
    (
      λ h. (refl, total-HasDocuments ds ((positive (total ds)).0 (rw sum at h))),
      λ (t, d). rw sum ((positive (total ds)).1 (HasDocuments-total ds d)),
    )

unsettled :
    {v : Option Bool} {D : Type 0} → (false ≡ true) ⊎ ((v ≡ some false) × D) → v ≢ some false → ⊥
unsettled (inl h) other = cc
unsettled (inr (h, d)) other = other h

contradicted : {D : Type 0} → (false ≡ true) ⊎ ((some false ≡ some false) × ¬ D) → D → ⊥
contradicted (inl h) d = cc
contradicted (inr (h, not_d)) d = not_d d

decision :
    (enabled forced there : Bool) (valid : Option Bool) {D : Type 0}
    → ((there ≡ true) ↔ D)
    → ((if enabled then (if forced then some true else unless_valid there valid) else some false)
        ≡ some true)
      ↔ ((enabled ≡ true) × ((forced ≡ true) ⊎ ((valid ≡ some false) × ¬ D)))
decision false forced there valid d = (λ h. absurd (cc), λ (h, x). absurd (cc))
decision true true there valid d = (λ h. (refl, inl refl), λ x. refl)
decision true false there none d = (λ h. absurd (cc), λ (h, x). absurd (unsettled x (λ e. cc)))
decision true false there (some true) d =
    (λ h. absurd (cc), λ (h, x). absurd (unsettled x (λ e. cc)))
decision true false true (some false) d =
    (λ h. absurd (cc), λ (h, x). absurd (contradicted x (d.0 refl)))
decision true false false (some false) d = (λ h. (refl, inr (refl, λ x. cc (d.1 x))), λ x. refl)

module _ (marshal : MysqlPosition → Bytes) (unmarshal : Bytes → Option MysqlPosition)
    (scan_int : Bytes → ℤ) (to_lower : Bytes → Bytes) (describe : Bytes → Described) where
  -- The answers for the tables of a job.
  abbrev pub answers : Start → List Described
  answers j = describe_all marshal unmarshal scan_int to_lower describe j (tables_of j.connector)

  -- The job has a sink, and an index of one of its tables has documents.
  abbrev pub HasTarget : Start → Type 0
  HasTarget j = (j.has_sink ≡ true) × HasDocuments (answers j)

  target_system_has_data_iff :
      (j : Start)
      → AreCounts (answers j)
      → total (answers j) < 2 ^ 63
      → (target_system_has_data marshal unmarshal scan_int to_lower describe j ≡ true) ↔ HasTarget j
  unfolding target_system_has_data
  target_system_has_data_iff j counts small = has_data_iff j.has_sink (answers j) counts small

  -- A job starts with an initial sync exactly when its options do not turn it off, and they force it or
  -- else neither a valid checkpoint nor a document in an index of the job's tables is found. The counts
  -- that the sink gives are not negative and add up to less than 2 ^ 63.
  pub needs_initial_sync_iff :
      (file : CheckpointFile) (j : Start)
      → AreCounts (answers j)
      → total (answers j) < 2 ^ 63
      → (needs_initial_sync marshal unmarshal scan_int to_lower describe file j ≡ some true) ↔ (
          (is_initial_sync_enabled j.job_options ≡ true)
          × ((should_force_initial_sync j.job_options ≡ true)
              ⊎ ((has_valid_checkpoint marshal unmarshal scan_int to_lower describe file j
                    ≡ some false)
                  × ¬ HasTarget j)))
  unfolding needs_initial_sync
  needs_initial_sync_iff file j counts small =
      decision (is_initial_sync_enabled j.job_options) (should_force_initial_sync j.job_options)
        (target_system_has_data marshal unmarshal scan_int to_lower describe j)
        (has_valid_checkpoint marshal unmarshal scan_int to_lower describe file j)
        (target_system_has_data_iff j counts small)
