-- ===== src/Lsn/Codec.antt =====
-- An encoding of maps of at most one checkpoint, to try Lsn.Store with: a text is written with each
-- code raised by one, and ended by 0.
use elasticrelay.Common.{
  zero, suc, ◌≡◌, refl, Option, none, some, Bool, true, [], ◌∷◌, Bytes, arith, leb, length, lookup,
}
use elasticrelay.Lsn.Store.{LsnCheckpoint, Checkpoints}

unfoldable pub put : Bytes → Bytes → Bytes
put [] out = 0 ∷ out
put (c ∷ s) out = suc c ∷ put s out

unfoldable pub get : Bytes → Bytes × Bytes
get [] = ([], [])
get (zero ∷ r) = ([], r)
get (suc c ∷ r) = let rest = get r in (c ∷ rest.0, rest.1)

get-put : (s out : Bytes) → get (put s out) ≡ (s, out)
unfolding get put
get-put [] out = refl
get-put (c ∷ s) out = rw (get-put s out) refl

abbrev pub put_checkpoint : LsnCheckpoint → Bytes
put_checkpoint c = put (LsnCheckpoint.job_id c) (
    put (LsnCheckpoint.lsn c) (
      put (LsnCheckpoint.slot_name c) (
        put (LsnCheckpoint.publication c) (
          LsnCheckpoint.timeline c
          ∷ LsnCheckpoint.last_update c
          ∷ LsnCheckpoint.commit_frequency c
          ∷ LsnCheckpoint.batch_size c
          ∷ []))))

abbrev pub numbers : Bytes → Bytes → Bytes → Bytes → Bytes → Option LsnCheckpoint
numbers job lsn slot publication (timeline ∷ update ∷ frequency ∷ batch ∷ []) = some (record {
  job_id = job;
  lsn = lsn;
  timeline = timeline;
  slot_name = slot;
  publication = publication;
  last_update = update;
  commit_frequency = frequency;
  batch_size = batch;
})
numbers job lsn slot publication _ = none

unfoldable pub get_checkpoint : Bytes → Option LsnCheckpoint
get_checkpoint s =
    let (job, s1) = get s in
    let (lsn, s2) = get s1 in
    let (slot, s3) = get s2 in let (publication, s4) = get s3 in numbers job lsn slot publication s4

get_checkpoint-put : (c : LsnCheckpoint) → get_checkpoint (put_checkpoint c) ≡ some c
unfolding get_checkpoint
get_checkpoint-put c =
    rw
      (
        get-put (LsnCheckpoint.job_id c) _,
        get-put (LsnCheckpoint.lsn c) _,
        get-put (LsnCheckpoint.slot_name c) _,
        get-put (LsnCheckpoint.publication c) _,
      )
      refl

unfoldable pub encode : Checkpoints → Bytes
encode [] = []
encode ((k, c) ∷ m) = put k (put_checkpoint c)

abbrev pub single : Bytes → Option LsnCheckpoint → Option Checkpoints
single k none = none
single k (some c) = some ((k, c) ∷ [])

unfoldable pub decode : Bytes → Option Checkpoints
decode [] = some []
decode (c ∷ s) = let (k, rest) = get (c ∷ s) in single k (get_checkpoint rest)

decode-put : (k r : Bytes) → decode (put k r) ≡ single k (get_checkpoint r)
unfolding decode get put
decode-put [] r = refl
decode-put (c ∷ k) r = rw (get-put k r) refl

abbrev pub at_most_one : Checkpoints → Bool
at_most_one m = leb (length m) 1

pub decode-encode :
    (m : Checkpoints)
    → at_most_one m ≡ true
    → (m' : Checkpoints) × (decode (encode m) ≡ some m') × ((k : Bytes) → lookup k m' ≡ lookup k m)
unfolding encode
decode-encode [] h = ([], unfold decode in refl, λ k. refl)
decode-encode ((k, c) ∷ []) h =
    ((k, c) ∷ [], rw (decode-put k _, get_checkpoint-put c) refl, λ j. refl)
decode-encode (e ∷ e' ∷ m) h = absurd (ground arith)
