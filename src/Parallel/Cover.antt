-- ===== src/Parallel/Cover.antt =====
-- The chunks of a table's id range cover the range, each id once: createIDBasedChunks of
-- internal/parallel/manager.go.
use elasticrelay.Common.{
  ℕ, zero, suc, ◌+◌, ◌*◌, ◌/◌, ◌^◌, ◌≤◌, ◌<◌, ◌≡◌, inl, inr, refl, ap, ◌∙◌, Bool, false, ◌&&◌, List,
  [], ◌∷◌, arith, ltb, ◌==◌, if◌then◌else◌, Bool-cases, length,
}
use elasticrelay.Common.Int.{
  ℤ, pos, pos_part, neg_part, ◌+ℤ◌, ◌-ℤ◌, ◌≤ℤ◌, scale, ltb_ℤ, leb_ℤ, eqb_ℤ, wrap64, IsInt64,
  wrap64-eq, scale-pos, add-pos, eq_pos_part, quot-pos, between-IsInt64, +ℤ_parts, int_laws,
}
use native.Mathlib.Nat.{mul-div-le, div-le_self}
use elasticrelay.Parallel.Task.{SnapshotConfig, TableTask, ChunkTask}
use elasticrelay.Parallel.Chunks.{
  ok, range, Answers, get_id_range, new_chunk, bound, chunk_at, chunk_loop, range_size,
  count_chunks, cut_range, chunks_of_range, create_id_based_chunks,
}

-- The test of the query that a worker makes for the chunk: start <= id and id < end.
abbrev pub contains : ℤ → ChunkTask → Bool
contains z c = leb_ℤ c.start_id z && ltb_ℤ z c.end_id

-- How many of the chunks read the id.
abbrev pub readers : ℤ → List ChunkTask → ℕ
readers z [] = 0
readers z (c ∷ chunks) = (if contains z c then 1 else 0) + readers z chunks

-- The last piece, and a piece in front of the rest, with plain bounds.
last_piece :
    (s z high : ℤ)
    → (if leb_ℤ s z && ltb_ℤ z (high +ℤ pos 1) then 1 else 0) + 0
      ≡ (if leb_ℤ s z && leb_ℤ z high then 1 else 0)
last_piece s z high = ground (arith, +ℤ_parts high (pos 1))

next_piece :
    (s m z high : ℤ)
    → s ≤ℤ m
    → m ≤ℤ high +ℤ pos 1
    → (if leb_ℤ s z && ltb_ℤ z m then 1 else 0) + (if leb_ℤ m z && leb_ℤ z high then 1 else 0)
      ≡ (if leb_ℤ s z && leb_ℤ z high then 1 else 0)
next_piece s m z high h k = ground (arith, +ℤ_parts high (pos 1))

-- A range of `size` ids from `min_id`, cut in `count` steps without overflow.
module _ (task : TableTask) (min_id max_id : ℤ) (size step count : ℕ) (low : IsInt64 min_id)
    (high : IsInt64 (max_id +ℤ pos 1)) (small : size < 2 ^ 63)
    (reach : max_id +ℤ pos 1 ≡ min_id +ℤ pos size) (fits : count * step ≤ size) where
  bound_lem : (i : ℕ) → i ≤ count → bound min_id (pos step) i ≡ min_id +ℤ pos (i * step)
  unfolding bound
  bound_lem i h =
      let inside : i * step ≤ size = grind arith in
      let inner : wrap64 (scale i (pos step)) ≡ pos (i * step) =
        rw scale-pos (wrap64-eq (pos (i * step)) (omega arith, omega arith)) in
      let top : IsInt64 (min_id +ℤ pos size) = rw reach at high in
      rw inner (
        wrap64-eq (min_id +ℤ pos (i * step)) (
          between-IsInt64 min_id (min_id +ℤ pos (i * step)) (min_id +ℤ pos size) (omega int_laws)
            (omega int_laws) low top))

  start_id-chunk_at :
      (i : ℕ)
      → i < count
      → (chunk_at task min_id max_id (pos step) count i).start_id ≡ min_id +ℤ pos (i * step)
  unfolding chunk_at new_chunk
  start_id-chunk_at i h = bound_lem i (omega arith)

  end_id-chunk_at :
      (i : ℕ)
      → i + 1 < count
      → (chunk_at task min_id max_id (pos step) count i).end_id ≡ min_id +ℤ pos ((i + 1) * step)
  unfolding chunk_at new_chunk
  end_id-chunk_at i h = ground (arith, bound_lem (i + 1))

  end_id-chunk_at_last :
      (i : ℕ)
      → i + 1 ≡ count
      → (chunk_at task min_id max_id (pos step) count i).end_id ≡ max_id +ℤ pos 1
  unfolding chunk_at new_chunk
  end_id-chunk_at_last i h = ground (arith, wrap64-eq (max_id +ℤ pos 1) high)

  below_top : (i : ℕ) → i ≤ count → min_id +ℤ pos (i * step) ≤ℤ max_id +ℤ pos 1
  below_top i h = let inside : i * step ≤ size = grind arith in rw reach (omega int_laws)

  -- The chunks of the rounds from i on read the ids from the i-th bound up to the largest one.
  readers-chunk_loop :
      (left i : ℕ) (z : ℤ)
      → i + suc left ≡ count
      → readers z (chunk_loop task min_id max_id (pos step) count (suc left) i)
        ≡ (if leb_ℤ (min_id +ℤ pos (i * step)) z && leb_ℤ z max_id then 1 else 0)
  unfolding chunk_loop
  readers-chunk_loop zero i z h =
      rw (start_id-chunk_at i (omega arith), end_id-chunk_at_last i h)
        (last_piece (min_id +ℤ pos (i * step)) z max_id)
  readers-chunk_loop (suc left) i z h =
      let here : min_id +ℤ pos (i * step) ≤ℤ min_id +ℤ pos ((i + 1) * step) = omega int_laws in
      rw
        (
          start_id-chunk_at i (omega arith),
          end_id-chunk_at i (omega arith),
          readers-chunk_loop left (i + 1) z (omega arith),
        )
        (next_piece (min_id +ℤ pos (i * step)) (min_id +ℤ pos ((i + 1) * step)) z max_id here
          (below_top (i + 1) (omega arith)))

-- The number of chunks, for a range of that size.
abbrev chunk_number : ℕ → ℕ → ℕ
chunk_number most quotient =
    let positive = if quotient == 0 then 1 else quotient in
    if ltb most positive then most else positive

chunk_number_bounds :
    (most quotient size : ℕ)
    → 0 < most
    → quotient ≤ size
    → 0 < size
    → (0 < chunk_number most quotient)
      × (chunk_number most quotient ≤ most)
      × (chunk_number most quotient ≤ size)
chunk_number_bounds most quotient size h k l = ground arith

count_chunks_lem :
    (config : SnapshotConfig) (task : TableTask) (size : ℕ)
    → count_chunks config task (pos size)
      ≡ pos (chunk_number config.max_concurrent_chunks (size / task.chunk_size))
unfolding count_chunks
count_chunks_lem config task size = rw quot-pos (ground arith)

range_size_small :
    (min_id max_id : ℤ)
    → min_id ≤ℤ max_id
    → IsInt64 (max_id -ℤ min_id +ℤ pos 1)
    → suc (pos_part (max_id -ℤ min_id)) < 2 ^ 63
range_size_small min_id max_id h small =
    let k = pos_part (max_id -ℤ min_id) in
    let d : max_id -ℤ min_id ≡ pos k = eq_pos_part (max_id -ℤ min_id) (omega int_laws) in
    let room : k + 1 < 2 ^ 63 = (rw (d, add-pos) at small).0 in omega arith

range_size_lem :
    (min_id max_id : ℤ)
    → min_id ≤ℤ max_id
    → IsInt64 (max_id -ℤ min_id +ℤ pos 1)
    → range_size min_id max_id ≡ pos (suc (pos_part (max_id -ℤ min_id)))
unfolding range_size
range_size_lem min_id max_id h small =
    let k = pos_part (max_id -ℤ min_id) in
    let d : max_id -ℤ min_id ≡ pos k = eq_pos_part (max_id -ℤ min_id) (omega int_laws) in
    let room = range_size_small min_id max_id h small in
    let inner : wrap64 (max_id -ℤ min_id) ≡ pos k = rw d (wrap64-eq (pos k) (omega arith)) in
    rw (inner, add-pos) (wrap64-eq (pos (k + 1)) (omega arith) ∙ ap pos (omega arith))

range_size_reach :
    (min_id max_id : ℤ)
    → min_id ≤ℤ max_id
    → max_id +ℤ pos 1 ≡ min_id +ℤ pos (suc (pos_part (max_id -ℤ min_id)))
range_size_reach min_id max_id h =
    let d = eq_pos_part (max_id -ℤ min_id) (omega int_laws) in omega (int_laws, ap neg_part d)

length-chunk_loop :
    (task : TableTask) (min_id max_id step : ℤ) (count left i : ℕ)
    → length (chunk_loop task min_id max_id step count left i) ≡ left
unfolding chunk_loop
length-chunk_loop task min_id max_id step count zero i = refl
length-chunk_loop task min_id max_id step count (suc left) i =
    ap suc (length-chunk_loop task min_id max_id step count left (i + 1))

abbrev pub Covers : ℤ → ℤ → List ChunkTask → Type 0
Covers min_id max_id chunks =
    (z : ℤ) → readers z chunks ≡ (if leb_ℤ min_id z && leb_ℤ z max_id then 1 else 0)

-- Both cases of a range of more than one id.
cut_range-Covers :
    (task : TableTask) (min_id max_id : ℤ) (size count : ℕ)
    → IsInt64 min_id
    → IsInt64 (max_id +ℤ pos 1)
    → size < 2 ^ 63
    → max_id +ℤ pos 1 ≡ min_id +ℤ pos size
    → 0 < count
    → (chunks : List ChunkTask) × (cut_range task min_id max_id (pos size) (pos count) ≡ ok chunks)
      × (length chunks ≡ count)
      × Covers min_id max_id chunks
unfolding cut_range
cut_range-Covers task min_id max_id size zero low high small reach h = elim h [ ]
cut_range-Covers task min_id max_id size (suc n) low high small reach h =
    let step = size / suc n in
    (
      chunk_loop task min_id max_id (pos step) (suc n) (suc n) 0,
      rw quot-pos,
      length-chunk_loop task min_id max_id (pos step) (suc n) (suc n) 0,
      λ z.
          let start : min_id +ℤ pos (0 * step) ≡ min_id = omega int_laws in
          readers-chunk_loop task min_id max_id size step (suc n) low high small reach
            (mul-div-le size (suc n)) n 0 z (omega arith)
          ∙ rw start,
    )

single-Covers :
    (task : TableTask) (min_id max_id : ℤ)
    → IsInt64 (max_id +ℤ pos 1)
    → Covers min_id max_id (new_chunk task 0 min_id (wrap64 (max_id +ℤ pos 1)) false ∷ [])
unfolding new_chunk
single-Covers task min_id max_id high z =
    rw (wrap64-eq (max_id +ℤ pos 1) high) (last_piece min_id z max_id)

-- If neither the largest id plus one nor the number of ids overflows an int64, and the configured
-- chunk size and chunk limit are not 0, then createIDBasedChunks returns without a panic at least
-- one chunk and at most as many as the limit, and every id from the smallest to the largest is read
-- by exactly one chunk, and every other id by none.
pub create_id_based_chunks-Covers :
    (config : SnapshotConfig) (task : TableTask) (db : Answers) (min_id max_id : ℤ)
    → db.id_range ≡ range min_id max_id
    → min_id ≤ℤ max_id
    → IsInt64 min_id
    → IsInt64 (max_id +ℤ pos 1)
    → IsInt64 (max_id -ℤ min_id +ℤ pos 1)
    → 0 < config.max_concurrent_chunks
    → 0 < task.chunk_size
    → (chunks : List ChunkTask) × (create_id_based_chunks config task db ≡ ok chunks)
      × (0 < length chunks)
      × (length chunks ≤ config.max_concurrent_chunks)
      × Covers min_id max_id chunks
unfolding create_id_based_chunks get_id_range chunks_of_range
create_id_based_chunks-Covers config task db min_id max_id answer le low high small most size =
    elim (Bool-cases (eqb_ℤ min_id max_id)) [
      | inl same ↦ (
        new_chunk task 0 min_id (wrap64 (max_id +ℤ pos 1)) false ∷ [],
        ground (arith, answer, same),
        omega arith,
        omega arith,
        single-Covers task min_id max_id high,
      )
      | inr more ↦
          let total = suc (pos_part (max_id -ℤ min_id)) in
          let number = chunk_number config.max_concurrent_chunks (total / task.chunk_size) in
          let (positive, limited, _) =
            chunk_number_bounds config.max_concurrent_chunks (total / task.chunk_size) total most
              (div-le_self total task.chunk_size) (omega arith) in
          let (chunks, cut, counted, covers) =
            cut_range-Covers task min_id max_id total number low high
              (range_size_small min_id max_id le small) (range_size_reach min_id max_id le)
              positive in
          (
            chunks,
            ground (
              arith,
              answer,
              more,
              cut,
              range_size_lem min_id max_id le small,
              count_chunks_lem config task total,
              size,
            ),
            omega arith,
            omega arith,
            covers,
          )
    ]
