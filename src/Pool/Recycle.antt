-- ===== src/Pool/Recycle.antt =====
-- Which buffers a pool gets back from `reset_buffer` and `release_buffer`, which GStreamer calls in this order.
use ntv2_gst.Prelude.{
  ℕ, ◌≡◌, ◌⊎◌, ◌↔◌, ◌≤◌, ◌<◌, ◌||◌, Bool, true, false, not, arith, refl, if_rule, Bool-cases, ◌&&◌,
  ◌==◌, if◌then◌else◌, inl, inr, if-true, if-false, ◌∙◌, sym,
}
use ntv2_gst.Pool.{
  Buffer, BufferPool, Gst, grows, full_size, reset_buffer, has_video, has_audio, release_buffer,
}

-- What GStreamer documents, for a pool. A resize within the memory sets the size. The parent's reset clears the
-- flags but that for changed memory, keeps the data, and makes a buffer without that flag as large as a new one,
-- so that one of the pool's size keeps it; of the size of any other buffer nothing is said. The parent's release
-- keeps a buffer exactly if the flag is not set.
pub record IsGst (g : Gst) (pool : BufferPool) : Type 0 where
  pub resize_size :
      (b : Buffer) (n : ℕ)
      → b.n_memory ≡ 1
      → n ≤ b.maxsize
      → ((g.resize b.offset n b).size ≡ n) × ((g.resize b.offset n b).n_memory ≡ 1)
  pub resize_qdata :
      (b : Buffer) (back n : ℕ)
      → ((g.resize back n b).video_qdata ≡ b.video_qdata)
        × ((g.resize back n b).audio_qdata ≡ b.audio_qdata)
  pub reset_size :
      (b : Buffer) → b.tag_memory ≡ false → b.size ≡ pool.size → (g.reset b).size ≡ pool.size
  pub reset_tag : (b : Buffer) → (g.reset b).tag_memory ≡ b.tag_memory
  pub reset_qdata :
      (b : Buffer)
      → ((g.reset b).video_qdata ≡ b.video_qdata) × ((g.reset b).audio_qdata ≡ b.audio_qdata)
  pub keeps_untagged : (b : Buffer) → g.keeps b ≡ not b.tag_memory

-- What becomes of `b`, where `r` is the buffer behind both calls and whether it is kept.
pub record IsRecycled (pool : BufferPool) (b : Buffer) (r : Buffer × Bool) : Type 0 where
  pub kept :
      (r.1 ≡ true)
      ↔ (((has_audio b || has_video b) ≡ true) × ((b.size ≡ pool.size) ⊎ (pool.size < b.maxsize)))
  pub size : r.1 ≡ true → r.0.size ≡ pool.size

-- What holds behind `reset_buffer`.
record IsReset (pool : BufferPool) (b b' : Buffer) : Type 0 where
  untagged : (b'.tag_memory ≡ false) ↔ ((b.size ≡ pool.size) ⊎ (pool.size < b.maxsize))
  size : b'.tag_memory ≡ false → b'.size ≡ pool.size
  has_qdata : (has_audio b' || has_video b') ≡ (has_audio b || has_video b)

has_qdata-eq :
    (b b' : Buffer)
    → b'.video_qdata ≡ b.video_qdata
    → b'.audio_qdata ≡ b.audio_qdata
    → (has_audio b' || has_video b') ≡ (has_audio b || has_video b)
has_qdata-eq b b' v a = rw (v, a) refl

-- The buffer that is made as large again.
record IsFull (pool : BufferPool) (b b' : Buffer) : Type 0 where
  one : b'.n_memory ≡ 1
  has_qdata : (has_audio b' || has_video b') ≡ (has_audio b || has_video b)
  size : grows pool b ≡ true → b'.size ≡ pool.size
  same : grows pool b ≡ false → b' ≡ b

abbrev fits : BufferPool → Buffer → Buffer → Bool
fits pool b b' = (if grows pool b then pool.size else b.size) == pool.size && b'.n_memory == 1

fits-IsReset :
    (pool : BufferPool) (b b' : Buffer)
    → IsFull pool b b'
    → fits pool b b' ≡ true
    → IsReset pool b (record b' { tag_memory = false })
fits-IsReset pool b b' f e =
    let one = f.one in
    let size = f.size in
    let same = f.same in
    record { untagged = ground arith; size = λ _. ground arith; has_qdata = f.has_qdata }

small-IsReset :
    (pool : BufferPool) (b b' : Buffer)
    → IsFull pool b b'
    → b.tag_memory ≡ true
    → fits pool b b' ≡ false
    → IsReset pool b b'
small-IsReset pool b b' f tagged e =
    let one = f.one in
    let same = f.same in
    record { untagged = ground arith; size = λ h. ground arith; has_qdata = f.has_qdata }

release_buffer_lem :
    (g : Gst) (b : Buffer)
    → release_buffer g b ≡ (
        if has_audio b || has_video b
        then (b, g.keeps b)
        else (record b { tag_memory = true }, g.keeps (record b { tag_memory = true })))
unfolding release_buffer
release_buffer_lem g b = ground arith

-- For the answer `k` of the parent.
kept-IsRecycled :
    (pool : BufferPool) (b b' : Buffer) (k : Bool)
    → IsReset pool b b'
    → k ≡ not b'.tag_memory
    → (has_audio b' || has_video b') ≡ true
    → IsRecycled pool b (b', k)
kept-IsRecycled pool b b' k r e h =
    let u = r.untagged in
    let q = r.has_qdata in
    let size = r.size in record { kept = ground arith; size = λ t. ground arith }

freed-IsRecycled :
    (pool : BufferPool) (b b' : Buffer) (k : Bool)
    → IsReset pool b b'
    → k ≡ false
    → (has_audio b' || has_video b') ≡ false
    → IsRecycled pool b (record b' { tag_memory = true }, k)
freed-IsRecycled pool b b' k r e h =
    let q = r.has_qdata in record { kept = ground arith; size = λ t. ground arith }

module _ (g : Gst) (pool : BufferPool) (laws : IsGst g pool) where
  full_size-IsFull : (b : Buffer) → b.n_memory ≡ 1 → IsFull pool b (full_size g pool b)
  unfolding full_size
  full_size-IsFull b one = elim (Bool-cases (grows pool b)) [
    | inl e ↦
        let n = laws.resize_size b pool.size one (ground arith) in
        let q = laws.resize_qdata b b.offset pool.size in
        rw (if-true (g.resize b.offset pool.size b) b e) (record {
          one = n.1;
          has_qdata = has_qdata-eq b (g.resize b.offset pool.size b) q.0 q.1;
          size = λ _. n.0;
          same = λ h. cc;
        })
    | inr e ↦
        rw (if-false (g.resize b.offset pool.size b) b e)
          (record { one = one; has_qdata = refl; size = λ h. cc; same = λ _. refl })
  ]

  reset-IsReset : (b b' : Buffer) → IsReset pool b b' → IsReset pool b (g.reset b')
  reset-IsReset b b' r =
      let q = laws.reset_qdata b' in
      record {
        untagged = rw (laws.reset_tag b') r.untagged;
        size = λ h.
            let untagged = sym (laws.reset_tag b') ∙ h in
            laws.reset_size b' untagged (r.size untagged);
        has_qdata = has_qdata-eq b' (g.reset b') q.0 q.1 ∙ r.has_qdata;
      }

  reset_buffer-IsReset :
      (b : Buffer) → b.n_memory ≡ 1 → b.tag_memory ≡ true → IsReset pool b (reset_buffer g pool b)
  unfolding reset_buffer
  reset_buffer-IsReset b one tagged =
      let f = full_size-IsFull b one in
      let b' = full_size g pool b in
      reset-IsReset b (if fits pool b b' then record b' { tag_memory = false } else b') (
        if_rule (IsReset pool b) (fits pool b b') (record b' { tag_memory = false }) b'
          (fits-IsReset pool b b' f) (small-IsReset pool b b' f tagged))

  -- A buffer of one memory whose flag for changed memory is set goes back into the pool exactly if it still
  -- has its data for video or audio and is as large as the buffers of the pool or has memory that is larger
  -- than these; and it goes back in their size.
  pub release_buffer-IsRecycled :
      (b : Buffer)
      → b.n_memory ≡ 1
      → b.tag_memory ≡ true
      → IsRecycled pool b (release_buffer g (reset_buffer g pool b))
  release_buffer-IsRecycled b one tagged =
      let r = reset_buffer-IsReset b one tagged in
      let b' = reset_buffer g pool b in
      let marked : Buffer = record b' { tag_memory = true } in
      rw (release_buffer_lem g b') (
        if_rule (IsRecycled pool b) (has_audio b' || has_video b') (b', g.keeps b')
          (marked, g.keeps marked)
          (kept-IsRecycled pool b b' (g.keeps b') r (laws.keeps_untagged b'))
          (freed-IsRecycled pool b b' (g.keeps marked) r (laws.keeps_untagged marked)))
