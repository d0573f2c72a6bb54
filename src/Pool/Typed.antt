-- ===== src/Pool/Typed.antt =====
-- The life of a pool: buffers are taken from it, made where it holds none, and come back from the program, as
-- GStreamer calls the functions of the pool for `gst_buffer_pool_acquire_buffer` and the last unref of a buffer.
use ntv2_gst.Prelude.{
  ◌≡◌, ◌≢◌, ◌&&◌, ◌==◌, true, false, not, if◌then◌else◌, none, List, [], ◌∷◌, ◌++◌, arith, refl,
  if_rule, ◌∙◌,
}
use ntv2_gst.Pool.{
  Buffer, BufferPool, Gst, Allocated, flow_ok, alloc_buffer, reset_buffer, has_video, has_audio,
  release_buffer, acquire_video_buffer, acquire_audio_buffer, full_size, grows,
}
use ntv2_gst.Pool.Recycle.{IsGst}

-- A buffer is acquired, where a new one would be this, or comes back.
pub data Event : Type 0 where
  acquires gives_back : Buffer → Event

-- The buffers that the pool holds, and the answers to those who acquired one.
abbrev pub Life : Type 0
Life = List Buffer × List Allocated

abbrev pub take_from : BufferPool → Buffer → List Buffer → Allocated × List Buffer
take_from pool fresh [] = (alloc_buffer pool (flow_ok fresh), [])
take_from pool fresh (b ∷ held) = (flow_ok b, held)

pub step : Gst → BufferPool → Life → Event → Life
step g pool (held, answers) (acquires fresh) =
    let r = take_from pool fresh held in (r.1, answers ++ r.0 ∷ [])
step g pool (held, answers) (gives_back b) =
    let r = release_buffer g (reset_buffer g pool b) in
    (if r.1 then held ++ r.0 ∷ [] else held, answers)

unfoldable pub life : Gst → BufferPool → Life → List Event → Life
unfolding step
life g pool l [] = l
life g pool l (e ∷ es) = life g pool (step g pool l e) es

abbrev pub All : {A : Type 0} → (A → Type 0) → List A → Type 0
All P [] = Unit {0}
All P (x ∷ xs) = P x × All P xs

-- What the pool is given: memory without data, and buffers without data of the other kind.
abbrev pub Given : BufferPool → Event → Type 0
Given pool (acquires fresh) = (has_video fresh ≡ false) × (has_audio fresh ≡ false)
Given pool (gives_back b) =
    (has_video b ≡ true → pool.is_video ≡ true) × (has_audio b ≡ true → pool.is_video ≡ false)

-- The data is of the kind of the pool.
abbrev pub IsTyped : BufferPool → Buffer → Type 0
IsTyped pool b = (has_video b ≡ pool.is_video) × (has_audio b ≡ not pool.is_video)

-- The capture loop gets the data of its kind with the buffer.
abbrev pub HasData : BufferPool → Allocated → Type 0
HasData pool a =
    (pool.is_video ≡ true → acquire_video_buffer a ≢ none)
    × (pool.is_video ≡ false → acquire_audio_buffer a ≢ none)

All-append :
    {A : Type 0} (P : A → Type 0) (xs : List A) (x : A) → All P xs → P x → All P (xs ++ x ∷ [])
All-append P [] x h p = (p, tt)
All-append P (y ∷ xs) x h p = (h.0, All-append P xs x h.1 p)

IsTyped-HasData : (pool : BufferPool) (b : Buffer) → IsTyped pool b → HasData pool (flow_ok b)
unfolding acquire_video_buffer acquire_audio_buffer
IsTyped-HasData pool b t = ground arith

-- Of the buffers that the pool holds and the answers that it has given.
record IsKept (pool : BufferPool) (l : Life) : Type 0 where
  held : All (IsTyped pool) l.0
  answered : All (HasData pool) l.1

alloc_buffer-HasData :
    (pool : BufferPool) (fresh : Buffer)
    → Given pool (acquires fresh)
    → HasData pool (alloc_buffer pool (flow_ok fresh))
unfolding alloc_buffer acquire_video_buffer acquire_audio_buffer
alloc_buffer-HasData pool fresh given = ground arith

-- The data of a buffer is what it was.
abbrev SameQdata : Buffer → Buffer → Type 0
SameQdata b b' = (b'.video_qdata ≡ b.video_qdata) × (b'.audio_qdata ≡ b.audio_qdata)

module _ (g : Gst) (pool : BufferPool) (laws : IsGst g pool) where
  take_from-IsKept :
      (fresh : Buffer) (held : List Buffer)
      → Given pool (acquires fresh)
      → All (IsTyped pool) held
      → All (IsTyped pool) (take_from pool fresh held).1
        × HasData pool (take_from pool fresh held).0
  take_from-IsKept fresh [] given h = (tt, alloc_buffer-HasData pool fresh given)
  take_from-IsKept fresh (b ∷ held) given h = (h.1, IsTyped-HasData pool b h.0)

  full_size-SameQdata : (b : Buffer) → SameQdata b (full_size g pool b)
  unfolding full_size
  full_size-SameQdata b =
      if_rule (SameQdata b) (grows pool b) _ b (λ _. laws.resize_qdata b b.offset pool.size)
        (λ _. (refl, refl))

  reset_buffer-SameQdata : (b : Buffer) → SameQdata b (reset_buffer g pool b)
  unfolding reset_buffer
  reset_buffer-SameQdata b =
      let q = full_size-SameQdata b in
      let inner : Buffer =
        if (if grows pool b then pool.size else b.size) == pool.size
          && (full_size g pool b).n_memory == 1
        then record (full_size g pool b) { tag_memory = false }
        else full_size g pool b in
      let same : SameQdata b inner = if_rule (SameQdata b) _ _ _ (λ _. q) (λ _. q) in
      let r = laws.reset_qdata inner in (r.0 ∙ same.0, r.1 ∙ same.1)

  release_buffer-IsTyped :
      (b b' : Buffer)
      → b'.video_qdata ≡ b.video_qdata
      → b'.audio_qdata ≡ b.audio_qdata
      → Given pool (gives_back b)
      → (release_buffer g b').1 ≡ true
      → IsTyped pool (release_buffer g b').0
  unfolding release_buffer
  release_buffer-IsTyped b b' v a given kept =
      let marked = laws.keeps_untagged (record b' { tag_memory = true }) in ground arith

  step-IsKept :
      (l : Life) (e : Event) → Given pool e → IsKept pool l → IsKept pool (step g pool l e)
  unfolding step
  step-IsKept (held, answers) (acquires fresh) given i =
      let r = take_from-IsKept fresh held given i.held in
      record { held = r.0; answered = All-append (HasData pool) answers _ i.answered r.1 }
  step-IsKept (held, answers) (gives_back b) given i =
      let q = reset_buffer-SameQdata b in
      let b' = reset_buffer g pool b in
      record {
        held =
            if_rule (All (IsTyped pool)) (release_buffer g b').1 _ held
              (λ kept.
                All-append (IsTyped pool) held _ i.held
                  (release_buffer-IsTyped b b' q.0 q.1 given kept))
              (λ _. i.held);
        answered = i.answered;
      }

  life-IsKept :
      (l : Life) (es : List Event)
      → All (Given pool) es
      → IsKept pool l
      → IsKept pool (life g pool l es)
  unfolding life
  life-IsKept l [] given i = i
  life-IsKept l (e ∷ es) given i =
      life-IsKept (step g pool l e) es given.1 (step-IsKept l e given.0 i)

  -- From an empty pool on, each buffer that the capture loop acquires carries the data of the pool's kind, if new
  -- buffers come without data and the program leaves no data of the other kind on a buffer, whatever else
  -- it makes of it: `AcquireVideoBuffer` answers NULL for no buffer of a video pool, nor `AcquireAudioBuffer`
  -- for one of an audio pool.
  pub life-HasData :
      (es : List Event) → All (Given pool) es → All (HasData pool) (life g pool ([], []) es).1
  life-HasData es given =
      let i = life-IsKept ([], []) es given (record { held = tt; answered = tt }) in i.answered
