-- ===== src/Allocator/Parts.antt =====
-- Shared parts of memory.
use ntv2_gst.Prelude.{
  ℕ, ◌+◌, ◌-◌, ◌^◌, ◌≤◌, ◌<◌, true, Option, none, some, ◌≡◌, refl, ap, ◌∙◌, arith, ltb,
  if◌then◌else◌,
}
use ntv2_gst.Allocator.{
  Fields, Memory, block, sub, fields, real_parent, memory_share, memory_copy, copy_size,
}
use ntv2_gst.Capture.Worker.{u64}

add-u64 : (a b c : ℕ) → u64 (u64 (a + b) + c) ≡ u64 (a + (b + c))
add-u64 a b c = ground arith

sub-u64 :
    (s a b : ℕ)
    → a + b ≤ s
    → s < 2 ^ 64
    → u64 (u64 (s + 2 ^ 64 - a) + 2 ^ 64 - b) ≡ u64 (s + 2 ^ 64 - (a + b))
sub-u64 s a b h k = ground arith

part : Memory → ℕ → ℕ → Memory
part mem offset size =
    let parent = fields (real_parent mem) in
    sub (real_parent mem) (record {
      data_at = parent.data_at;
      flags = parent.flags;
      readonly = true;
      maxsize = (fields mem).maxsize;
      offset = offset;
      size = size;
    })

-- A part of the rest of a memory is the part of that memory that begins at the sum of the offsets, and it
-- has the same parent: parts are never nested. The sum is to lie within the size of the memory, which is
-- a 64-bit number.
memory_share-twice :
    (mem : Memory) (a b : ℕ) (size : Option ℕ)
    → a + b ≤ (fields mem).size
    → (fields mem).size < 2 ^ 64
    → memory_share (memory_share mem a none) b size ≡ memory_share mem (a + b) size
unfolding memory_share part
memory_share-twice mem a b none h k =
    ap (λ o. part mem o (u64 (u64 ((fields mem).size + 2 ^ 64 - a) + 2 ^ 64 - b)))
      (add-u64 (fields mem).offset a b)
    ∙ ap (part mem (u64 ((fields mem).offset + (a + b)))) (sub-u64 (fields mem).size a b h k)
memory_share-twice mem a b (some size) h k =
    ap (λ o. part mem o size) (add-u64 (fields mem).offset a b)

-- Memory that the allocator has made: a block, or a part of what it has made.
pub data IsMade : Memory → Type 0 where
  made_block : (f : Fields) → IsMade (block f)
  made_share :
      (mem : Memory) (offset : ℕ) (size : Option ℕ)
      → IsMade mem
      → IsMade (memory_share mem offset size)

IsMade-data_at :
    {mem : Memory} → IsMade mem → (fields (real_parent mem)).data_at ≡ (fields mem).data_at
unfolding memory_share
IsMade-data_at (made_block f) = refl
IsMade-data_at (made_share mem offset size i) = refl

copied-u64 :
    (s a b : ℕ)
    → a + b ≤ s
    → s < 2 ^ 64
    → (if ltb b (u64 (s + 2 ^ 64 - a)) then u64 (s + 2 ^ 64 - a) - b else 0)
      ≡ (if ltb (a + b) s then s - (a + b) else 0)
copied-u64 s a b h k = ground arith

-- For memory that the allocator has made, a copy of a part reads the bytes that a copy of the whole reads
-- at the sum of the offsets, which is to lie within the size of the whole, a 64-bit number.
memory_copy-share :
    (mem : Memory) (a b : ℕ) (size : Option ℕ)
    → IsMade mem
    → a + b ≤ (fields mem).size
    → (fields mem).size < 2 ^ 64
    → memory_copy (memory_share mem a none) b size ≡ memory_copy mem (a + b) size
unfolding memory_share memory_copy
memory_copy-share mem a b none i h k =
    let n = copy_size (fields (memory_share mem a none)) b none in
    ap (λ d. (d + u64 (u64 ((fields mem).offset + a) + b), n)) (IsMade-data_at i)
    ∙ ap (λ o. ((fields mem).data_at + o, n)) (add-u64 (fields mem).offset a b)
    ∙ ap (λ n. ((fields mem).data_at + u64 ((fields mem).offset + (a + b)), n))
        (copied-u64 (fields mem).size a b h k)
memory_copy-share mem a b (some size) i h k =
    ap (λ d. (d + u64 (u64 ((fields mem).offset + a) + b), size)) (IsMade-data_at i)
    ∙ ap (λ o. ((fields mem).data_at + o, size)) (add-u64 (fields mem).offset a b)
