-- ===== src/Allocator/Reach.antt =====
-- Histories of an allocator: a program allocates blocks and frees blocks that it has, in any order.
use ntv2_gst.Prelude.{ℕ, ◌+◌, ◌≤◌, ◌==◌, if◌then◌else◌, List, [], ◌∷◌, ◌++◌, ◌≡◌}
use ntv2_gst.Allocator.{
  Fields, block, Allocator, Effect, allocate_aligned, free_aligned, lock, unlock, new_block,
  allocator_free, allocator_new,
}

-- How often an address stands in a list.
abbrev pub occurs : ℕ → List ℕ → ℕ
occurs a [] = 0
occurs a (d ∷ ds) = (if d == a then 1 else 0) + occurs a ds

-- What an effect counts for: an allocation or a release of an address, or a lock or an unlock of it with
-- a size.
abbrev pub allocates : ℕ → Effect → ℕ
allocates a (allocate_aligned d) = if d == a then 1 else 0
allocates a _ = 0

abbrev pub frees : ℕ → Effect → ℕ
frees a (free_aligned d) = if d == a then 1 else 0
frees a _ = 0

abbrev pub locks : ℕ → ℕ → Effect → ℕ
locks a size (lock d n) = if n == size then (if d == a then 1 else 0) else 0
locks a size _ = 0

abbrev pub unlocks : ℕ → ℕ → Effect → ℕ
unlocks a size (unlock d n) = if n == size then (if d == a then 1 else 0) else 0
unlocks a size _ = 0

abbrev pub tally : (Effect → ℕ) → List Effect → ℕ
tally w [] = 0
tally w (e ∷ es) = w e + tally w es

-- An allocator with the blocks that the program has of it and the effects so far. The system never hands
-- out an address that is in use.
pub data Reach (size : ℕ) : Allocator → List ℕ → List Effect → Type 0 where
  start :
      (ds : List ℕ)
      → ((a : ℕ) → occurs a ds ≤ 1)
      → Reach size (allocator_new size ds).0 [] (allocator_new size ds).1
  alloc :
      (fresh : ℕ) (s : Allocator) (live : List ℕ) (es : List Effect)
      → Reach size s live es
      → occurs fresh s.free_list + occurs fresh live ≡ 0
      → Reach size
          (new_block fresh s).alloc
          ((new_block fresh s).data_at ∷ live)
          (es ++ (new_block fresh s).effects)
  free :
      (f : Fields) (s : Allocator) (xs ys : List ℕ) (es : List Effect)
      → Reach size s (xs ++ f.data_at ∷ ys) es
      → f.maxsize ≡ size
      → Reach size (allocator_free s (block f)).0 (xs ++ ys) (es ++ (allocator_free s (block f)).1)
