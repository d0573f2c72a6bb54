-- ===== src/Allocator/Balance.antt =====
-- The accounts of an allocator in any history.
use ntv2_gst.Prelude.{
  ℕ, ◌+◌, ◌-◌, ◌≤◌, ◌<◌, true, false, ◌&&◌, ◌==◌, ltb, leb, max, if◌then◌else◌, if_rule, ==_iff,
  List, [], ◌∷◌, ◌++◌, length, ◌≡◌, refl, ap, subst, arith, length-append,
}
use ntv2_gst.Allocator.{
  Fields, block, Allocator, Effect, allocate_aligned, free_aligned, lock, unlock, new_block,
  take_block, allocator_free, allocator_new, prealloc_list,
}
use ntv2_gst.Allocator.Reach.{
  occurs, allocates, frees, locks, unlocks, tally, Reach, start, alloc, free,
}

pub tally-append :
    (w : Effect → ℕ) (xs ys : List Effect) → tally w (xs ++ ys) ≡ tally w xs + tally w ys
tally-append w [] ys = omega arith
tally-append w (x ∷ xs) ys = let ih = tally-append w xs ys in omega arith

occurs-append : (a : ℕ) (xs ys : List ℕ) → occurs a (xs ++ ys) ≡ occurs a xs + occurs a ys
occurs-append a [] ys = omega arith
occurs-append a (x ∷ xs) ys = let ih = occurs-append a xs ys in omega arith

-- Each address is allocated as often as it is released, and once more while the allocator or the program
-- has it, which is at most once; so for its locks with the allocator's size; each block is counted; and
-- the allocator keeps no more blocks than it was made with, or eight.
pub record IsBalanced (size : ℕ) (s : Allocator) (live : List ℕ) (es : List Effect) : Type 0 where
  pub allocated :
      (a : ℕ) → tally (allocates a) es ≡ tally (frees a) es + (occurs a s.free_list + occurs a live)
  pub locked :
      (a : ℕ)
      → tally (locks a size) es ≡ tally (unlocks a size) es + (occurs a s.free_list + occurs a live)
  pub once : (a : ℕ) → occurs a s.free_list + occurs a live ≤ 1
  pub counted : s.num_allocated ≡ length s.free_list + length live
  pub floor : s.num_prealloc ≤ s.num_allocated
  pub kept : length s.free_list ≤ max 8 s.num_prealloc
  pub sized : s.alloc_size ≡ size

prealloc-tally :
    (a size : ℕ) (ds : List ℕ)
    → (tally (allocates a) (prealloc_list size ds) ≡ occurs a ds)
      × ((tally (frees a) (prealloc_list size ds) ≡ 0)
          × ((tally (locks a size) (prealloc_list size ds) ≡ occurs a ds)
              × (tally (unlocks a size) (prealloc_list size ds) ≡ 0)))
prealloc-tally a size [] = (refl, (refl, (refl, refl)))
prealloc-tally a size (d ∷ ds) =
    let ih = prealloc-tally a size ds in
    (ground arith, (ground arith, (ground arith, ground arith)))

-- The allocator's account moves with the effects of an operation.
pub moved :
    (w u : Effect → ℕ) (es new : List Effect) (f l f' l' : ℕ)
    → tally w es ≡ tally u es + (f + l)
    → tally w new + (f + l) ≡ tally u new + (f' + l')
    → tally w (es ++ new) ≡ tally u (es ++ new) + (f' + l')
moved w u es new f l f' l' h k =
    let a = tally-append w es new in let b = tally-append u es new in omega arith

start-IsBalanced :
    (size : ℕ) (ds : List ℕ)
    → ((a : ℕ) → occurs a ds ≤ 1)
    → IsBalanced size (allocator_new size ds).0 [] (allocator_new size ds).1
start-IsBalanced size ds h = record {
  allocated = λ a. let t = prealloc-tally a size ds in omega arith;
  locked = λ a. let t = prealloc-tally a size ds in omega arith;
  once = λ a. let k = h a in omega arith;
  counted = omega arith;
  floor = omega arith;
  kept = omega arith;
  sized = refl;
}

-- A fresh address, added to those that occur.
once-new :
    (f : ℕ → ℕ) (fresh a : ℕ) → f fresh ≡ 0 → f a ≤ 1 → f a + (if fresh == a then 1 else 0) ≤ 1
once-new f fresh a h k =
    if_rule (λ n. f a + n ≤ 1) (fresh == a) 1 0
      (λ e. let z = subst (λ b. f b ≡ 0) ((==_iff fresh a).0 e) h in omega arith) (λ _. omega arith)

weigh : (n size d a : ℕ) → n ≡ size → locks a size (lock d n) ≡ (if d == a then 1 else 0)
weigh n size d a e = ground arith

unweigh : (n size d a : ℕ) → n ≡ size → unlocks a size (unlock d n) ≡ (if d == a then 1 else 0)
unweigh n size d a e = ground arith

alloc-IsBalanced :
    (size fresh : ℕ) (s : Allocator) (ds : List ℕ) (live : List ℕ) (es : List Effect)
    → IsBalanced size s live es
    → s.free_list ≡ ds
    → occurs fresh s.free_list + occurs fresh live ≡ 0
    → IsBalanced size
        (take_block fresh s ds).alloc
        ((take_block fresh s ds).data_at ∷ live)
        (es ++ (take_block fresh s ds).effects)
alloc-IsBalanced size fresh s [] live es i e none = record {
  allocated = λ a.
      moved (allocates a) (frees a) es (allocate_aligned fresh ∷ lock fresh s.alloc_size ∷ [])
        (occurs a s.free_list) (occurs a live) (occurs a s.free_list) (occurs a (fresh ∷ live))
        (i.allocated a) (omega arith);
  locked = λ a.
      moved (locks a size) (unlocks a size) es
        (allocate_aligned fresh ∷ lock fresh s.alloc_size ∷ []) (occurs a s.free_list)
        (occurs a live) (occurs a s.free_list) (occurs a (fresh ∷ live)) (i.locked a)
        (let w = weigh s.alloc_size size fresh a i.sized in omega arith);
  once = λ a.
      let o = once-new (λ b. occurs b s.free_list + occurs b live) fresh a none (i.once a) in
      omega arith;
  counted = let o = i.counted in omega arith;
  floor = let o = i.floor in omega arith;
  kept = i.kept;
  sized = i.sized;
}
alloc-IsBalanced size fresh s (d ∷ ds) live es i e none = record {
  allocated = λ a.
      moved (allocates a) (frees a) es [] (occurs a s.free_list) (occurs a live) (occurs a ds)
        (occurs a (d ∷ live)) (i.allocated a) (let q = ap (occurs a) e in omega arith);
  locked = λ a.
      moved (locks a size) (unlocks a size) es [] (occurs a s.free_list) (occurs a live)
        (occurs a ds) (occurs a (d ∷ live)) (i.locked a) (let q = ap (occurs a) e in omega arith);
  once = λ a. let q = ap (occurs a) e in let o = i.once a in omega arith;
  counted = let q = ap length e in let o = i.counted in omega arith;
  floor = i.floor;
  kept = let q = ap length e in let o = i.kept in omega arith;
  sized = i.sized;
}

-- The occurrences of a block that moves from the program to the free list.
returned :
    (a d : ℕ) (fs xs ys : List ℕ)
    → 0 + (occurs a fs + occurs a (xs ++ d ∷ ys))
      ≡ 0 + (occurs a (fs ++ d ∷ []) + occurs a (xs ++ ys))
returned a d fs xs ys =
    let p = occurs-append a xs (d ∷ ys) in
    let q = occurs-append a xs ys in let r = occurs-append a fs (d ∷ []) in omega arith

-- The free list grows only below eight blocks, or when it does not have all that were preallocated.
kept-bound :
    (l l' allocated prealloc : ℕ)
    → (leb 8 l && ltb prealloc allocated) ≡ false
    → l ≤ max 8 prealloc
    → l < allocated
    → l' ≡ l + 1
    → l' ≤ max 8 prealloc
kept-bound l l' allocated prealloc t h c e = ground arith

-- A block that the program gives back is kept.
keep-IsBalanced :
    (size : ℕ) (f : Fields) (s : Allocator) (xs ys : List ℕ) (es : List Effect)
    → IsBalanced size s (xs ++ f.data_at ∷ ys) es
    → (leb 8 (length s.free_list) && ltb s.num_prealloc s.num_allocated) ≡ false
    → IsBalanced size (record s { free_list = s.free_list ++ f.data_at ∷ [] }) (xs ++ ys) (es ++ [])
keep-IsBalanced size f s xs ys es i t =
    let len = length-append xs (f.data_at ∷ ys) in
    let len' = length-append xs ys in
    let free_len = length-append s.free_list (f.data_at ∷ []) in
    let c = i.counted in
    let k = i.kept in
    record {
      allocated = λ a.
          moved (allocates a) (frees a) es [] (occurs a s.free_list)
            (occurs a (xs ++ f.data_at ∷ ys)) _ _ (i.allocated a)
            (returned a f.data_at s.free_list xs ys);
      locked = λ a.
          moved (locks a size) (unlocks a size) es [] (occurs a s.free_list)
            (occurs a (xs ++ f.data_at ∷ ys)) _ _ (i.locked a)
            (returned a f.data_at s.free_list xs ys);
      once = λ a. let o = i.once a in let r = returned a f.data_at s.free_list xs ys in omega arith;
      counted = omega arith;
      floor = i.floor;
      kept = kept-bound _ _ _ _ t k (omega arith) free_len;
      sized = i.sized;
    }

-- The occurrences of a block that the program had.
released :
    (a d : ℕ) (xs ys : List ℕ)
    → occurs a (xs ++ d ∷ ys) ≡ (if d == a then 1 else 0) + occurs a (xs ++ ys)
released a d xs ys =
    let p = occurs-append a xs (d ∷ ys) in let q = occurs-append a xs ys in omega arith

spare :
    (l allocated prealloc : ℕ)
    → (leb 8 l && ltb prealloc allocated) ≡ true
    → prealloc ≤ allocated - 1
spare l allocated prealloc h = ground arith

-- A block that the program gives back is released to the system.
release-IsBalanced :
    (size : ℕ) (f : Fields) (s : Allocator) (xs ys : List ℕ) (es : List Effect)
    → IsBalanced size s (xs ++ f.data_at ∷ ys) es
    → f.maxsize ≡ size
    → (leb 8 (length s.free_list) && ltb s.num_prealloc s.num_allocated) ≡ true
    → IsBalanced size
        (record s { num_allocated = s.num_allocated - 1 })
        (xs ++ ys)
        (es ++ unlock f.data_at f.maxsize ∷ free_aligned f.data_at ∷ [])
release-IsBalanced size f s xs ys es i m t =
    let new = unlock f.data_at f.maxsize ∷ free_aligned f.data_at ∷ [] in
    let len = length-append xs (f.data_at ∷ ys) in
    let len' = length-append xs ys in
    let c = i.counted in
    record {
      allocated = λ a.
          moved (allocates a) (frees a) es new (occurs a s.free_list)
            (occurs a (xs ++ f.data_at ∷ ys)) _ _ (i.allocated a)
            (let r = released a f.data_at xs ys in omega arith);
      locked = λ a.
          moved (locks a size) (unlocks a size) es new (occurs a s.free_list)
            (occurs a (xs ++ f.data_at ∷ ys)) _ _ (i.locked a)
            (let w = unweigh f.maxsize size f.data_at a m in
              let r = released a f.data_at xs ys in omega arith);
      once = λ a. let o = i.once a in let r = released a f.data_at xs ys in omega arith;
      counted = omega arith;
      floor = spare _ _ _ t;
      kept = i.kept;
      sized = i.sized;
    }

free-IsBalanced :
    (size : ℕ) (f : Fields) (s : Allocator) (xs ys : List ℕ) (es : List Effect)
    → IsBalanced size s (xs ++ f.data_at ∷ ys) es
    → f.maxsize ≡ size
    → IsBalanced size
        (allocator_free s (block f)).0
        (xs ++ ys)
        (es ++ (allocator_free s (block f)).1)
unfolding allocator_free
free-IsBalanced size f s xs ys es i m =
    if_rule (λ (r : Allocator × List Effect). IsBalanced size r.0 (xs ++ ys) (es ++ r.1))
      (leb 8 (length s.free_list) && ltb s.num_prealloc s.num_allocated) _ _
      (release-IsBalanced size f s xs ys es i m) (keep-IsBalanced size f s xs ys es i)

-- In any history of a program that frees only blocks that it has, with a system that never hands out an
-- address in use, the accounts of the allocator balance: each address is allocated, and locked with the
-- allocator's size, as often as it is released and unlocked, and once more while the allocator or the
-- program has it, which is at most once; each block is counted; and the allocator keeps no more blocks
-- than it was made with, or eight.
pub Reach-IsBalanced :
    (size : ℕ) (s : Allocator) (live : List ℕ) (es : List Effect)
    → Reach size s live es
    → IsBalanced size s live es
unfolding new_block
Reach-IsBalanced size s live es (start ds h) = start-IsBalanced size ds h
Reach-IsBalanced size _ _ _ (alloc fresh s live es r none) =
    alloc-IsBalanced size fresh s s.free_list live es (Reach-IsBalanced size s live es r) refl none
Reach-IsBalanced size _ _ _ (free f s xs ys es r m) =
    free-IsBalanced size f s xs ys es (Reach-IsBalanced size s (xs ++ f.data_at ∷ ys) es r) m
