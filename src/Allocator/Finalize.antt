-- ===== src/Allocator/Finalize.antt =====
-- The end of an allocator.
use ntv2_gst.Prelude.{ℕ, ◌+◌, List, [], ◌∷◌, ◌++◌, ◌≡◌, refl, sym, subst, arith}
use ntv2_gst.Allocator.{Allocator, Effect, finalize_list, allocator_finalize}
use ntv2_gst.Allocator.Reach.{occurs, allocates, frees, locks, unlocks, tally, Reach}
use ntv2_gst.Allocator.Balance.{tally-append, Reach-IsBalanced}

finalize-tally :
    (a size : ℕ) (ds : List ℕ)
    → (tally (allocates a) (finalize_list size ds) ≡ 0)
      × ((tally (frees a) (finalize_list size ds) ≡ occurs a ds)
          × ((tally (locks a size) (finalize_list size ds) ≡ 0)
              × (tally (unlocks a size) (finalize_list size ds) ≡ occurs a ds)))
finalize-tally a size [] = (refl, (refl, (refl, refl)))
finalize-tally a size (d ∷ ds) =
    let ih = finalize-tally a size ds in
    (ground arith, (ground arith, (ground arith, ground arith)))

abbrev IsEven : ℕ → ℕ → List Effect → Type 0
IsEven a size es =
    (tally (allocates a) es ≡ tally (frees a) es)
    × (tally (locks a size) es ≡ tally (unlocks a size) es)

even :
    (w u : Effect → ℕ) (es new : List Effect) (f : ℕ)
    → tally w es ≡ tally u es + (f + 0)
    → tally w new ≡ 0
    → tally u new ≡ f
    → tally w (es ++ new) ≡ tally u (es ++ new)
even w u es new f h j k =
    let a = tally-append w es new in let b = tally-append u es new in omega arith

-- When, in a history of a program that frees only blocks that it has, it has given every block back and
-- the allocator is finalized, each address was released as often as it was allocated, and unlocked as
-- often as it was locked, with the allocator's size.
pub finalize-tally_of :
    (size a : ℕ) (s : Allocator) (es : List Effect)
    → Reach size s [] es
    → (tally (allocates a) (es ++ (allocator_finalize s).1)
        ≡ tally (frees a) (es ++ (allocator_finalize s).1))
      × (tally (locks a size) (es ++ (allocator_finalize s).1)
          ≡ tally (unlocks a size) (es ++ (allocator_finalize s).1))
finalize-tally_of size a s es r =
    let i = Reach-IsBalanced size s [] es r in
    let t = finalize-tally a size s.free_list in
    let all = i.allocated a in
    let lck = i.locked a in
    subst (λ n. IsEven a size (es ++ finalize_list n s.free_list)) (sym i.sized)
      (
        even (allocates a) (frees a) es _ _ all t.0 t.1.0,
        even (locks a size) (unlocks a size) es _ _ lck t.1.1.0 t.1.1.1,
      )
