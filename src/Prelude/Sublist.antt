-- ===== src/Prelude/Sublist.antt =====
-- Lists that come from others by leaving elements out, in their order.
use Prim.Native.Nat.{ℕ, ◌+◌, ◌≤◌}
use mathlib.Core.Path.{sym, subst}
use mathlib.Core.List.{List, [], ◌∷◌, ◌++◌, append_assoc}
use native.Mathlib.Omega.{arith}

pub data Sublist {ℓ} {A : Type ℓ} : List A → List A → Type ℓ where
  stop : Sublist [] []
  skip : {xs ys : List A} (y : A) → Sublist xs ys → Sublist xs (y ∷ ys)
  keep : {xs ys : List A} (x : A) → Sublist xs ys → Sublist (x ∷ xs) (x ∷ ys)

module _ {ℓ} {A : Type ℓ} where
  pub Sublist-refl : (xs : List A) → Sublist xs xs
  Sublist-refl [] = stop
  Sublist-refl (x ∷ xs) = keep x (Sublist-refl xs)

  pub Sublist-nil : (ys : List A) → Sublist [] ys
  Sublist-nil [] = stop
  Sublist-nil (y ∷ ys) = skip y (Sublist-nil ys)

  pub Sublist-trans : {xs ys zs : List A} → Sublist xs ys → Sublist ys zs → Sublist xs zs
  Sublist-trans {xs = xs} h stop = h
  Sublist-trans {xs = xs} h (skip {xs = ys} {ys = zs} z k) =
      skip z (Sublist-trans {xs = xs} {ys = ys} {zs = zs} h k)
  Sublist-trans {xs = xs} (skip {ys = ys} y h) (keep {ys = zs} _ k) =
      skip y (Sublist-trans {xs = xs} {ys = ys} {zs = zs} h k)
  Sublist-trans {xs = _} (keep {xs = xs} {ys = ys} x h) (keep {ys = zs} _ k) =
      keep x (Sublist-trans {xs = xs} {ys = ys} {zs = zs} h k)

  pub Sublist-append :
      {xs ys us vs : List A} → Sublist xs ys → Sublist us vs → Sublist (xs ++ us) (ys ++ vs)
  Sublist-append stop k = k
  Sublist-append (skip y h) k = skip y (Sublist-append h k)
  Sublist-append (keep x h) k = keep x (Sublist-append h k)

  pub Sublist-left : (xs ys : List A) → Sublist xs (xs ++ ys)
  Sublist-left [] ys = Sublist-nil ys
  Sublist-left (x ∷ xs) ys = keep x (Sublist-left xs ys)

  -- One step of a history, and then the rest of it: what comes out of a store that keeps the order.
  pub Sublist-chain :
      (out q' q came outs rest : List A)
      → Sublist (out ++ q') (q ++ came)
      → Sublist outs (q' ++ rest)
      → Sublist (out ++ outs) (q ++ (came ++ rest))
  Sublist-chain out q' q came outs rest h k =
      subst (λ l. Sublist (out ++ outs) l) (append_assoc q came rest)
        (Sublist-trans
          (subst (λ l. Sublist (out ++ outs) l) (sym (append_assoc out q' rest))
            (Sublist-append (Sublist-refl out) k))
          (Sublist-append h (Sublist-refl rest)))

-- Numbers that grow strictly, from a bound on.
abbrev pub Ascending : ℕ → List ℕ → Type 0
Ascending low [] = Unit {0}
Ascending low (n ∷ ns) = (low ≤ n) × Ascending (n + 1) ns

Ascending-mono : (low high : ℕ) (ns : List ℕ) → low ≤ high → Ascending high ns → Ascending low ns
Ascending-mono low high [] le h = tt
Ascending-mono low high (n ∷ ns) le h = (omega arith, h.1)

pub Sublist-Ascending :
    (low : ℕ) {xs ys : List ℕ} → Sublist xs ys → Ascending low ys → Ascending low xs
Sublist-Ascending low stop h = tt
Sublist-Ascending low (skip {ys = ys} y k) h =
    Sublist-Ascending low k (Ascending-mono low (y + 1) ys (omega arith) h.1)
Sublist-Ascending low (keep x k) h = (h.0, Sublist-Ascending (x + 1) k h.1)
