-- ===== src/Base/Totals.antt =====
-- Sums of weights over lists, and reads after writes.
use Prim.Native.Nat.{ℕ, zero, suc, ◌+◌, ◌<◌}
use mathlib.Core.Path.{◌≡◌, refl, ap, subst}
use mathlib.Core.Logic.{◌≢◌}
use mathlib.Core.Bool.{true}
use mathlib.Core.List.{List, [], ◌∷◌, ◌++◌}
use mathlib.Core.Option.{some}
use native.Mathlib.Omega.{arith}
use node_util.Base.Tests.{◌==◌, if◌then◌else◌, ==_iff}
use node_util.Base.Lists.{length, get_elem?, set, take, All}

-- A sum of weights over a list, and what a write does to it.
module _ {ℓ} {A : Type ℓ} (weight : A → ℕ) where
  abbrev pub total : List A → ℕ
  total [] = 0
  total (x ∷ xs) = weight x + total xs

  pub total-append : (xs ys : List A) → total (xs ++ ys) ≡ total xs + total ys
  total-append [] ys = omega arith
  total-append (x ∷ xs) ys = omega (arith, total-append xs ys)

  pub total-set :
      (xs : List A) (i : ℕ) (x v : A)
      → get_elem? xs i ≡ some x
      → total (set xs i v) + weight x ≡ total xs + weight v
  total-set [] i x v e = cc
  total-set (y ∷ ys) zero x v e = ground arith
  total-set (y ∷ ys) (suc i) x v e = omega (arith, total-set ys i x v e)

module _ {ℓ} {A : Type ℓ} where
  pub total-ext : (f g : A → ℕ) (xs : List A) → All (λ x. f x ≡ g x) xs → total f xs ≡ total g xs
  total-ext f g [] same = refl
  total-ext f g (x ∷ xs) same = omega (arith, same.0, total-ext f g xs same.1)

  pub get_elem?-append :
      (xs ys : List A) (i : ℕ) → i < length xs → get_elem? (xs ++ ys) i ≡ get_elem? xs i
  get_elem?-append [] ys i h = absurd (omega arith)
  get_elem?-append (x ∷ xs) ys zero h = refl
  get_elem?-append (x ∷ xs) ys (suc i) h = get_elem?-append xs ys i (omega arith)

  pub get_elem?-append_length :
      (xs : List A) (y : A) → get_elem? (xs ++ y ∷ []) (length xs) ≡ some y
  get_elem?-append_length [] y = refl
  get_elem?-append_length (x ∷ xs) y = get_elem?-append_length xs y

  pub get_elem?-set_ne :
      (xs : List A) (i j : ℕ) (v : A) → (i ≢ j) → get_elem? (set xs i v) j ≡ get_elem? xs j
  get_elem?-set_ne [] i j v ne = refl
  get_elem?-set_ne (x ∷ xs) zero zero v ne = absurd (ne refl)
  get_elem?-set_ne (x ∷ xs) zero (suc j) v ne = refl
  get_elem?-set_ne (x ∷ xs) (suc i) zero v ne = refl
  get_elem?-set_ne (x ∷ xs) (suc i) (suc j) v ne = get_elem?-set_ne xs i j v λ e. ne (ap suc e)

  pub get_elem?-set_self :
      (xs : List A) (i : ℕ) (x v : A) → get_elem? xs i ≡ some x → get_elem? (set xs i v) i ≡ some v
  get_elem?-set_self [] i x v e = cc
  get_elem?-set_self (y ∷ ys) zero x v e = refl
  get_elem?-set_self (y ∷ ys) (suc i) x v e = get_elem?-set_self ys i x v e

  pub take-append_length : (xs ys : List A) → take (length xs) (xs ++ ys) ≡ xs
  take-append_length [] ys = refl
  take-append_length (x ∷ xs) ys = ap (◌∷◌ x) (take-append_length xs ys)

  -- A read after a write.
  pub get_elem?-set :
      (xs : List A) (i j : ℕ) (x v : A)
      → get_elem? xs i ≡ some x
      → get_elem? (set xs i v) j ≡ (if i == j then some v else get_elem? xs j)
  get_elem?-set [] i j x v e = cc
  get_elem?-set (y ∷ ys) zero zero x v e = refl
  get_elem?-set (y ∷ ys) zero (suc j) x v e = ground arith
  get_elem?-set (y ∷ ys) (suc i) zero x v e = ground arith
  get_elem?-set (y ∷ ys) (suc i) (suc j) x v e = ground (arith, get_elem?-set ys i j x v e)

  pub get_elem?-eq :
      (xs : List A) (i j : ℕ) (x : A)
      → get_elem? xs i ≡ some x
      → (i == j) ≡ true
      → get_elem? xs j ≡ some x
  get_elem?-eq xs i j x e same = subst (λ k. get_elem? xs k ≡ some x) ((==_iff i j).0 same) e

module _ {ℓ} {A : Type ℓ} where
  abbrev pub remove_nth : List A → ℕ → List A
  remove_nth [] k = []
  remove_nth (x ∷ xs) zero = xs
  remove_nth (x ∷ xs) (suc k) = x ∷ remove_nth xs k

  pub total-remove_nth :
      (weight : A → ℕ) (xs : List A) (k : ℕ) (x : A)
      → get_elem? xs k ≡ some x
      → total weight (remove_nth xs k) + weight x ≡ total weight xs
  total-remove_nth weight [] k x e = cc
  total-remove_nth weight (y ∷ ys) zero x e = ground arith
  total-remove_nth weight (y ∷ ys) (suc k) x e = omega (arith, total-remove_nth weight ys k x e)
