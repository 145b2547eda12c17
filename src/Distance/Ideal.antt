-- ===== src/Distance/Ideal.antt =====
-- What NodesByDistance is an efficient form of: all nodes, sorted by distance, cut at a size.
use mathlib.Core.List.{Perm, append-nil, perm_middle}
use mathlib.Core.List.Perm
use node_util.Base.{
  ℕ, zero, suc, ◌≤◌, ◌≡◌, refl, ap, List, [], ◌∷◌, ◌++◌, arith, ltb, if◌then◌else◌, length, take,
  drop, All, inl, inr, Bool-cases, take-append-drop, length-take, min, All-take, All-drop, ◌+◌,
}
use node_util.Node.{NodeId, Node}
use node_util.NetUtil.{Distances}

module _ (d : Distances) (t : NodeId) where
  -- Before the first node that is farther from the target.
  unfoldable pub insert : Node → List Node → List Node
  insert n [] = n ∷ []
  insert n (x ∷ xs) = if ltb (d.dist t n.id) (d.dist t x.id) then n ∷ x ∷ xs else x ∷ insert n xs

  abbrev pub IsSorted : List Node → Type 0
  IsSorted [] = Unit {0}
  IsSorted (x ∷ xs) = All (λ y. d.dist t x.id ≤ d.dist t y.id) xs × IsSorted xs

  -- All of a list, in the order of the distance.
  unfoldable pub sort_onto : List Node → List Node → List Node
  sort_onto acc [] = acc
  sort_onto acc (n ∷ ns) = sort_onto (insert n acc) ns

  abbrev pub IsFarther : List Node → Node → Type 0
  IsFarther near y = All (λ x. d.dist t x.id ≤ d.dist t y.id) near

  -- `result` are the `n` nodes closest to the target, or all if there are fewer.
  pub record IsClosest (n : ℕ) (nodes result : List Node) : Type 0 where
    pub sorted : IsSorted result
    pub rest : List Node
    pub split : Perm (result ++ rest) nodes
    pub farther : All (IsFarther result) rest
    pub size : length result ≡ min n (length nodes)

  insert-All {κ} :
      (P : Node → Type κ) (n : Node) (es : List Node) → P n → All P es → All P (insert n es)
  unfolding insert
  insert-All P n [] p h = (p, h)
  insert-All P n (x ∷ es) p h = elim (Bool-cases (ltb (d.dist t n.id) (d.dist t x.id))) [
    | inl c ↦ rw (c, insert) (p, h)
    | inr f ↦ rw (f, insert) (h.0, insert-All P n es p h.1)
  ]

  All-le_trans :
      (a b : ℕ) (es : List Node)
      → a ≤ b
      → All (λ y. b ≤ d.dist t y.id) es
      → All (λ y. a ≤ d.dist t y.id) es
  All-le_trans a b [] h all = tt
  All-le_trans a b (x ∷ es) h all = (omega arith, All-le_trans a b es h all.1)

  pub insert-IsSorted : (n : Node) (es : List Node) → IsSorted es → IsSorted (insert n es)
  unfolding insert
  insert-IsSorted n [] s = (tt, tt)
  insert-IsSorted n (x ∷ es) s = elim (Bool-cases (ltb (d.dist t n.id) (d.dist t x.id))) [
    | inl c ↦ rw (c, insert) ((ground arith, All-le_trans _ _ es (ground arith) s.0), s)
    | inr f ↦ rw (f, insert) (insert-All _ n es (ground arith) s.0, insert-IsSorted n es s.1)
  ]

  take-cons-take : (k : ℕ) (x : Node) (es : List Node) → take k (x ∷ take k es) ≡ take k (x ∷ es)
  take-cons-take zero x es = refl
  take-cons-take (suc zero) x es = refl
  take-cons-take (suc (suc k)) x [] = refl
  take-cons-take (suc (suc k)) x (y ∷ es) = ap (◌∷◌ x) (take-cons-take (suc k) y es)

  pub take-insert-take :
      (k : ℕ) (n : Node) (es : List Node) → take k (insert n (take k es)) ≡ take k (insert n es)
  unfolding insert
  take-insert-take zero n es = refl
  take-insert-take (suc k) n [] = refl
  take-insert-take (suc k) n (x ∷ es) = elim (Bool-cases (ltb (d.dist t n.id) (d.dist t x.id))) [
    | inl c ↦ rw c (ap (◌∷◌ n) (take-cons-take k x es))
    | inr f ↦ rw f (ap (◌∷◌ x) (take-insert-take k n es))
  ]

  pub insert-perm : (n : Node) (es : List Node) → Perm (insert n es) (n ∷ es)
  unfolding insert
  insert-perm n [] = Perm.refl _
  insert-perm n (x ∷ es) = elim (Bool-cases (ltb (d.dist t n.id) (d.dist t x.id))) [
    | inl c ↦ rw (c, insert) (Perm.refl _)
    | inr f ↦ rw (f, insert) (Perm.trans (Perm.cons x (insert-perm n es)) (Perm.swap n x es))
  ]

  pub sort_onto-IsSorted : (acc ns : List Node) → IsSorted acc → IsSorted (sort_onto acc ns)
  unfolding sort_onto
  sort_onto-IsSorted acc [] s = s
  sort_onto-IsSorted acc (n ∷ ns) s = sort_onto-IsSorted (insert n acc) ns (insert-IsSorted n acc s)

  pub sort_onto-perm : (acc ns : List Node) → Perm (sort_onto acc ns) (acc ++ ns)
  unfolding sort_onto
  sort_onto-perm acc [] = rw append-nil (Perm.refl acc)
  sort_onto-perm acc (n ∷ ns) =
      Perm.trans (sort_onto-perm (insert n acc) ns) (
        Perm.trans (Perm.append (insert-perm n acc) (Perm.refl ns))
          (Perm.symm (perm_middle acc ns)))

  pub take-IsSorted : (k : ℕ) (es : List Node) → IsSorted es → IsSorted (take k es)
  take-IsSorted zero es s = tt
  take-IsSorted (suc k) [] s = tt
  take-IsSorted (suc k) (x ∷ es) s = (All-take _ k es s.0, take-IsSorted k es s.1)

  IsFarther-nil : (ys : List Node) → All (IsFarther []) ys
  IsFarther-nil [] = tt
  IsFarther-nil (y ∷ ys) = (tt, IsFarther-nil ys)

  IsFarther-cons :
      (x : Node) (near ys : List Node)
      → All (λ y. d.dist t x.id ≤ d.dist t y.id) ys
      → All (IsFarther near) ys
      → All (IsFarther (x ∷ near)) ys
  IsFarther-cons x near [] h k = tt
  IsFarther-cons x near (y ∷ ys) h k = ((h.0, k.0), IsFarther-cons x near ys h.1 k.1)

  drop-IsFarther : (k : ℕ) (es : List Node) → IsSorted es → All (IsFarther (take k es)) (drop k es)
  drop-IsFarther zero es s = IsFarther-nil es
  drop-IsFarther (suc k) [] s = tt
  drop-IsFarther (suc k) (x ∷ es) s =
      IsFarther-cons x (take k es) (drop k es) (All-drop _ k es s.0) (drop-IsFarther k es s.1)

  length-insert : (n : Node) (es : List Node) → length (insert n es) ≡ suc (length es)
  unfolding insert
  length-insert n [] = refl
  length-insert n (x ∷ es) = ground (arith, length-insert n es)

  pub length-sort_onto : (acc ns : List Node) → length (sort_onto acc ns) ≡ length acc + length ns
  unfolding sort_onto
  length-sort_onto acc [] = omega arith
  length-sort_onto acc (n ∷ ns) =
      omega (arith, length-sort_onto (insert n acc) ns, length-insert n acc)

  -- The first `k` of all nodes in order are the `k` closest.
  pub take-sort-IsClosest : (k : ℕ) (ns : List Node) → IsClosest k ns (take k (sort_onto [] ns))
  take-sort-IsClosest k ns =
      let all = sort_onto [] ns in
      let s : IsSorted all = sort_onto-IsSorted [] ns tt in
      record {
        sorted = take-IsSorted k all s;
        rest = drop k all;
        split = rw take-append-drop (sort_onto-perm [] ns);
        farther = drop-IsFarther k all s;
        size = omega (arith, length-take k all, length-sort_onto [] ns);
      }
