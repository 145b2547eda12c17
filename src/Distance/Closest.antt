-- ===== src/Distance/Closest.antt =====
-- Push keeps the closest nodes: it is insertion into a sorted list, cut at the size.
use node_util.Base.{
  ℕ, zero, suc, ◌≤◌, ◌<◌, ◌≡◌, refl, ap, true, inl, inr, Bool-cases, List, [], ◌∷◌, ◌++◌, some,
  arith, ltb, length, get_elem?, take, drop, take_of_length-le, init-append, init-eq-take,
  All-get_elem?, get_elem?-of_lt, sym, ltb→lt,
}
use node_util.Node.{NodeId, Node}
use node_util.NetUtil.{Distances, DistanceLaws}
use node_util.Distance.{NodesByDistance, is_farther, slide, place, push}
use node_util.Distance.Ideal.{insert, IsSorted}
use node_util.Distance.Search.{Splits, search-Splits}

module _ (d : Distances) (t : NodeId) where
  IsSorted-get_elem? :
      (xs : List Node) (k l : ℕ) (x y : Node)
      → IsSorted d t xs
      → k ≤ l
      → get_elem? xs k ≡ some x
      → get_elem? xs l ≡ some y
      → d.dist t x.id ≤ d.dist t y.id
  IsSorted-get_elem? [] k l x y s h e f = cc
  IsSorted-get_elem? (z ∷ zs) zero zero x y s h e f = ground arith
  IsSorted-get_elem? (z ∷ zs) zero (suc l) x y s h e f =
      let found : d.dist t z.id ≤ d.dist t y.id = All-get_elem? _ zs l y s.0 f in ground arith
  IsSorted-get_elem? (z ∷ zs) (suc k) zero x y s h e f = absurd (omega arith)
  IsSorted-get_elem? (z ∷ zs) (suc k) (suc l) x y s h e f =
      IsSorted-get_elem? zs k l x y s.1 (omega arith) e f

insert-slide_grown :
    (n : Node) (es : List Node) (r : ℕ)
    → r ≤ length es
    → slide (es ++ n ∷ []) r n ≡ take r es ++ (n ∷ drop r es)
unfolding slide
insert-slide_grown n es zero h = ap (◌∷◌ n) (init-append es n)
insert-slide_grown n [] (suc r) h = absurd (omega arith)
insert-slide_grown n (x ∷ es) (suc r) h = ap (◌∷◌ x) (insert-slide_grown n es r (omega arith))

insert-slide_full :
    (n : Node) (es : List Node) (r : ℕ)
    → r < length es
    → slide es r n ≡ take (length es) (take r es ++ (n ∷ drop r es))
unfolding slide
insert-slide_full n [] r h = absurd (omega arith)
insert-slide_full n (x ∷ es) zero h = ap (◌∷◌ n) (init-eq-take x es)
insert-slide_full n (x ∷ es) (suc r) h = ap (◌∷◌ x) (insert-slide_full n es r (omega arith))

length-split :
    (n : Node) (es : List Node) (r : ℕ) → length (take r es ++ (n ∷ drop r es)) ≡ suc (length es)
length-split n es zero = refl
length-split n [] (suc r) = refl
length-split n (x ∷ es) (suc r) = ap suc (length-split n es r)

split_end :
    (n : Node) (es : List Node) → take (length es) es ++ (n ∷ drop (length es) es) ≡ es ++ n ∷ []
split_end n [] = refl
split_end n (x ∷ es) = ap (◌∷◌ x) (split_end n es)

take-length-append : (es ys : List Node) → take (length es) (es ++ ys) ≡ es
take-length-append [] ys = refl
take-length-append (x ∷ es) ys = ap (◌∷◌ x) (take-length-append es ys)

place-take :
    (n : Node) (es : List Node) (r max : ℕ)
    → r ≤ length es
    → length es ≤ max
    → place es r n max ≡ take max (take r es ++ (n ∷ drop r es))
unfolding place
place-take n es r max bound fits = elim (Bool-cases (ltb (length es) max)) [
  | inl room ↦
      rw
        (
          room,
          place,
          take_of_length-le max (take r es ++ (n ∷ drop r es))
              (ground (arith, length-split n es r)),
        )
        (elim (Bool-cases (ltb r (length es))) [
          | inl inside ↦ rw inside (insert-slide_grown n es r bound)
          | inr past ↦ let e : r ≡ length es = ground arith in rw past (rw e (sym (split_end n es)))
        ])
  | inr full ↦
      let m : max ≡ length es = ground arith in
      rw (full, place)
        (elim (Bool-cases (ltb r (length es))) [
          | inl inside ↦ rw inside (rw m (insert-slide_full n es r (ltb→lt _ _ inside)))
          | inr past ↦
              let e : r ≡ length es = ground arith in
              rw past (rw (m, e, split_end n es, take-length-append es (n ∷ [])))
        ])
]

module _ (d : Distances) (laws : DistanceLaws d) (t : NodeId) where
  is_farther_mono :
      (n : Node) (es : List Node)
      → IsSorted d t es
      → (k l : ℕ) → k ≤ l
      → l < length es
      → is_farther d t es n.id k ≡ true
      → is_farther d t es n.id l ≡ true
  is_farther_mono n es s k l h fits e =
      let (x, at_k) = get_elem?-of_lt es k (omega arith) in
      let (y, at_l) = get_elem?-of_lt es l fits in
      ground (
        arith,
        IsSorted-get_elem? d t es k l x y s h at_k at_l,
        laws.dist_cmp_lem t x.id n.id,
        laws.dist_cmp_lem t y.id n.id,
        at_k,
        at_l,
      )

  insert-Splits :
      (n : Node) (es : List Node) (r : ℕ)
      → Splits (is_farther d t es n.id) (length es) r
      → insert d t n es ≡ take r es ++ (n ∷ drop r es)
  unfolding insert
  insert-Splits n [] zero s = refl
  insert-Splits n [] (suc r) s = refl
  insert-Splits n (x ∷ es) zero s = ground (arith, s.above 0, laws.dist_cmp_lem t x.id n.id)
  insert-Splits n (x ∷ es) (suc r) s = ground (
    arith,
    s.below 0,
    laws.dist_cmp_lem t x.id n.id,
    insert-Splits n es r (record {
      below = λ k p. s.below (suc k) (omega arith);
      above = λ k p q. s.above (suc k) (omega arith) (omega arith);
      bound = ground (arith, s.bound);
    }),
  )

  place-insert :
      (n : Node) (es : List Node) (r max : ℕ)
      → Splits (is_farther d t es n.id) (length es) r
      → length es ≤ max
      → place es r n max ≡ take max (insert d t n es)
  unfolding place
  place-insert n es r max s fits = rw (insert-Splits n es r s) (place-take n es r max s.bound fits)

module _ (d : Distances) (laws : DistanceLaws d) where
  -- On a sorted list within the limit, Push inserts in order and cuts what exceeds the limit.
  pub push-insert :
      (h : NodesByDistance) (n : Node) (max : ℕ)
      → IsSorted d h.target h.entries
      → length h.entries ≤ max
      → push d h n max ≡ record h { entries = take max (insert d h.target n h.entries) }
  unfolding push
  push-insert h n max s fits =
      ap (λ (es : List Node). record h { entries = es })
        (place-insert d laws h.target n h.entries _ max
          (search-Splits _ _ (is_farther_mono d laws h.target n h.entries s)) fits)
