-- ===== src/Table/Distinct.antt =====
-- Lists of nodes in which no ID stands twice, and what the list helpers of
-- crawler/net/discovery/table/table.go do to them.
use node_util.Base.{
  ℕ, ◌≤◌, ◌<◌, ◌≡◌, ◌≢◌, false, inl, inr, Bool-cases, List, [], ◌∷◌, ◌++◌, arith, ltb, ◌==◌, length,
  init, set_last, All, All-map, All-init, length-init, All-append, All-get_elem?, get_elem?, some,
  sym, All-set_last,
}
use node_util.Node.{NodeId, Node}
use node_util.Table.Lists.{contains, push_node, delete_node}

abbrev pub Fresh : NodeId → List Node → Type 0
Fresh id = All (λ n. n.id ≢ id)

abbrev pub Distinct : List Node → Type 0
Distinct [] = Unit {0}
Distinct (n ∷ ns) = Fresh n.id ns × Distinct ns

-- No ID stands in both lists.
abbrev pub Apart : List Node → List Node → Type 0
Apart es rs = All (λ e. Fresh e.id rs) es

pub contains-Fresh : (ns : List Node) (id : NodeId) → contains ns id ≡ false → Fresh id ns
unfolding contains
contains-Fresh [] id h = tt
contains-Fresh (n ∷ ns) id h = elim (Bool-cases (n.id == id)) [
  | inl same ↦ absurd (ground arith)
  | inr other ↦ ((λ e. ground arith), contains-Fresh ns id (ground arith))
]

pub delete_node-All {κ} :
    (P : Node → Type κ) (ns : List Node) (n : Node) → All P ns → All P (delete_node ns n)
unfolding delete_node
delete_node-All P [] n h = tt
delete_node-All P (x ∷ xs) n h = elim (Bool-cases (x.id == n.id)) [
  | inl same ↦ rw (same, delete_node) h.1
  | inr other ↦ rw (other, delete_node) (h.0, delete_node-All P xs n h.1)
]

pub delete_node-Distinct : (ns : List Node) (n : Node) → Distinct ns → Distinct (delete_node ns n)
unfolding delete_node
delete_node-Distinct [] n h = tt
delete_node-Distinct (x ∷ xs) n h = elim (Bool-cases (x.id == n.id)) [
  | inl same ↦ rw (same, delete_node) h.1
  | inr other ↦ rw (other, delete_node) (delete_node-All _ xs n h.0, delete_node-Distinct xs n h.1)
]

-- Of distinct nodes none with the ID is left.
pub delete_node-Fresh : (ns : List Node) (n : Node) → Distinct ns → Fresh n.id (delete_node ns n)
unfolding delete_node
delete_node-Fresh [] n h = tt
delete_node-Fresh (x ∷ xs) n h = elim (Bool-cases (x.id == n.id)) [
  | inl same ↦
      let e : x.id ≡ n.id = ground arith in
      rw (same, delete_node) (All-map (λ y ne eq. ne (ground arith)) xs h.0)
  | inr other ↦ rw (other, delete_node) ((λ e. ground arith), delete_node-Fresh xs n h.1)
]

pub length-delete_node-le : (ns : List Node) (n : Node) → length (delete_node ns n) ≤ length ns
unfolding delete_node
length-delete_node-le [] n = omega arith
length-delete_node-le (x ∷ xs) n = ground (arith, length-delete_node-le xs n)

pub Distinct-init : (ns : List Node) → Distinct ns → Distinct (init ns)
Distinct-init [] h = tt
Distinct-init (x ∷ []) h = tt
Distinct-init (x ∷ y ∷ xs) h = (All-init _ (y ∷ xs) h.0, Distinct-init (y ∷ xs) h.1)

module _ (list : List Node) (n : Node) (max : ℕ) where
  pub push_node-All {κ} : (P : Node → Type κ) → P n → All P list → All P (push_node list n max).0
  unfolding push_node
  push_node-All P p h = elim (Bool-cases (ltb (length list) max)) [
    | inl room ↦ rw room (p, h)
    | inr full ↦ rw full (p, All-init P list h)
  ]

  pub push_node-Distinct : Fresh n.id list → Distinct list → Distinct (push_node list n max).0
  unfolding push_node
  push_node-Distinct f h = elim (Bool-cases (ltb (length list) max)) [
    | inl room ↦ rw room (f, h)
    | inr full ↦ rw full (All-init _ list f, Distinct-init list h)
  ]

pub length-push_node :
    (list : List Node) (n : Node) (max : ℕ)
    → 0 < max
    → length list ≤ max
    → length (push_node list n max).0 ≤ max
unfolding push_node
length-push_node [] n max p h = ground arith
length-push_node (x ∷ xs) n max p h = ground (arith, length-init x xs)

pub Distinct-append :
    (ns : List Node) (n : Node) → Fresh n.id ns → Distinct ns → Distinct (ns ++ n ∷ [])
Distinct-append [] n f h = (tt, tt)
Distinct-append (x ∷ xs) n f h =
    (All-append _ xs (n ∷ []) h.0 ((λ e. f.0 (ground arith)), tt), Distinct-append xs n f.1 h.1)

pub Distinct-set_last :
    (ns : List Node) (v : Node) → Fresh v.id ns → Distinct ns → Distinct (set_last ns v)
Distinct-set_last [] v f h = tt
Distinct-set_last (x ∷ []) v f h = (tt, tt)
Distinct-set_last (x ∷ y ∷ xs) v f h =
    (All-set_last _ (y ∷ xs) v h.0 (λ e. f.0 (ground arith)), Distinct-set_last (y ∷ xs) v f.1 h.1)

-- A node that is fresh among the entries may join the replacements.
pub Apart-cons : (es rs : List Node) (n : Node) → Fresh n.id es → Apart es rs → Apart es (n ∷ rs)
Apart-cons [] rs n f h = tt
Apart-cons (x ∷ es) rs n f h = (((λ e. f.0 (ground arith)), h.0), Apart-cons es rs n f.1 h.1)

-- So long as the replacements only shrink, they stay apart.
pub Apart-shrink :
    (es rs rs' : List Node)
    → ((id : NodeId) → Fresh id rs → Fresh id rs')
    → Apart es rs
    → Apart es rs'
Apart-shrink es rs rs' f h = All-map (λ e. f e.id) es h

pub Apart-push_node :
    (es rs : List Node) (n : Node) (max : ℕ)
    → Fresh n.id es
    → Apart es rs
    → Apart es (push_node rs n max).0
unfolding push_node
Apart-push_node es rs n max f h = elim (Bool-cases (ltb (length rs) max)) [
  | inl room ↦ rw room (Apart-cons es rs n f h)
  | inr full ↦
      rw full (Apart-cons es (init rs) n f (Apart-shrink es rs (init rs) (λ id. All-init _ rs) h))
]

-- A replacement is fresh among the entries.
pub Apart-Fresh :
    (es rs : List Node) (k : ℕ) (r : Node) → Apart es rs → get_elem? rs k ≡ some r → Fresh r.id es
Apart-Fresh es rs k r h at = All-map (λ e f same. All-get_elem? _ rs k r f at (sym same)) es h
