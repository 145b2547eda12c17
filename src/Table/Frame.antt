-- ===== src/Table/Frame.antt =====
-- The address sets change without the node lists, and moving to the front in node-list terms.
use node_util.Base.{
  ℕ, suc, ◌≡◌, refl, inl, inr, Bool-cases, Option-cases, List, [], ◌∷◌, ◌++◌, none, some, arith,
  ◌==◌, length, take, drop, subst, All,
}
use node_util.Node.{NodeId, Node, Ip}
use node_util.NetUtil.{NetUtil}
use node_util.Table.State.{Slot}
use node_util.Table.Lists.{find_entry, delete_node}
use node_util.Table.Distinct.{Fresh}
use node_util.Table.Buckets.{add_ip, remove_ip}

module _ (net : NetUtil) (s : Slot net) where
  pub entries-add_ip : (ip : Ip) → (add_ip net s ip).0.entries ≡ s.entries
  unfolding add_ip
  entries-add_ip [] = refl
  entries-add_ip (x ∷ xs) = ground arith

  pub replacements-add_ip : (ip : Ip) → (add_ip net s ip).0.replacements ≡ s.replacements
  unfolding add_ip
  replacements-add_ip [] = refl
  replacements-add_ip (x ∷ xs) = ground arith

  pub entries-remove_ip : (ip : Ip) → (remove_ip net s ip).entries ≡ s.entries
  unfolding remove_ip
  entries-remove_ip ip = ground arith

  pub replacements-remove_ip : (ip : Ip) → (remove_ip net s ip).replacements ≡ s.replacements
  unfolding remove_ip
  replacements-remove_ip ip = ground arith

pub ruleset lists_kept =
    (entries-add_ip, replacements-add_ip, entries-remove_ip, replacements-remove_ip)

-- Dropping the found entry is deleting by its ID.
pub find_entry-delete_node :
    (ns : List Node) (n : Node) {i : ℕ} {e : Node}
    → find_entry ns n.id ≡ some (i, e)
    → (take i ns ++ drop (suc i) ns ≡ delete_node ns n) × (e.id ≡ n.id)
unfolding find_entry delete_node
find_entry-delete_node [] n h = cc
find_entry-delete_node (x ∷ xs) n {i} {e} h = elim (Bool-cases (x.id == n.id)) [
  | inl hit ↦
      let at : i ≡ 0 = ground arith in let found : e ≡ x = ground arith in rw at (ground arith)
  | inr miss ↦ elim (Option-cases (find_entry xs n.id)) [
    | inl absent ↦ absurd (ground arith)
    | inr ((j, y), found) ↦
        let at : i ≡ suc j = ground arith in
        let same : e ≡ y = ground arith in
        let rest = find_entry-delete_node xs n {i = j} {e = y} found in rw at (ground arith)
  ]
]

pub find_entry-All {κ} :
    (P : Node → Type κ) (ns : List Node) (id : NodeId) {i : ℕ} {e : Node}
    → find_entry ns id ≡ some (i, e)
    → All P ns
    → P e
unfolding find_entry
find_entry-All P [] id h all = cc
find_entry-All P (x ∷ xs) id {i} {e} h all = elim (Bool-cases (x.id == id)) [
  | inl hit ↦ let found : x ≡ e = ground arith in subst P found all.0
  | inr miss ↦ elim (Option-cases (find_entry xs id)) [
    | inl absent ↦ absurd (ground arith)
    | inr ((j, y), found) ↦
        let same : y ≡ e = ground arith in
        subst P same (find_entry-All P xs id {i = j} {e = y} found all.1)
  ]
]

pub length-delete_found :
    (ns : List Node) (n : Node) {i : ℕ} {e : Node}
    → find_entry ns n.id ≡ some (i, e)
    → suc (length (delete_node ns n)) ≡ length ns
unfolding find_entry delete_node
length-delete_found [] n h = cc
length-delete_found (x ∷ xs) n {i} {e} h = elim (Bool-cases (x.id == n.id)) [
  | inl hit ↦ ground arith
  | inr miss ↦ elim (Option-cases (find_entry xs n.id)) [
    | inl absent ↦ absurd (ground arith)
    | inr ((j, y), found) ↦
        let rest = length-delete_found xs n {i = j} {e = y} found in ground arith
  ]
]

pub find_entry-Fresh : (ns : List Node) (id : NodeId) → find_entry ns id ≡ none → Fresh id ns
unfolding find_entry
find_entry-Fresh [] id h = tt
find_entry-Fresh (x ∷ xs) id h = elim (Bool-cases (x.id == id)) [
  | inl hit ↦ absurd (ground arith)
  | inr miss ↦ ((λ e. ground arith), find_entry-Fresh xs id (ground arith))
]
