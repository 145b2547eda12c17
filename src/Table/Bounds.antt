-- ===== src/Table/Bounds.antt =====
-- The shape of a bucket of crawler/net/discovery/table/table.go: its two lists are bounded, no node
-- stands twice, and every node belongs there. Each method that works on a bucket keeps it.
use node_util.Base.{
  ℕ, ◌≤◌, ◌<◌, ◌≡◌, List, [], ◌∷◌, ◌++◌, some, arith, length, All, All-append, All-set_last,
  All-get_elem?, length-append, length-set_last, get_elem?, set_last,
}
use node_util.Base.Int.{ℤ}
use node_util.Node.{NodeId, Node, set_timestamp}
use node_util.Table.State.{bucket_size, max_replacements}
use node_util.Table.Lists.{push_node, delete_node}
use node_util.Table.Distinct.{
  Fresh, Distinct, Apart, delete_node-All, delete_node-Distinct, delete_node-Fresh,
  length-delete_node-le, push_node-All, push_node-Distinct, length-push_node, Distinct-append,
  Distinct-set_last, Apart-shrink, Apart-push_node, Apart-Fresh,
}

-- `P` says which IDs belong into the bucket.
pub record IsWellFormed (P : NodeId → Type 0) (entries replacements : List Node) : Type 0 where
  pub entries_fit : length entries ≤ bucket_size
  pub replacements_fit : length replacements ≤ max_replacements
  pub entries_distinct : Distinct entries
  pub replacements_distinct : Distinct replacements
  pub apart : Apart entries replacements
  pub entries_placed : All (λ n. P n.id) entries
  pub replacements_placed : All (λ n. P n.id) replacements

module _ (P : NodeId → Type 0) (es rs : List Node) (ok : IsWellFormed P es rs) (n : Node) where
  -- a node joins the replacements
  pub join_replacements :
      P n.id → Fresh n.id es → Fresh n.id rs → IsWellFormed P es (push_node rs n max_replacements).0
  unfolding push_node
  join_replacements p fe fr = record {
    entries_fit = ok.entries_fit;
    replacements_fit = length-push_node rs n max_replacements (omega arith) ok.replacements_fit;
    entries_distinct = ok.entries_distinct;
    replacements_distinct = push_node-Distinct rs n max_replacements fr ok.replacements_distinct;
    apart = Apart-push_node es rs n max_replacements fe ok.apart;
    entries_placed = ok.entries_placed;
    replacements_placed = push_node-All rs n max_replacements _ p ok.replacements_placed;
  }

  pub delete_entry : IsWellFormed P (delete_node es n) rs
  delete_entry = record {
    entries_fit = omega (arith, length-delete_node-le es n, ok.entries_fit);
    replacements_fit = ok.replacements_fit;
    entries_distinct = delete_node-Distinct es n ok.entries_distinct;
    replacements_distinct = ok.replacements_distinct;
    apart = delete_node-All _ es n ok.apart;
    entries_placed = delete_node-All _ es n ok.entries_placed;
    replacements_placed = ok.replacements_placed;
  }

  -- a node of the bucket moves to the front
  pub move_entry :
      P n.id
      → Fresh n.id rs
      → length (n ∷ delete_node es n) ≤ bucket_size
      → IsWellFormed P (n ∷ delete_node es n) rs
  move_entry p fr fits = record {
    entries_fit = fits;
    replacements_fit = ok.replacements_fit;
    entries_distinct = (delete_node-Fresh es n ok.entries_distinct, delete_entry.entries_distinct);
    replacements_distinct = ok.replacements_distinct;
    apart = (fr, delete_entry.apart);
    entries_placed = (p, delete_entry.entries_placed);
    replacements_placed = ok.replacements_placed;
  }

  -- a node joins the entries, and is no replacement any more
  pub join_end :
      (ts : ℤ)
      → P n.id
      → Fresh n.id es
      → length es < bucket_size
      → IsWellFormed P (es ++ set_timestamp n ts ∷ []) (delete_node rs n)
  unfolding set_timestamp
  join_end ts p fe room = record {
    entries_fit = omega (arith, length-append es (set_timestamp n ts ∷ []));
    replacements_fit = omega (arith, length-delete_node-le rs n, ok.replacements_fit);
    entries_distinct = Distinct-append es (set_timestamp n ts) fe ok.entries_distinct;
    replacements_distinct = delete_node-Distinct rs n ok.replacements_distinct;
    apart =
        All-append _ es _ (Apart-shrink es rs _ (λ id. delete_node-All _ rs n) ok.apart)
          (delete_node-Fresh rs n ok.replacements_distinct, tt);
    entries_placed = All-append _ es _ ok.entries_placed (p, tt);
    replacements_placed = delete_node-All _ rs n ok.replacements_placed;
  }

  pub join_front :
      (ts : ℤ)
      → P n.id
      → Fresh n.id es
      → IsWellFormed P (push_node es (set_timestamp n ts) bucket_size).0 (delete_node rs n)
  unfolding set_timestamp
  join_front ts p fe = record {
    entries_fit = length-push_node es (set_timestamp n ts) bucket_size (omega arith) ok.entries_fit;
    replacements_fit = omega (arith, length-delete_node-le rs n, ok.replacements_fit);
    entries_distinct =
        push_node-Distinct es (set_timestamp n ts) bucket_size fe ok.entries_distinct;
    replacements_distinct = delete_node-Distinct rs n ok.replacements_distinct;
    apart =
        push_node-All es (set_timestamp n ts) bucket_size _
          (delete_node-Fresh rs n ok.replacements_distinct)
          (Apart-shrink es rs _ (λ id. delete_node-All _ rs n) ok.apart);
    entries_placed = push_node-All es (set_timestamp n ts) bucket_size _ p ok.entries_placed;
    replacements_placed = delete_node-All _ rs n ok.replacements_placed;
  }

  -- a replacement takes the place of the last entry
  pub take_over :
      (k : ℕ) → get_elem? rs k ≡ some n → IsWellFormed P (set_last es n) (delete_node rs n)
  take_over k at = record {
    entries_fit = omega (arith, length-set_last es n, ok.entries_fit);
    replacements_fit = omega (arith, length-delete_node-le rs n, ok.replacements_fit);
    entries_distinct =
        Distinct-set_last es n (Apart-Fresh es rs k n ok.apart at) ok.entries_distinct;
    replacements_distinct = delete_node-Distinct rs n ok.replacements_distinct;
    apart =
        All-set_last _ es n (Apart-shrink es rs _ (λ id. delete_node-All _ rs n) ok.apart)
          (delete_node-Fresh rs n ok.replacements_distinct);
    entries_placed =
        All-set_last _ es n ok.entries_placed (All-get_elem? _ rs k n ok.replacements_placed at);
    replacements_placed = delete_node-All _ rs n ok.replacements_placed;
  }
