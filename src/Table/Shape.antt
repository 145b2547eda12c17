-- ===== src/Table/Shape.antt =====
-- Every method of crawler/net/discovery/table/table.go that works on one bucket keeps its shape.
use node_util.Base.{
  Option, ℕ, ◌≡◌, refl, subst, inl, inr, Bool-cases, Option-cases, List, [], ◌∷◌, none, some, arith,
  leb, ◌==◌, length, get_elem?, get_last?,
}
use node_util.Base.Int.{ℤ}
use node_util.Node.{NodeId, Node, Ip}
use node_util.NetUtil.{NetUtil}
use node_util.Table.State.{Slot, bucket_size}
use node_util.Table.Lists.{contains, find_entry}
use node_util.Table.Buckets.{
  replace_last, add_ip, remove_ip, drop_removed, add_replacement, delete_in_bucket, replace_by,
  replace, move_to_front, bump_in_bucket, see_in_bucket,
}
use node_util.Table.Distinct.{Fresh, contains-Fresh}
use node_util.Table.Frame.{
  entries-add_ip, replacements-add_ip, entries-remove_ip, replacements-remove_ip,
  find_entry-delete_node, find_entry-All, length-delete_found,
}
use node_util.Table.Bounds.{
  IsWellFormed, join_replacements, delete_entry, move_entry, join_end, take_over,
}

module _ (net : NetUtil) (P : NodeId → Type 0) where
  abbrev pub IsShaped : Slot net → Type 0
  IsShaped s = IsWellFormed P s.entries s.replacements

  pub add_ip-IsShaped : (s : Slot net) (x : Ip) → IsShaped s → IsShaped (add_ip net s x).0
  add_ip-IsShaped s x ok = rw (entries-add_ip net s x, replacements-add_ip net s x) ok

  remove_ip-IsShaped : (s : Slot net) (x : Ip) → IsShaped s → IsShaped (remove_ip net s x)
  remove_ip-IsShaped s x ok = rw (entries-remove_ip net s x, replacements-remove_ip net s x) ok

  drop_removed-IsShaped :
      (s : Slot net) (r : Option Node) → IsShaped s → IsShaped (drop_removed net s r)
  unfolding drop_removed
  drop_removed-IsShaped s none ok = ok
  drop_removed-IsShaped s (some n) ok = remove_ip-IsShaped s n.ip ok

  pub add_replacement-IsShaped :
      (s : Slot net) (n : Node)
      → P n.id
      → Fresh n.id s.entries
      → IsShaped s
      → IsShaped (add_replacement net s n)
  unfolding add_replacement
  add_replacement-IsShaped s n p fe ok = elim (Bool-cases (contains s.replacements n.id)) [
    | inl there ↦ rw there ok
    | inr absent ↦ elim (Bool-cases (add_ip net s n.ip).1) [
      | inr full ↦ rw (absent, full) (add_ip-IsShaped s n.ip ok)
      | inl fits ↦
          rw (absent, fits)
            (drop_removed-IsShaped _ _ (
              rw (entries-add_ip net s n.ip, replacements-add_ip net s n.ip)
                (join_replacements P _ _ ok n p fe (contains-Fresh s.replacements n.id absent))))
    ]
  ]

  pub delete_in_bucket-IsShaped :
      (s : Slot net) (n : Node) → IsShaped s → IsShaped (delete_in_bucket net s n)
  unfolding delete_in_bucket
  delete_in_bucket-IsShaped s n ok = remove_ip-IsShaped _ n.ip (delete_entry P _ _ ok n)

  replace_by-IsShaped :
      (s : Slot net) (last r : Node) (k : ℕ)
      → get_elem? s.replacements k ≡ some r
      → IsShaped s
      → IsShaped (replace_by net s last r)
  unfolding replace_by
  replace_by-IsShaped s last r k at ok = remove_ip-IsShaped _ last.ip (take_over P _ _ ok r k at)

  replace_last-IsShaped :
      (s : Slot net) (last : Node) (rs : List Node) (k : ℕ)
      → s.replacements ≡ rs
      → IsShaped s
      → IsShaped (replace_last net s last rs k).0
  unfolding replace_last
  replace_last-IsShaped s last [] k same ok = delete_in_bucket-IsShaped s last ok
  replace_last-IsShaped s last (r ∷ rs) k same ok = elim (Option-cases (get_elem? (r ∷ rs) k)) [
    | inl out ↦ rw (out, replace_last) ok
    | inr (r', at) ↦ rw (at, replace_last) (replace_by-IsShaped s last r' k (rw same at) ok)
  ]

  pub replace-IsShaped :
      (s : Slot net) (last : Node) (k : ℕ) → IsShaped s → IsShaped (replace net s last k).0
  unfolding replace
  replace-IsShaped s last k ok = elim (Option-cases (get_last? s.entries)) [
    | inl absent ↦ rw (absent, replace) ok
    | inr (e, at) ↦ elim (Bool-cases (e.id == last.id)) [
      | inr moved ↦ rw (at, replace, moved) ok
      | inl there ↦ rw (at, replace, there) (replace_last-IsShaped s last s.replacements k refl ok)
    ]
  ]

  move_to_front-IsShaped :
      (s s' : Slot net) (n : Node) (i : ℕ) (e : Node)
      → P n.id
      → find_entry s.entries n.id ≡ some (i, e)
      → s'.entries ≡ s.entries
      → s'.replacements ≡ s.replacements
      → IsShaped s
      → IsShaped (move_to_front net s' i n)
  unfolding move_to_front
  move_to_front-IsShaped s s' n i e p found same_entries same_replacements ok =
      let (cut, is_it) = find_entry-delete_node s.entries n found in
      rw (same_entries, same_replacements, cut)
        (move_entry P _ _ ok n p
          (subst (λ id. Fresh id s.replacements) is_it
            (find_entry-All _ s.entries n.id found ok.apart))
          (omega (arith, length-delete_found s.entries n found, ok.entries_fit)))

  pub bump_in_bucket-IsShaped :
      (s : Slot net) (n : Node) → P n.id → IsShaped s → IsShaped (bump_in_bucket net s n).0
  unfolding bump_in_bucket
  bump_in_bucket-IsShaped s n p ok = elim (Option-cases (find_entry s.entries n.id)) [
    | inl absent ↦ rw (absent, bump_in_bucket) ok
    | inr ((i, e), found) ↦ elim (Bool-cases (net.ip_equal n.ip e.ip)) [
      | inl same ↦
          rw (found, bump_in_bucket, same) (move_to_front-IsShaped s s n i e p found refl refl ok)
      | inr other ↦ elim (Bool-cases (add_ip net (remove_ip net s e.ip) n.ip).1) [
        | inl fits ↦
            rw (found, bump_in_bucket, other, fits)
              (move_to_front-IsShaped s _ n i e p found (rw (entries-add_ip, entries-remove_ip))
                (rw (replacements-add_ip, replacements-remove_ip)) ok)
        | inr full ↦
            rw (found, bump_in_bucket, other, full)
              (add_ip-IsShaped _ e.ip (add_ip-IsShaped _ n.ip (remove_ip-IsShaped s e.ip ok)))
      ]
    ]
  ]

  pub see_in_bucket-IsShaped :
      (s : Slot net) (n : Node) (ts : ℤ)
      → P n.id
      → IsShaped s
      → IsShaped (see_in_bucket net s n ts).0
  unfolding see_in_bucket
  see_in_bucket-IsShaped s n ts p ok = elim (Bool-cases (contains s.entries n.id)) [
    | inl there ↦ rw there ok
    | inr absent ↦
        let fe = contains-Fresh s.entries n.id absent in
        elim (Bool-cases (leb bucket_size (length s.entries))) [
          | inl full ↦ rw (absent, full) (add_replacement-IsShaped s n p fe ok)
          | inr room ↦ elim (Bool-cases (add_ip net s n.ip).1) [
            | inl fits ↦
                rw (absent, room, fits)
                  (rw (entries-add_ip net s n.ip, replacements-add_ip net s n.ip)
                    (join_end P _ _ ok n ts p fe (ground arith)))
            | inr refused ↦ rw (absent, room, refused) (add_ip-IsShaped s n.ip ok)
          ]
        ]
  ]
