-- ===== src/Table/Verified.antt =====
-- addVerifiedNode of crawler/net/discovery/table/table.go keeps the shape of a bucket. A node whose
-- new address does not fit stays where it was: no list takes it a second time.
use node_util.Base.{◌≡◌, false, inl, inr, Bool-cases, Option-cases, arith, leb, length, ◌⊎◌}
use node_util.Base.Int.{ℤ}
use node_util.Node.{NodeId, Node}
use node_util.NetUtil.{NetUtil, NetLaws}
use node_util.Table.State.{Slot, bucket_size}
use node_util.Table.Lists.{contains, find_entry}
use node_util.Table.Buckets.{
  verify_new, add_ip, remove_ip, add_replacement, bump_in_bucket, verify_in_bucket,
}
use node_util.Table.Distinct.{Fresh}
use node_util.Table.Frame.{entries-add_ip, replacements-add_ip, find_entry-Fresh}
use node_util.Table.Addresses.{Refuses, add_ip-Refuses, Refuses-grow, Refuses-add_ip}
use node_util.Table.Bounds.{join_front}
use node_util.Table.Shape.{
  IsShaped, add_ip-IsShaped, add_replacement-IsShaped, bump_in_bucket-IsShaped,
}

module _ (net : NetUtil) (laws : NetLaws net) where
  -- A node that was not bumped is unknown, or its address does not fit.
  pub bump_in_bucket-refused :
      (s : Slot net) (n : Node)
      → (bump_in_bucket net s n).1 ≡ false
      → Fresh n.id (bump_in_bucket net s n).0.entries ⊎ Refuses net (bump_in_bucket net s n).0 n.ip
  unfolding bump_in_bucket
  bump_in_bucket-refused s n e = elim (Option-cases (find_entry s.entries n.id)) [
    | inl absent ↦ rw (absent, bump_in_bucket) (inl (find_entry-Fresh s.entries n.id absent))
    | inr ((i, x), found) ↦ elim (Bool-cases (net.ip_equal n.ip x.ip)) [
      | inl same ↦ absurd (ground arith)
      | inr other ↦ elim (Bool-cases (add_ip net (remove_ip net s x.ip) n.ip).1) [
        | inl fits ↦ absurd (ground arith)
        | inr full ↦
            rw (found, bump_in_bucket, other, full)
              (inr (Refuses-grow net laws _ n.ip x.ip (add_ip-Refuses net laws _ n.ip full)))
      ]
    ]
  ]

  module _ (P : NodeId → Type 0) where
    refused-IsShaped :
        (s : Slot net) (n : Node)
        → Refuses net s n.ip
        → IsShaped net P s
        → IsShaped net P (add_replacement net s n)
    unfolding add_replacement
    refused-IsShaped s n r ok = elim (Bool-cases (contains s.replacements n.id)) [
      | inl there ↦ rw there ok
      | inr absent ↦ rw (absent, Refuses-add_ip net laws s n.ip r) (add_ip-IsShaped net P s n.ip ok)
    ]

    unbumped-IsShaped :
        (s : Slot net) (n : Node) (ts : ℤ)
        → P n.id
        → Fresh n.id s.entries ⊎ Refuses net s n.ip
        → IsShaped net P s
        → IsShaped net P (verify_new net s n ts).0
    unfolding verify_new
    unbumped-IsShaped s n ts p why ok = elim (Bool-cases (leb bucket_size (length s.entries))) [
      | inl full ↦ rw full (elim why [
        | inl fe ↦ add_replacement-IsShaped net P s n p fe ok
        | inr r ↦ refused-IsShaped s n r ok
      ])
      | inr room ↦ elim (Bool-cases (add_ip net s n.ip).1) [
        | inr refused ↦ rw (room, refused) (add_ip-IsShaped net P s n.ip ok)
        | inl fits ↦ elim why [
          | inl fe ↦
              rw (room, fits)
                (rw (entries-add_ip net s n.ip, replacements-add_ip net s n.ip)
                  (join_front P _ _ ok n ts p fe))
          | inr r ↦ absurd (cc (Refuses-add_ip net laws s n.ip r))
        ]
      ]
    ]

    pub verify_in_bucket-IsShaped :
        (s : Slot net) (n : Node) (ts : ℤ)
        → P n.id
        → IsShaped net P s
        → IsShaped net P (verify_in_bucket net s n ts).0
    unfolding verify_in_bucket
    verify_in_bucket-IsShaped s n ts p ok =
        let ok' = bump_in_bucket-IsShaped net P s n p ok in
        elim (Bool-cases (bump_in_bucket net s n).1) [
          | inl bumped ↦ rw bumped ok'
          | inr kept ↦ rw kept (unbumped-IsShaped _ n ts p (bump_in_bucket-refused s n kept) ok')
        ]
