-- ===== src/Table/Limits/Bumped.antt =====
-- bumpInBucket and addVerifiedNode of crawler/net/discovery/table/table.go keep the accounting.
use node_util.Base.{
  ℕ, suc, ◌≤◌, ◌≡◌, ◌≢◌, true, false, inl, inr, Bool-cases, Option-cases, List, [], ◌∷◌, ◌++◌, some,
  arith, take, drop, All, All-append, All-take, All-drop,
}
use node_util.Base.Int.{ℤ}
use node_util.Node.{Node, Ip}
use node_util.NetUtil.{NetUtil, NetLaws}
use node_util.Table.State.{Slot}
use node_util.Table.Lists.{find_entry}
use node_util.Table.Buckets.{add_ip, remove_ip, move_to_front, bump_in_bucket, verify_in_bucket}
use node_util.Table.Frame.{
  entries-add_ip, replacements-add_ip, entries-remove_ip, replacements-remove_ip, find_entry-All,
}
use node_util.Table.Addresses.{
  add_ip-Same, remove_ip-Same, add_ip-Counts, Refuses, refused_before, remove_ip-Counts,
}
use node_util.Table.Limits.{
  tally, tally-moved, IsBounded, add_ip-IsBounded, remove_ip-IsBounded, Holds, with_ip, load_of,
  Holds-fits, Holds-full, Holds-remove_ip, IsCounted, as_own, fits_named,
}
use node_util.Table.Limits.Kept.{verify_new-IsCounted}

module _ (net : NetUtil) (laws : NetLaws net) (elsewhere : Ip → ℕ) (s : Slot net) (n e : Node)
    (i : ℕ) (found : find_entry s.entries n.id ≡ some (i, e))
    (ok : IsCounted net laws elsewhere s) where
  abbrev others : List Node
  others = take i s.entries ++ drop (suc i) s.entries

  abbrev rest_load : ℕ → Ip → ℕ
  rest_load = load_of net laws others s.replacements

  others_named : All (λ m. m.ip ≢ []) others
  others_named =
      All-append (λ m. m.ip ≢ []) (take i s.entries) (drop (suc i) s.entries)
        (All-take (λ m. m.ip ≢ []) i s.entries ok.named)
        (All-drop (λ m. m.ip ≢ []) (suc i) s.entries ok.named)

  e_named : e.ip ≢ []
  e_named = find_entry-All (λ m. m.ip ≢ []) s.entries n.id {i = i} {e = e} found ok.named

  whole : Holds net laws elsewhere s (with_ip net laws rest_load e.ip)
  whole y =
      let here = ok.counted y in
      let moved = λ (sub : ℕ). tally-moved net sub y s.entries n.id i e found in
      (
        omega (arith, here.0, moved (net.subnet s.ips)),
        omega (arith, here.1, moved (net.subnet s.table_ips)),
      )

  -- The address is the same one.
  same-IsCounted :
      net.ip_equal n.ip e.ip ≡ true → IsCounted net laws elsewhere (move_to_front net s i n)
  unfolding move_to_front tally
  same-IsCounted same = as_own net laws elsewhere s (n ∷ others) s.replacements (record {
    bounded = ok.bounded;
    counted = λ y.
        let here = whole y in
        let lan = laws.equal_lan n.ip e.ip same in
        let range = λ (sub : ℕ). laws.equal_net sub n.ip e.ip y same in
        (
          ground (arith, here.0, lan, range (net.subnet s.ips)),
          ground (arith, here.1, lan, range (net.subnet s.table_ips)),
        );
    named = (λ z. e_named (laws.equal_empty n.ip e.ip same z), others_named);
    room = ok.room;
  })

  abbrev without : Slot net
  without = remove_ip net s e.ip

  without-IsBounded : IsBounded net without
  without-IsBounded = remove_ip-IsBounded net laws s e.ip ok.bounded

  without-Holds : Holds net laws elsewhere without rest_load
  without-Holds = Holds-remove_ip net laws elsewhere s e.ip rest_load whole

  without_room : 1 ≤ net.limit without.table_ips
  without_room = rw (remove_ip-Same net laws s e.ip).table_limit ok.room

  moved-IsCounted :
      (add_ip net without n.ip).1 ≡ true
      → IsCounted net laws elsewhere (move_to_front net (add_ip net without n.ip).0 i n)
  unfolding move_to_front tally remove_ip
  moved-IsCounted fits =
      rw
        (
          entries-add_ip net without n.ip,
          replacements-add_ip net without n.ip,
          entries-remove_ip net s e.ip,
          replacements-remove_ip net s e.ip,
        )
        (as_own net laws elsewhere (add_ip net without n.ip).0 (n ∷ others) s.replacements (record {
          bounded = add_ip-IsBounded net laws without n.ip without-IsBounded;
          counted = λ y.
              let here =
                Holds-fits net laws elsewhere without n.ip rest_load fits without-Holds y in
              (omega (arith, here.0), omega (arith, here.1));
          named = (fits_named net laws without n.ip fits, others_named);
          room = rw (add_ip-Same net laws without n.ip).table_limit without_room;
        }))

  abbrev refusing : Slot net
  refusing = (add_ip net without n.ip).0

  -- The old address finds its place again.
  back_fits : (add_ip net without n.ip).1 ≡ false → (add_ip net refusing e.ip).1 ≡ true
  unfolding Refuses
  back_fits refused = elim (Bool-cases (add_ip net refusing e.ip).1) [
    | inl fits ↦ fits
    | inr fails ↦ elim (refused_before net laws refusing e.ip fails) [
      | inl empty ↦ absurd (e_named empty)
      | inr (lan, full) ↦
          let kept = add_ip-Counts net laws without n.ip in
          let kept_bucket = kept.bucket e.ip in
          let kept_table = kept.table e.ip in
          let less = remove_ip-Counts net laws s e.ip e.ip in
          let sizes = add_ip-Same net laws without n.ip in
          let first_sizes = remove_ip-Same net laws s e.ip in
          let in_bucket = laws.same_refl (net.subnet s.ips) e.ip in
          let in_table = laws.same_refl (net.subnet s.table_ips) e.ip in
          let own = (whole e.ip).0 in
          let under = ok.bounded.bucket e.ip in
          let under_table = ok.bounded.table e.ip in
          let room = ok.room in
          absurd (
            ground (
              arith, lan, full, kept_bucket, kept_table, less, sizes.table_limit,
              sizes.bucket_limit, first_sizes.table_limit, first_sizes.bucket_limit, in_bucket,
              in_table, own, under, under_table, room, refused,
            ))
    ]
  ]

  back-IsCounted :
      (add_ip net without n.ip).1 ≡ false
      → IsCounted net laws elsewhere (add_ip net refusing e.ip).0
  back-IsCounted refused = record {
    bounded =
        add_ip-IsBounded net laws refusing e.ip
          (add_ip-IsBounded net laws without n.ip without-IsBounded);
    counted =
        rw
          (
            entries-add_ip net refusing e.ip,
            replacements-add_ip net refusing e.ip,
            entries-add_ip net without n.ip,
            replacements-add_ip net without n.ip,
            entries-remove_ip net s e.ip,
            replacements-remove_ip net s e.ip,
          )
          (λ y.
            let here =
              Holds-fits net laws elsewhere refusing e.ip rest_load (back_fits refused)
                (Holds-full net laws elsewhere without n.ip rest_load refused without-Holds) y in
            let moved = λ (sub : ℕ). tally-moved net sub y s.entries n.id i e found in
            (
              omega (arith, here.0, moved (net.subnet (add_ip net refusing e.ip).0.ips)),
              omega (arith, here.1, moved (net.subnet (add_ip net refusing e.ip).0.table_ips)),
            ));
    named =
        rw
          (
            entries-add_ip net refusing e.ip,
            entries-add_ip net without n.ip,
            entries-remove_ip net s e.ip,
          )
          ok.named;
    room =
        rw
          (
            (add_ip-Same net laws refusing e.ip).table_limit,
            (add_ip-Same net laws without n.ip).table_limit,
          )
          without_room;
  }

module _ (net : NetUtil) (laws : NetLaws net) (elsewhere : Ip → ℕ) where
  pub bump_in_bucket-IsCounted :
      (s : Slot net) (n : Node)
      → IsCounted net laws elsewhere s
      → IsCounted net laws elsewhere (bump_in_bucket net s n).0
  unfolding bump_in_bucket
  bump_in_bucket-IsCounted s n ok = elim (Option-cases (find_entry s.entries n.id)) [
    | inl absent ↦ rw (absent, bump_in_bucket) ok
    | inr ((i, e), found) ↦ elim (Bool-cases (net.ip_equal n.ip e.ip)) [
      | inl same ↦
          rw (found, bump_in_bucket, same) (same-IsCounted net laws elsewhere s n e i found ok same)
      | inr other ↦ elim (Bool-cases (add_ip net (remove_ip net s e.ip) n.ip).1) [
        | inl fits ↦
            rw (found, bump_in_bucket, other, fits)
              (moved-IsCounted net laws elsewhere s n e i found ok fits)
        | inr refused ↦
            rw (found, bump_in_bucket, other, refused)
              (back-IsCounted net laws elsewhere s n e i found ok refused)
      ]
    ]
  ]

  pub verify_in_bucket-IsCounted :
      (s : Slot net) (n : Node) (ts : ℤ)
      → IsCounted net laws elsewhere s
      → IsCounted net laws elsewhere (verify_in_bucket net s n ts).0
  unfolding verify_in_bucket
  verify_in_bucket-IsCounted s n ts ok =
      let kept = bump_in_bucket-IsCounted s n ok in
      elim (Bool-cases (bump_in_bucket net s n).1) [
        | inl bumped ↦ rw bumped kept
        | inr new ↦
            rw new (verify_new-IsCounted net laws elsewhere (bump_in_bucket net s n).0 n ts kept)
      ]
