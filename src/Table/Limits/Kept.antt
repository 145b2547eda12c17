-- ===== src/Table/Limits/Kept.antt =====
-- The calls that add nodes to a bucket of crawler/net/discovery/table/table.go keep the accounting.
use node_util.Base.{
  ℕ, ◌≤◌, ◌<◌, ◌≡◌, ◌≢◌, true, inl, inr, Bool-cases, Option-cases, List, [], ◌∷◌, ◌++◌, arith, ltb,
  leb, length, init, get_last?, All, All-append,
}
use node_util.Base.Int.{ℤ}
use node_util.Node.{Node, Ip, set_timestamp}
use node_util.NetUtil.{NetUtil, NetLaws}
use node_util.Table.State.{Slot, bucket_size, max_replacements}
use node_util.Table.Lists.{delete_node, push_node, contains}
use node_util.Table.Buckets.{
  add_ip, remove_ip, drop_removed, add_replacement, with_entries, see_in_bucket, verify_new,
}
use node_util.Table.Frame.{
  entries-add_ip, replacements-add_ip, entries-remove_ip, replacements-remove_ip,
}
use node_util.Table.Addresses.{add_ip-Same, remove_ip-Same}
use node_util.Table.Limits.{
  tally, tally-append, tally-delete_node-le, tally-init, IsBounded, add_ip-IsBounded,
  remove_ip-IsBounded, Holds, with_ip, load_of, Holds-fits, Holds-remove_ip, IsCounted,
  add_ip-IsCounted, fits-IsCountedAs, as_own, fits_named,
}

push_room :
    (es : List Node) (n : Node) (max : ℕ) → length es < max → (push_node es n max).0 ≡ n ∷ es
unfolding push_node
push_room es n max h = ground arith

tally-init-le :
    (net : NetUtil) (sub : ℕ) (y : Ip) (ns : List Node)
    → tally net sub y (init ns) ≤ tally net sub y ns
unfolding tally
tally-init-le net sub y [] = omega arith
tally-init-le net sub y (x ∷ []) = omega arith
tally-init-le net sub y (x ∷ z ∷ ns) = omega (arith, tally-init-le net sub y (z ∷ ns))

module _ (net : NetUtil) (laws : NetLaws net) (elsewhere : Ip → ℕ) where
  -- The node that falls off the replacements gives its address back.
  remove-IsCounted :
      (s : Slot net) (es rs : List Node) (x : Ip)
      → IsBounded net s
      → Holds net laws elsewhere s (with_ip net laws (load_of net laws es rs) x)
      → All (λ n. n.ip ≢ []) es
      → 1 ≤ net.limit s.table_ips
      → IsCounted net laws elsewhere (remove_ip net (with_entries net s es rs) x)
  remove-IsCounted s es rs x bounded counted named room =
      let u = with_entries net s es rs in
      record {
        bounded = remove_ip-IsBounded net laws u x (record {
          bucket = bounded.bucket;
          table = bounded.table;
          subnet = bounded.subnet;
          limit = bounded.limit;
          table_size = bounded.table_size;
          table_limit = bounded.table_limit;
        });
        counted =
            rw (entries-remove_ip net u x, replacements-remove_ip net u x)
              (Holds-remove_ip net laws elsewhere u x (load_of net laws es rs) counted);
        named = rw (entries-remove_ip net u x) named;
        room = rw (remove_ip-Same net laws u x).table_limit room;
      }

  replacement_fits :
      (s : Slot net) (n : Node)
      → (add_ip net s n.ip).1 ≡ true
      → IsCounted net laws elsewhere s
      → let s' = (add_ip net s n.ip).0 in
        let pushed = push_node s'.replacements n max_replacements in
        IsCounted net laws elsewhere
          (drop_removed net (with_entries net s' s'.entries pushed.0) pushed.1)
  unfolding tally push_node drop_removed
  replacement_fits s n fits ok =
      let s' = (add_ip net s n.ip).0 in
      elim (Bool-cases (ltb (length s.replacements) max_replacements)) [
        | inl room ↦
            rw (entries-add_ip net s n.ip, replacements-add_ip net s n.ip, room)
              (as_own net laws elsewhere s' s.entries (n ∷ s.replacements) (
                fits-IsCountedAs net laws elsewhere s n s.entries (n ∷ s.replacements) fits ok
                  ok.named (λ sub y. omega arith)))
        | inr full ↦ elim (Option-cases (get_last? s.replacements)) [
          | inl empty ↦
              rw (entries-add_ip net s n.ip, replacements-add_ip net s n.ip, full, empty)
                (as_own net laws elsewhere s' s.entries (n ∷ init s.replacements) (
                  fits-IsCountedAs net laws elsewhere s n s.entries (n ∷ init s.replacements) fits
                    ok ok.named
                    (λ sub y.
                      let less = tally-init-le net sub y s.replacements in omega (arith, less))))
          | inr (r, last) ↦
              rw (entries-add_ip net s n.ip, replacements-add_ip net s n.ip, full, last)
                (remove-IsCounted s' s.entries (n ∷ init s.replacements) r.ip
                  (add_ip-IsBounded net laws s n.ip ok.bounded)
                  (λ y.
                    let here =
                      Holds-fits net laws elsewhere s n.ip
                        (load_of net laws s.entries s.replacements) fits ok.counted y in
                    let cut = λ (sub : ℕ). tally-init net sub y s.replacements r last in
                    (
                      omega (arith, here.0, cut (net.subnet (add_ip net s n.ip).0.ips)),
                      omega (arith, here.1, cut (net.subnet (add_ip net s n.ip).0.table_ips)),
                    ))
                  ok.named (rw (add_ip-Same net laws s n.ip).table_limit ok.room))
        ]
      ]

  add_replacement-IsCounted :
      (s : Slot net) (n : Node)
      → IsCounted net laws elsewhere s
      → IsCounted net laws elsewhere (add_replacement net s n)
  unfolding add_replacement
  add_replacement-IsCounted s n ok = elim (Bool-cases (contains s.replacements n.id)) [
    | inl there ↦ rw there ok
    | inr absent ↦ elim (Bool-cases (add_ip net s n.ip).1) [
      | inr full ↦ rw (absent, full) (add_ip-IsCounted net laws elsewhere s n.ip full ok)
      | inl fits ↦ rw (absent, fits) (replacement_fits s n fits ok)
    ]
  ]

  see_fits :
      (s : Slot net) (n : Node) (ts : ℤ)
      → (add_ip net s n.ip).1 ≡ true
      → IsCounted net laws elsewhere s
      → let s' = (add_ip net s n.ip).0 in
        IsCounted net laws elsewhere (
          with_entries net s'
            (s'.entries ++ set_timestamp n ts ∷ [])
            (delete_node s'.replacements n))
  unfolding tally set_timestamp
  see_fits s n ts fits ok =
      rw (entries-add_ip net s n.ip, replacements-add_ip net s n.ip)
        (as_own net laws elsewhere (add_ip net s n.ip).0 _ _ (
          fits-IsCountedAs net laws elsewhere s n (s.entries ++ set_timestamp n ts ∷ [])
            (delete_node s.replacements n) fits ok
            (All-append (λ m. m.ip ≢ []) s.entries (set_timestamp n ts ∷ []) ok.named
              (fits_named net laws s n.ip fits, tt))
            (λ sub y.
              let whole = tally-append net sub y s.entries (set_timestamp n ts ∷ []) in
              let fewer = tally-delete_node-le net sub y s.replacements n in
              omega (arith, whole, fewer))))

  new_fits :
      (s : Slot net) (n : Node) (ts : ℤ)
      → length s.entries < bucket_size
      → (add_ip net s n.ip).1 ≡ true
      → IsCounted net laws elsewhere s
      → let s' = (add_ip net s n.ip).0 in
        IsCounted net laws elsewhere (
          with_entries net s'
            (push_node s'.entries (set_timestamp n ts) bucket_size).0
            (delete_node s'.replacements n))
  unfolding tally set_timestamp
  new_fits s n ts room fits ok =
      let pushed : (push_node s.entries (set_timestamp n ts) bucket_size).0
          ≡ set_timestamp n ts ∷ s.entries =
        push_room s.entries (set_timestamp n ts) bucket_size room in
      rw (entries-add_ip net s n.ip, replacements-add_ip net s n.ip, pushed)
        (as_own net laws elsewhere (add_ip net s n.ip).0 _ _ (
          fits-IsCountedAs net laws elsewhere s n (set_timestamp n ts ∷ s.entries)
            (delete_node s.replacements n) fits ok (fits_named net laws s n.ip fits, ok.named)
            (λ sub y.
              let fewer = tally-delete_node-le net sub y s.replacements n in omega (arith, fewer))))

  pub see_in_bucket-IsCounted :
      (s : Slot net) (n : Node) (ts : ℤ)
      → IsCounted net laws elsewhere s
      → IsCounted net laws elsewhere (see_in_bucket net s n ts).0
  unfolding see_in_bucket
  see_in_bucket-IsCounted s n ts ok = elim (Bool-cases (contains s.entries n.id)) [
    | inl there ↦ rw there ok
    | inr absent ↦ elim (Bool-cases (leb bucket_size (length s.entries))) [
      | inl full ↦ rw (absent, full) (add_replacement-IsCounted s n ok)
      | inr room ↦ elim (Bool-cases (add_ip net s n.ip).1) [
        | inr refused ↦
            rw (absent, room, refused) (add_ip-IsCounted net laws elsewhere s n.ip refused ok)
        | inl fits ↦ rw (absent, room, fits) (see_fits s n ts fits ok)
      ]
    ]
  ]

  pub verify_new-IsCounted :
      (s : Slot net) (n : Node) (ts : ℤ)
      → IsCounted net laws elsewhere s
      → IsCounted net laws elsewhere (verify_new net s n ts).0
  unfolding verify_new
  verify_new-IsCounted s n ts ok = elim (Bool-cases (leb bucket_size (length s.entries))) [
    | inl full ↦ rw full (add_replacement-IsCounted s n ok)
    | inr room ↦ elim (Bool-cases (add_ip net s n.ip).1) [
      | inr refused ↦ rw (room, refused) (add_ip-IsCounted net laws elsewhere s n.ip refused ok)
      | inl fits ↦ rw (room, fits) (new_fits s n ts (ground arith) fits ok)
    ]
  ]
