-- ===== src/Table/Addresses.antt =====
-- What addIP and removeIP of crawler/net/discovery/table/table.go do to the two address sets, in
-- terms of how many tracked addresses share a range.
use node_util.Base.{ℕ, ◌+◌, ◌-◌, ◌≤◌, ◌≡◌, refl, false, inl, [], ◌∷◌, arith, if◌then◌else◌, ◌⊎◌}
use node_util.Node.{Ip}
use node_util.NetUtil.{NetUtil, NetLaws, one_if}
use node_util.Table.State.{Slot}
use node_util.Table.Buckets.{add_ip, remove_ip}

-- What an address adds to the range of `y`: an address of a local network is not tracked.
abbrev pub tracked : (net : NetUtil) → ℕ → Ip → Ip → ℕ
tracked net subnet x y = if net.is_lan x then 0 else one_if (net.same_net subnet x y)

-- Both sets of a slot have the sizes and limits of another's, and count one more address.
pub record Counts (net : NetUtil) (s s' : Slot net) (more : ℕ → Ip → ℕ) : Type 0 where
  pub table :
      (y : Ip)
      → net.members s'.table_ips y ≡ net.members s.table_ips y + more (net.subnet s.table_ips) y
  pub bucket : (y : Ip) → net.members s'.ips y ≡ net.members s.ips y + more (net.subnet s.ips) y

pub record Same (net : NetUtil) (s s' : Slot net) : Type 0 where
  pub table_subnet : net.subnet s'.table_ips ≡ net.subnet s.table_ips
  pub bucket_subnet : net.subnet s'.ips ≡ net.subnet s.ips
  pub table_limit : net.limit s'.table_ips ≡ net.limit s.table_ips
  pub bucket_limit : net.limit s'.ips ≡ net.limit s.ips

module _ (net : NetUtil) (laws : NetLaws net) (s : Slot net) where
  pub add_ip-Same : (x : Ip) → Same net s (add_ip net s x).0
  unfolding add_ip
  add_ip-Same [] = record {
    table_subnet = refl;
    bucket_subnet = refl;
    table_limit = refl;
    bucket_limit = refl;
  }
  add_ip-Same (x ∷ xs) = ground (
    arith,
    laws.subnet-add s.table_ips (x ∷ xs),
    laws.subnet-add s.ips (x ∷ xs),
    laws.subnet-remove (net.add s.table_ips (x ∷ xs)).0 (x ∷ xs),
    laws.limit-add s.table_ips (x ∷ xs),
    laws.limit-add s.ips (x ∷ xs),
    laws.limit-remove (net.add s.table_ips (x ∷ xs)).0 (x ∷ xs),
  )

  pub remove_ip-Same : (x : Ip) → Same net s (remove_ip net s x)
  unfolding remove_ip
  remove_ip-Same x = ground (
    arith,
    laws.subnet-remove s.table_ips x,
    laws.subnet-remove s.ips x,
    laws.limit-remove s.table_ips x,
    laws.limit-remove s.ips x,
  )

  -- An accepted address is counted in both sets, a refused one in neither.
  pub add_ip-Counts :
      (x : Ip)
      → Counts net s
          (add_ip net s x).0
          (λ sub y. if (add_ip net s x).1 then tracked net sub x y else 0)
  unfolding add_ip
  add_ip-Counts [] = record { table = λ y. omega arith; bucket = λ y. omega arith }
  add_ip-Counts (x ∷ xs) = record {
    table = λ y. ground (
      arith,
      laws.members-add s.table_ips (x ∷ xs) y,
      laws.add_refused s.table_ips (x ∷ xs),
      laws.members-remove (net.add s.table_ips (x ∷ xs)).0 (x ∷ xs) y,
      laws.subnet-add s.table_ips (x ∷ xs),
    );
    bucket =
        λ y. ground (arith, laws.members-add s.ips (x ∷ xs) y, laws.add_refused s.ips (x ∷ xs));
  }

  pub remove_ip-Counts :
      (x y : Ip)
      → (net.members (remove_ip net s x).table_ips y
          ≡ net.members s.table_ips y - tracked net (net.subnet s.table_ips) x y)
        × (net.members (remove_ip net s x).ips y
            ≡ net.members s.ips y - tracked net (net.subnet s.ips) x y)
  unfolding remove_ip
  remove_ip-Counts x y =
      ground (arith, laws.members-remove s.table_ips x y, laws.members-remove s.ips x y)

-- The address is missing, or a set is full in its range.
unfoldable pub Refuses : (net : NetUtil) → Slot net → Ip → Type 0
Refuses net s x =
    (x ≡ [])
    ⊎ ((net.is_lan x ≡ false)
        × ((net.limit s.table_ips ≤ net.members s.table_ips x)
            ⊎ (net.limit s.ips ≤ net.members s.ips x)))

module _ (net : NetUtil) (laws : NetLaws net) (s : Slot net) where
  pub Refuses-add_ip : (x : Ip) → Refuses net s x → (add_ip net s x).1 ≡ false
  unfolding add_ip Refuses
  Refuses-add_ip [] r = refl
  Refuses-add_ip (x ∷ xs) r =
      ground (arith, laws.add_accepts s.table_ips (x ∷ xs), laws.add_accepts s.ips (x ∷ xs))

  pub refused_before : (x : Ip) → (add_ip net s x).1 ≡ false → Refuses net s x
  unfolding add_ip Refuses
  refused_before [] e = inl refl
  refused_before (x ∷ xs) e =
      ground (arith, laws.add_accepts s.table_ips (x ∷ xs), laws.add_accepts s.ips (x ∷ xs))

  pub Refuses-grow : (x y : Ip) → Refuses net s x → Refuses net (add_ip net s y).0 x
  unfolding Refuses
  Refuses-grow x y r =
      let c = add_ip-Counts net laws s y in
      let k = add_ip-Same net laws s y in
      ground (arith, c.table x, c.bucket x, k.table_limit, k.bucket_limit)

  pub add_ip-Refuses : (x : Ip) → (add_ip net s x).1 ≡ false → Refuses net (add_ip net s x).0 x
  add_ip-Refuses x e = Refuses-grow x x (refused_before x e)
