-- ===== src/Samples.antt =====
-- Values of what the models take as arguments, for the examples: address sets that count by the first
-- three bytes, and IDs whose distance is the difference of the numbers.
use node_util.Base.{
  ℕ, ◌+◌, ◌-◌, ◌*◌, ◌≡◌, refl, Bool, true, false, ◌&&◌, [], ◌∷◌, arith, ltb, leb, ◌==◌,
  if◌then◌else◌,
}
use Prim.Native.Nat.{compare}
use node_util.Node.{NodeId, Ip, Node}
use node_util.NetUtil.{NetUtil, NetLaws, Distances, DistanceLaws, one_if}

abbrev pub key : Ip → ℕ
key (a ∷ b ∷ c ∷ rest) = (a * 256 + b) * 256 + c
key _ = 0

pub record Counter : Type 0 where
  pub subnet : ℕ
  pub limit : ℕ
  pub counts : ℕ → ℕ

abbrev pub same_bytes : Ip → Ip → Bool
same_bytes [] [] = true
same_bytes [] (y ∷ ys) = false
same_bytes (x ∷ xs) [] = false
same_bytes (x ∷ xs) (y ∷ ys) = (x == y) && same_bytes xs ys

abbrev pub starts_with_10 : Ip → Bool
starts_with_10 [] = false
starts_with_10 (x ∷ xs) = x == 10

abbrev pub sample_net : NetUtil
sample_net = record {
  DistinctNetSet = Counter;
  empty = λ s l. record { subnet = s; limit = l; counts = λ k. 0 };
  subnet = λ d. d.subnet;
  limit = λ d. d.limit;
  members = λ d x. d.counts (key x);
  add = λ d x.
      if ltb (d.counts (key x)) d.limit
      then (record d { counts = λ k. d.counts k + one_if (key x == k) }, true)
      else (d, false);
  remove = λ d x. record d { counts = λ k. d.counts k - one_if (key x == k) };
  same_net = λ s a x. key a == key x;
  is_lan = starts_with_10;
  ip_equal = same_bytes;
}

same_bytes-eq : (a b : Ip) → same_bytes a b ≡ true → a ≡ b
same_bytes-eq [] [] e = refl
same_bytes-eq [] (y ∷ ys) e = cc
same_bytes-eq (x ∷ xs) [] e = cc
same_bytes-eq (x ∷ xs) (y ∷ ys) e = ground (arith, same_bytes-eq xs ys)

pub sample_net_laws : NetLaws sample_net
sample_net_laws = record {
  members-empty = λ s l x. refl;
  members_same = λ d a x e. ground arith;
  add_accepts = λ d a. ground arith;
  add_refused = λ d a e. ground arith;
  members-add = λ d a x e. ground arith;
  members-remove = λ d a x. refl;
  subnet-empty = λ s l. refl;
  subnet-add = λ d a. ground arith;
  subnet-remove = λ d a. refl;
  limit-empty = λ s l. refl;
  limit-add = λ d a. ground arith;
  limit-remove = λ d a. refl;
  equal_net = λ s a b x e. rw (same_bytes-eq a b e) refl;
  same_refl = λ s a. ground arith;
  equal_empty = λ a b e z. ground (arith, same_bytes-eq a b e);
  equal_lan = λ a b e. rw (same_bytes-eq a b e) refl;
}

abbrev pub gap : ℕ → ℕ → ℕ
gap a b = (a - b) + (b - a)

-- Distances above 256 count as 256.
abbrev pub sample_dist : Distances
sample_dist = record {
  dist = λ a b. gap a b;
  log_dist = λ a b. if leb (gap a b) 256 then gap a b else 256;
  dist_cmp = λ t a b. compare (gap t a) (gap t b);
}

pub sample_dist_laws : DistanceLaws sample_dist
sample_dist_laws = record { dist_cmp_lem = λ t a b. refl; log_dist-le = λ a b. ground arith }

abbrev pub node_at : NodeId → ℕ → ℕ → Node
node_at id host checks = record {
  enode = record { id = id; ip = 80 ∷ 1 ∷ 2 ∷ host ∷ []; udp = 30303; seq = 1 };
  added_at = 0;
  liveness_checks = checks;
}
