-- ===== src/V4/Guards.antt =====
-- What the checks of crawler/net/discovery/v4 keep out.
use node_util.Base.{
  ◌⊎◌, [], ◌∷◌, sym, ℕ, ◌+◌, ◌≤◌, ◌<◌, ◌≡◌, refl, false, not, inl, inr, Bool-cases, List, Option,
  none, some, arith, ltb, ◌==◌,
}
use node_util.Node.{NodeId, Ip, Enode, Node}
use node_util.V4.{Database, Handler, Packet, findnode, enr_request, V4Error}
use node_util.V4.Bond.{bond_expiration, check_bond}
use node_util.V4.FindNode.{Wire}
use node_util.V4.Requests.{
  Context, World, handle_packet, verify_find_node, make_enr_request, is_expired, Bonding,
}

module _ (data_base : Database) (wire : Wire) where
  -- A FINDNODE request from an address that has sent no pong within a day is refused with an error,
  -- and nothing is sent for it.
  pub handle_packet-unbonded :
      (h : Handler data_base) (c : Context) (w : World) (closest : List Node)
      (target expiration : ℕ)
      → data_base.last_pong h.store c.from_id c.ip + bond_expiration ≤ c.now
      → (e : V4Error) × (handle_packet data_base wire h c w closest (findnode target expiration)
          ≡ (h, some e))
  unfolding handle_packet verify_find_node check_bond
  handle_packet-unbonded h c w closest target expiration old =
      let unbonded : ltb c.now (data_base.last_pong h.store c.from_id c.ip + bond_expiration)
          ≡ false =
        ground arith in
      elim (Bool-cases (not h.config.response_find_node)) [
        | inl off ↦ rw off (_, refl)
        | inr on ↦ elim (Bool-cases (is_expired c.seconds expiration)) [
          | inl late ↦ rw (on, late) (_, refl)
          | inr fresh ↦ rw (on, fresh, unbonded) (_, refl)
        ]
      ]

  -- It has pinged within a day, and it has sent a pong within a day or answers a ping now.
  abbrev pub IsBonded : Handler data_base → NodeId → Ip → Bonding data_base → Type 0
  IsBonded h id ip b =
      ((b.now < data_base.last_ping h.store id ip + bond_expiration)
        ⊎ ((b.mid < data_base.last_ping b.between id ip + bond_expiration)
            ⊎ (b.later < data_base.last_ping b.after id ip + bond_expiration)))
      × ((b.now < data_base.last_pong h.store id ip + bond_expiration)
          ⊎ ((seq : ℕ) × (b.answer ≡ some seq)))

  -- How many requests for nodes or records a handler has sent.
  unfoldable pub requests : List (NodeId × Packet) → ℕ
  requests [] = 0
  requests ((to, findnode target expiration) ∷ sent) = requests sent + 1
  requests ((to, enr_request expiration) ∷ sent) = requests sent + 1
  requests ((to, packet) ∷ sent) = requests sent

  -- The node that an ENR request returns has the ID of the node that was asked, and its record is
  -- not older.
  pub make_enr_request-newer :
      (addr : Ip) (n m : Enode) (response : Option Enode)
      → make_enr_request data_base wire addr n response ≡ some m
      → (m.id ≡ n.id) × (n.seq ≤ m.seq)
  unfolding make_enr_request
  make_enr_request-newer addr n m none e = cc
  make_enr_request-newer addr n m (some resp) e = elim (Bool-cases (not (resp.id == n.id))) [
    | inl other ↦ absurd (ground arith)
    | inr same ↦ elim (Bool-cases (ltb resp.seq n.seq)) [
      | inl older ↦ let is : n ≡ m = ground arith in rw (sym is) (refl, omega arith)
      | inr newer ↦ let is : resp ≡ m = ground arith in rw (sym is) (ground arith, ground arith)
    ]
  ]
