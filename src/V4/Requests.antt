-- ===== src/V4/Requests.antt =====
-- The checks and the handling of packets in crawler/net/discovery/v4: handler.go, findNode.go, enr.go
-- and pingpong.go. The address of the sender is that of the context; `send_ok` says whether
-- SendRequest takes a packet, `match_ok` whether a pending request matches.
use node_util.Base.{
  ℕ, ◌+◌, Bool, false, not, List, [], ◌∷◌, Option, none, some, ltb, ◌==◌, if◌then◌else◌,
}
use node_util.Node.{NodeId, Ip, Enode, Node, wrap_node}
use node_util.V4.{
  Database, Handler, Packet, ping, pong, findnode, neighbors, enr_request, enr_response, V4Error,
  unknown_packet, wrong_packet, expired, unsolicited_reply, unknown_node, low_port, bond_failure,
  handler_disabled, failed,
}
use node_util.V4.Bond.{
  bond_expiration, check_bond, is_faulty, mark_fault, clear_fault, send_packet, make_ping_request,
  try_bond,
}
use node_util.V4.FindNode.{Wire, chunks, deliver, make_find_node_request}

-- `v4wire.Expired`: "checks whether the given UNIX time stamp is in the past".
abbrev pub is_expired : ℕ → ℕ → Bool
is_expired seconds ts = ltb ts seconds

-- What a packet comes with: the clock, in nanoseconds and in seconds, the sender's ID, address and
-- port, the hash of the packet, and whether the sender's key decodes.
pub record Context : Type 0 where
  pub now : ℕ
  pub seconds : ℕ
  pub from_id : NodeId
  pub ip : Ip
  pub port : ℕ
  pub hash : ℕ
  pub key_ok : Bool

-- What happens outside while a packet is handled: whether the sends succeed, whether a request
-- matches, and the pong to a ping that is sent.
pub record World : Type 0 where
  pub send_ok : Bool
  pub match_ok : Bool
  pub answer : Option ℕ
  pub sends : List Bool
  pub own_ping : Packet
  pub own_record : Enode

module _ (data_base : Database) (wire : Wire) where
  abbrev pub Outcome : Type 0
  Outcome = Handler data_base × Option V4Error

  unfoldable pub verify_ping : Handler data_base → Context → ℕ → Outcome
  verify_ping h c expiration =
      if is_expired c.seconds expiration
      then (h, some expired)
      else (if c.key_ok
          then (record h { store = data_base.update_ping h.store c.from_id c.ip c.now }, none)
          else (h, some failed))

  -- The pong, and then the sender in the table: at once after a recent pong, or else when it answers
  -- a ping.
  unfoldable pub handle_ping : Handler data_base → Context → World → ℕ → ℕ → Outcome
  unfolding send_packet make_ping_request wrap_node
  handle_ping h c w from_tcp expiration =
      let answered = send_packet data_base h c.from_id (pong c.hash expiration w.own_record.seq) in
      let n = wrap_node (record { id = c.from_id; ip = c.ip; udp = c.port; seq = 0 }) in
      let (pinged, reply) =
        make_ping_request data_base answered c.from_id w.own_ping
          (λ s. record s { seen = n ∷ s.seen }) w.answer in
      let asked : Outcome = elim reply [
        | none ↦ (pinged, some failed)
        | some seq ↦ (pinged, none)
      ] in
      if w.send_ok
      then (if ltb (data_base.last_pong h.store c.from_id c.ip + bond_expiration) c.now
          then asked
          else (record answered { seen = n ∷ answered.seen }, none))
      else (h, some failed)

  unfoldable pub verify_pong : Handler data_base → Context → ℕ → Outcome
  verify_pong h c expiration =
      if is_expired c.seconds expiration
      then (h, some expired)
      else (record h { store = data_base.update_pong h.store c.from_id c.ip c.now }, none)

  unfoldable pub verify_find_node : Handler data_base → Context → ℕ → Outcome
  unfolding check_bond
  verify_find_node h c expiration =
      if not h.config.response_find_node
      then (h, some handler_disabled)
      else (if is_expired c.seconds expiration
          then (h, some expired)
          else (if not (check_bond data_base h c.now c.from_id c.ip)
              then (h, some unknown_node)
              else (h, none)))

  abbrev pub send_all :
      Handler data_base → NodeId → ℕ → List (List (node_util.V4.RpcNode)) → Handler data_base
  send_all h id expiration [] = h
  send_all h id expiration (p ∷ ps) =
      send_all (record h { sent = (id, neighbors p expiration) ∷ h.sent }) id expiration ps

  -- `closest` is the table's answer to FindnodeByID.
  unfoldable pub handle_find_node : Handler data_base → Context → World → List Node → ℕ → Outcome
  unfolding chunks deliver
  handle_find_node h c w closest expiration =
      let (packets, err) = deliver wire (chunks wire c.ip closest [] false) w.sends in
      (send_all h c.from_id expiration packets, err)

  unfoldable pub verify_neighbors : Handler data_base → Context → ℕ → Outcome
  verify_neighbors h c expiration =
      if is_expired c.seconds expiration then (h, some expired) else (h, none)

  -- An ENR request of an unknown node: it is pinged unless it has failed too often.
  unfoldable pub verify_enr_request : Handler data_base → Context → World → ℕ → Outcome
  unfolding check_bond mark_fault is_faulty make_ping_request clear_fault
  verify_enr_request h c w expiration =
      let marked = mark_fault data_base h c.from_id in
      let pinged =
        make_ping_request data_base marked c.from_id w.own_ping
          (λ s. clear_fault data_base s c.from_id) w.answer in
      let tried = if not (is_faulty data_base marked c.from_id) then pinged.0 else marked in
      if not h.config.response_enr
      then (h, some handler_disabled)
      else (if is_expired c.seconds expiration
          then (h, some expired)
          else (if not (check_bond data_base h c.now c.from_id c.ip)
              then (tried, some unknown_node)
              else (h, none)))

  unfoldable pub handle_enr_request : Handler data_base → Context → World → Outcome
  unfolding send_packet
  handle_enr_request h c w =
      if w.send_ok
      then (send_packet data_base h c.from_id (enr_response c.hash w.own_record), none)
      else (h, some failed)

  abbrev pub match : Handler data_base → World → V4Error → Outcome
  match h w err = if w.match_ok then (h, none) else (h, some err)

  abbrev pub then_handle : Outcome → (Handler data_base → Outcome) → Outcome
  then_handle (h, some err) handle = (h, some err)
  then_handle (h, none) handle = handle h

  -- HandlePacket on a decoded packet: the check and the handler that selectReactor picks.
  unfoldable pub handle_packet : Handler data_base → Context → World → List Node → Packet → Outcome
  unfolding verify_ping handle_ping verify_pong verify_find_node handle_find_node verify_neighbors
      verify_enr_request handle_enr_request
  handle_packet h c w closest (ping from_tcp expiration enr_seq) =
      then_handle (verify_ping h c expiration) (λ s. handle_ping s c w from_tcp expiration)
  handle_packet h c w closest (pong reply_tok expiration enr_seq) =
      then_handle (verify_pong h c expiration) (λ s. match s w failed)
  handle_packet h c w closest (findnode target expiration) =
      then_handle (verify_find_node h c expiration) (λ s. handle_find_node s c w closest expiration)
  handle_packet h c w closest (neighbors nodes expiration) =
      then_handle (verify_neighbors h c expiration) (λ s. match s w unsolicited_reply)
  handle_packet h c w closest (enr_request expiration) =
      then_handle (verify_enr_request h c w expiration) (λ s. handle_enr_request s c w)
  handle_packet h c w closest (enr_response reply_tok e) = match h w unsolicited_reply

  -- makeEnrRequest once the request has ended: `response` is the record of the reply with its token,
  -- if it came in time and is valid.
  unfoldable pub make_enr_request : Ip → Enode → Option Enode → Option Enode
  make_enr_request addr n none = none
  make_enr_request addr n (some resp) =
      if not (resp.id == n.id)
      then none
      else (if ltb resp.seq n.seq
          then some n
          else (if wire.check_relay_ip addr resp.ip then some resp else none))

-- What a call of tryBond meets: the clock at its start, the ping that it may send with the answer, and
-- the clock and the database after the ping and after the two seconds that it may sleep.
pub record Bonding (data_base : Database) : Type 0 where
  pub now : ℕ
  pub from_tcp : ℕ
  pub ping_expiration : ℕ
  pub enr_seq : ℕ
  pub answer : Option ℕ
  pub mid : ℕ
  pub between : data_base.Db
  pub later : ℕ
  pub after : data_base.Db

module _ (data_base : Database) (wire : Wire) where
  unfoldable pub bond :
      Handler data_base → NodeId → Ip → Bonding data_base → Handler data_base × Bool
  unfolding try_bond
  bond h id ip b =
      try_bond data_base h b.now id ip (ping b.from_tcp b.ping_expiration b.enr_seq) b.answer b.mid
        b.between b.later b.after

  -- MakeFindNodeRequest, with the replies that come before the deadline.
  unfoldable pub find_node :
      Handler data_base
      → NodeId
      → Ip
      → Bonding data_base
      → (target expiration : ℕ) → List (List (node_util.V4.RpcNode))
      → Handler data_base × (List Enode × Option V4Error)
  unfolding bond make_find_node_request send_packet
  find_node h id ip b target expiration replies =
      let (tried, bonded) = bond h id ip b in
      if not bonded then (tried, ([], some bond_failure)) else (
        send_packet data_base tried id (findnode target expiration),
        make_find_node_request wire ip replies,
      )

  -- MakeEnrRequest, with the record of the reply.
  unfoldable pub request_enr :
      Handler data_base
      → Enode
      → Ip
      → Bonding data_base
      → (expiration : ℕ) → Option Enode
      → Handler data_base × (Option Enode × Option V4Error)
  unfolding bond make_enr_request send_packet
  request_enr h n ip b expiration response =
      let (tried, bonded) = bond h n.id ip b in
      let result = make_enr_request data_base wire ip n response in
      if not bonded then (tried, (none, some bond_failure)) else (
        send_packet data_base tried n.id (enr_request expiration),
        (result, elim result [ none ↦ some failed | some m ↦ none ]),
      )
