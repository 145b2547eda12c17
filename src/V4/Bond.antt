-- ===== src/V4/Bond.antt =====
-- The bonds and the faults of crawler/net/discovery/v4/handler.go, with makePingRequest of
-- pingpong.go. Times are in nanoseconds.
use node_util.Base.{
  ℕ, ◌+◌, ◌%◌, Bool, true, false, ◌||◌, not, List, [], ◌∷◌, Option, none, some, ltb, ◌==◌,
  if◌then◌else◌,
}
use node_util.Node.{NodeId, Ip}
use node_util.V4.{Database, Handler, Packet}

abbrev pub bond_expiration : ℕ
bond_expiration = 86_400_000_000_000

abbrev pub max_findnode_failures : ℕ
max_findnode_failures = 5

abbrev pub max_global_failures : ℕ
max_global_failures = 5

abbrev pub lookup : NodeId → List (NodeId × ℕ) → Option ℕ
lookup id [] = none
lookup id ((k, v) ∷ rest) = if k == id then some v else lookup id rest

module _ (data_base : Database) where
  unfoldable pub check_bond : Handler data_base → ℕ → NodeId → Ip → Bool
  check_bond h now id ip = ltb now (data_base.last_pong h.store id ip + bond_expiration)

  -- `time.Since(h.store.LastPingReceived(id, ip)) < bondExpiration`
  unfoldable pub has_recent_ping : Handler data_base → ℕ → NodeId → Ip → Bool
  has_recent_ping h now id ip = ltb now (data_base.last_ping h.store id ip + bond_expiration)

  unfoldable pub is_faulty : Handler data_base → NodeId → Bool
  is_faulty h id = elim (lookup id h.failure_map) [
    | none ↦ false
    | some faults ↦ ltb max_global_failures faults
  ]

  -- The counter is a uint16.
  unfoldable pub mark_fault : Handler data_base → NodeId → Handler data_base
  mark_fault h id =
      let faults : ℕ = elim (lookup id h.failure_map) [ none ↦ 0 | some n ↦ n ] in
      record h { failure_map = (id, (faults + 1) % 65536) ∷ h.failure_map }

  unfoldable pub clear_fault : Handler data_base → NodeId → Handler data_base
  clear_fault h id = record h { failure_map = (id, 0) ∷ h.failure_map }

  unfoldable pub send_packet : Handler data_base → NodeId → Packet → Handler data_base
  send_packet h id p = record h { sent = (id, p) ∷ h.sent }

  -- Sends a ping and waits: `answer` is the sequence number of the pong that carries its token, or
  -- none when the request fails. Only such a pong runs the callback.
  unfoldable pub make_ping_request :
      Handler data_base
      → NodeId
      → Packet
      → (Handler data_base → Handler data_base)
      → Option ℕ
      → Handler data_base × Option ℕ
  unfolding send_packet
  make_ping_request h id packet callback none = (send_packet h id packet, none)
  make_ping_request h id packet callback (some seq) = (callback (send_packet h id packet), some seq)

  -- `mid` and `between` are the clock and the database once the ping has been answered, `later` and
  -- `after` those after the two seconds that it may sleep.
  unfoldable pub try_bond :
      Handler data_base
      → ℕ
      → NodeId
      → Ip
      → Packet
      → Option ℕ
      → ℕ
      → data_base.Db
      → ℕ
      → data_base.Db
      → Handler data_base × Bool
  unfolding check_bond has_recent_ping make_ping_request
  try_bond h now id ip packet answer mid between later after =
      let needs =
        not (check_bond h now id ip)
        || ltb max_findnode_failures (data_base.find_fails h.store id ip) in
      let (pinged, reply) = make_ping_request h id packet (λ s. s) answer in
      let tried = if needs then record pinged { store = between } else h in
      let clock = if needs then mid else now in
      let slept = record tried { store = after } in
      let waited : Handler data_base × Bool =
        if has_recent_ping tried clock id ip
        then (tried, true)
        else (slept, has_recent_ping slept later id ip) in
      if needs then elim reply [ none ↦ (pinged, false) | some seq ↦ waited ] else waited
