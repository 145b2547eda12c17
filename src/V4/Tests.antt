-- ===== src/V4/Tests.antt =====
-- Examples for the handler: a database of one node, addresses that may all be relayed, and packets
-- of two nodes.
use node_util.Base.{ℕ, ◌+◌, ◌≡◌, refl, true, List, [], ◌∷◌, Option, none, some, arith, length, min}
use node_util.Node.{Node, Enode}
use node_util.Samples.{node_at}
use node_util.V4.{Database, Handler, ping, findnode, V4Error, default_config, RpcNode}
use node_util.V4.Bond.{check_bond, has_recent_ping, send_packet, make_ping_request, try_bond}
use node_util.V4.FindNode.{Wire}
use node_util.V4.Requests.{Context, World, handle_packet, make_enr_request, Bonding}
use node_util.V4.Faults.{verify_all, IsUnanswered, verify_all-sent}
use node_util.V4.Guards.{handle_packet-unbonded}

program : Unit {0}
unfolding check_bond has_recent_ping make_ping_request try_bond make_enr_request send_packet
    default_config
program = tt

-- A database holds the time of the last ping and of the last pong.
abbrev data_base : Database
data_base = record {
  Db = ℕ × ℕ;
  last_ping = λ db id ip. db.0;
  last_pong = λ db id ip. db.1;
  update_ping = λ db id ip now. (now, db.1);
  update_pong = λ db id ip now. (db.0, now);
  find_fails = λ db id ip. 0;
}

abbrev to_rpc : Node → RpcNode
to_rpc n = record { key = n.id; ip = n.ip; udp = n.udp; tcp = n.udp }

abbrev from_rpc : RpcNode → Option Enode
from_rpc rn = some (record { id = rn.key; ip = rn.ip; udp = rn.udp; seq = 0 })

abbrev wire : Wire
wire = record {
  max_neighbors = 2;
  check_relay_ip = λ a b. true;
  node_to_rpc = to_rpc;
  decode = from_rpc;
}

abbrev handler_at : ℕ → ℕ → Handler data_base
handler_at pinged ponged = record {
  config = default_config;
  store = (pinged, ponged);
  failure_map = [];
  sent = [];
  seen = [];
}

abbrev context : Context
context = record {
  now = 90_000_000_000_000;
  seconds = 90_000;
  from_id = 5;
  ip = 80 ∷ 1 ∷ 2 ∷ 3 ∷ [];
  port = 30303;
  hash = 77;
  key_ok = true;
}

abbrev world : World
world = record {
  send_ok = true;
  match_ok = true;
  answer = none;
  sends = [];
  own_ping = ping 0 100_000 1;
  own_record = (node_at 9 9 0).enode;
}

abbrev three : List Node
three = node_at 1 1 1 ∷ node_at 2 2 1 ∷ node_at 3 3 1 ∷ []

abbrev replies : List (List RpcNode)
replies = (to_rpc (node_at 1 1 1) ∷ []) ∷ (to_rpc (node_at 2 2 1) ∷ []) ∷ []

handle_packet-unbonded_example :
    (e : V4Error) × (handle_packet data_base wire
        (handler_at 0 0)
        context
        world
        three
        (findnode 4 100_000)
      ≡ (handler_at 0 0, some e))
handle_packet-unbonded_example =
    handle_packet-unbonded data_base wire (handler_at 0 0) context world three 4 100_000
      (omega arith)

abbrev asked : Enode
asked = record { id = 5; ip = 80 ∷ []; udp = 30303; seq = 3 }

abbrev newer : Enode
newer = record { id = 5; ip = 81 ∷ []; udp = 30303; seq = 4 }

newer_record : make_enr_request data_base wire (80 ∷ []) asked (some newer) ≡ some newer
unfolding program
newer_record = refl

abbrev bonding : Bonding data_base
bonding = record {
  now = 60;
  from_tcp = 0;
  ping_expiration = 1;
  enr_seq = 1;
  answer = none;
  mid = 70;
  between = (50, 50);
  later = 80;
  after = (50, 50);
}

silent_in_time : IsUnanswered data_base wire 5 (0, 0) default_config (context, (world, 100_000))
unfolding program
silent_in_time = record {
  from = refl;
  on = refl;
  in_time = refl;
  unbonded = omega arith;
  silent = refl;
}

abbrev asks : List (Context × (World × ℕ))
asks = (context, (world, 100_000)) ∷ (context, (world, 100_000)) ∷ []

verify_all-sent_example :
    length (verify_all data_base wire asks (handler_at 0 0)).sent ≡ 0 + min 2 5
verify_all-sent_example =
    verify_all-sent data_base wire 5 asks (handler_at 0 0) (omega arith) refl
      (silent_in_time, (silent_in_time, tt))
