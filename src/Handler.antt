-- ===== src/Handler.antt =====
-- crawler/net/discovery/handler.go: the handler that joins the awaiter, the table, the feed of node
-- events and the lookup. The encoding of packets, the sockets and the sub handler are arguments.
pub mod Execute
pub mod Lookup
mod Tests
use node_util.Base.{
  ℕ, ◌+◌, Bool, true, false, List, [], ◌∷◌, Option, none, some, ◌==◌, ltb, if◌then◌else◌, length,
}
use node_util.Node.{NodeId, Enode, Node}
use node_util.NetUtil.{NetUtil, Distances}
use node_util.Distance.{enodes}
use node_util.Table.State.{Table, HookType}
use node_util.Table.Ops.{Limits, new_table, find_node_by_id}
use node_util.Query.{new_lookup, Event}
use node_util.Query
use node_util.Awaiter.{Awaiter, Request, RespError, no_error, request_event, new_awaiter}
use node_util.Awaiter
use node_util.Feed.{Feed, new_feed, subscribe, send}

-- EventType is the number of a HookType.
pub record NodeEvent : Type 0 where
  pub node : Node
  pub kind : HookType

-- Config.Verify: no list becomes an empty one.
unfoldable pub verify : Option (List Enode) → List Enode
verify none = []
verify (some bootnodes) = bootnodes

module _ (net : NetUtil) where
  pub record PacketHandler : Type 0 where
    pub bootnodes : List Enode
    pub run_tab : Bool
    pub awaiter : Awaiter
    pub feed : Feed NodeEvent
    pub table : Table net

  -- NewHandler; `none` is its error, a bootnode that is not valid. The table has a hook.
  unfoldable pub new_handler :
      (Enode → Bool)
      → Limits
      → NodeId
      → Option (List Enode)
      → Bool
      → Bool
      → Limits × Option PacketHandler
  unfolding verify new_feed new_awaiter
  new_handler validate limits self_id bootnodes run_tab ignore_limits =
      let (left, made) =
        new_table net validate limits self_id (verify bootnodes) ignore_limits true in
      elim made [
        | none ↦ (left, none)
        | some t ↦ (
          left,
          some (record {
            bootnodes = verify bootnodes;
            run_tab = run_tab;
            awaiter = new_awaiter;
            feed = new_feed;
            table = t;
          }),
        )
      ]

  -- The hook that NewHandler gives to the table.
  unfoldable pub on_hook : PacketHandler → HookType → Node → PacketHandler
  on_hook h kind n = record h { feed = send h.feed (record { node = n; kind = kind }) }

  -- With the ID and the new channel of the subscription.
  unfoldable pub subscribe_node_events : PacketHandler → ℕ → ℕ → PacketHandler
  subscribe_node_events h id channel = record h { feed = subscribe h.feed id channel }

-- How far a call of execute has come once the packet is written: the error of the writer, the end of
-- a call that does not wait, or the request that it waits for.
pub data Started (E : Type 0) : Type 0 where
  refused : E → Started E
  finished : Started E
  awaited : ℕ → Started E

unfoldable pub enlist : Awaiter → Request → Bool → Awaiter
enlist a req wait = if wait then Awaiter.turn a (request_event req) else a

-- The request is added before it is written; `written` is the error of the writer.
unfoldable pub execute : {E : Type 0} → Awaiter → Request → Bool → Option E → Awaiter × Started E
unfolding enlist
execute a req wait (some e) = (enlist a req wait, refused e)
execute a req wait none = (enlist a req wait, if wait then awaited a.made else finished)

abbrev pub mark_of : ℕ → List (ℕ × RespError) → Option RespError
mark_of tag [] = none
mark_of tag (m ∷ ms) = let rest = mark_of tag ms in if tag == m.0 then some m.1 else rest

-- What Await and Error give with the marks so far; `none` while the call waits.
pub data Ended (E : Type 0) : Type 0 where
  written_error : E → Ended E
  response_error : RespError → Ended E

unfoldable pub outcome : {E : Type 0} → Awaiter → Started E → Option (Ended E)
outcome a (refused e) = some (written_error e)
outcome a finished = some (response_error no_error)
outcome a (awaited tag) = elim (mark_of tag a.marked) [
  | none ↦ none
  | some e ↦ some (response_error e)
]

module _ (net : NetUtil) (d : Distances) where
  -- LookupRandom, for a random target; `none` is the error that there are no seeds. The events of
  -- the rounds have what the queries of runNodesQuery bring.
  unfoldable pub lookup_random : Table net → NodeId → List (List Event) → Option (List Enode)
  lookup_random t target rounds =
      let nodes = find_node_by_id net d t target 16 true in
      if length nodes.entries == 0
      then none
      else some (enodes (Query.run d (new_lookup d (enodes nodes) target 3 16 3) rounds).result)

-- The code that `record` counts a call with, from its error.
unfoldable pub status_code : {E : Type 0} → Option E → ℕ
status_code none = 200
status_code (some e) = 404
