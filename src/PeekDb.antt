-- ===== src/PeekDb.antt =====
-- discV4PeekDB of crawler/cmd/disc/v4/disc.go: the goroutines that ask one node for random nodes, and
-- the loop that collects what they bring. One turn of its select is an event.
pub mod Cache
mod Tests
use node_util.Base.{
  ℕ, suc, ◌+◌, ◌%◌, ◌^◌, Bool, true, false, ◌||◌, List, [], ◌∷◌, ◌++◌, Option, none, some, ltb,
  ◌==◌, if◌then◌else◌, length,
}
use node_util.Node.{NodeId, Enode}

-- `received` lists the nodes of all results so far.
pub record Peek : Type 0 where
  pub cache : List Enode
  pub nodes_amount : ℕ
  pub duplicates : ℕ
  pub queries : ℕ
  pub exhausted : ℕ
  pub is_over : Bool
  pub received : List Enode

abbrev pub start_peek : Peek
start_peek = record {
  cache = [];
  nodes_amount = 0;
  duplicates = 0;
  queries = 0;
  exhausted = 0;
  is_over = false;
  received = [];
}

abbrev pub in_cache : NodeId → List Enode → Bool
in_cache id [] = false
in_cache id (x ∷ xs) = (id == x.id) || in_cache id xs

-- The loop over the nodes of a result. The counters are uint16.
unfoldable pub cache_nodes : Peek → List Enode → Peek
cache_nodes p [] = p
cache_nodes p (n ∷ ns) =
    let again = cache_nodes (record p { duplicates = (p.duplicates + 1) % 2 ^ 16 }) ns in
    let fresh = cache_nodes (record p { cache = n ∷ p.cache }) ns in
    if in_cache n.id p.cache then again else fresh

unfoldable pub on_result : Peek → List Enode → Peek
unfolding cache_nodes
on_result p result =
    let counted = record p {
      queries = (p.queries + 1) % 2 ^ 16;
      received = p.received ++ result;
    } in
    let cached = cache_nodes counted result in
    record cached { nodes_amount = (p.nodes_amount + length result % 2 ^ 16) % 2 ^ 16 }

-- A tick without a new node; `exhaused` is a uint8.
unfoldable pub on_tick : Peek → Peek
on_tick p =
    let exhausted =
      if p.nodes_amount == p.duplicates then (p.exhausted + 1) % 2 ^ 8 else p.exhausted in
    if ltb 3 exhausted
    then record p { exhausted = exhausted; is_over = true }
    else record p { exhausted = exhausted; nodes_amount = 0; queries = 0; duplicates = 0 }

pub data Event : Type 0 where
  tick_event done_event : Event
  result_event : List Enode → Event

unfoldable pub turn : Peek → Event → Peek
unfolding on_tick on_result
turn p tick_event = if p.is_over then p else on_tick p
turn p done_event = record p { is_over = true }
turn p (result_event nodes) = if p.is_over then p else on_result p nodes

unfoldable pub run : Peek → List Event → Peek
unfolding turn
run p [] = p
run p (e ∷ es) = run (turn p e) es

-- A goroutine that asks, with the answers of AskForRandomNodes, `none` for an error: it ends after
-- more than ten errors in a row, and sends a result after an error, too.
unfoldable pub ask_loop : ℕ → List (Option (List Enode)) → List (List Enode)
ask_loop errors [] = []
ask_loop errors (none ∷ answers) =
    let rest = ask_loop (errors + 1) answers in if ltb 10 errors then [] else [] ∷ rest
ask_loop errors (some nodes ∷ answers) =
    let rest = ask_loop 0 answers in if ltb 10 errors then [] else nodes ∷ rest
