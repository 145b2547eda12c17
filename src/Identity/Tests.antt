-- ===== src/Identity/Tests.antt =====
-- Examples for the identity.
use node_util.Base.{◌≡◌, List, [], ◌∷◌, some}
use node_util.Identity.{Call, set_call, node_call, calls, new_identity, get_node}
use node_util.Identity.Current.{get_node-calls}

abbrev some_calls : List Call
some_calls = node_call ∷ set_call 2 30304 ∷ set_call 4 1 ∷ []

get_node-calls_example :
    ((get_node (calls (new_identity (1, 80) (2, 30303) (3, 30303)) some_calls)).1
      ≡ some (record {
        pairs = (calls (new_identity (1, 80) (2, 30303) (3, 30303)) some_calls).entries;
        seq = (get_node (calls (new_identity (1, 80) (2, 30303) (3, 30303)) some_calls)).0.seq;
      }))
    × (get_node (get_node (calls (new_identity (1, 80) (2, 30303) (3, 30303)) some_calls)).0
        ≡ get_node (calls (new_identity (1, 80) (2, 30303) (3, 30303)) some_calls))
get_node-calls_example = get_node-calls (1, 80) (2, 30303) (3, 30303) some_calls
