-- ===== src/Query/Slots.antt =====
-- The slots of a round of crawler/net/discovery/query.go.
use node_util.Base.{
  ℕ, zero, suc, ◌+◌, ◌≡◌, refl, true, false, not, ◌&&◌, inl, inr, Bool-cases, Option-cases, List,
  [], ◌∷◌, none, some, arith, ltb, ◌==◌, length, get_elem?, length-append, Option,
}
use node_util.Node.{Enode}
use node_util.Query.{
  has, Lookup, append, Round, begin_round, next_node, cancel, look_at, give_up, remove_at, answer,
  Event, next_event, cancel_event, answer_event, react, play, give_back,
}

-- Each of the alpha slots is free, held by a request under way, or used up by one that brought new
-- nodes; the channel is closed only when all are used up, and nothing is sent to it after that.
pub record IsBalanced (r : Round) : Type 0 where
  pub total : r.slots + (length r.in_flight + r.finished) ≡ r.lookup.alpha
  pub used_up : r.closed ≡ true → r.finished ≡ r.lookup.alpha
  pub safe : r.panics ≡ false

length-remove_at :
    (xs : List Enode) (i : ℕ) (n : Enode)
    → get_elem? xs i ≡ some n
    → suc (length (remove_at xs i)) ≡ length xs
length-remove_at [] i n h = cc
length-remove_at (x ∷ xs) zero n h = refl
length-remove_at (x ∷ xs) (suc i) n h = omega (arith, length-remove_at xs i n h)

look_at-IsBalanced : (r : Round) (ns : List Enode) → IsBalanced r → IsBalanced (look_at r ns)
unfolding look_at
look_at-IsBalanced r [] ok = ok
look_at-IsBalanced r (n ∷ rest) ok = elim (Bool-cases (has n.id r.lookup.asked)) [
  | inl old ↦ rw old (record { total = ok.total; used_up = ok.used_up; safe = ok.safe })
  | inr new ↦ elim (Bool-cases ((r.slots == 0) && not r.closed)) [
    | inl waits ↦ rw (new, waits) ok
    | inr goes ↦ elim (Bool-cases (r.finished == r.lookup.alpha)) [
      | inl full ↦
          rw (new, goes, full) (record { total = ok.total; used_up = ok.used_up; safe = ok.safe })
      | inr room ↦
          rw (new, goes, room)
            (record {
              total = ground (arith, ok.total, ok.used_up, length-append r.in_flight (n ∷ []));
              used_up = ok.used_up;
              safe = ok.safe;
            })
    ]
  ]
]

give_up-IsBalanced : (r : Round) (ns : List Enode) → IsBalanced r → IsBalanced (give_up r ns)
unfolding give_up
give_up-IsBalanced r [] ok = ok
give_up-IsBalanced r (n ∷ rest) ok = elim (Bool-cases (has n.id r.lookup.asked)) [
  | inl old ↦ rw old (record { total = ok.total; used_up = ok.used_up; safe = ok.safe })
  | inr new ↦ rw new (record { total = ok.total; used_up = ok.used_up; safe = ok.safe })
]

-- A round with a request under way has not closed its channel.
not_closed-in_flight :
    (r : Round) (i : ℕ) (n : Enode)
    → get_elem? r.in_flight i ≡ some n
    → IsBalanced r
    → r.closed ≡ false
not_closed-in_flight r i n found ok =
    ground (arith, ok.used_up, ok.total, length-remove_at r.in_flight i n found)

give_back-IsBalanced :
    (r : Round) (i : ℕ) (n : Enode) (buffer : List Enode)
    → get_elem? r.in_flight i ≡ some n
    → IsBalanced r
    → IsBalanced (
        give_back (record r {
          in_flight = remove_at r.in_flight i;
          lookup = record (r.lookup) { buffer = buffer };
        }))
give_back-IsBalanced r i n buffer found ok = record {
  total = omega (arith, ok.total, length-remove_at r.in_flight i n found);
  used_up = ok.used_up;
  safe = ground (arith, ok.safe, not_closed-in_flight r i n found ok);
}

answer-IsBalanced :
    (r : Round) (i : ℕ) (reply : Option (List Enode)) → IsBalanced r → IsBalanced (answer r i reply)
unfolding answer
answer-IsBalanced r i none ok = elim (Option-cases (get_elem? r.in_flight i)) [
  | inl absent ↦ rw (absent, answer) ok
  | inr (n, found) ↦ rw (found, answer) (give_back-IsBalanced r i n r.lookup.buffer found ok)
]
answer-IsBalanced r i (some nodes) ok = elim (Option-cases (get_elem? r.in_flight i)) [
  | inl absent ↦ rw (absent, answer) ok
  | inr (n, found) ↦
      let grown = append r.lookup.buffer nodes in
      elim (Bool-cases (ltb 0 grown.1)) [
        | inl new ↦
            rw (found, answer, new)
              (record {
                total = omega (arith, ok.total, length-remove_at r.in_flight i n found);
                used_up = λ e. ground (arith, not_closed-in_flight r i n found ok);
                safe = ground (arith, ok.safe, not_closed-in_flight r i n found ok);
              })
        | inr old ↦ rw (found, answer, old) (give_back-IsBalanced r i n grown.0 found ok)
      ]
]

react-IsBalanced : (r : Round) (e : Event) → IsBalanced r → IsBalanced (react r e)
unfolding react next_node cancel
react-IsBalanced r next_event ok = look_at-IsBalanced r r.left ok
react-IsBalanced r cancel_event ok = give_up-IsBalanced r r.left ok
react-IsBalanced r (answer_event i reply) ok = answer-IsBalanced r i reply ok

play-IsBalanced' : (r : Round) (es : List Event) → IsBalanced r → IsBalanced (play r es)
unfolding play
play-IsBalanced' r [] ok = ok
play-IsBalanced' r (e ∷ es) ok = play-IsBalanced' (react r e) es (react-IsBalanced r e ok)

-- However the turns of a round of queryNewNodes and the answers to its requests mix, each of the
-- alpha slots is free, held by a request under way or used up by a request that brought new nodes,
-- and the round neither sends to the closed channel of slots nor closes it twice.
pub play-IsBalanced : (l : Lookup) (es : List Event) → IsBalanced (play (begin_round l) es)
unfolding begin_round
play-IsBalanced l es =
    play-IsBalanced' (begin_round l) es
      (record { total = omega arith; used_up = λ e. cc; safe = refl })
