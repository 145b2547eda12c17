-- ===== src/PeekDb/Cache.antt =====
-- What discV4PeekDB of crawler/cmd/disc/v4/disc.go has collected.
use node_util.Base.{
  ◌+◌, ◌%◌, ◌^◌, ◌≤◌, ◌≡◌, refl, true, false, inl, inr, Bool-cases, List, [], ◌∷◌, ◌++◌, map, arith,
  ltb, if◌then◌else◌, count, count-append, map-append, one_when,
}
use node_util.Node.{NodeId, Enode}
use node_util.PeekDb.{
  Peek, start_peek, in_cache, cache_nodes, on_result, on_tick, Event, tick_event, done_event,
  result_event, turn, run,
}

abbrev pub ids : List Enode → List NodeId
ids = map (λ n. n.id)

count-in_cache : (id : NodeId) (ns : List Enode) → ltb 0 (count id (ids ns)) ≡ in_cache id ns
count-in_cache id [] = refl
count-in_cache id (n ∷ ns) = ground (arith, count-in_cache id ns)

-- Each ID received is cached exactly once.
abbrev IsCached : Peek → Type 0
IsCached p = (id : NodeId) → count id (ids p.cache) ≡ one_when (ltb 0 (count id (ids p.received)))

-- The loop over a result, when the nodes before it are in the cache.
cache_nodes-once :
    (id : NodeId) (ns : List Enode) (p : Peek)
    → count id (ids p.cache) ≤ 1
    → count id (ids (cache_nodes p ns).cache)
      ≡ one_when (ltb 0 (count id (ids p.cache) + count id (ids ns)))
unfolding cache_nodes
cache_nodes-once id [] p small = ground arith
cache_nodes-once id (n ∷ ns) p small = elim (Bool-cases (in_cache n.id p.cache)) [
  | inl e ↦
      let known = count-in_cache n.id p.cache in
      let rest =
        cache_nodes-once id ns (record p { duplicates = (p.duplicates + 1) % 2 ^ 16 }) small in
      rw e (ground (arith, rest, known))
  | inr e ↦
      let known = count-in_cache n.id p.cache in
      let rest = cache_nodes-once id ns (record p { cache = n ∷ p.cache }) (ground arith) in
      rw e (ground (arith, rest, known))
]

cache_nodes-received :
    (ns : List Enode) (p : Peek)
    → ((cache_nodes p ns).received ≡ p.received) × ((cache_nodes p ns).exhausted ≡ p.exhausted)
unfolding cache_nodes
cache_nodes-received [] p = (refl, refl)
cache_nodes-received (n ∷ ns) p =
    let again = cache_nodes-received ns (record p { duplicates = (p.duplicates + 1) % 2 ^ 16 }) in
    let fresh = cache_nodes-received ns (record p { cache = n ∷ p.cache }) in
    (ground (arith, again.0, fresh.0), ground (arith, again.1, fresh.1))

on_result-IsCached : (p : Peek) (ns : List Enode) → IsCached p → IsCached (on_result p ns)
unfolding on_result
on_result-IsCached p ns ok id =
    let q = record p { queries = (p.queries + 1) % 2 ^ 16; received = p.received ++ ns } in
    let first = ok id in
    let all = cache_nodes-once id ns q (ground (arith, first)) in
    let sum = count-append id (ids p.received) (ids ns) in
    rw ((cache_nodes-received ns q).0, map-append (λ (n : Enode). n.id) p.received ns)
      (ground (arith, first, all, sum))

turn-IsCached : (p : Peek) (e : Event) → IsCached p → IsCached (turn p e)
unfolding turn on_tick
turn-IsCached p tick_event ok = λ id. ground (arith, ok id)
turn-IsCached p done_event ok = ok
turn-IsCached p (result_event ns) ok =
    elim p.is_over as (λ b. IsCached (if b then p else on_result p ns)) [
      | true ↦ ok
      | false ↦ on_result-IsCached p ns ok
    ]

-- The peek is over with the fourth tick that brought nothing new, at the latest.
record IsCounted (p : Peek) : Type 0 where
  pub most : p.exhausted ≤ 4
  pub under_way : p.is_over ≡ false → p.exhausted ≤ 3

turn-IsCounted : (p : Peek) (e : Event) → IsCounted p → IsCounted (turn p e)
unfolding turn on_tick on_result
turn-IsCounted p tick_event ok = record {
  most = ground (arith, ok.most, ok.under_way);
  under_way = ground (arith, ok.most, ok.under_way);
}
turn-IsCounted p done_event ok = record { most = ok.most; under_way = λ e. cc }
turn-IsCounted p (result_event ns) ok =
    let same =
      (cache_nodes-received ns
        (record p { queries = (p.queries + 1) % 2 ^ 16; received = p.received ++ ns })).1 in
    record {
      most = ground (arith, ok.most, same);
      under_way = ground (arith, ok.most, ok.under_way, same);
    }

run_from :
    (es : List Event) (p : Peek)
    → IsCached p
    → IsCounted p
    → IsCached (run p es) × IsCounted (run p es)
unfolding run
run_from [] p ok few = (ok, few)
run_from (e ∷ es) p ok few = run_from es (turn p e) (turn-IsCached p e ok) (turn-IsCounted p e few)

-- Whatever the results and in whatever order they come, each node that was received before the
-- end is in the cache exactly once and no other node is, and at most four ticks without a new node
-- are counted.
pub run-cached :
    (es : List Event) (id : NodeId)
    → (count id (ids (run start_peek es).cache)
        ≡ one_when (ltb 0 (count id (ids (run start_peek es).received))))
      × ((run start_peek es).exhausted ≤ 4)
run-cached es id =
    let all =
      run_from es start_peek (λ i. refl)
        (record { most = omega arith; under_way = λ e. omega arith }) in
    (all.0 id, all.1.most)
