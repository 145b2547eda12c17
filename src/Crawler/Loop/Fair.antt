-- ===== src/Crawler/Loop/Fair.antt =====
-- The turns of the peers in the buffer of crawler/crawler/crawler.go.
use mathlib.Core.List.{append_assoc, append-nil}
use node_util.Base.{
  if◌then◌else◌, set, true, false, inr, inl, Bool, ℕ, suc, ◌≤◌, ◌≡◌, refl, ◌∙◌, sym, ap, List, [],
  ◌∷◌, ◌++◌, Option, none, some, arith, get_elem?, take, length, append_one, Option-cases,
}
use node_util.Node.{Enode}
use node_util.Crawler.Peers.{can_refresh, new_entries, Peer, enqueue, dequeue}
use node_util.Crawler.Loop.{
  load, Crawler, on_found, publish, tick_peer, with_peer, on_dequeued, on_ticker, store_node, enter,
  Event, found, ticked, marks, enters, asked, queried, turn, run,
}

module _ {Info : Type 0} where
  abbrev pub count_ticks : List (Event Info) → ℕ
  count_ticks [] = 0
  count_ticks (ticked now ∷ es) = suc (count_ticks es)
  count_ticks (e ∷ es) = count_ticks es

  -- The steps of the workers.
  abbrev is_quiet : Event Info → Bool
  is_quiet (found n) = false
  is_quiet (ticked now) = false
  is_quiet _ = true

  -- What the turns of the peers depend on.
  record IsSame (s t : Crawler Info) : Type 0 where
    buffer : t.buffer ≡ s.buffer
    visited : t.visited ≡ s.visited

  publish-IsSame :
      (s : Crawler Info) (i : ℕ) (p : Peer Info) (es : List ℕ) → IsSame s (publish s i p es)
  unfolding publish
  publish-IsSame s i p [] = record { buffer = refl; visited = refl }
  publish-IsSame s i p (e ∷ es) = record { buffer = refl; visited = refl }

  with_peer-IsSame :
      (s : Crawler Info) (i : ℕ) (f : Peer Info → Crawler Info)
      → ((p : Peer Info) → IsSame s (f p))
      → IsSame s (with_peer s i f)
  with_peer-IsSame s i f good =
      elim (get_elem? s.store i) as (λ o. IsSame s (elim o [ none ↦ s | some p ↦ f p ])) [
        | none ↦ record { buffer = refl; visited = refl }
        | some p ↦ good p
      ]

  tick_peer-IsSame : (s : Crawler Info) (now i : ℕ) (p : Peer Info) → IsSame s (tick_peer s now i p)
  unfolding tick_peer
  tick_peer-IsSame s now i p =
      let (counter, due) = can_refresh p.find_counter now in
      let (q, entries) = new_entries (record p { find_counter = counter }) in
      let pushed = if due then s.pushed ++ i ∷ [] else s.pushed in
      let step =
        publish-IsSame (record s { store = set s.store i q; pushed = pushed }) i q entries in
      record { buffer = step.buffer; visited = step.visited }

  store_node-IsSame :
      (s : Crawler Info) (i : ℕ) (n : Enode) (p : Peer Info) → IsSame s (store_node s i n p)
  unfolding store_node
  store_node-IsSame s i n p = elim (Option-cases (load n.id p.peers)) [
    | inl new ↦ rw (new, store_node) (record { buffer = refl; visited = refl })
    | inr (old, there) ↦ rw (there, store_node) (record { buffer = refl; visited = refl })
  ]

  enter-IsSame : (s : Crawler Info) (k : ℕ) (m : Option (ℕ × ℕ)) → IsSame s (enter s k m)
  unfolding enter
  enter-IsSame s k none = record { buffer = refl; visited = refl }
  enter-IsSame s k (some (i, id)) =
      with_peer-IsSame s i _ λ p. record { buffer = refl; visited = refl }

  -- A tick turns the buffer by one peer.
  on_ticker_turns :
      (s : Crawler Info) (now x : ℕ) (xs : List ℕ)
      → s.buffer ≡ x ∷ xs
      → ((on_ticker s now).buffer ≡ xs ++ x ∷ [])
        × ((on_ticker s now).visited ≡ s.visited ++ x ∷ [])
  unfolding on_ticker on_dequeued dequeue enqueue
  on_ticker_turns s now x xs first =
      let turned = record s { buffer = xs ++ x ∷ []; visited = s.visited ++ x ∷ [] } in
      let step =
        with_peer-IsSame turned x (tick_peer turned now x) (tick_peer-IsSame turned now x) in
      let is_turn : on_ticker s now ≡ with_peer turned x (tick_peer turned now x) =
        ap (λ b. on_dequeued s now (dequeue b)) first in
      (ap (λ t. t.buffer) is_turn ∙ step.buffer, ap (λ t. t.visited) is_turn ∙ step.visited)

  module _ (same : Info → Info → Bool) where
    turn-IsSame : (s : Crawler Info) (e : Event Info) → is_quiet e ≡ true → IsSame s (turn same s e)
    unfolding turn
    turn-IsSame s (found n) h = cc
    turn-IsSame s (ticked now) h = cc
    turn-IsSame s (marks i n) h = with_peer-IsSame s i _ (store_node-IsSame s i n)
    turn-IsSame s (enters k) h = enter-IsSame s k (get_elem? s.marking k)
    turn-IsSame s (asked i failed now) h =
        with_peer-IsSame s i _ λ p. record { buffer = refl; visited = refl }
    turn-IsSame s (queried i info now) h =
        with_peer-IsSame s i _ λ p. record { buffer = refl; visited = refl }

    run_visits :
        (es : List (Event Info)) (s : Crawler Info) (xs ys : List ℕ)
        → s.buffer ≡ xs ++ ys
        → count_ticks es ≤ length xs
        → (run same s es).visited ≡ s.visited ++ take (count_ticks es) xs
    unfolding run turn
    run_visits [] s xs ys e enough = sym (append-nil s.visited)
    run_visits (ticked now ∷ es) s [] ys e enough = absurd (omega arith)
    run_visits (ticked now ∷ es) s (x ∷ xs) ys e enough =
        let step = on_ticker_turns s now x (xs ++ ys) e in
        let rest =
          run_visits es (on_ticker s now) xs (ys ++ x ∷ []) (step.0 ∙ append_assoc xs ys (x ∷ []))
            (omega arith) in
        rest
        ∙ (ap (λ v. v ++ take (count_ticks es) xs) step.1
            ∙ append_one s.visited x (take (count_ticks es) xs))
    run_visits (found n ∷ es) s xs ys e enough =
        run_visits es (on_found s n) xs (ys ++ length s.store ∷ [])
          (ap (λ b. b ++ length s.store ∷ []) e ∙ append_assoc xs ys (length s.store ∷ [])) enough
    run_visits (other ∷ es) s xs ys e enough =
        let step = turn-IsSame s other refl in
        run_visits es (turn same s other) xs ys (step.buffer ∙ e) enough
        ∙ ap (λ v. v ++ take (count_ticks es) xs) step.visited

    -- However ticked mix with new nodes and the answers of workers, as many ticked as there are peers in
    -- the buffer look at them in their order: a peer waits for those before it, and for no other.
    pub run-visited :
        (es : List (Event Info)) (s : Crawler Info)
        → count_ticks es ≤ length s.buffer
        → (run same s es).visited ≡ s.visited ++ take (count_ticks es) s.buffer
    run-visited es s enough = run_visits es s s.buffer [] (sym (append-nil s.buffer)) enough
