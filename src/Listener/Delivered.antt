-- ===== src/Listener/Delivered.antt =====
-- What becomes of the packets that crawler/net/discovery/listener.go hands to the pool acceptor.
use node_util.Base.{
  sym, subst, if_cases, ap, ℕ, zero, suc, ◌+◌, ◌≡◌, refl, Bool, true, List, [], ◌∷◌, ◌++◌, Option,
  none, some, arith, one_when, get_elem?, set, take, replicate, All, total, length-set,
  length-append,
}
use node_util.Listener.Account.{
  in_hands_same, on_worker-IsAccounted, on_send-IsAccounted, IsAccounted, tally, held, in_hands,
  sent,
}
use node_util.Listener.{
  accept_with, Datagram, idle, Stage, reading, sending, Limits, PacketListener, bytes_of,
  new_listener, copy_job, read_into, check_limit, accept_copy, accept, on_packet, Event, packet,
  read_error, handle, quit, stop, on_read, at_stage, turn, run,
}
use node_util.Listener.Owned.{
  IsOwnedBy, IsOwnedAt, set-Extends, append-Extends, copy_job-IsOwn, contents-copy_job,
  workers-Extends,
}

module _ (test : Datagram → Bool) where
  accept_copy-IsAccounted :
      (l : PacketListener) (size from : ℕ)
      → l.stage ≡ reading
      → IsAccounted test l
      → IsAccounted test (accept_copy l size from)
  unfolding accept_copy tally in_hands copy_job
  accept_copy-IsAccounted l size from here a =
      let cell = take size (bytes_of (get_elem? l.heap 0)) in
      let ext = append-Extends l.heap cell in
      let nothing : sent test l.heap l.stage ≡ 0 = rw here refl in
      let copied = contents-copy_job l.heap size from in
      record {
        some_cell = omega (arith, length-append l.heap (cell ∷ []));
        owned = workers-Extends l.heap (l.heap ++ cell ∷ []) l.workers ext a.owned;
        sends = copy_job-IsOwn l.heap size from a.some_cell;
        balance = omega (
          arith,
          a.balance,
          nothing,
          in_hands_same test l.heap (l.heap ++ cell ∷ []) l.workers ext a.owned,
          ap (λ p. one_when (test p)) copied,
        );
      }

  accept-IsAccounted :
      (l : PacketListener) (size from now : ℕ)
      → l.stage ≡ reading
      → IsAccounted test l
      → IsAccounted test (accept l size from now)
  unfolding accept tally in_hands
  accept-IsAccounted l size from now here a =
      elim (check_limit l.limits from now) as (λ c. IsAccounted test (accept_with l size from c)) [
        | none ↦
            let nothing : sent test l.heap l.stage ≡ 0 = rw here refl in
            record {
              some_cell = a.some_cell;
              owned = a.owned;
              sends = tt;
              balance = omega (arith, a.balance, nothing);
            }
        | some (limits, refused) ↦
            let checked = record l { limits = limits; is_started = true } in
            let still : IsAccounted test checked = record {
              some_cell = a.some_cell;
              owned = a.owned;
              sends = a.sends;
              balance = a.balance;
            } in
            if_cases (IsAccounted test) refused _ _
              (λ over. record {
                some_cell = a.some_cell;
                owned = a.owned;
                sends = a.sends;
                balance = a.balance;
              })
              λ under. accept_copy-IsAccounted checked size from here still
      ]

  on_packet-IsAccounted :
      (l : PacketListener) (bytes : List ℕ) (from now : ℕ)
      → l.stage ≡ reading
      → IsAccounted test l
      → IsAccounted test (on_packet l bytes from now)
  unfolding on_packet tally in_hands
  on_packet-IsAccounted l bytes from now here a =
      let buf = read_into (bytes_of (get_elem? l.heap 0)) bytes in
      let ext = set-Extends l.heap buf in
      let nothing_yet : sent test l.heap l.stage ≡ 0 = rw here refl in
      let nothing_then : sent test (set l.heap 0 buf) l.stage ≡ 0 = rw here refl in
      accept-IsAccounted (record l { heap = set l.heap 0 buf }) _ from now here
        (record {
          some_cell = omega (arith, a.some_cell, length-set l.heap 0 buf);
          owned = workers-Extends l.heap (set l.heap 0 buf) l.workers ext a.owned;
          sends = subst (IsOwnedAt (set l.heap 0 buf)) (sym here) tt;
          balance = omega (
            arith,
            a.balance,
            nothing_yet,
            nothing_then,
            in_hands_same test l.heap (set l.heap 0 buf) l.workers ext a.owned,
          );
        })

  at_stage-IsAccounted :
      (l : PacketListener) (stage : Stage) (e : Event)
      → l.stage ≡ stage
      → IsAccounted test l
      → IsAccounted test (at_stage l stage e)
  unfolding at_stage on_read tally in_hands
  at_stage-IsAccounted l reading (packet bytes from now) here a =
      on_packet-IsAccounted l bytes from now here a
  at_stage-IsAccounted l reading (read_error is_temporary) here a =
      if_cases (IsAccounted test) is_temporary _ _ (λ again. a)
        λ over.
          let nothing : sent test l.heap l.stage ≡ 0 = rw here refl in
          record {
            some_cell = a.some_cell;
            owned = a.owned;
            sends = tt;
            balance = omega (arith, a.balance, nothing);
          }
  at_stage-IsAccounted l (sending job) e here a = on_send-IsAccounted test l job e here a
  at_stage-IsAccounted l stage e here a = a

  turn-IsAccounted :
      (l : PacketListener) (e : Event) → IsAccounted test l → IsAccounted test (turn l e)
  unfolding turn tally in_hands
  turn-IsAccounted l stop a =
      if_cases (IsAccounted test) l.is_started _ _
        (λ started. record {
          some_cell = a.some_cell;
          owned = a.owned;
          sends = a.sends;
          balance = a.balance;
        })
        λ not_yet. a
  turn-IsAccounted l (handle i) a = on_worker-IsAccounted test l i _ (handle i) refl a
  turn-IsAccounted l (quit i) a = on_worker-IsAccounted test l i _ (quit i) refl a
  turn-IsAccounted l e a = at_stage-IsAccounted l l.stage e refl a

  run-IsAccounted :
      (l : PacketListener) (es : List Event) → IsAccounted test l → IsAccounted test (run l es)
  unfolding run
  run-IsAccounted l [] a = a
  run-IsAccounted l (e ∷ es) a = run-IsAccounted (turn l e) es (turn-IsAccounted l e a)

  held-idle :
      (heap : List (List ℕ)) (n : ℕ)
      → All (IsOwnedBy heap) (replicate n idle) × (total (held test heap) (replicate n idle) ≡ 0)
  held-idle heap zero = (tt, refl)
  held-idle heap (suc n) = let rest = held-idle heap n in ((tt, rest.0), omega (arith, rest.1))

  -- However packets, workers, errors and Stop mix, the packets that Accept has let pass, with the
  -- bytes that had arrived, are exactly those that HandlePacket has read, those that were given up
  -- after Stop, and those that the workers and the sender still hold: for any test of packets, as
  -- many of them pass it. No packet is lost or handled twice, and none is overwritten by a later one.
  pub run-delivered :
      (limits : Option Limits) (workers : ℕ) (es : List Event)
      → tally test (run (new_listener limits workers) es).accepted
        ≡ (tally test (run (new_listener limits workers) es).handled
            + tally test (run (new_listener limits workers) es).dropped)
          + (in_hands test (run (new_listener limits workers) es)
              + sent test
                  (run (new_listener limits workers) es).heap
                  (run (new_listener limits workers) es).stage)
  unfolding new_listener tally in_hands
  run-delivered limits workers es =
      let at_rest = held-idle (new_listener limits workers).heap workers in
      let start : IsAccounted test (new_listener limits workers) = record {
        some_cell = omega arith;
        owned = at_rest.0;
        sends = tt;
        balance = omega (arith, at_rest.1);
      } in
      (run-IsAccounted (new_listener limits workers) es start).balance
