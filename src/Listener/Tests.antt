-- ===== src/Listener/Tests.antt =====
-- Examples for the listener and the workers of the acceptor.
use node_util.Base.{◌+◌, ◌≡◌, refl, Bool, List, [], ◌∷◌, none, leb, length}
use node_util.Listener.{
  Datagram, Event, packet, read_error, take_job, handle, stop, give_up, new_listener, run,
  PacketListener,
}
use node_util.Listener.Account.{tally, in_hands, sent}
use node_util.Listener.Delivered.{run-delivered}

-- The second packet comes before the first is handled; the third is given up after Stop.
abbrev events : List Event
events =
    packet (7 ∷ 8 ∷ 9 ∷ []) 1 0
    ∷ take_job 0
    ∷ read_error Bool.true
    ∷ packet (5 ∷ []) 2 0
    ∷ handle 0
    ∷ stop
    ∷ give_up
    ∷ packet (4 ∷ 4 ∷ []) 3 0
    ∷ []

abbrev final : PacketListener
final = run (new_listener none 2) events

abbrev is_long : Datagram → Bool
is_long p = leb 2 (length p.data_of)

handled_bytes : final.handled ≡ record { data_of = 7 ∷ 8 ∷ 9 ∷ []; from = 1 } ∷ []
unfolding run new_listener
handled_bytes = refl

run-delivered_example :
    tally is_long final.accepted
    ≡ (tally is_long final.handled + tally is_long final.dropped)
      + (in_hands is_long final + sent is_long final.heap final.stage)
run-delivered_example = run-delivered is_long none 2 events
