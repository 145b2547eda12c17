-- ===== src/Scanner/Controller/Tests.antt =====
-- Examples for the controller of the scanner.
use node_util.Base.{ℕ, ◌≡◌, refl, Bool, true, List, [], ◌∷◌, arith, count, ◌==◌, ◌&&◌}
use node_util.Scanner.{ScanItem}
use node_util.Scanner.Controller.{
  Event, scan, scan_no_wait, take_by, finish_by, receives, context_ends, new_controller, run,
  scanned, returned, read_out, ScanCall, Watcher,
}
use node_util.Scanner.Controller.Pending.{workers_of, needs_work}
use node_util.Scanner.Controller.Served.{run-served}
use node_util.Scanner.Controller.Answers.{run-scanned}

abbrev ports : ScanItem
ports = record { port_start = 20; port_end = 24 }

-- Port 22 is open at address 9.
abbrev ssh : ℕ → ℕ → Bool
ssh ip p = (ip == 9) && (p == 22)

-- A thread works for each of two calls; the caller of the second gives up.
abbrev started : List Event
started = scan 9 ports ∷ scan_no_wait 8 ports ∷ take_by 1 0 ∷ take_by 0 1 ∷ context_ends 1 ∷ []

abbrev answered : List Event
answered =
    scan 9 ports
    ∷ scan_no_wait 8 ports
    ∷ take_by 1 0
    ∷ take_by 0 1
    ∷ finish_by 1 (λ _. true)
    ∷ receives 0
    ∷ finish_by 0 (λ p. p == 20)
    ∷ receives 1
    ∷ []

two_at_work : workers_of (run ssh (new_controller 2) started) 1 ≡ 1
unfolding run new_controller workers_of
two_at_work = refl

run-served_example :
    workers_of (run ssh (new_controller 2) started) 1
    ≡ needs_work (run ssh (new_controller 2) started) 1
run-served_example = run-served ssh 2 started 1

abbrev first_call : ScanCall
first_call = record {
  ip = 9;
  item = ports;
  caller = returned (scanned (22 ∷ []));
  callback = read_out;
  watcher = Watcher.no_watcher;
}

run-scanned_example : count 22 (22 ∷ []) ≡ 1
unfolding run new_controller node_util.Scanner.run_scan
run-scanned_example =
    run-scanned ssh 2 answered 0 first_call (22 ∷ []) 22 refl refl (omega arith) (omega arith) cc
