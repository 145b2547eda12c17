-- ===== src/Listener.antt =====
-- crawler/net/discovery/listener.go, the loop that reads packets into one buffer, and the workers of
-- the pool acceptor in acceptor.go, which handle copies of them later. Byte slices are cells of a heap:
-- cell 0 is the buffer of the loop, a job has a cell and a size.
pub mod Owned
pub mod Account
pub mod Delivered
mod Tests
use node_util.Base.{
  ℕ, ◌+◌, ◌%◌, Bool, true, false, List, [], ◌∷◌, ◌++◌, Option, none, some, if◌then◌else◌, length,
  get_elem?, set, take, drop, replicate, ◌==◌,
}
use node_util.Base.Int.{u64}
use node_util.Acceptor.{AcceptLimit, update, is_above}

abbrev pub max_packet_size : ℕ
max_packet_size = 1280

-- acceptorJob; IPv4 addresses are numbers.
pub record Job : Type 0 where
  pub cell : ℕ
  pub size : ℕ
  pub from : ℕ

-- A packet with its bytes, as it came from the network and as HandlePacket reads it.
pub record Datagram : Type 0 where
  pub data_of : List ℕ
  pub from : ℕ

-- A goroutine of `listen`.
pub data Worker : Type 0 where
  idle gone : Worker
  busy : Job → Worker

-- Where the goroutine of `loop` stands: in ReadFromUDP, in `send`, or at its end. `crashed` is the
-- division by zero of the limiter.
pub data Stage : Type 0 where
  reading ended crashed : Stage
  sending : Job → Stage

-- The limiter, if there is one: its threshold, its bound and its map.
pub record Limits : Type 0 where
  pub threshold : ℕ
  pub bound : ℕ
  pub entry_of : ℕ → AcceptLimit

-- `accepted`, `handled` and `dropped` list what Accept let pass, what HandlePacket read, and what
-- `send` gave up after Stop, the latest first.
pub record PacketListener : Type 0 where
  pub heap : List (List ℕ)
  pub stage : Stage
  pub limits : Option Limits
  pub workers : List Worker
  pub is_started : Bool
  pub is_done : Bool
  pub okay_packets : ℕ
  pub invalid_packets : ℕ
  pub accepted : List Datagram
  pub handled : List Datagram
  pub dropped : List Datagram

-- NewListener on NewPoolAcceptor or NewPoolAcceptorWithLimits. The workers and the goroutine that
-- waits for Stop start with the first packet.
unfoldable pub new_listener : Option Limits → ℕ → PacketListener
new_listener limits workers = record {
  heap = replicate max_packet_size 0 ∷ [];
  stage = reading;
  limits = limits;
  workers = replicate workers idle;
  is_started = false;
  is_done = false;
  okay_packets = 0;
  invalid_packets = 0;
  accepted = [];
  handled = [];
  dropped = [];
}

abbrev pub bytes_of : Option (List ℕ) → List ℕ
bytes_of none = []
bytes_of (some bytes) = bytes

-- What a job's slice holds at this moment.
unfoldable pub contents : List (List ℕ) → Job → Datagram
contents heap j = record { data_of = take j.size (bytes_of (get_elem? heap j.cell)); from = j.from }

-- ReadFromUDP: a packet fills the buffer from its start; what exceeds the buffer is discarded.
unfoldable pub read_into : List ℕ → List ℕ → List ℕ
read_into buf packet = let kept = take (length buf) packet in kept ++ drop (length kept) buf

abbrev pub put_limit : (ℕ → AcceptLimit) → ℕ → AcceptLimit → ℕ → AcceptLimit
put_limit m key v k = if key == k then v else m k

-- `limiter.update` and `isAbove`: none for the division by zero, else the limiter and whether the
-- packet is refused.
unfoldable pub check_limit : Option Limits → ℕ → ℕ → Option (Option Limits × Bool)
check_limit none from now = some (none, false)
check_limit (some l) from now = elim (update (l.entry_of from) l.threshold now) [
  | none ↦ none
  | some v ↦ some (some (record l { entry_of = put_limit l.entry_of from v }), is_above v l.bound)
]

-- `buff := make([]byte, len(data)); copy(buff, data)`: the new cell and a job on it.
unfoldable pub copy_job : List (List ℕ) → ℕ → ℕ → List (List ℕ) × Job
copy_job heap size from = (
  heap ++ take size (bytes_of (get_elem? heap 0)) ∷ [],
  record { cell = length heap; size = size; from = from },
)

-- The packet that Accept is given: the slice `buf[:nbytes]`.
unfoldable pub accept_copy : PacketListener → ℕ → ℕ → PacketListener
unfolding copy_job contents
accept_copy l size from =
    let (heap, job) = copy_job l.heap size from in
    record l {
      heap = heap;
      stage = sending job;
      accepted = contents l.heap (record { cell = 0; size = size; from = from }) ∷ l.accepted;
    }

unfoldable pub accept_with : PacketListener → ℕ → ℕ → Option (Option Limits × Bool) → PacketListener
unfolding accept_copy
accept_with l size from none = record l { stage = crashed; is_started = true }
accept_with l size from (some (limits, refused)) =
    let checked = record l { limits = limits; is_started = true } in
    if refused
    then record checked { invalid_packets = (l.invalid_packets + 1) % u64 }
    else accept_copy checked size from

unfoldable pub accept : PacketListener → ℕ → ℕ → ℕ → PacketListener
unfolding check_limit accept_with
accept l size from now = accept_with l size from (check_limit l.limits from now)

-- A packet while the loop waits for one.
unfoldable pub on_packet : PacketListener → List ℕ → ℕ → ℕ → PacketListener
unfolding read_into accept
on_packet l packet from now =
    let buf = bytes_of (get_elem? l.heap 0) in
    let written = record l { heap = set l.heap 0 (read_into buf packet) } in
    accept written (length (take (length buf) packet)) from now

-- Accept returns nil.
abbrev pub okay : PacketListener → PacketListener
okay l = record l { stage = reading; okay_packets = (l.okay_packets + 1) % u64 }

pub data Event : Type 0 where
  -- what ReadFromUDP gives: a packet, its sender and the time, or an error that is temporary or not
  packet : List ℕ → ℕ → ℕ → Event
  read_error : Bool → Event
  -- a worker receives from chJob, calls HandlePacket, or sees chDone
  take_job handle quit : ℕ → Event
  -- the goroutine of `start`, once it runs, receives from `stop`; `send` sees chDone
  stop give_up : Event

unfoldable pub on_read : PacketListener → Event → PacketListener
unfolding on_packet
on_read l (packet bytes from now) = on_packet l bytes from now
on_read l (read_error is_temporary) = if is_temporary then l else record l { stage = ended }
on_read l _ = l

-- A worker receives the job, if it waits for one.
unfoldable pub take_with : PacketListener → ℕ → Job → Option Worker → PacketListener
take_with l i job (some idle) = okay (record l { workers = set l.workers i (busy job) })
take_with l i job _ = l

unfoldable pub on_send : PacketListener → Job → Event → PacketListener
unfolding contents take_with
on_send l job give_up =
    if l.is_done then okay (record l { dropped = contents l.heap job ∷ l.dropped }) else l
on_send l job (take_job i) = take_with l i job (get_elem? l.workers i)
on_send l job _ = l

unfoldable pub on_worker : PacketListener → ℕ → Option Worker → Event → PacketListener
unfolding contents
on_worker l i (some (busy job)) (handle _) = record l {
  workers = set l.workers i idle;
  handled = contents l.heap job ∷ l.handled;
}
on_worker l i (some idle) (quit _) =
    if l.is_done then record l { workers = set l.workers i gone } else l
on_worker l i _ _ = l

unfoldable pub at_stage : PacketListener → Stage → Event → PacketListener
unfolding on_read on_send
at_stage l reading e = on_read l e
at_stage l (sending job) e = on_send l job e
at_stage l _ e = l

unfoldable pub turn : PacketListener → Event → PacketListener
unfolding on_worker at_stage
turn l stop = if l.is_started then record l { is_done = true } else l
turn l (handle i) = on_worker l i (get_elem? l.workers i) (handle i)
turn l (quit i) = on_worker l i (get_elem? l.workers i) (quit i)
turn l e = at_stage l l.stage e

unfoldable pub run : PacketListener → List Event → PacketListener
unfolding turn
run l [] = l
run l (e ∷ es) = run (turn l e) es
