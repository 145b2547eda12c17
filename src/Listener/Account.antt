-- ===== src/Listener/Account.antt =====
-- The account of the packets that crawler/net/discovery/listener.go hands to the pool acceptor, and
-- the steps of its workers and of `send` that keep it.
use node_util.Base.{
  subst, if_cases, All-map, ℕ, ◌+◌, ◌<◌, ◌≡◌, refl, Bool, List, Option, some, arith, one_when,
  length, get_elem?, set, All, All-set, total, total-set, total-ext,
}
use node_util.Listener.{
  take_with, Job, Datagram, Worker, idle, gone, busy, Stage, sending, PacketListener, contents,
  Event, take_job, handle, quit, give_up, on_send, on_worker,
}
use node_util.Listener.Owned.{IsOwn, IsOwnedBy, IsOwnedAt, Extends}

module _ (test : Datagram → Bool) where
  -- The packets of a list that pass a test.
  unfoldable pub tally : List Datagram → ℕ
  tally = total (λ p. one_when (test p))

  -- What the workers hold and what is being sent, read at this moment.
  abbrev pub held : List (List ℕ) → Worker → ℕ
  held heap (busy j) = one_when (test (contents heap j))
  held heap _ = 0

  unfoldable pub in_hands : PacketListener → ℕ
  in_hands l = total (held l.heap) l.workers

  abbrev pub sent : List (List ℕ) → Stage → ℕ
  sent heap (sending j) = one_when (test (contents heap j))
  sent heap _ = 0

  pub record IsAccounted (l : PacketListener) : Type 0 where
    pub some_cell : 0 < length l.heap
    pub owned : All (IsOwnedBy l.heap) l.workers
    pub sends : IsOwnedAt l.heap l.stage
    pub balance :
        tally l.accepted ≡ (tally l.handled + tally l.dropped) + (in_hands l + sent l.heap l.stage)

  held_same :
      (heap more : List (List ℕ))
      → Extends heap more
      → (w : Worker) → IsOwnedBy heap w
      → held more w ≡ held heap w
  held_same heap more ext idle own = refl
  held_same heap more ext gone own = refl
  held_same heap more ext (busy j) own = rw (ext.same j own) refl

  pub in_hands_same :
      (heap more : List (List ℕ)) (ws : List Worker)
      → Extends heap more
      → All (IsOwnedBy heap) ws
      → total (held more) ws ≡ total (held heap) ws
  in_hands_same heap more ws ext own =
      total-ext (held more) (held heap) ws (All-map (held_same heap more ext) ws own)

  -- A turn of a worker.
  set_worker :
      (l : PacketListener) (i : ℕ) (w v : Worker)
      → get_elem? l.workers i ≡ some w
      → in_hands (record l { workers = set l.workers i v }) + held l.heap w
        ≡ in_hands l + held l.heap v
  unfolding in_hands
  set_worker l i w v e = total-set (held l.heap) l.workers i w v e

  pub on_worker-IsAccounted :
      (l : PacketListener) (i : ℕ) (w : Option Worker) (e : Event)
      → get_elem? l.workers i ≡ w
      → IsAccounted l
      → IsAccounted (on_worker l i w e)
  unfolding on_worker tally in_hands
  on_worker-IsAccounted l i (some (busy j)) (handle _) here a = record {
    some_cell = a.some_cell;
    owned = All-set (IsOwnedBy l.heap) l.workers i idle a.owned tt;
    sends = a.sends;
    balance = omega (arith, a.balance, set_worker l i (busy j) idle here);
  }
  on_worker-IsAccounted l i (some idle) (quit _) here a =
      if_cases IsAccounted l.is_done _ _
        (λ done. record {
          some_cell = a.some_cell;
          owned = All-set (IsOwnedBy l.heap) l.workers i gone a.owned tt;
          sends = a.sends;
          balance = omega (arith, a.balance, set_worker l i idle gone here);
        })
        λ running. a
  on_worker-IsAccounted l i w e here a = a

  take_job-IsAccounted :
      (l : PacketListener) (i : ℕ) (job : Job) (w : Option Worker)
      → l.stage ≡ sending job
      → get_elem? l.workers i ≡ w
      → IsAccounted l
      → IsAccounted (take_with l i job w)
  unfolding take_with tally in_hands
  take_job-IsAccounted l i job (some idle) here free a =
      let leaving : sent l.heap l.stage ≡ one_when (test (contents l.heap job)) = rw here refl in
      let own : IsOwn l.heap job = subst (IsOwnedAt l.heap) here a.sends in
      record {
        some_cell = a.some_cell;
        owned = All-set (IsOwnedBy l.heap) l.workers i (busy job) a.owned own;
        sends = tt;
        balance = omega (arith, a.balance, leaving, set_worker l i idle (busy job) free);
      }
  take_job-IsAccounted l i job w here free a = a

  pub on_send-IsAccounted :
      (l : PacketListener) (job : Job) (e : Event)
      → l.stage ≡ sending job
      → IsAccounted l
      → IsAccounted (on_send l job e)
  unfolding on_send tally in_hands
  on_send-IsAccounted l job give_up here a =
      if_cases IsAccounted l.is_done _ _
        (λ done.
          let leaving : sent l.heap l.stage ≡ one_when (test (contents l.heap job)) =
            rw here refl in
          record {
            some_cell = a.some_cell;
            owned = a.owned;
            sends = tt;
            balance = omega (arith, a.balance, leaving);
          })
        λ running. a
  on_send-IsAccounted l job (take_job i) here a = take_job-IsAccounted l i job _ here refl a
  on_send-IsAccounted l job e here a = a
