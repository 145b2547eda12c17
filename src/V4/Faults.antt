-- ===== src/V4/Faults.antt =====
-- The pings that ENR requests of an unknown node cause in crawler/net/discovery/v4/enr.go.
use node_util.Base.{
  ℕ, ◌+◌, ◌%◌, ◌<◌, ◌≡◌, true, false, none, some, arith, ltb, if◌then◌else◌, length, min, List, [],
  ◌∷◌, All, ◌≤◌,
}
use node_util.Node.{NodeId}
use node_util.V4.{Database, Handler, Config}
use node_util.V4.Bond.{
  check_bond, is_faulty, mark_fault, make_ping_request, bond_expiration, lookup,
  max_global_failures, send_packet,
}
use node_util.V4.FindNode.{Wire}
use node_util.V4.Requests.{Context, World, verify_enr_request, is_expired}

module _ (data_base : Database) (wire : Wire) where
  -- Requests of one node that are handled one after another, each with its own clock, its own
  -- expiration and what happens outside meanwhile.
  unfoldable pub verify_all : List (Context × (World × ℕ)) → Handler data_base → Handler data_base
  verify_all [] h = h
  verify_all ((c, (w, expiration)) ∷ asks) h =
      verify_all asks (verify_enr_request data_base wire h c w expiration).0

  module _ (id : NodeId) where
    abbrev pub faults : Handler data_base → ℕ
    faults h = elim (lookup id h.failure_map) [ none ↦ 0 | some n ↦ n ]

    -- A request that is looked at, at a time when its sender has no bond, and whose ping is not
    -- answered.
    pub record IsUnanswered (store : data_base.Db) (config : Config) (ask : Context × (World × ℕ))
        : Type 0 where
      pub from : ask.0.from_id ≡ id
      pub on : config.response_enr ≡ true
      pub in_time : is_expired ask.0.seconds ask.1.1 ≡ false
      pub unbonded : data_base.last_pong store id ask.0.ip + bond_expiration ≤ ask.0.now
      pub silent : ask.1.0.answer ≡ none

    once :
        (h : Handler data_base) (c : Context) (w : World) (expiration : ℕ)
        → IsUnanswered h.store h.config (c, (w, expiration))
        → let u = (verify_enr_request data_base wire h c w expiration).0 in
          (faults u ≡ (faults h + 1) % 65536)
          × (((u.store ≡ h.store) × (u.config ≡ h.config))
              × (length u.sent
                  ≡ length h.sent
                    + (if ltb max_global_failures ((faults h + 1) % 65536) then 0 else 1)))
    unfolding verify_enr_request mark_fault is_faulty make_ping_request check_bond send_packet
    once h c w expiration ok =
        let old : check_bond data_base h c.now c.from_id c.ip ≡ false =
          rw ok.from (ground (arith, ok.unbonded)) in
        (
          ground (arith, ok.from, old, ok.on, ok.in_time, ok.silent),
          (
            (
              ground (arith, ok.from, old, ok.on, ok.in_time, ok.silent),
              ground (arith, ok.from, old, ok.on, ok.in_time, ok.silent),
            ),
            ground (arith, ok.from, old, ok.on, ok.in_time, ok.silent),
          ),
        )

    sent_after :
        (asks : List (Context × (World × ℕ))) (h : Handler data_base)
        → faults h + length asks < 65536
        → All (IsUnanswered h.store h.config) asks
        → length (verify_all asks h).sent + min (faults h) 5
          ≡ length h.sent + min (faults h + length asks) 5
    unfolding verify_all
    sent_after [] h fits ok = omega arith
    sent_after ((c, (w, expiration)) ∷ asks) h fits ok =
        let first = once h c w expiration ok.0 in
        let u = (verify_enr_request data_base wire h c w expiration).0 in
        let more : faults u ≡ faults h + 1 = omega (arith, first.0) in
        let rest = sent_after asks u (omega arith) (rw (first.1.0.0, first.1.0.1) ok.1) in
        ground (arith, first.1.1, rest, more)

    -- If fewer than 65536 ENR requests of a node that has no bond when they are handled, and that
    -- answers no ping, are handled one after another, and it had no faults before, then it is pinged
    -- for the first five of them only, whenever they come.
    pub verify_all-sent :
        (asks : List (Context × (World × ℕ))) (h : Handler data_base)
        → length asks < 65536
        → faults h ≡ 0
        → All (IsUnanswered h.store h.config) asks
        → length (verify_all asks h).sent ≡ length h.sent + min (length asks) 5
    verify_all-sent asks h fits fresh ok = omega (arith, sent_after asks h (omega arith) ok)
