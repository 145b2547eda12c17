-- ===== src/Scanner/Controller/Pending.antt =====
-- Which calls of scanner/scanner/scanner.go wait for a thread, and how its threads change that.
use node_util.Base.{
  get_elem?-set, some_inj, subst, ℕ, ◌+◌, ◌≡◌, ◌≢◌, refl, ◌∙◌, sym, ap, Bool, true, false, inl, inr,
  Bool-cases, Option, none, some, arith, one_when, get_elem?, set, ◌==◌, total, total-set,
  if◌then◌else◌,
}
use node_util.Scanner.{ScannedItem}
use node_util.Scanner.Controller.{
  Callback, untaken, pending, closed, holds, Caller, offering, awaiting, returned, ScanCall, Thread,
  idle, gone, scanning, Controller, take_item, hand_result, put_call,
}

abbrev pub works_on : ℕ → Thread → ℕ
works_on c (scanning d) = one_when (d == c)
works_on c _ = 0

abbrev pub is_pending : Callback → Bool
is_pending pending = true
is_pending _ = false

-- A call that is not there yet has no callback.
abbrev pub callback_of : Option ScanCall → Callback
callback_of none = untaken
callback_of (some call) = call.callback

-- The threads that work for a call.
unfoldable pub workers_of : Controller → ℕ → ℕ
workers_of s c = total (works_on c) s.threads

unfoldable pub needs_work : Controller → ℕ → ℕ
needs_work s c = one_when (is_pending (callback_of (get_elem? s.calls c)))

abbrev pub IsFresh : Callback → Caller → Type 0
IsFresh callback offering = callback ≡ untaken
IsFresh callback _ = Unit

pub record IsServed (s : Controller) : Type 0 where
  pub served : (c : ℕ) → workers_of s c ≡ needs_work s c
  pub offers :
      (c : ℕ) (call : ScanCall)
      → get_elem? s.calls c ≡ some call
      → IsFresh call.callback call.caller

offers-set :
    (s : Controller) (c : ℕ) (call new : ScanCall)
    → get_elem? s.calls c ≡ some call
    → IsFresh new.callback new.caller
    → IsServed s
    → (d : ℕ) (x : ScanCall) → get_elem? (set s.calls c new) d ≡ some x
    → IsFresh x.callback x.caller
offers-set s c call new here fresh ok d x e =
    let seen = sym (get_elem?-set s.calls c d call new here) ∙ e in
    elim (Bool-cases (c == d)) [
      | inl same ↦ subst (λ y. IsFresh y.callback y.caller) (some_inj (rw same at seen)) fresh
      | inr other ↦ ok.offers d x (rw other at seen)
    ]

-- How many works there are to do after a write to a call.
needs-set :
    (s : Controller) (c d : ℕ) (call new : ScanCall)
    → get_elem? s.calls c ≡ some call
    → one_when (is_pending (callback_of (get_elem? (set s.calls c new) d)))
      ≡ (if c == d then one_when (is_pending new.callback) else needs_work s d)
unfolding needs_work
needs-set s c d call new here = rw (get_elem?-set s.calls c d call new here) (ground arith)

needs_of :
    (s : Controller) (c d : ℕ) (call : ScanCall)
    → get_elem? s.calls c ≡ some call
    → (c == d) ≡ true
    → needs_work s d ≡ one_when (is_pending call.callback)
unfolding needs_work
needs_of s c d call here same =
    let e : c ≡ d = ground arith in
    subst
      (λ k.
        one_when (is_pending (callback_of (get_elem? s.calls k)))
        ≡ one_when (is_pending call.callback))
      e (rw here refl)

pub put_call-IsServed :
    (s : Controller) (c : ℕ) (call new : ScanCall)
    → get_elem? s.calls c ≡ some call
    → is_pending new.callback ≡ is_pending call.callback
    → IsFresh new.callback new.caller
    → IsServed s
    → IsServed (put_call s c new)
unfolding workers_of needs_work
put_call-IsServed s c call new here same fresh ok = record {
  served = λ d. elim (Bool-cases (c == d)) [
    | inl eq ↦ ground (
      arith,
      ok.served d,
      needs-set s c d call new here,
      needs_of s c d call here eq,
      ap one_when same,
    )
    | inr ne ↦ ground (arith, ok.served d, needs-set s c d call new here)
  ];
  offers = offers-set s c call new here fresh ok;
}

-- A thread and the call that it begins or ends to work for change together.
move-IsServed :
    (s : Controller) (t c : ℕ) (old v : Thread) (call new : ScanCall)
    → get_elem? s.threads t ≡ some old
    → get_elem? s.calls c ≡ some call
    → ((d : ℕ)
        → works_on d v + (if c == d then one_when (is_pending call.callback) else 0)
          ≡ works_on d old + (if c == d then one_when (is_pending new.callback) else 0))
    → IsFresh new.callback new.caller
    → IsServed s
    → IsServed (record s { threads = set s.threads t v; calls = set s.calls c new })
unfolding workers_of needs_work
move-IsServed s t c old v call new held here even fresh ok = record {
  served = λ d.
      let moved = total-set (works_on d) s.threads t old v held in
      elim (Bool-cases (c == d)) [
        | inl eq ↦ ground (
          arith,
          ok.served d,
          moved,
          even d,
          needs-set s c d call new here,
          needs_of s c d call here eq,
        )
        | inr ne ↦ ground (arith, ok.served d, moved, even d, needs-set s c d call new here)
      ];
  offers = offers-set s c call new here fresh ok;
}

-- A call that a thread works for waits for it.
busy_pending :
    (s : Controller) (t c : ℕ) (call : ScanCall)
    → get_elem? s.threads t ≡ some (scanning c)
    → get_elem? s.calls c ≡ some call
    → IsServed s
    → is_pending call.callback ≡ true
unfolding workers_of needs_work
busy_pending s t c call busy here ok =
    let without = total-set (works_on c) s.threads t (scanning c) idle busy in
    let needed : needs_work s c ≡ one_when (is_pending call.callback) = rw here refl in
    ground (arith, without, needed, ok.served c)

pub take_item-IsServed :
    (s : Controller) (t : ℕ) (th : Option Thread) (c : ℕ) (call : ScanCall)
    → get_elem? s.threads t ≡ th
    → get_elem? s.calls c ≡ some call
    → IsServed s
    → IsServed (take_item s t th c call)
unfolding take_item
take_item-IsServed s t (some idle) c call free here ok = take_from call.caller refl
  where
    taken : ScanCall
    taken = record call { caller = awaiting; callback = pending }

    take_from :
        (caller : Caller)
        → call.caller ≡ caller
        → IsServed (elim caller [
          | offering ↦ record s {
            threads = set s.threads t (scanning c);
            calls = set s.calls c taken;
          }
          | _ ↦ s
        ])
    take_from offering at_offer =
        let fresh : call.callback ≡ untaken =
          subst (IsFresh call.callback) at_offer (ok.offers c call here) in
        let unasked : is_pending call.callback ≡ false = ap is_pending fresh in
        move-IsServed s t c idle (scanning c) call taken free here (λ d. ground (arith, unasked)) tt
          ok
    take_from awaiting _ = ok
    take_from (returned o) _ = ok
take_item-IsServed s t th c call free here ok = ok

-- A caller whose item was taken offers it no more.
pub taken-IsFresh :
    (callback new : Callback) (caller : Caller)
    → IsFresh callback caller
    → callback ≢ untaken
    → IsFresh new caller
taken-IsFresh callback new offering fresh taken = absurd (taken fresh)
taken-IsFresh callback new awaiting fresh taken = tt
taken-IsFresh callback new (returned o) fresh taken = tt

pub hand_result-IsServed :
    (s : Controller) (t c : ℕ) (call : ScanCall) (r : Option ScannedItem)
    → get_elem? s.threads t ≡ some (scanning c)
    → get_elem? s.calls c ≡ some call
    → IsServed s
    → IsServed (hand_result s t c call r)
unfolding hand_result
hand_result-IsServed s t c call r busy here ok = deliver_as r
  where
    wanted : is_pending call.callback ≡ true
    wanted = busy_pending s t c call busy here ok

    after : (new : Callback) → IsFresh new call.caller
    after new =
        taken-IsFresh call.callback new call.caller (ok.offers c call here)
          λ untaken_yet. cc (wanted, ap is_pending untaken_yet)

    deliver_as : (r : Option ScannedItem) → IsServed (hand_result s t c call r)
    deliver_as (some x) =
        let new = record call { callback = holds x } in
        move-IsServed s t c (scanning c) idle call new busy here (λ d. ground (arith, wanted))
          (after new.callback) ok
    deliver_as none =
        let new = record call { callback = closed } in
        move-IsServed s t c (scanning c) gone call new busy here (λ d. ground (arith, wanted))
          (after new.callback) ok
