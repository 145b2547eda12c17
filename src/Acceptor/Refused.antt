-- ===== src/Acceptor/Refused.antt =====
-- What the limiter of crawler/net/discovery/acceptor.go does with an address above its bound.
use native.Mathlib.Nat.{div-eq_of_lt}
use node_util.Base.{
  ℕ, lt→ltb, ◌%◌, ◌+◌, ◌-◌, ◌*◌, ◌/◌, ◌^◌, ◌<◌, ◌≤◌, ◌≡◌, refl, true, inl, inr, Bool-cases, List,
  [], ◌∷◌, some, arith, ltb,
}
use node_util.Base.Int.{pos, to_int64, u64}
use node_util.Acceptor.{AcceptLimit, second, squared, decay, update, is_above, accept_all}

-- Each packet comes within the square of the threshold after the second of the packet before it.
unfoldable pub IsSteady : ℕ → ℕ → List ℕ → Type 0
IsSteady th last [] = Unit
IsSteady th last (now ∷ nows) = (now - last * second < th * th) × IsSteady th (now / second) nows

wrap_fits : (n : ℕ) → n < 2 ^ 63 → to_int64 (n % u64) ≡ pos n
unfolding to_int64
wrap_fits n h = ground arith

squared_fits : (th : ℕ) → th * th < 2 ^ 63 → squared th ≡ pos (th * th)
unfolding squared
squared_fits th h = wrap_fits (th * th) h

-- The decay takes one away, as much as the packet has added.
decay_one :
    (c elapsed th : ℕ) → th * th < 2 ^ 63 → elapsed < th * th → decay c elapsed th ≡ some (c - 1)
unfolding decay
decay_one c elapsed th fits short =
    let positive : ltb 0 (th * th) ≡ true = lt→ltb 0 (th * th) (omega arith) in
    rw (squared_fits th fits, decay, positive, div-eq_of_lt short) refl

update_steady :
    (v : AcceptLimit) (th now : ℕ)
    → th * th < 2 ^ 63
    → now - v.last * second < th * th
    → (w : AcceptLimit) × ((update v th now ≡ some w) × ((v.c ≤ w.c) × (w.last ≡ now / second)))
unfolding update
update_steady v th now fits short = elim (Bool-cases (ltb th (now - v.last * second))) [
  | inl late ↦ (
    record { c = v.c + 1 - 1; last = now / second },
    (
      rw (late, decay_one (v.c + 1) (now - v.last * second) th fits short) refl,
      (omega arith, refl),
    ),
  )
  | inr quick ↦ (record { c = v.c + 1; last = now / second }, (rw quick refl, (omega arith, refl)))
]

-- If the square of the threshold fits an int64, then an address whose counter is above the bound is
-- refused for as long as none of its packets comes later than that square, in nanoseconds, after the
-- second of the packet before it; its counter stays above the bound.
pub accept_all-refused :
    (nows : List ℕ) (v : AcceptLimit) (th bound : ℕ)
    → th * th < 2 ^ 63
    → is_above v bound ≡ true
    → IsSteady th v.last nows
    → (w : AcceptLimit) × ((accept_all v th bound nows ≡ some (w, 0)) × (is_above w bound ≡ true))
unfolding accept_all is_above IsSteady
accept_all-refused [] v th bound fits above steady = (v, (refl, above))
accept_all-refused (now ∷ nows) v th bound fits above steady =
    let (w, (stepped, (more, last))) = update_steady v th now fits steady.0 in
    let still : is_above w bound ≡ true = ground (arith, more, above) in
    let (z, (rest, end)) = accept_all-refused nows w th bound fits still (rw last steady.1) in
    (z, (rw (stepped, rest, still) refl, end))
