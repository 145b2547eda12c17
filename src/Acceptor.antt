-- ===== src/Acceptor.antt =====
-- The rate limiter of crawler/net/discovery/acceptor.go, for one address: its map has an entry for
-- each, and a missing entry counts from zero. Times are in nanoseconds, `last` is in seconds.
-- The two reads of the clock in an update are one.
pub mod Refused
mod Tests
use node_util.Base.{
  ℕ, ◌+◌, ◌-◌, ◌*◌, ◌/◌, ◌%◌, ◌≤◌, Bool, true, false, List, [], ◌∷◌, Option, none, some, ltb,
  if◌then◌else◌, ◌>>=◌,
}
use node_util.Base.Int.{ℤ, pos, negsuc, u64, to_int64}

pub record AcceptLimit : Type 0 where
  pub c : ℕ
  pub last : ℕ

abbrev pub second : ℕ
second = 1_000_000_000

-- `timeDeltaTh * timeDeltaTh` wraps at 64 bits.
unfoldable pub squared : ℕ → ℤ
unfolding to_int64
squared th = to_int64 (th * th % u64)

-- What is left of a counter after a quiet time longer than the threshold; none for a division by zero.
unfoldable pub decay : ℕ → ℕ → ℕ → Option ℕ
unfolding squared
decay c elapsed th = elim (squared th) [
  | pos d ↦ if ltb 0 d then some (c - (elapsed / d + 1)) else none
  | negsuc k ↦ some (c + elapsed / (k + 1) - 1)
]

unfoldable pub update : AcceptLimit → ℕ → ℕ → Option AcceptLimit
unfolding decay
update v th now =
    let elapsed = now - v.last * second in
    let decayed : Option AcceptLimit =
      decay (v.c + 1) elapsed th >>= λ c. some (record { c = c; last = now / second }) in
    if ltb th elapsed then decayed else some (record { c = v.c + 1; last = now / second })

unfoldable pub is_above : AcceptLimit → ℕ → Bool
is_above v bound = ltb bound v.c

-- poolAcceptor.Accept with limits, on packets of the address that come at these times: the limit after
-- them, and how many were passed on.
unfoldable pub accept_all : AcceptLimit → ℕ → ℕ → List ℕ → Option (AcceptLimit × ℕ)
unfolding update is_above
accept_all v th bound [] = some (v, 0)
accept_all v th bound (now ∷ nows) = update v th now >>= λ w.
    accept_all w th bound nows >>= λ r. some (r.0, if is_above w bound then r.1 else r.1 + 1)
