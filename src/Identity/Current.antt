-- ===== src/Identity/Current.antt =====
-- The record that crawler/net/discovery/identity.go gives out is up to date.
use node_util.Base.{
  ℕ, ◌≡◌, true, false, inl, inr, Bool-cases, Option-cases, List, [], ◌∷◌, none, some, arith, ◌==◌,
}
use node_util.Identity.{
  Identity, value_of, set_entry, sign, get_node, new_identity, Call, set_call, node_call, call,
  calls,
}

-- A record that is not dirty holds the entries and the sequence number.
abbrev pub IsSigned : Identity → Type 0
IsSigned i = i.dirty ≡ false → i.cur ≡ some (record { pairs = i.entries; seq = i.seq })

set_entry-IsSigned : (i : Identity) (key v : ℕ) → IsSigned i → IsSigned (set_entry i key v)
unfolding set_entry
set_entry-IsSigned i key v ok = elim (Option-cases (value_of key i.entries)) [
  | inl new ↦ rw (new, set_entry) λ e. cc
  | inr (w, old) ↦ elim (Bool-cases (w == v)) [
    | inl same ↦ rw (old, set_entry, same) ok
    | inr other ↦ rw (old, set_entry, other) λ e. cc
  ]
]

sign-IsSigned : (i : Identity) → IsSigned i → IsSigned (sign i).0
unfolding sign
sign-IsSigned i ok = elim (Bool-cases i.dirty) [
  | inl stale ↦ λ e. ground (arith, stale)
  | inr clean ↦ λ e. ground (arith, clean, ok clean)
]

get_node-IsSigned : (i : Identity) → IsSigned i → IsSigned (get_node i).0
unfolding get_node sign
get_node-IsSigned i ok = elim (Bool-cases i.dirty) [
  | inl stale ↦ λ e. ground (arith, stale)
  | inr clean ↦ λ e. ground (arith, clean, ok clean)
]

calls-IsSigned : (cs : List Call) (i : Identity) → IsSigned i → IsSigned (calls i cs)
unfolding calls call
calls-IsSigned [] i ok = ok
calls-IsSigned (set_call key v ∷ cs) i ok =
    calls-IsSigned cs (set_entry i key v) (set_entry-IsSigned i key v ok)
calls-IsSigned (node_call ∷ cs) i ok = calls-IsSigned cs (get_node i).0 (get_node-IsSigned i ok)

new_identity-IsSigned : (a b c : ℕ × ℕ) → IsSigned (new_identity a b c)
unfolding new_identity
new_identity-IsSigned (k1, ip) (k2, udp) (k3, tcp) =
    let empty : Identity = record { entries = []; dirty = true; cur = none; seq = 0 } in
    let one = set_entry empty k1 ip in
    let two = set_entry one k2 udp in
    sign-IsSigned (set_entry two k3 tcp) (
      set_entry-IsSigned two k3 tcp
        (set_entry-IsSigned one k2 udp (set_entry-IsSigned empty k1 ip (λ e. cc))))

get_node_now :
    (i : Identity)
    → IsSigned i
    → (get_node i).1 ≡ some (record { pairs = i.entries; seq = (get_node i).0.seq })
unfolding get_node sign
get_node_now i ok = elim (Bool-cases i.dirty) [
  | inl stale ↦ ground (arith, stale)
  | inr clean ↦ ground (arith, clean, ok clean)
]

get_node_again : (i : Identity) → get_node (get_node i).0 ≡ get_node i
unfolding get_node sign
get_node_again i = elim (Bool-cases i.dirty) [
  | inl stale ↦ ground (arith, stale)
  | inr clean ↦ ground (arith, clean)
]

-- Whatever entries are set and however often the record is read, GetNode returns a record of the
-- entries as they are, with the sequence number; reading it again changes nothing and returns the
-- same record.
pub get_node-calls :
    (a b c : ℕ × ℕ) (cs : List Call)
    → ((get_node (calls (new_identity a b c) cs)).1
        ≡ some (record {
          pairs = (calls (new_identity a b c) cs).entries;
          seq = (get_node (calls (new_identity a b c) cs)).0.seq;
        }))
      × (get_node (get_node (calls (new_identity a b c) cs)).0
          ≡ get_node (calls (new_identity a b c) cs))
get_node-calls a b c cs =
    let i = calls (new_identity a b c) cs in
    (
      get_node_now i (calls-IsSigned cs (new_identity a b c) (new_identity-IsSigned a b c)),
      get_node_again i,
    )
