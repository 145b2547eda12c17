-- ===== src/Identity.antt =====
-- crawler/net/discovery/identity.go: the entries of the local node and its signed record. Keys and
-- values of entries are numbers; signing, which panics on a record it cannot sign, is left out.
pub mod Current
mod Tests
use node_util.Base.{
  ℕ, ◌+◌, ◌%◌, ◌^◌, Bool, true, false, List, [], ◌∷◌, Option, none, some, ◌==◌, if◌then◌else◌,
}
use node_util.Base.Int.{u64}

pub record Record : Type 0 where
  pub pairs : List (ℕ × ℕ)
  pub seq : ℕ

pub record Identity : Type 0 where
  pub entries : List (ℕ × ℕ)
  pub dirty : Bool
  pub cur : Option Record
  pub seq : ℕ

abbrev pub value_of : ℕ → List (ℕ × ℕ) → Option ℕ
value_of key [] = none
value_of key ((k, v) ∷ rest) = if k == key then some v else value_of key rest

-- A write to the map: the entry of the key is replaced.
abbrev pub put : List (ℕ × ℕ) → ℕ → ℕ → List (ℕ × ℕ)
put [] key v = (key, v) ∷ []
put ((k, w) ∷ rest) key v =
    let more = put rest key v in if k == key then (key, v) ∷ rest else (k, w) ∷ more

unfoldable pub set_entry : Identity → ℕ → ℕ → Identity
set_entry i key v =
    let changed = record i { entries = put i.entries key v; dirty = true } in
    elim (value_of key i.entries) [ none ↦ changed | some w ↦ if w == v then i else changed ]

unfoldable pub sign : Identity → Identity × Option Record
sign i =
    if i.dirty
    then (let next = (i.seq + 1) % u64 in
        let r : Record = record { pairs = i.entries; seq = next } in
        (record i { seq = next; cur = some r; dirty = false }, some r))
    else (i, i.cur)

unfoldable pub get_node : Identity → Identity × Option Record
unfolding sign
get_node i = if i.dirty then sign i else (i, i.cur)

-- The keys of the address and the two ports are arguments, with their values.
unfoldable pub new_identity : (ip_entry udp_entry tcp_entry : ℕ × ℕ) → Identity
unfolding set_entry sign
new_identity (k1, ip) (k2, udp) (k3, tcp) =
    let empty : Identity = record { entries = []; dirty = true; cur = none; seq = 0 } in
    (sign (set_entry (set_entry (set_entry empty k1 ip) k2 udp) k3 tcp)).0

pub data Call : Type 0 where
  set_call : (key value : ℕ) → Call
  node_call : Call

unfoldable pub call : Identity → Call → Identity
unfolding set_entry get_node
call i (set_call key v) = set_entry i key v
call i node_call = (get_node i).0

unfoldable pub calls : Identity → List Call → Identity
unfolding call
calls i [] = i
calls i (c ∷ cs) = calls (call i c) cs
