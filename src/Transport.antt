-- ===== src/Transport.antt =====
-- crawler/net/transport: the messages of a connection (conn.go, msg.go) and the handshake
-- (transport.go), and crawler/net/querier.go, which asks a peer for its name. The connection is that
-- of go-ethereum's rlpx: what its calls return is an argument, as is the decoding by rlp.
pub mod Answered
use node_util.Base.{
  ℕ, ◌+◌, ◌%◌, ◌^◌, Bool, true, false, not, List, [], ◌∷◌, ◌++◌, map, Option, none, some, ◌==◌,
  if◌then◌else◌, length,
}
use node_util.Base.Int.{ℤ, pos, to_int64}
use node_util.ScanConfig.{Text}
use node_util.CrawlConfig.{Cap}

pub record Hello : Type 0 where
  pub version : ℕ
  pub name : Text
  pub caps : List Cap
  pub id : Text

pub record Msg : Type 0 where
  pub code : ℕ
  pub size : ℕ
  pub payload : Text
  pub received_at : ℕ

abbrev pub hello_code : ℕ
hello_code = 0

abbrev pub disconnect_code : ℕ
disconnect_code = 1

pub record Transport : Type 0 where
  pub name : Text
  pub version : ℕ
  pub caps : List Cap

-- A result of Go: a value or an error.
pub data Result (E A : Type 0) : Type 0 where
  failed : E → Result E A
  ok : A → Result E A

pub data TransportError (E : Type 0) : Type 0 where
  no_caps : TransportError E
  not_hello : ℕ → TransportError E
  io_error hello_failure disconnect_failure : E → TransportError E
  disconnected : ℕ → TransportError E
  dial_failed : E → TransportError E

-- What Setup writes: the version of the protocol and the public key.
abbrev pub our_hello : Text → Text → List Cap → Hello
our_hello key name caps = record { version = 4; name = name; caps = caps; id = key }

module _ {E : Type 0} where
  -- Conn.Read at a Unix time in milliseconds, with what rlpx reads.
  unfoldable pub read_msg : ℕ → Result E (ℕ × Text) → Result E Msg
  read_msg now (failed e) = failed e
  read_msg now (ok (code, data_)) =
      ok (record { code = code; size = length data_ % 2 ^ 32; payload = data_; received_at = now })

  -- Transport.Read; a Disconnect is its reason as an error.
  unfoldable pub read : (Msg → Result E ℕ) → Result E Msg → Result (TransportError E) Msg
  read decode_disconnect (failed e) = failed (io_error e)
  read decode_disconnect (ok msg) =
      if msg.code == disconnect_code
      then elim (decode_disconnect msg) [
        | failed e ↦ failed (disconnect_failure e)
        | ok reason ↦ failed (disconnected reason)
      ]
      else ok msg

  -- The rest of Setup after its message was written, with what Conn.Read gives.
  unfoldable pub await_hello :
      (Msg → Result E Hello) → Result E Msg → Transport → Transport × Option (TransportError E)
  await_hello decode (failed e) t = (t, some (io_error e))
  await_hello decode (ok msg) t =
      if msg.code == hello_code
      then elim (decode msg) [
        | failed e ↦ (t, some (hello_failure e))
        | ok hello ↦
            (record { name = hello.name; version = hello.version; caps = hello.caps }, none)
      ]
      else (t, some (not_hello msg.code))

  -- Setup, with the key of our side and Conn.Write, for capabilities that may be nil. An error of
  -- the write is not passed on.
  unfoldable pub setup :
      (Msg → Result E Hello)
      → (Hello → Option E)
      → Result E Msg
      → Text
      → Text
      → Option (List Cap)
      → Transport
      → Transport × Option (TransportError E)
  unfolding await_hello
  setup decode write reply key name none t = (t, some no_caps)
  setup decode write reply key name (some caps) t = elim (write (our_hello key name caps)) [
    | some e ↦ (t, none)
    | none ↦ await_hello decode reply t
  ]

-- Without Extra, as nothing in the repository sets extraQuery.
pub record PeerInfo : Type 0 where
  pub name : Text
  pub caps : List Text
  pub version : ℤ

abbrev pub new_transport : Transport
new_transport = record { name = []; version = 0; caps = [] }

module _ {E : Type 0} where
  -- What Query returns after Setup.
  abbrev pub info_from :
      (Cap → Text) → Transport × Option (TransportError E) → Result (TransportError E) PeerInfo
  info_from print (t, some e) = failed e
  info_from print (t, none) =
      ok (record { name = t.name; caps = map print t.caps; version = to_int64 t.version })

  -- Query, with the error of Dial; `name` is FakeName of the identity, `print` the String of a
  -- capability.
  unfoldable pub query :
      (Cap → Text)
      → (Msg → Result E Hello)
      → Option E
      → (Hello → Option E)
      → Result E Msg
      → Text
      → Text
      → Option (List Cap)
      → Result (TransportError E) PeerInfo
  unfolding setup
  query print decode (some e) write reply key name caps = failed (dial_failed e)
  query print decode none write reply key name caps =
      info_from print (setup decode write reply key name caps new_transport)

-- AddCap, on the nil or the list of capabilities.
unfoldable pub add_cap : Option (List Cap) → Cap → Option (List Cap)
add_cap none c = some (c ∷ [])
add_cap (some cs) c = some (cs ++ c ∷ [])
