-- ===== src/Transport/Answered.antt =====
-- When Query of crawler/net/querier.go gives information on a peer.
use node_util.Base.{
  ◌≡◌, ◌⊎◌, refl, inl, inr, Bool-cases, Option-cases, List, [], map, Option, none, some, ◌==◌,
  if◌then◌else◌,
}
use node_util.ScanConfig.{Text}
use node_util.CrawlConfig.{Cap}
use node_util.Base.Int.{to_int64}
use node_util.Transport.{
  Hello, Msg, hello_code, Result, failed, ok, TransportError, await_hello, setup, info_from,
  our_hello, PeerInfo, new_transport, query,
}

unfoldable pub info_of : (Cap → Text) → Hello → PeerInfo
info_of print hello = record {
  name = hello.name;
  caps = map print hello.caps;
  version = to_int64 hello.version;
}

module _ {E : Type 0} where
  -- The hello that a peer answers with, if it does.
  unfoldable pub hello_of : (Msg → Result E Hello) → Result E Msg → Option Hello
  hello_of decode (failed e) = none
  hello_of decode (ok msg) =
      if msg.code == hello_code
      then elim (decode msg) [ failed e ↦ none | ok hello ↦ some hello ]
      else none

  Result-cases : {A : Type 0} (r : Result E A) → ((e : E) × (r ≡ failed e)) ⊎ ((a : A) × (r ≡ ok a))
  Result-cases (failed e) = inl (e, refl)
  Result-cases (ok a) = inr (a, refl)

  abbrev pub answer_of : {A : Type 0} → Result (TransportError E) A → Option A
  answer_of (failed e) = none
  answer_of (ok a) = some a

  -- What a query comes to, in terms of the write and of the hello.
  unfoldable pub expected : (Cap → Text) → Option E → Option Hello → Option PeerInfo
  expected print (some e) hello = some (record { name = []; caps = []; version = to_int64 0 })
  expected print none none = none
  expected print none (some h) = some (info_of print h)

  answered :
      (print : Cap → Text) (decode : Msg → Result E Hello) (reply : Result E Msg)
      → answer_of (info_from print (await_hello decode reply new_transport))
        ≡ expected print none (hello_of decode reply)
  unfolding await_hello hello_of info_of expected
  answered print decode (failed x) = refl
  answered print decode (ok msg) = elim (Bool-cases (msg.code == hello_code)) [
    | inr other ↦ rw other refl
    | inl hello ↦ elim (Result-cases (decode msg)) [
      | inl (e, fails) ↦ rw (hello, fails) refl
      | inr (h, decoded) ↦ rw (hello, decoded) refl
    ]
  ]

  -- Once it has dialled, a querier with capabilities that can write its message gives exactly what
  -- the peer's hello says, or an error if there is none; if the message cannot be written, it gives
  -- an empty answer without an error.
  pub query_lem :
      (print : Cap → Text) (decode : Msg → Result E Hello) (write : Hello → Option E)
      (reply : Result E Msg) (key name : Text) (caps : List Cap)
      → answer_of (query print decode none write reply key name (some caps))
        ≡ expected print (write (our_hello key name caps)) (hello_of decode reply)
  unfolding query setup await_hello hello_of info_of expected
  query_lem print decode write reply key name caps =
      elim (Option-cases (write (our_hello key name caps))) [
        | inr (e, fails) ↦ rw (fails, query, setup) refl
        | inl written ↦ rw (written, query, setup) (answered print decode reply)
      ]
