-- ===== src/Protocol/Send/Answer.antt =====
-- What `WIXPClient.send` (src/cmnd_linux/protocol.py) returns and raises.
use linux_cmnd.Prelude.{ℕ, ◌≤◌, ◌≡◌, String, Bool, true, false, not, ◌||◌, some, arith, length, ap}
use linux_cmnd.Result.{Error, Result, ok, err, protocol_error}
use linux_cmnd.Result.Chain.{◌>>=◌, refuse, Ensures, Ensures-ok, Ensures-bind, Ensures-refuse}
use linux_cmnd.Json.{Json, Fields, lookup, is_text, null, bool, int, float, str, arr, obj}
use linux_cmnd.Json.Access.{equals_int}
use linux_cmnd.Config.Types.{Address, IpLibrary}
use linux_cmnd.Protocol.Requests.{Message, to_json}
use linux_cmnd.Protocol.Requests.Export.{parsed_address-some}
use linux_cmnd.Protocol.Send.{
  Transport, Response, max_response, exchange, wrapped, check_response, send, wixp_url, object_of,
}

module _ (lib : IpLibrary) (net : Transport) where
  pub record IsExchange (a : Address) (port : ℕ) (message : Message) (v : Json) : Type 0 where
    pub response : Response
    pub answered : net.open_url (wixp_url lib net a port) (to_json message) ≡ ok response
    pub bounded : length response.read ≤ max_response
    pub decoded : net.loads response.read ≡ ok v

  exchange-IsExchange :
      (a : Address) (port : ℕ) (message : Message)
      → Ensures (IsExchange a port message) (exchange lib net a port message)
  unfolding exchange
  exchange-IsExchange a port message = Ensures-bind _ _ λ response r. Ensures-refuse _ _ _ λ _.
      Ensures-refuse _ _ _ λ small. record {
        holds = λ v d. record {
          response = response;
          answered = r;
          bounded = ground arith;
          decoded = d;
        };
      }

  -- The fields are those of a response to the request, which came within the limit.
  pub record IsAnswer (target : String) (message : Message) (port : ℕ) (fields : Fields)
      : Type 0 where
    pub address : Address
    pub literal : lib.ip_address target ≡ some address
    pub exchanged : IsExchange address port message (obj fields)
    pub cookie : equals_int message.cookie (lookup "Cookie" fields) ≡ true
    pub function : is_text message.fun (lookup "Fun" fields) ≡ true
    pub type : is_text "Response" (lookup "CmdType" fields) ≡ true

wrapped-ok : (r : Result Json) (v : Json) → wrapped r ≡ ok v → r ≡ ok v
wrapped-ok (ok w) v h = h
wrapped-ok (err e) v h = cc

object_of-obj : (v : Json) (fields : Fields) → object_of v ≡ ok fields → v ≡ obj fields
object_of-obj (obj f) fields h = ap obj (ok_fields h)
  where
    ok_fields : ok f ≡ ok fields → f ≡ fields
    ok_fields e = cc
object_of-obj null fields h = cc
object_of-obj (bool b) fields h = cc
object_of-obj (int z) fields h = cc
object_of-obj (float m k) fields h = cc
object_of-obj (str s) fields h = cc
object_of-obj (arr items) fields h = cc

not-eq_false : (b : Bool) → not b ≡ false → b ≡ true
not-eq_false b h = ground arith

neither : (a b : Bool) → (not a || not b) ≡ false → (a ≡ true) × (b ≡ true)
neither a b h = ground arith

abbrev pub IsProtocol : Error → Type 0
IsProtocol (protocol_error m) = Unit
IsProtocol _ = ⊥

module _ (lib : IpLibrary) (net : Transport) where
  -- What `send` returns is an object of at most 1 MiB that was answered to this request at the
  -- literal address: it has the cookie and the function of the request and is a response.
  pub send-IsAnswer :
      (target : String) (message : Message) (port : ℕ)
      → Ensures (IsAnswer lib net target message port) (send lib net target message port)
  unfolding send check_response
  send-IsAnswer target message port = Ensures-bind _ _ λ a p. Ensures-bind _ _ λ value w.
      Ensures-bind _ _ λ fields o. Ensures-refuse _ _ _ λ cookie. Ensures-refuse _ _ _ λ same.
        let done =
          (exchange-IsExchange lib net a port message).holds value (wrapped-ok _ value w) in
        let both = neither (is_text message.fun (lookup "Fun" fields)) _ same in
        Ensures-ok _ (record {
          address = a;
          literal = parsed_address-some _ a p;
          exchanged = record {
            response = done.response;
            answered = done.answered;
            bounded = done.bounded;
            decoded = rw (← object_of-obj value fields o) done.decoded;
          };
          cookie = not-eq_false _ cookie;
          function = both.0;
          type = both.1;
        })

  checked_fails :
      (message : Message) (r : Result Json) (e : Error)
      → (wrapped r >>= check_response message) ≡ err e
      → IsProtocol e
  unfolding ◌>>=◌ check_response refuse
  checked_fails message (err x) e h = ground arith
  checked_fails message (ok v) e h = ground arith

  -- At a literal address, whatever the network or the decoder raises, and whatever the TV answers,
  -- the exception is a `ProtocolError`.
  pub send_fails :
      (target : String) (message : Message) (port : ℕ) (a : Address) (e : Error)
      → lib.ip_address target ≡ some a
      → send lib net target message port ≡ err e
      → IsProtocol e
  unfolding send ◌>>=◌
  send_fails target message port a e literal h =
      checked_fails message (exchange lib net a port message) e (rw literal at h)
