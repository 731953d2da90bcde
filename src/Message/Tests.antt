-- ===== src/Message/Tests.antt =====
-- Runs of the message functions, and their theorems at concrete inputs. The encoding of the
-- instance forgets all but one fixed message.
use caaspay_core.Prelude.{
  ◌≡◌, refl, none, Bytes, codes, text_eq, ok, err, errorf, Result, ◌*◌, int64, if◌then◌else◌,
}
use caaspay_core.Prelude.Dict.{empty}
use caaspay_core.Message.{
  TransportMessage, Json, validate, to_json, decode_transport_message, new_transport_message,
  second,
}
use caaspay_core.Message.Laws.{IsUsable, decode-accepts}

abbrev ping : TransportMessage
ping =
    new_transport_message (codes "m1") (codes "t1") (5 * second) (codes "ping") (codes "Ping")
      (codes "{}") none

ping_valid : validate ping ≡ none
unfolding validate new_transport_message int64
ping_valid = refl

-- A decoder that knows one text.
abbrev one_text : Bytes → Result TransportMessage
one_text b =
    if text_eq b (codes "{ping}")
    then ok ping
    else err (errorf (codes "unexpected end of JSON input"))

ok-injective : {a b : Bytes} → ◌≡◌ {A = Result Bytes} (ok a) (ok b) → b ≡ a
ok-injective h = cc

abbrev toy : Json
toy = record {
  marshal = λ m. ok (codes "{ping}");
  unmarshal = one_text;
  unmarshal_map = λ b. ok empty;
}

decoded :
    decode_transport_message toy (codes "{ping}") (codes "1-0")
    ≡ ok (record ping { transport_id = codes "1-0" })
unfolding decode_transport_message new_transport_message int64 text_eq
decoded = refl

law : (b : Bytes) → toy.marshal ping ≡ ok b → toy.unmarshal b ≡ ok ping
unfolding text_eq
law b h = rw (ok-injective h)

decode-accepts_example :
    (IsUsable ping (codes "1-0")
      → decode_transport_message toy (codes "{ping}") (codes "1-0")
        ≡ ok (record ping { transport_id = codes "1-0" }))
    × ((o : TransportMessage)
        → decode_transport_message toy (codes "{ping}") (codes "1-0") ≡ ok o
        → (o ≡ record ping { transport_id = codes "1-0" }) × IsUsable ping (codes "1-0"))
unfolding to_json
decode-accepts_example = decode-accepts toy ping (codes "{ping}") (codes "1-0") refl law
