-- ===== src/Transport/Reading.antt =====
-- readGroup: one XREADGROUP and what becomes of each entry.
pub mod Batch
pub mod Packages
use caaspay_core.Prelude.{
  ℕ, Bool, true, false, Option, none, some, Text, Bytes, codes, List, [], ◌∷◌, ◌++◌, Error, errorf,
  Result, ok, err,
}
use caaspay_core.Message.{TransportMessage, Json, decode_transport_message}
use caaspay_core.Codec.{Coding, process_data}
use caaspay_core.Transport.{
  RedisTransport, Env, Entry, Body, missing, not_string, string, ReadReply, nil, failed, streams,
  Call, xread_group, xack,
}
use caaspay_core.Transport.Act.{Act, pure, ask, tell, gets, ◌>>=◌, ◌>>◌}
use caaspay_core.Transport.Streams.{update_stream_subscription_status}

abbrev pub coding : RedisTransport → Coding
coding r = record {
  use_compression = r.use_compression;
  use_encryption = r.use_encryption;
  encryption_key = r.encryption_key;
}

module _ (e : Env) where
  unfoldable pub decode_processed : Text → Result Bytes → Result TransportMessage
  decode_processed id (err x) = err x
  decode_processed id (ok processed) = decode_transport_message e.json processed id

  unfoldable pub decode_body : Coding → Text → Body → Result TransportMessage
  unfolding decode_processed
  decode_body c id missing = err (errorf (codes "Missing 'body' field in message"))
  decode_body c id not_string = err (errorf (codes "'body' field is not a string"))
  decode_body c id (string b) = decode_processed id (process_data e.crypto c b)

  -- What one entry decodes to.
  unfoldable pub decode_entry : Coding → Entry → Result TransportMessage
  unfolding decode_body
  decode_entry c entry = decode_body c entry.id entry.body

  -- An entry that does not decode is acknowledged and dropped.
  unfoldable pub accept :
      (group stream : Text) → Entry → Result TransportMessage → Act (List TransportMessage)
  accept group stream entry (err _) = do tell (xack stream group entry.id); pure []
  accept group stream entry (ok m) = pure (m ∷ [])

  unfoldable pub read_entries : (group stream : Text) → List Entry → Act (List TransportMessage)
  unfolding accept
  read_entries group stream [] = pure []
  read_entries group stream (entry ∷ entries) = do
    decoded ← gets (λ r. decode_entry (coding r) entry)
    kept ← accept group stream entry decoded
    rest ← read_entries group stream entries
    pure (kept ++ rest)

  unfoldable pub read_streams : Text → List (Text × List Entry) → Act (List TransportMessage)
  unfolding read_entries
  read_streams group [] = pure []
  read_streams group ((stream, entries) ∷ more) = do
    first ← read_entries group stream entries
    rest ← read_streams group more
    pure (first ++ rest)

  unfoldable pub read_reply : Text → ReadReply → Act (Result (List TransportMessage))
  unfolding read_streams
  read_reply group nil = pure (ok [])
  read_reply group (failed x) = pure (err x)
  read_reply group (streams res) = do messages ← read_streams group res; pure (ok messages)

  -- The nil slice of messages is the empty list.
  unfoldable pub read_group : (stream group consumer : Text) → Act (Result (List TransportMessage))
  unfolding read_reply update_stream_subscription_status
  read_group stream group consumer = do
    update_stream_subscription_status stream true
    reply ← (λ r.
        ask e.reading (xread_group group consumer stream r.stream_read_count r.block_timeout) r)
    read_reply group reply
