-- ===== src/Transport/Reading/Batch.antt =====
-- What `readGroup` returns and acknowledges, for every batch.
use caaspay_core.Prelude.{
  true, ◌≡◌, refl, none, Text, Bytes, List, [], ◌∷◌, ◌++◌, arith, Result, ok, err, length,
}
use caaspay_core.Message.{TransportMessage, validate, to_json}
use caaspay_core.Message.Laws.{decode-to_json}
use caaspay_core.Codec.{Coding, CryptoLaws, prepare_data}
use caaspay_core.Codec.RoundTrip.{process-prepare}
use caaspay_core.Transport.{
  RedisTransport, Env, Entry, ReadReply, nil, failed, streams, History, xread_group, xack, string,
}
use caaspay_core.Transport.Streams.{marked}
use caaspay_core.Transport.Reading.{
  coding, accept, decode_entry, read_entries, read_streams, read_reply, read_group,
}
use caaspay_core.Transport.Sending.{emit, emit_json, publish_encoded, publish, draw_nonce}

abbrev one_kept : Result TransportMessage → List TransportMessage
one_kept (ok m) = m ∷ []
one_kept (err _) = []

abbrev one_refused : (group stream : Text) → Entry → Result TransportMessage → History → History
one_refused group stream x (ok m) h = h
one_refused group stream x (err _) h = xack stream group x.id ∷ h

module _ (e : Env) (c : Coding) where
  -- The messages of the entries that decode, in their order.
  unfoldable pub kept : List Entry → List TransportMessage
  kept [] = []
  kept (x ∷ xs) = one_kept (decode_entry e c x) ++ kept xs

  -- An acknowledgement for each entry that does not, on top of a history.
  unfoldable pub refused : (group stream : Text) → List Entry → History → History
  refused group stream [] h = h
  refused group stream (x ∷ xs) h =
      refused group stream xs (one_refused group stream x (decode_entry e c x) h)

  unfoldable pub kept_streams : List (Text × List Entry) → List TransportMessage
  kept_streams [] = []
  kept_streams ((_, xs) ∷ ss) = kept xs ++ kept_streams ss

  unfoldable pub refused_streams : Text → List (Text × List Entry) → History → History
  refused_streams group [] h = h
  refused_streams group ((s, xs) ∷ ss) h = refused_streams group ss (refused group s xs h)

  abbrev pub outcome : ReadReply → Result (List TransportMessage)
  outcome nil = ok []
  outcome (failed x) = err x
  outcome (streams ss) = ok (kept_streams ss)

  abbrev pub acknowledged : Text → ReadReply → History → History
  acknowledged group (streams ss) h = refused_streams group ss h
  acknowledged group _ h = h

module _ (e : Env) where
  one_lem :
      (group stream : Text) (x : Entry) (o : Result TransportMessage) (r : RedisTransport)
      → accept e group stream x o r
        ≡ (one_kept o, record r { history = one_refused group stream x o r.history })
  unfolding accept
  one_lem group stream x (ok m) r = refl
  one_lem group stream x (err _) r = refl

  pub read_entries_lem :
      (group stream : Text) (xs : List Entry) (r : RedisTransport)
      → read_entries e group stream xs r ≡ (
        kept e (coding r) xs,
        record r { history = refused e (coding r) group stream xs r.history },
      )
  unfolding read_entries kept refused
  read_entries_lem group stream [] r = refl
  read_entries_lem group stream (x ∷ xs) r = simp (
    one_lem group stream x (decode_entry e (coding r) x) r,
    read_entries_lem group stream xs
        (record r { history = one_refused group stream x (decode_entry e (coding r) x) r.history }),
  )

  read_streams_lem :
      (group : Text) (ss : List (Text × List Entry)) (r : RedisTransport)
      → read_streams e group ss r ≡ (
        kept_streams e (coding r) ss,
        record r { history = refused_streams e (coding r) group ss r.history },
      )
  unfolding read_streams kept_streams refused_streams
  read_streams_lem group [] r = refl
  read_streams_lem group ((s, xs) ∷ ss) r = simp (
    read_entries_lem group s xs r,
    read_streams_lem group ss (record r { history = refused e (coding r) group s xs r.history }),
  )

  read_reply_lem :
      (group : Text) (reply : ReadReply) (r : RedisTransport)
      → read_reply e group reply r ≡ (
        outcome e (coding r) reply,
        record r { history = acknowledged e (coding r) group reply r.history },
      )
  unfolding read_reply
  read_reply_lem group nil r = refl
  read_reply_lem group (failed x) r = refl
  read_reply_lem group (streams ss) r = rw (read_streams_lem group ss r)

  -- `readGroup` marks the stream as subscribed, sends one XREADGROUP, and returns the entries that
  -- decode, in their order; each other entry is acknowledged, and nothing else is. No message
  -- (redis.Nil) is no error, any other error is passed on.
  pub read_group_lem :
      (stream group consumer : Text) (r : RedisTransport)
      → let h = xread_group group consumer stream r.stream_read_count r.block_timeout ∷ r.history in
        read_group e stream group consumer r ≡ (
          outcome e (coding r) (e.reading h),
          record r {
            streams_created = marked stream true r.streams_created;
            history = acknowledged e (coding r) group (e.reading h) h;
          },
        )
  unfolding read_group
  read_group_lem stream group consumer r =
      let h = xread_group group consumer stream r.stream_read_count r.block_timeout ∷ r.history in
      read_reply_lem group (e.reading h)
        (record r { streams_created = marked stream true r.streams_created; history = h })

  draw_nonce-coding : (r : RedisTransport) → coding (draw_nonce e r).1 ≡ coding r
  unfolding draw_nonce
  draw_nonce-coding r = ground arith

  -- A message that `Emit` encodes is published as some bytes, and an entry with those bytes decodes
  -- at any transport with the same coding to that message, under the id of the entry. Needed are a
  -- nonce of the right size where there is encryption, the laws of the packages, and an entry id
  -- with which the message is valid.
  pub emit-decode :
      (stream id : Text) (msg : TransportMessage) (plain coded fresh : Bytes) (r : RedisTransport)
      → CryptoLaws e.crypto
      → ((b : Bytes) → e.json.marshal msg ≡ ok b → e.json.unmarshal b ≡ ok msg)
      → (draw_nonce e r).0 ≡ ok fresh
      → (r.use_encryption ≡ true → length fresh ≡ e.crypto.nonce_size)
      → to_json e.json msg ≡ ok plain
      → prepare_data e.crypto (coding r) (ok fresh) plain ≡ ok coded
      → validate (record msg { transport_id = id }) ≡ none
      → (emit e stream msg r ≡ publish e stream coded (draw_nonce e r).1)
        × (decode_entry e (coding r) (record { id = id; body = string coded })
            ≡ ok (record msg { transport_id = id }))
  unfolding emit emit_json publish_encoded decode_entry
  emit-decode stream id msg plain coded fresh r laws json_law drawn size encoded prepared valid = (
    rw (encoded, drawn, draw_nonce-coding r, prepared),
    rw (process-prepare e.crypto laws (coding r) fresh plain coded size prepared)
        (decode-to_json e.json msg plain id encoded json_law valid),
  )
