-- ===== src/Transport/Cleanup/Pending.antt =====
-- What the cleanup does with one pending message.
use caaspay_core.Prelude.{
  ℕ, ◌+◌, ◌≡◌, refl, sym, ap, ◌∙◌, ◌⊎◌, inl, inr, Bool, true, false, Bool-cases, text_eq_refl, Text,
  Bytes, List, [], ◌∷◌, arith, Result, ok, err, is_positive, is_after, if◌then◌else◌,
}
use caaspay_core.Message.{TransportMessage}
use caaspay_core.Transport.{
  RedisTransport, Env, Entry, Body, missing, not_string, string, Call, xack, xrange, clock,
}
use caaspay_core.Transport.Calls.{count_calls, is_ack, is_dead_letter}
use caaspay_core.Transport.Reading.{coding, decode_entry}
use caaspay_core.Transport.Sending.{publish_to_dlq}
use caaspay_core.Transport.Rpc.{is_expired}
use caaspay_core.Transport.Cleanup.{
  dead_letter_expired, drop_expired, inspect_decoded, inspect_body, inspect_found, inspect_pending,
}

abbrev is_any_ack : Call → Bool
is_any_ack (xack _ _ _) = true
is_any_ack _ = false

abbrev pub acks : RedisTransport → ℕ
acks r = count_calls is_any_ack r.history

abbrev pub letters : RedisTransport → ℕ
letters r = count_calls is_dead_letter r.history

module _ (e : Env) (stream group : Text) where
  -- The entry of the id, read at this transport, decodes to a message that is past its deadline.
  pub record IsStale (id : Text) (r : RedisTransport) : Type 0 where
    pub entry : Entry
    pub rest : List Entry
    pub raw : Bytes
    pub message : TransportMessage
    pub found : e.range (xrange stream id ∷ r.history) ≡ ok (entry ∷ rest)
    pub body : entry.body ≡ string raw
    pub decodes : decode_entry e (coding r) entry ≡ ok message
    pub has_deadline : is_positive message.deadline ≡ true
    pub passed : is_after (e.now (clock ∷ xrange stream id ∷ r.history)) message.deadline ≡ true

  -- The id is acknowledged, once, and nothing else is. There is a dead letter if that is configured.
  pub record IsDropped (id : Text) (r s : RedisTransport) : Type 0 where
    pub acked_once : acks s ≡ acks r + 1
    pub acked_it :
        count_calls (is_ack stream group id) s.history
        ≡ count_calls (is_ack stream group id) r.history + 1
    pub lettered : letters s ≡ letters r + (if r.move_expired_to_dlq then 1 else 0)

  -- No acknowledgement and no dead letter.
  pub record IsKept (r s : RedisTransport) : Type 0 where
    pub same_acks : acks s ≡ acks r
    pub same_letters : letters s ≡ letters r

  abbrev pub Outcome : Text → RedisTransport → RedisTransport → Type 0
  Outcome id r s = (IsStale id r × IsDropped id r s) ⊎ ((IsStale id r → ⊥) × IsKept r s)

  module _ (id : Text) (r : RedisTransport) where
    -- After the XRANGE.
    abbrev read : RedisTransport
    read = record r { history = xrange stream id ∷ r.history }

    is_kept : (s : RedisTransport) → (IsStale id r → ⊥) → IsKept r s → Outcome id r s
    is_kept s fresh kept = inr (fresh, kept)

    untouched : IsKept r read
    untouched = record { same_acks = refl; same_letters = refl }

    dropped_lem :
        (raw : Bytes)
        → IsDropped id r
            (dead_letter_expired e stream raw (record r {
              history = xack stream group id ∷ clock ∷ xrange stream id ∷ r.history;
            })).1
    unfolding dead_letter_expired publish_to_dlq
    dropped_lem raw = elim (Bool-cases r.move_expired_to_dlq) [
      | inl moves ↦ rw moves (record {
        acked_once = omega arith;
        acked_it = rw (text_eq_refl stream, text_eq_refl group, text_eq_refl id) (omega arith);
        lettered = omega arith;
      })
      | inr stays ↦ rw stays (record {
        acked_once = omega arith;
        acked_it = rw (text_eq_refl stream, text_eq_refl group, text_eq_refl id) (omega arith);
        lettered = omega arith;
      })
    ]

    module _ (entry : Entry) (rest : List Entry)
        (found : e.range (xrange stream id ∷ r.history) ≡ ok (entry ∷ rest)) where
      same_entry : (st : IsStale id r) → st.entry ≡ entry
      same_entry st = ground (arith, found, st.found)

      same_message :
          (m : TransportMessage)
          → decode_entry e (coding r) entry ≡ ok m
          → (st : IsStale id r) → st.message ≡ m
      same_message m decodes st =
          let both : ok st.message ≡ ok m =
            sym st.decodes ∙ ap (decode_entry e (coding r)) (same_entry st) ∙ decodes in
          ground (arith, both)

      expired_lem :
          (raw : Bytes) (m : TransportMessage)
          → entry.body ≡ string raw
          → decode_entry e (coding r) entry ≡ ok m
          → Outcome id r (drop_expired e stream group id raw m read).1
      unfolding drop_expired is_expired
      expired_lem raw m body decodes = elim (Bool-cases (is_positive m.deadline)) [
        | inr open_ended ↦ rw open_ended (
            is_kept read
              (λ st. absurd (
                ground (
                  arith,
                  st.has_deadline,
                  open_ended,
                  ap (λ x. is_positive x.deadline) (same_message m decodes st),
                )))
              untouched)
        | inl limited ↦
            elim (Bool-cases (is_after (e.now (clock ∷ xrange stream id ∷ r.history)) m.deadline)) [
              | inl late ↦
                  rw (limited, late)
                    (inl (
                      record {
                        entry = entry;
                        rest = rest;
                        raw = raw;
                        message = m;
                        found = found;
                        body = body;
                        decodes = decodes;
                        has_deadline = limited;
                        passed = late;
                      },
                      dropped_lem raw,
                    ))
              | inr early ↦
                  rw (limited, early)
                    (is_kept (record r { history = clock ∷ xrange stream id ∷ r.history })
                      (λ st. absurd (
                        ground (
                          arith,
                          st.passed,
                          early,
                          ap
                              (λ x.
                                is_after (e.now (clock ∷ xrange stream id ∷ r.history)) x.deadline)
                              (same_message m decodes st),
                        )))
                      (record { same_acks = refl; same_letters = refl }))
            ]
      ]

      decoded_lem :
          (raw : Bytes) (o : Result TransportMessage)
          → entry.body ≡ string raw
          → decode_entry e (coding r) entry ≡ o
          → Outcome id r (inspect_decoded e stream group id raw o read).1
      unfolding inspect_decoded
      decoded_lem raw (err x) body decodes =
          is_kept read (λ st. absurd (ground (arith, decodes, st.decodes, same_entry st))) untouched
      decoded_lem raw (ok m) body decodes = expired_lem raw m body decodes

      body_lem :
          (b : Body) → entry.body ≡ b → Outcome id r (inspect_body e stream group id entry b read).1
      unfolding inspect_body
      body_lem missing body =
          is_kept read (λ st. absurd (ground (arith, body, st.body, same_entry st))) untouched
      body_lem not_string body =
          is_kept read (λ st. absurd (ground (arith, body, st.body, same_entry st))) untouched
      body_lem (string raw) body = decoded_lem raw (decode_entry e (coding r) entry) body refl

    found_lem :
        (o : Result (List Entry))
        → e.range (xrange stream id ∷ r.history) ≡ o
        → Outcome id r (inspect_found e stream group id o read).1
    unfolding inspect_found
    found_lem (err x) p = is_kept read (λ st. absurd (ground (arith, p, st.found))) untouched
    found_lem (ok []) p = is_kept read (λ st. absurd (ground (arith, p, st.found))) untouched
    found_lem (ok (entry ∷ rest)) p = body_lem entry rest p entry.body refl

  pub pending_lem :
      (id : Text) (r : RedisTransport) → Outcome id r (inspect_pending e stream group id r).1
  unfolding inspect_pending
  pending_lem id r = found_lem id r (e.range (xrange stream id ∷ r.history)) refl
