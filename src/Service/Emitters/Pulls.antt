-- ===== src/Service/Emitters/Pulls.antt =====
-- What a round of a pulling emitter publishes.
use caaspay_core.Prelude.{
  ℕ, ◌+◌, ◌≡◌, refl, sym, ap, ◌∙◌, length, Option, none, some, Option-cases, inl, inr, Text, List,
  [], ◌∷◌, arith, Error, ok, err,
}
use caaspay_core.Message.{TransportMessage}
use caaspay_core.Transport.{RedisTransport, Env, History, clock, invoke, ctx_err}
use caaspay_core.Service.Emitters.{
  Pulled, pulled, ended, pull_messages, pull_finished, pull_called, emitter_pull_round,
}
use caaspay_core.Service.Emitters.Counts.{
  sent_count, failed_count, present, good, bad, good-bad, results, results-length, messages-count,
}

module _ (e : Env) (call : History → Pulled) (stream : Text) where
  finished-count :
      (start interval : ℕ) (failed stopped : Option Error) (r : RedisTransport)
      → (sent_count (pull_finished e call stream start interval failed stopped r).1 ≡ sent_count r)
        × (failed_count (pull_finished e call stream start interval failed stopped r).1
            ≡ failed_count r)
  unfolding pull_finished
  finished-count start interval failed none r = (refl, refl)
  finished-count start interval failed (some x) r = (refl, refl)

  finished-ok :
      (start interval next : ℕ) (failed stopped : Option Error) (r : RedisTransport)
      → (pull_finished e call stream start interval failed stopped r).0 ≡ ok next
      → (stopped ≡ none) × (failed ≡ none) × (next ≡ interval)
  unfolding pull_finished ended
  finished-ok start interval next none none r h = ground (arith, h)
  finished-ok start interval next (some x) none r h = absurd (ground (arith, h))
  finished-ok start interval next failed (some x) r h = absurd (ground (arith, h))

  -- The history in which the method is called.
  abbrev pub pulled_at : RedisTransport → History
  pulled_at r = invoke stream [] ∷ ctx_err ∷ clock ∷ r.history

  round-on :
      (ms : List (Option TransportMessage)) (interval : ℕ) (failed : Option Error)
      (r : RedisTransport)
      → e.cancelled (ctx_err ∷ clock ∷ r.history) ≡ none
      → call (pulled_at r) ≡ pulled ms interval failed
      → emitter_pull_round e call stream r
        ≡ pull_called e call stream
            (e.now (clock ∷ r.history))
            (pulled ms interval failed)
            (record r { history = pulled_at r })
  unfolding emitter_pull_round
  round-on ms interval failed r h q =
      let start = e.now (clock ∷ r.history) in
      ground (arith, h)
      ∙ ap (λ x. pull_called e call stream start x (record r { history = pulled_at r })) q

  round-stopped :
      (x : Error) (r : RedisTransport)
      → e.cancelled (ctx_err ∷ clock ∷ r.history) ≡ some x
      → (emitter_pull_round e call stream r).0 ≡ err x
  unfolding emitter_pull_round
  round-stopped x r h = ground (arith, h)

  called_lem :
      (start interval next : ℕ) (ms : List (Option TransportMessage)) (failed : Option Error)
      (r : RedisTransport)
      → (pull_called e call stream start (pulled ms interval failed) r).0 ≡ ok next
      → (sent_count (pull_called e call stream start (pulled ms interval failed) r).1
          ≡ sent_count r + good (results e call stream ms r))
        × (failed_count (pull_called e call stream start (pulled ms interval failed) r).1
            ≡ failed_count r + bad (results e call stream ms r))
        × (failed ≡ none)
        × (next ≡ interval)
  unfolding pull_called
  called_lem start interval next ms failed r h =
      let (stopped, s) = pull_messages e call stream ms r in
      let (ran, none_failed, same) = finished-ok start interval next failed stopped s h in
      let (sent, lost) = messages-count e call stream ms r ran in
      let (kept_sent, kept_failed) = finished-count start interval failed stopped s in
      (kept_sent ∙ sent, kept_failed ∙ lost, none_failed, same)

  -- The transport in which the messages of a round are sent.
  abbrev pub pulled_from : RedisTransport → RedisTransport
  pulled_from r = record r { history = pulled_at r }

  -- A round of a pulling emitter that succeeds calls `Emit` for each message of the method that is not
  -- nil; the counter of sent messages grows by the number of those calls that gave no error, the counter
  -- of errors by that of those that did. The method gave no error, and the next round follows after the
  -- interval that it asked for.
  pub emitter_pull_round-counts :
      (ms : List (Option TransportMessage)) (interval next : ℕ) (failed : Option Error)
      (r : RedisTransport)
      → call (pulled_at r) ≡ pulled ms interval failed
      → (emitter_pull_round e call stream r).0 ≡ ok next
      → (length (results e call stream ms (pulled_from r)) ≡ present ms)
        × (sent_count (emitter_pull_round e call stream r).1
            ≡ sent_count r + good (results e call stream ms (pulled_from r)))
        × (failed_count (emitter_pull_round e call stream r).1
            ≡ failed_count r + bad (results e call stream ms (pulled_from r)))
        × (failed ≡ none)
        × (next ≡ interval)
  emitter_pull_round-counts ms interval next failed r q h =
      elim (Option-cases (e.cancelled (ctx_err ∷ clock ∷ r.history))) [
        | inr (x, stopped) ↦ absurd (ground (arith, h, round-stopped x r stopped))
        | inl runs ↦
            let same = round-on ms interval failed r runs q in
            let start = e.now (clock ∷ r.history) in
            let (sent, lost, none_failed, asked_for) =
              called_lem start interval next ms failed (pulled_from r)
                (sym (ap (λ x. x.0) same) ∙ h) in
            (
              results-length e call stream ms (pulled_from r),
              ap (λ x. sent_count x.1) same ∙ sent,
              ap (λ x. failed_count x.1) same ∙ lost,
              none_failed,
              asked_for,
            )
      ]

  -- Together, the two counters grow by the number of messages that are not nil.
  pub emitter_pull_round-total :
      (ms : List (Option TransportMessage)) (interval next : ℕ) (failed : Option Error)
      (r : RedisTransport)
      → call (pulled_at r) ≡ pulled ms interval failed
      → (emitter_pull_round e call stream r).0 ≡ ok next
      → (sent_count (emitter_pull_round e call stream r).1
            + failed_count (emitter_pull_round e call stream r).1
          ≡ sent_count r + failed_count r + present ms)
        × (failed ≡ none)
        × (next ≡ interval)
  emitter_pull_round-total ms interval next failed r q h =
      let (all, sent, lost, none_failed, same) =
        emitter_pull_round-counts ms interval next failed r q h in
      let split = good-bad (results e call stream ms (pulled_from r)) in
      (omega (arith, all, sent, lost, split), none_failed, same)
