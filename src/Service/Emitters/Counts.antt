-- ===== src/Service/Emitters/Counts.antt =====
-- What a pulling emitter counts for the messages of one round.
use caaspay_core.Prelude.{
  ℕ, suc, ◌+◌, ◌≡◌, refl, sym, ap, ◌∙◌, Bool, false, length, Option, none, some, Option-cases, inl,
  inr, Text, codes, text_eq, List, [], ◌∷◌, arith, Error,
}
use caaspay_core.Message.{TransportMessage}
use caaspay_core.Transport.{RedisTransport, Env, History, Call, increment, ctx_err}
use caaspay_core.Transport.Calls.{count_calls}
use caaspay_core.Transport.Sending.{emit}
use caaspay_core.Transport.Sending.Quiet.{IsQuiet, emit-count}
use caaspay_core.Service.Emitters.{Pulled, count_pulled, pull_messages}

abbrev is_counted : (name : Text) → Call → Bool
is_counted name (increment n _) = text_eq n name
is_counted name _ = false

-- Messages that were sent, and those that could not be, as the metrics count them.
abbrev pub sent_count : RedisTransport → ℕ
sent_count r = count_calls (is_counted (codes "emitter_pull_emitted")) r.history

abbrev pub failed_count : RedisTransport → ℕ
failed_count r = count_calls (is_counted (codes "emitter_pull_errors")) r.history

-- The messages that are not nil.
abbrev pub present : List (Option TransportMessage) → ℕ
present [] = 0
present (none ∷ ms) = present ms
present (some _ ∷ ms) = suc (present ms)

-- How many of some results are none, and how many are an error.
abbrev pub good : List (Option Error) → ℕ
good [] = 0
good (none ∷ os) = suc (good os)
good (some _ ∷ os) = good os

abbrev pub bad : List (Option Error) → ℕ
bad [] = 0
bad (none ∷ os) = bad os
bad (some _ ∷ os) = suc (bad os)

pub good-bad : (os : List (Option Error)) → good os + bad os ≡ length os
good-bad [] = refl
good-bad (none ∷ os) = omega (arith, good-bad os)
good-bad (some x ∷ os) = omega (arith, good-bad os)

never_sent : IsQuiet (is_counted (codes "emitter_pull_emitted"))
unfolding text_eq
never_sent = record {
  add = λ stream v. refl;
  waiting = λ d. refl;
  now = refl;
  sleeping = λ d. refl;
  random = refl;
  failing = λ tags. refl;
}

never_failed : IsQuiet (is_counted (codes "emitter_pull_errors"))
unfolding text_eq
never_failed = record {
  add = λ stream v. refl;
  waiting = λ d. refl;
  now = refl;
  sleeping = λ d. refl;
  random = refl;
  failing = λ tags. refl;
}

module _ (e : Env) (call : History → Pulled) (stream : Text) where
  count_pulled_lem :
      (o : Option Error) (r : RedisTransport)
      → (sent_count (count_pulled e call stream o r).1 ≡ sent_count r + good (o ∷ []))
        × (failed_count (count_pulled e call stream o r).1 ≡ failed_count r + bad (o ∷ []))
  unfolding count_pulled text_eq
  count_pulled_lem none r = (omega arith, omega arith)
  count_pulled_lem (some x) r = (omega arith, omega arith)

  -- The two ways on from one message.
  abbrev pub asked : RedisTransport → RedisTransport
  asked r = record r { history = ctx_err ∷ r.history }

  pull-stopped :
      (msg : TransportMessage) (ms : List (Option TransportMessage)) (x : Error)
      (r : RedisTransport)
      → e.cancelled (ctx_err ∷ r.history) ≡ some x
      → pull_messages e call stream (some msg ∷ ms) r ≡ (some x, asked r)
  unfolding pull_messages
  pull-stopped msg ms x r h = ground (arith, h)

  abbrev pub after_one : TransportMessage → RedisTransport → RedisTransport
  after_one msg r =
      let (failed, s) = emit e stream msg (asked r) in (count_pulled e call stream failed s).1

  pull-on :
      (msg : TransportMessage) (ms : List (Option TransportMessage)) (r : RedisTransport)
      → e.cancelled (ctx_err ∷ r.history) ≡ none
      → pull_messages e call stream (some msg ∷ ms) r
        ≡ pull_messages e call stream ms (after_one msg r)
  unfolding pull_messages
  pull-on msg ms r h = ground (arith, h)

  -- What `Emit` gives for each message that is not nil, one after another.
  abbrev pub results : List (Option TransportMessage) → RedisTransport → List (Option Error)
  results [] r = []
  results (none ∷ ms) r = results ms r
  results (some msg ∷ ms) r = (emit e stream msg (asked r)).0 ∷ results ms (after_one msg r)

  pub results-length :
      (ms : List (Option TransportMessage)) (r : RedisTransport)
      → length (results ms r) ≡ present ms
  results-length [] r = refl
  results-length (none ∷ ms) r = results-length ms r
  results-length (some msg ∷ ms) r = ap suc (results-length ms (after_one msg r))

  -- One message is counted once, as sent or as failed, as `Emit` ended.
  one_pulled :
      (msg : TransportMessage) (r : RedisTransport)
      → (sent_count (after_one msg r) ≡ sent_count r + good ((emit e stream msg (asked r)).0 ∷ []))
        × (failed_count (after_one msg r)
            ≡ failed_count r + bad ((emit e stream msg (asked r)).0 ∷ []))
  one_pulled msg r =
      let (failed, s) = emit e stream msg (asked r) in
      let (sent, lost) = count_pulled_lem failed s in
      (
        sent
            ∙ ap (λ n. n + good (failed ∷ []))
                (emit-count e (is_counted (codes "emitter_pull_emitted")) never_sent stream msg
                  (asked r)),
        lost
            ∙ ap (λ n. n + bad (failed ∷ []))
                (emit-count e (is_counted (codes "emitter_pull_errors")) never_failed stream msg
                  (asked r)),
      )

  good-cons :
      (o : Option Error) (os : List (Option Error)) → good (o ∷ os) ≡ good (o ∷ []) + good os
  good-cons none os = omega arith
  good-cons (some x) os = omega arith

  bad-cons : (o : Option Error) (os : List (Option Error)) → bad (o ∷ os) ≡ bad (o ∷ []) + bad os
  bad-cons none os = omega arith
  bad-cons (some x) os = omega arith

  -- A run over the messages that is not stopped counts each as `Emit` ended for it.
  pub messages-count :
      (ms : List (Option TransportMessage)) (r : RedisTransport)
      → (pull_messages e call stream ms r).0 ≡ none
      → (sent_count (pull_messages e call stream ms r).1 ≡ sent_count r + good (results ms r))
        × (failed_count (pull_messages e call stream ms r).1 ≡ failed_count r + bad (results ms r))
  unfolding pull_messages
  messages-count [] r q = (omega arith, omega arith)
  messages-count (none ∷ ms) r q = messages-count ms r q
  messages-count (some msg ∷ ms) r q = elim (Option-cases (e.cancelled (ctx_err ∷ r.history))) [
    | inr (x, h) ↦ absurd (ground (arith, ap (λ y. y.0) (pull-stopped msg ms x r h), q))
    | inl h ↦
        let same = pull-on msg ms r h in
        let (sent, lost) = messages-count ms (after_one msg r) (sym (ap (λ y. y.0) same) ∙ q) in
        let (one_sent, one_lost) = one_pulled msg r in
        let o = (emit e stream msg (asked r)).0 in
        let os = results ms (after_one msg r) in
        rw same (
          omega (arith, sent, one_sent, good-cons o os),
          omega (arith, lost, one_lost, bad-cons o os),
        )
  ]
