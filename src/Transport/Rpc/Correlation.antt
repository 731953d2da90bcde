-- ===== src/Transport/Rpc/Correlation.antt =====
-- A caller gets the reply to its own request: invariants of the router and the channels.
use caaspay_core.Prelude.{
  ℕ, ◌≤◌, ◌<◌, false, ◌≡◌, refl, sym, ap, subst, ◌∙◌, inl, inr, Option, none, some, Option-cases,
  Bool-cases, Text, text_eq_iff, List, [], ◌∷◌, arith, length, All, ok, ◌==◌, ==_iff,
}
use caaspay_core.Prelude.Dict.{get, get-put, get-erase}
use caaspay_core.Message.{TransportMessage}
use caaspay_core.Transport.{RedisTransport, Env}
use caaspay_core.Transport.Rpc.{request, receive, time_out, listen_round}
use caaspay_core.Transport.Rpc.Frame.{Channels, channels_of}
use caaspay_core.Transport.Rpc.Channels.{
  opened, closed, pushed, delivered, channels-request, request-ok, channels-time_out,
  listen_round-keeps,
}

-- Every channel that the router names has been made, and one that has not been made is empty.
pub record IsSound (c : Channels) : Type 0 where
  pub made : (k : Text) (ch : ℕ) → get k c.0 ≡ some ch → ch < c.2
  pub fresh : (ch : ℕ) → c.2 ≤ ch → c.1 ch ≡ []

-- The channel `ch` belongs to the message id `id`: only that id is routed to it, it is empty while
-- it is routed, it never holds more than its capacity of one, and what it holds has the id.
pub record IsFor (id : Text) (ch : ℕ) (c : Channels) : Type 0 where
  pub allocated : ch < c.2
  pub routed : (k : Text) → get k c.0 ≡ some ch → k ≡ id
  pub idle : (k : Text) → get k c.0 ≡ some ch → c.1 ch ≡ []
  pub single : length (c.1 ch) ≤ 1
  pub matching : All (λ m. m.message_id ≡ id) (c.1 ch)

opened-IsSound : (k : Text) (c : Channels) → IsSound c → IsSound (opened k c)
opened-IsSound k c h = record {
  made = λ j ch e. ground (arith, get-put k j c.2 c.0, h.made j ch);
  fresh = λ ch le. h.fresh ch (omega arith);
}

opened-IsFor : (k : Text) (c : Channels) → IsSound c → IsFor k c.2 (opened k c)
opened-IsFor k c h = record {
  allocated = omega arith;
  routed = λ j e. ground (arith, get-put k j c.2 c.0, text_eq_iff k j, h.made j c.2);
  idle = λ j e. h.fresh c.2 (omega arith);
  single = rw (h.fresh c.2 (omega arith)) (omega arith);
  matching = rw (h.fresh c.2 (omega arith)) tt;
}

opened-keeps : (id k : Text) (ch : ℕ) (c : Channels) → IsFor id ch c → IsFor id ch (opened k c)
opened-keeps id k ch c h = record {
  allocated = omega (arith, h.allocated);
  routed = λ j e. ground (arith, get-put k j c.2 c.0, h.routed j, h.allocated);
  idle = λ j e. ground (arith, get-put k j c.2 c.0, h.idle j, h.allocated);
  single = h.single;
  matching = h.matching;
}

closed-IsSound : (k : Text) (c : Channels) → IsSound c → IsSound (closed k c)
closed-IsSound k c h = record {
  made = λ j ch e. ground (arith, get-erase k j c.0, h.made j ch);
  fresh = h.fresh;
}

closed-keeps : (id k : Text) (ch : ℕ) (c : Channels) → IsFor id ch c → IsFor id ch (closed k c)
closed-keeps id k ch c h = record {
  allocated = h.allocated;
  routed = λ j e. ground (arith, get-erase k j c.0, h.routed j);
  idle = λ j e. ground (arith, get-erase k j c.0, h.idle j);
  single = h.single;
  matching = h.matching;
}

pushed-IsSound :
    (m : TransportMessage) (ch : ℕ) (c : Channels)
    → get m.message_id c.0 ≡ some ch
    → IsSound c
    → IsSound (pushed m ch c)
pushed-IsSound m ch c e h = record {
  made = λ j ch' q. ground (arith, get-erase m.message_id j c.0, h.made j ch');
  fresh = λ ch' le. ground (arith, h.fresh ch' le, h.made m.message_id ch e);
}

pushed-hit :
    (id : Text) (m : TransportMessage) (ch : ℕ) (c : Channels)
    → get m.message_id c.0 ≡ some ch
    → IsFor id ch c
    → IsFor id ch (pushed m ch c)
pushed-hit id m ch c e h = record {
  allocated = h.allocated;
  routed = λ j q. ground (arith, get-erase m.message_id j c.0, h.routed j);
  idle = λ j q. absurd (
      ground (
        arith,
        get-erase m.message_id j c.0,
        text_eq_iff m.message_id j,
        h.routed j,
        h.routed m.message_id e,
      ));
  single = rw ((==_iff ch ch).1 refl, h.idle m.message_id e) (omega arith);
  matching = rw ((==_iff ch ch).1 refl, h.idle m.message_id e) (h.routed m.message_id e, tt);
}

pushed-miss :
    (id : Text) (m : TransportMessage) (ch ch' : ℕ) (c : Channels)
    → (ch == ch') ≡ false
    → IsFor id ch c
    → IsFor id ch (pushed m ch' c)
pushed-miss id m ch ch' c ne h = record {
  allocated = h.allocated;
  routed = λ j q. ground (arith, get-erase m.message_id j c.0, h.routed j);
  idle = λ j q. rw ne (ground (arith, get-erase m.message_id j c.0, h.idle j));
  single = rw ne h.single;
  matching = rw ne h.matching;
}

delivered-IsSound : (m : TransportMessage) (c : Channels) → IsSound c → IsSound (delivered m c)
delivered-IsSound m c h = elim (Option-cases (get m.message_id c.0)) [
  | inl none_waits ↦ rw none_waits h
  | inr (ch, e) ↦ rw e (pushed-IsSound m ch c e h)
]

delivered-keeps :
    (id : Text) (ch : ℕ) (m : TransportMessage) (c : Channels)
    → IsFor id ch c
    → IsFor id ch (delivered m c)
delivered-keeps id ch m c h = elim (Option-cases (get m.message_id c.0)) [
  | inl none_waits ↦ rw none_waits h
  | inr (ch', e) ↦ elim (Bool-cases (ch == ch')) [
    | inl same ↦
        let p : ch ≡ ch' = (==_iff ch ch').0 same in
        rw (e, ← p) (pushed-hit id m ch c (e ∙ ap some (sym p)) h)
    | inr ne ↦ rw e (pushed-miss id m ch ch' c ne h)
  ]
]

first : List TransportMessage → Option TransportMessage
first [] = none
first (m ∷ _) = some m

first-matching :
    (id : Text) (ms : List TransportMessage) (m : TransportMessage)
    → All (λ x. x.message_id ≡ id) ms
    → first ms ≡ some m
    → m.message_id ≡ id
unfolding first
first-matching id [] m h q = cc
first-matching id (x ∷ ms) m h q = cc (h.0)

module _ (e : Env) where
  receive-first : (ch : ℕ) (s : RedisTransport) → receive e ch s ≡ first (s.channels ch)
  unfolding receive first
  receive-first ch s = ground arith

  -- What the goroutines of one transport do: a request up to its wait, a round of a reply listener,
  -- the end of a wait by its timeout, and anything else, which leaves the channels alone.
  pub data Step : RedisTransport → RedisTransport → Type 0 where
    requested :
        (fuel : ℕ) (stream caller : Text) (msg : TransportMessage) (r : RedisTransport)
        → Step r (request e fuel stream caller msg r).1
    listened : (stream : Text) (r : RedisTransport) → Step r (listen_round e stream r).1
    timed_out : (id : Text) (r : RedisTransport) → Step r (time_out e id r).1
    other : (r s : RedisTransport) → channels_of s ≡ channels_of r → Step r s

  pub data Reach (r : RedisTransport) : RedisTransport → Type 0 where
    here : Reach r r
    next : {s t : RedisTransport} → Reach r s → Step s t → Reach r t

  -- A property of the channels that the four changes keep holds after every step.
  module _ (P : Channels → Type 0) (opens : (k : Text) (c : Channels) → P c → P (opened k c))
      (closes : (k : Text) (c : Channels) → P c → P (closed k c))
      (delivers : (m : TransportMessage) (c : Channels) → P c → P (delivered m c)) where
    Step-keeps : {r s : RedisTransport} → Step r s → P (channels_of r) → P (channels_of s)
    Step-keeps (requested fuel stream caller msg r) h =
        elim (channels-request e fuel stream caller msg r) [
          | inl same ↦ subst P (sym same) h
          | inr new ↦ subst P (sym new) (opens msg.message_id (channels_of r) h)
        ]
    Step-keeps (listened stream r) h = listen_round-keeps e P delivers stream r h
    Step-keeps (timed_out id r) h =
        subst P (sym (channels-time_out e id r)) (closes id (channels_of r) h)
    Step-keeps (other r s same) h = subst P (sym same) h

    Reach-keeps : {r s : RedisTransport} → Reach r s → P (channels_of r) → P (channels_of s)
    Reach-keeps here h = h
    Reach-keeps (next before step) h = Step-keeps step (Reach-keeps before h)

  -- However the goroutines of the transport interleave, they keep the channels sound.
  Reach-IsSound :
      (r s : RedisTransport) → Reach r s → IsSound (channels_of r) → IsSound (channels_of s)
  Reach-IsSound r s = Reach-keeps IsSound opened-IsSound closed-IsSound delivered-IsSound

  -- The channel of a request stays its own.
  pub request-IsFor :
      (fuel : ℕ) (stream caller : Text) (msg : TransportMessage) (r s : RedisTransport) (ch : ℕ)
      → IsSound (channels_of r)
      → (request e fuel stream caller msg r).0 ≡ ok ch
      → Reach (request e fuel stream caller msg r).1 s
      → IsFor msg.message_id ch (channels_of s)
  request-IsFor fuel stream caller msg r s ch sound e₁ reach =
      let (own, opens) = request-ok e fuel stream caller msg r ch e₁ in
      let start : IsFor msg.message_id ch (channels_of (request e fuel stream caller msg r).1) =
        subst (λ c. IsFor msg.message_id ch c) (sym opens)
          (subst (λ n. IsFor msg.message_id n (opened msg.message_id (channels_of r))) (sym own)
            (opened-IsFor msg.message_id (channels_of r) sound)) in
      Reach-keeps (IsFor msg.message_id ch) (λ k c. opened-keeps msg.message_id k ch c)
        (λ k c. closed-keeps msg.message_id k ch c) (delivered-keeps msg.message_id ch) reach start

  -- After a request, whatever requests, listener rounds, timeouts and other work follow, the channel
  -- that the request waits on is its own: it holds at most one reply, so that no send to it blocks,
  -- and a reply that the request receives has the message id of the request.
  pub request_correlated :
      (fuel : ℕ) (stream caller : Text) (msg : TransportMessage) (r s : RedisTransport) (ch : ℕ)
      → IsSound (channels_of r)
      → (request e fuel stream caller msg r).0 ≡ ok ch
      → Reach (request e fuel stream caller msg r).1 s
      → (length (s.channels ch) ≤ 1)
        × ((m : TransportMessage) → receive e ch s ≡ some m → m.message_id ≡ msg.message_id)
  request_correlated fuel stream caller msg r s ch sound e₁ reach =
      let end = request-IsFor fuel stream caller msg r s ch sound e₁ reach in
      (
        end.single,
        λ m q.
            first-matching msg.message_id (s.channels ch) m end.matching
              (sym (receive-first ch s) ∙ q),
      )
