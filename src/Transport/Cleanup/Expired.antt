-- ===== src/Transport/Cleanup/Expired.antt =====
-- Which pending messages the cleanup drops.
use caaspay_core.Prelude.{ℕ, suc, zero, refl, inl, inr, Text, List, [], ◌∷◌, Result, ok, err}
use caaspay_core.Transport.{RedisTransport, Env, xpending, xpending_ext}
use caaspay_core.Transport.Act.{for_each}
use caaspay_core.Transport.Cleanup.{
  inspect_pending, inspect_listed, inspect_counted, cleanup_expired_pending_messages,
}
use caaspay_core.Transport.Cleanup.Pending.{IsStale, IsDropped, IsKept, pending_lem}

module _ (e : Env) (stream group : Text) where
  -- Each id in turn is dropped if its entry is stale when it is read, and else kept.
  pub data Inspects : List Text → RedisTransport → RedisTransport → Type 0 where
    stops : (r : RedisTransport) → Inspects [] r r
    drops :
        (id : Text) {ids : List Text} {r s t : RedisTransport}
        → IsStale e stream group id r
        → IsDropped e stream group id r s
        → Inspects ids s t
        → Inspects (id ∷ ids) r t
    keeps :
        (id : Text) {ids : List Text} {r s t : RedisTransport}
        → (IsStale e stream group id r → ⊥)
        → IsKept e stream group r s
        → Inspects ids s t
        → Inspects (id ∷ ids) r t

  all_lem :
      (ids : List Text) (r : RedisTransport)
      → Inspects ids r (for_each ids (inspect_pending e stream group) r).1
  all_lem [] r = stops r
  all_lem (id ∷ ids) r =
      let s = (inspect_pending e stream group id r).1 in
      elim (pending_lem e stream group id r) [
        | inl (stale, dropped) ↦ drops id stale dropped (all_lem ids s)
        | inr (fresh, kept) ↦ keeps id fresh kept (all_lem ids s)
      ]

  -- The ids that Redis lists: none where it counts none, or where either call fails.
  abbrev pub listed : Result ℕ → Result (List Text) → List Text
  listed (ok (suc _)) (ok ids) = ids
  listed _ _ = []

  listed_lem :
      (o : Result (List Text)) (n : ℕ) (r : RedisTransport)
      → Inspects (listed (ok (suc n)) o) r (inspect_listed e stream group o r).1
  unfolding inspect_listed
  listed_lem (err x) n r = stops r
  listed_lem (ok ids) n r = all_lem ids r

  counted_lem :
      (o : Result ℕ) (r : RedisTransport)
      → (s : RedisTransport) × IsKept e stream group r s
        × Inspects
            (listed o (e.pending_ids (xpending_ext stream group 100 ∷ r.history)))
            s
            (inspect_counted e stream group o r).1
  unfolding inspect_counted
  counted_lem (err x) r = (r, record { same_acks = refl; same_letters = refl }, stops r)
  counted_lem (ok zero) r = (r, record { same_acks = refl; same_letters = refl }, stops r)
  counted_lem (ok (suc n)) r =
      let h = xpending_ext stream group 100 ∷ r.history in
      (
        record r { history = h },
        record { same_acks = refl; same_letters = refl },
        listed_lem (e.pending_ids h) n (record r { history = h }),
      )

  -- The cleanup of expired messages acknowledges, of the pending ids that Redis lists, exactly those
  -- whose entry decodes to a message past its deadline when it is read, each once and in turn, and
  -- sends one dead letter for each if that is configured. There is no other acknowledgement and no
  -- other dead letter.
  pub cleanup-Inspects :
      (r : RedisTransport)
      → (s : RedisTransport) × IsKept e stream group r s
        × Inspects
            (listed
              (e.number (xpending stream group ∷ r.history))
              (e.pending_ids (xpending_ext stream group 100 ∷ xpending stream group ∷ r.history)))
            s
            (cleanup_expired_pending_messages e stream group r).1
  unfolding cleanup_expired_pending_messages
  cleanup-Inspects r =
      let r₁ = record r { history = xpending stream group ∷ r.history } in
      let (s, kept, run) = counted_lem (e.number r₁.history) r₁ in
      (s, record { same_acks = kept.same_acks; same_letters = kept.same_letters }, run)
