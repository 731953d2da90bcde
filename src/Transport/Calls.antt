-- ===== src/Transport/Calls.antt =====
-- Counting the calls of a history.
use caaspay_core.Prelude.{
  ℕ, suc, Bool, true, false, ◌&&◌, List, [], ◌∷◌, ◌++◌, Text, Bytes, text_eq, if◌then◌else◌,
}
use caaspay_core.Transport.{
  Call, History, xadd, body, dead_bytes, dead_message, wait, xack, spawn, cleanup_pending, handle,
  ping, xtrim, invoke,
}

abbrev pub count_calls : (Call → Bool) → History → ℕ
count_calls p [] = 0
count_calls p (c ∷ h) = let rest = count_calls p h in if p c then suc rest else rest

-- The durations of the waits of `Retry`, the oldest first.
abbrev pub waits_in : History → List ℕ
waits_in [] = []
waits_in (wait d ∷ h) = waits_in h ++ d ∷ []
waits_in (_ ∷ h) = waits_in h

-- An XADD of the body to the stream.
abbrev pub is_add : Text → Bytes → Call → Bool
is_add stream coded (xadd s (body b)) = text_eq s stream && text_eq b coded
is_add stream coded _ = false

-- An XADD that is a dead letter.
abbrev pub is_dead_letter : Call → Bool
is_dead_letter (xadd s (dead_bytes _ _ _)) = true
is_dead_letter (xadd s (dead_message _ _ _)) = true
is_dead_letter _ = false

-- The dead letters of a history.
abbrev pub dead_in : History → History
dead_in [] = []
dead_in (c ∷ h) = let rest = dead_in h in if is_dead_letter c then c ∷ rest else rest

abbrev pub is_ack : (stream group id : Text) → Call → Bool
is_ack stream group id (xack s g i) = text_eq s stream && (text_eq g group && text_eq i id)
is_ack stream group id _ = false

abbrev pub is_handle : Call → Bool
is_handle (handle _) = true
is_handle _ = false

abbrev pub is_ping : Call → Bool
is_ping ping = true
is_ping _ = false

abbrev pub is_trim : Text → Call → Bool
is_trim stream (xtrim s _ _) = text_eq s stream
is_trim stream _ = false

abbrev pub is_cleanup : (stream group : Text) → Call → Bool
is_cleanup stream group (spawn _ (cleanup_pending s g)) = text_eq s stream && text_eq g group
is_cleanup stream group _ = false

abbrev pub is_invoke : Call → Bool
is_invoke (invoke _ _) = true
is_invoke _ = false
