-- ===== src/Service/Names.antt =====
-- Receivers find emitters: the names of methods and the streams that they are bound to.
use caaspay_core.Prelude.{
  ℕ, ◌≡◌, ◌≢◌, refl, sym, ap, ◌∙◌, some, Text, codes, [], ◌∷◌, ◌++◌, arith, Lacks, ◌==◌, ==_iff,
  if◌then◌else◌, has_prefix, trim_prefix,
}
use mathlib.Core.Option.{map}
use caaspay_core.Naming.{stream_type_emitter, build_stream_name, normalize}
use caaspay_core.Naming.Parts.{to_lower_idem}
use caaspay_core.Service.{underscore, dashed, cut, receiver_stream, emitted_by, method_stream}

abbrev dash : ℕ
dash = b'-'

-- A service name as it is written in the name of a receiver: each `-` as `__`.
unfoldable pub escaped : Text → Text
escaped [] = []
escaped (c ∷ s) =
    let rest = escaped s in if c == dash then underscore ∷ underscore ∷ rest else c ∷ rest

dashed-cons : (c : ℕ) (s : Text) → c ≢ underscore → dashed (c ∷ s) ≡ c ∷ dashed s
unfolding dashed
dashed-cons c [] ne = refl
dashed-cons c (d ∷ s) ne = ground (arith, ne)

dashed-Lacks : (s : Text) → Lacks underscore s → dashed s ≡ s
unfolding dashed
dashed-Lacks [] h = refl
dashed-Lacks (c ∷ s) h = dashed-cons c s h.0 ∙ ap (λ t. c ∷ t) (dashed-Lacks s h.1)

dashed-single : (s : Text) → Lacks underscore s → dashed (underscore ∷ s) ≡ underscore ∷ s
unfolding dashed
dashed-single [] h = refl
dashed-single (c ∷ s) h = ground (arith, h.0, dashed-Lacks (c ∷ s) h)

dashed-escaped :
    (s m : Text)
    → Lacks underscore s
    → Lacks underscore m
    → dashed (escaped s ++ underscore ∷ m) ≡ s ++ underscore ∷ m
unfolding dashed escaped
dashed-escaped [] m hs hm = dashed-single m hm
dashed-escaped (c ∷ s) m hs hm = ground (
  arith,
  dashed-escaped s m hs.1 hm,
  dashed-cons c (escaped s ++ underscore ∷ m) hs.0,
  ==_iff c dash,
)

cut-append : (s m : Text) → Lacks underscore s → cut (s ++ underscore ∷ m) ≡ some (s, m)
unfolding cut
cut-append [] m h = refl
cut-append (c ∷ s) m h = rw (cut-append s m h.1) (ground (arith, h.0))

dashed-prefix :
    (c : ℕ) (s : Text)
    → c ≢ underscore
    → dashed (codes "Receiver_" ++ c ∷ s) ≡ codes "Receiver_" ++ dashed (c ∷ s)
unfolding dashed
dashed-prefix c s ne = ground (arith, ne)

trim-prefix : (s : Text) → trim_prefix (codes "Receiver_" ++ s) (codes "Receiver_") ≡ s
unfolding trim_prefix has_prefix
trim-prefix s = refl

trim-pull : (s : Text) → trim_prefix (codes "EmitterPull_" ++ s) (codes "EmitterPull_") ≡ s
unfolding trim_prefix has_prefix
trim-pull s = refl

escaped-cons : (c : ℕ) (s : Text) → c ≢ dash → escaped (c ∷ s) ≡ c ∷ escaped s
unfolding escaped
escaped-cons c s ne = ground (arith, ne)

dashed-receiver :
    (c : ℕ) (s m : Text)
    → c ≢ dash
    → Lacks underscore (c ∷ s)
    → Lacks underscore m
    → dashed (codes "Receiver_" ++ (escaped (c ∷ s) ++ underscore ∷ m))
      ≡ codes "Receiver_" ++ ((c ∷ s) ++ underscore ∷ m)
dashed-receiver c s m ne hs hm =
    let tail = escaped s ++ underscore ∷ m in
    let same = escaped-cons c s ne in
    ap (λ t. dashed (codes "Receiver_" ++ (t ++ underscore ∷ m))) same
    ∙ dashed-prefix c tail hs.0
    ∙ ap (λ t. codes "Receiver_" ++ dashed (t ++ underscore ∷ m)) (sym same)
    ∙ ap (λ t. codes "Receiver_" ++ t) (dashed-escaped (c ∷ s) m hs hm)

receiver_stream-emitted :
    (name s m : Text)
    → dashed name ≡ codes "Receiver_" ++ (s ++ underscore ∷ m)
    → Lacks underscore s
    → receiver_stream name ≡ some (emitted_by (s, m))
unfolding receiver_stream
receiver_stream-emitted name s m h lacks =
    ap (λ t. map emitted_by (cut (trim_prefix t (codes "Receiver_")))) h
    ∙ ap (λ t. map emitted_by (cut t)) (trim-prefix (s ++ underscore ∷ m))
    ∙ ap (λ o. map emitted_by o) (cut-append s m lacks)

emitted_by-method_stream :
    (s m : Text)
    → emitted_by (s, m)
      ≡ method_stream stream_type_emitter (codes "EmitterPull_") s (codes "EmitterPull_" ++ m)
unfolding emitted_by method_stream build_stream_name normalize
emitted_by-method_stream s m = rw (trim-pull m, to_lower_idem s, to_lower_idem m) refl

-- A receiver method finds its emitter. Take a service name that is not empty, has no underscore and
-- does not begin with a dash, and a method name without an underscore. The receiver method named
-- after them, each dash of the service as two underscores, listens to the stream to which that
-- service's `EmitterPull_` method publishes.
pub receiver_stream-method_stream :
    (c : ℕ) (s m : Text)
    → c ≢ dash
    → Lacks underscore (c ∷ s)
    → Lacks underscore m
    → receiver_stream (codes "Receiver_" ++ (escaped (c ∷ s) ++ underscore ∷ m))
      ≡ some (
          method_stream stream_type_emitter
            (codes "EmitterPull_")
            (c ∷ s)
            (codes "EmitterPull_" ++ m))
receiver_stream-method_stream c s m ne hs hm =
    receiver_stream-emitted (codes "Receiver_" ++ (escaped (c ∷ s) ++ underscore ∷ m)) (c ∷ s) m
      (dashed-receiver c s m ne hs hm) hs
    ∙ ap some (emitted_by-method_stream (c ∷ s) m)
