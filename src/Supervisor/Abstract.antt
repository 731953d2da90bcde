-- ===== src/Supervisor/Abstract.antt =====
-- What a supervisor promises, without names and metadata: some goroutines run, at most one error
-- waits to be taken, and the end is announced when all is stopped.
use caaspay_core.Prelude.{
  ℕ, suc, ◌-◌, ◌<◌, ◌≡◌, refl, sym, ap, ◌∙◌, Bool, true, false, Option, none, some, Option-cases,
  List, [], ◌∷◌, inl, inr, Text, arith, length, Error,
}
use caaspay_core.Prelude.Dict.{get, erase}
use caaspay_core.Prelude.DictSize.{length-put, length-erase, entries-some}
use caaspay_core.Supervisor.{
  Supervisor, GoroutineInfo, Outcome, returned, panicked, final_name, store_metadata, start, offer,
  offer_unless, leave, end_go, end_loop, take_error, shutdown,
}
use caaspay_core.Supervisor.Steps.{
  Step, Reach, IsSound, starts, ends_go, ends_loop, takes_error, shuts_down, waits, here, next,
  waited-cases, reach-IsSound,
}

pub record Promise : Type 0 where
  pub running : ℕ
  pub pending : Option Error
  pub stopping : Bool
  pub announced : Bool

-- What an observer sees of a step: that a goroutine began, or which error one left, if any, and whether
-- it was one of `GoLoop`; which error was taken; that the supervisor was stopped or its end announced.
pub data Label : Type 0 where
  began : Label
  left : (in_loop : Bool) → Option Error → Label
  took : Option Error → Label
  was_stopped : Label
  was_announced : Label

-- A goroutine that ends is one that runs. An error that it leaves waits to be taken if none waits
-- already; else it is lost and the older one stays. An error of `Go` is dropped once the supervisor is
-- stopped. What is taken is the error that waits.
pub data Move (p : Promise) (q : Promise) : Label → Type 0 where
  begins : q ≡ record p { running = suc p.running } → Move p q began
  ends :
      (in_loop : Bool)
      → 0 < p.running
      → q ≡ record p { running = p.running - 1 }
      → Move p q (left in_loop none)
  drops :
      (x : Error)
      → p.stopping ≡ true
      → 0 < p.running
      → q ≡ record p { running = p.running - 1 }
      → Move p q (left false (some x))
  fails :
      (in_loop : Bool) (x : Error)
      → (in_loop ≡ false → p.stopping ≡ false)
      → 0 < p.running
      → p.pending ≡ none
      → q ≡ record p { running = p.running - 1; pending = some x }
      → Move p q (left in_loop (some x))
  loses :
      (in_loop : Bool) (x y : Error)
      → (in_loop ≡ false → p.stopping ≡ false)
      → 0 < p.running
      → p.pending ≡ some y
      → q ≡ record p { running = p.running - 1 }
      → Move p q (left in_loop (some x))
  hands_over :
      (o : Option Error) → o ≡ p.pending → q ≡ record p { pending = none } → Move p q (took o)
  stops : q ≡ record p { stopping = true } → Move p q was_stopped
  announces :
      p.stopping ≡ true → p.running ≡ 0 → q ≡ record p { announced = true } → Move p q was_announced

-- The latest label comes first.
pub data Moves (p : Promise) : Promise → List Label → Type 0 where
  none_yet : Moves p p []
  then_one :
      {q r : Promise} {ls : List Label} {l : Label} → Moves p q ls → Move q r l → Moves p r (l ∷ ls)

abbrev pub error_of : Outcome → Option Error
error_of panicked = none
error_of (returned o) = o

-- What is seen of the steps of a supervisor.
unfoldable pub label : {s t : Supervisor} → Step s t → Label
label (starts name id info fresh) = began
label (ends_go name info o found) = left false (error_of o)
label (ends_loop name info o found) = left true (error_of o)
label {s} takes_error = took (take_error s).0
label shuts_down = was_stopped
label (waits seen t e) = was_announced

unfoldable pub labels : {s t : Supervisor} → Reach s t → List Label
labels here = []
labels (next before step) = label step ∷ labels before

abbrev pub view : Supervisor → Promise
view s = record {
  running = length s.active;
  pending = s.err_chan;
  stopping = s.cancelled;
  announced = s.done_closed;
}

module _ (name : Text) (info : GoroutineInfo) (s : Supervisor)
    (found : get name s.active ≡ some info) (sound : IsSound s) where
  fewer : length (erase name s.active) ≡ length s.active - 1
  fewer = omega (
    arith,
    length-erase {0} name s.active,
    sound.once name,
    entries-some {0} name info s.active found,
  )

  runs : 0 < length s.active
  runs = omega (arith, length-erase {0} name s.active, entries-some {0} name info s.active found)

  leaves : (in_loop : Bool) → Move (view s) (view (leave name s)) (left in_loop none)
  unfolding leave
  leaves in_loop = ends in_loop runs (rw fewer refl)

  leaves_error :
      (in_loop : Bool) (x : Error)
      → (in_loop ≡ false → s.cancelled ≡ false)
      → Move (view s) (view (leave name (offer x s))) (left in_loop (some x))
  unfolding leave offer
  leaves_error in_loop x h = elim (Option-cases s.err_chan) [
    | inl p ↦ fails in_loop x h runs p (rw (fewer, p) refl)
    | inr (y, p) ↦ loses in_loop x y h runs p (rw (fewer, p) refl)
  ]

  leaves_unless :
      (b : Bool) (x : Error)
      → s.cancelled ≡ b
      → Move (view s) (view (leave name (offer_unless b x s))) (left false (some x))
  unfolding offer_unless leave
  leaves_unless true x h = drops x h runs (rw fewer refl)
  leaves_unless false x h = leaves_error false x (λ _. h)

  go_moves : (o : Outcome) → Move (view s) (view (end_go name o s)) (left false (error_of o))
  unfolding end_go
  go_moves panicked = leaves false
  go_moves (returned none) = leaves false
  go_moves (returned (some x)) = leaves_unless s.cancelled x refl

  loop_moves : (o : Outcome) → Move (view s) (view (end_loop name o s)) (left true (error_of o))
  unfolding end_loop
  loop_moves panicked = leaves true
  loop_moves (returned none) = leaves true
  loop_moves (returned (some x)) = leaves_error true x (λ h. absurd (ground (arith, h)))

Step-Move : {s t : Supervisor} → IsSound s → (step : Step s t) → Move (view s) (view t) (label step)
unfolding label start store_metadata take_error shutdown
Step-Move {s} h (starts name id info fresh) =
    begins (rw (length-put (final_name name id) info s.active fresh) (ground arith))
Step-Move {s} h (ends_go name info o found) = go_moves name info s found h o
Step-Move {s} h (ends_loop name info o found) = loop_moves name info s found h o
Step-Move {s} h takes_error = hands_over s.err_chan refl refl
Step-Move h shuts_down = stops refl
Step-Move {s} h (waits seen t e) =
    let (stopped, idle, same) = waited-cases seen s t e in
    announces stopped (sym h.counted ∙ idle) (ap view same)

-- What a sound supervisor does, step by step, is what the promise allows for the same labels: the error
-- that is taken is the one that waits, an error that a goroutine leaves waits only if none did before,
-- one of `Go` is dropped once the supervisor is stopped, only a goroutine that runs ends, and the end is
-- announced only when the supervisor is stopped and no goroutine runs.
pub Reach-Moves :
    {s t : Supervisor} → IsSound s → (reach : Reach s t) → Moves (view s) (view t) (labels reach)
unfolding labels
Reach-Moves h here = none_yet
Reach-Moves h (next before step) =
    then_one (Reach-Moves h before) (Step-Move (reach-IsSound before h) step)
