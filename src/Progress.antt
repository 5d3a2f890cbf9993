-- ===== src/Progress.antt =====
-- internal/progress/progress.go: lifecycle events, and the observer that turns subprocess output
-- into activity events, line by line. The mutex makes each call of `Write` and `Close` one step.
pub mod Lines
pub mod Output
use course_infra.Base.{ℕ, zero, suc, ◌-◌, Bool, Option, none, some, List, [], ◌∷◌, ◌++◌}
use course_infra.Base.{length, take, ltb, ◌==◌, if◌then◌else◌}

-- `Kind`
pub data Kind : Type 0 where
  stage activity readiness warning : Kind

-- `Event`, its message in bytes.
pub record Event : Type 0 where
  pub kind : Kind
  pub message : List ℕ

-- `Report`: the events that the reporter of the context has received, if one is attached.
abbrev pub report : Bool → Kind → List ℕ → List Event → List Event
report attached kind message events =
    if attached then events ++ (record { kind = kind; message = message } ∷ []) else events

-- `LineWriter`, with its context's reporter.
pub record LineWriter : Type 0 where
  pub attached : Bool
  pub partial : List ℕ
  pub events : List Event

abbrev pub max_partial_line : ℕ
max_partial_line = 4096

abbrev pub newline : ℕ
newline = b'\n'

unfoldable pub new_line_writer : Bool → LineWriter
new_line_writer attached = record { attached = attached; partial = []; events = [] }

-- `bytes.IndexByte(value, '\n')` with the two slices that are taken at the index.
unfoldable pub cut : List ℕ → Option (List ℕ × List ℕ)
cut [] = none
cut (c ∷ value) =
    if c == newline
    then some ([], value)
    else elim (cut value) [ none ↦ none | some (before, after) ↦ some (c ∷ before, after) ]

-- `appendPartial`
unfoldable pub append_partial : List ℕ → LineWriter → LineWriter
append_partial value w =
    let remaining = max_partial_line - length w.partial in
    if ltb 0 remaining
    then record w {
      partial = w.partial ++ (if ltb remaining (length value) then take remaining value else value);
    }
    else w

-- `emitLocked`
unfoldable pub emit_locked : LineWriter → LineWriter
emit_locked w = record {
  attached = w.attached;
  partial = [];
  events =
      if ltb 0 (length w.partial) then report w.attached activity w.partial w.events else w.events;
}

-- The loop of `Write`. A round takes at least one byte, so the length of the input is enough fuel.
unfoldable pub write_loop : ℕ → List ℕ → LineWriter → LineWriter
write_loop zero value w = w
write_loop (suc fuel) [] w = w
write_loop (suc fuel) (c ∷ value) w = elim (cut (c ∷ value)) [
  | none ↦ append_partial (c ∷ value) w
  | some (before, after) ↦ write_loop fuel after (emit_locked (append_partial before w))
]

-- `Write` and its result.
unfoldable pub write : List ℕ → LineWriter → LineWriter × ℕ
unfolding write_loop
write value w = (write_loop (length value) value w, length value)

-- `Close`
unfoldable pub close : LineWriter → LineWriter
unfolding emit_locked
close w = emit_locked w
