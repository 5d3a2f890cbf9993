-- ===== src/Progress/Output.antt =====
-- internal/progress/progress.go: the events that a subprocess's output gives rise to.
use mathlib.Core.List.{append-nil, append_assoc}
use course_infra.Base.{
  ℕ, ◌-◌, ◌≡◌, ◌≢◌, refl, ap, ◌∙◌, sym, Bool, true, false, List, [], ◌∷◌, ◌++◌, arith, length, take,
  take_all, ◌==◌, Bool-cases, inl, inr, if◌then◌else◌,
}
use course_infra.BoundedIo.Contract.{sent}
use course_infra.Progress.{
  activity, Event, LineWriter, max_partial_line, newline, new_line_writer, append_partial,
  emit_locked, write, close,
}
use course_infra.Progress.Lines.{append_partial_lem, refill, byte_step, run, run-append, run-write}

-- `strings.Split(text, "\n")`: what stands between the newlines, with what follows the last one.
abbrev pub split_lines : List ℕ → List (List ℕ)
split_lines [] = [] ∷ []
split_lines (c ∷ text) =
    let rest = split_lines text in
    if c == newline
    then [] ∷ rest
    else (elim rest [ [] ↦ (c ∷ []) ∷ [] | line ∷ lines ↦ (c ∷ line) ∷ lines ])

-- One line is one activity event; an empty line is none.
abbrev pub shown : Bool → List ℕ → List Event
shown false line = []
shown true [] = []
shown true (c ∷ line) = record { kind = activity; message = c ∷ line } ∷ []

-- The events of all lines, each cut to the longest line that is kept.
abbrev pub shown_lines : Bool → List (List ℕ) → List Event
shown_lines attached [] = []
shown_lines attached (line ∷ lines) =
    shown attached (take max_partial_line line) ++ shown_lines attached lines

-- The same where the first line continues what is already held.
abbrev shown_onto : Bool → List ℕ → List (List ℕ) → List Event
shown_onto attached partial [] = []
shown_onto attached partial (line ∷ lines) =
    shown attached (partial ++ take (max_partial_line - length partial) line)
    ++ shown_lines attached lines

events-emit : (w : LineWriter) → (emit_locked w).events ≡ w.events ++ shown w.attached w.partial
unfolding emit_locked
events-emit w =
    elim (w.partial)
      as (λ p. (emit_locked (record w { partial = p })).events ≡ w.events ++ shown w.attached p) [
        | [] ↦ ground (arith, append-nil w.events)
        | c ∷ line ↦ ground (arith, append-nil w.events)
      ]

abbrev first_onto : ℕ → List (List ℕ) → List (List ℕ)
first_onto c [] = (c ∷ []) ∷ []
first_onto c (line ∷ lines) = (c ∷ line) ∷ lines

split_lines-newline :
    (c : ℕ) (text : List ℕ) → (c == newline) ≡ true → split_lines (c ∷ text) ≡ [] ∷ split_lines text
split_lines-newline c text h = rw h

split_lines-other :
    (c : ℕ) (text : List ℕ)
    → (c == newline) ≡ false
    → split_lines (c ∷ text) ≡ first_onto c (split_lines text)
split_lines-other c text h = rw h (first_onto_lem c (split_lines text))
  where
    first_onto_lem :
        (c : ℕ) (l : List (List ℕ))
        → (elim l [ [] ↦ (c ∷ []) ∷ [] | line ∷ lines ↦ (c ∷ line) ∷ lines ]) ≡ first_onto c l
    first_onto_lem c [] = refl
    first_onto_lem c (line ∷ lines) = refl

split_lines-ne-nil : (text : List ℕ) → split_lines text ≢ []
split_lines-ne-nil [] h = cc
split_lines-ne-nil (c ∷ text) h = elim (Bool-cases (c == newline)) [
  | inl e ↦ cc (split_lines-newline c text e)
  | inr e ↦ ground (arith, split_lines-other c text e)
]

shown_onto-newline :
    (attached : Bool) (p : List ℕ) (l : List (List ℕ))
    → shown_onto attached p ([] ∷ l) ≡ shown attached p ++ shown_lines attached l
shown_onto-newline attached p l =
    ap (λ q. shown attached q ++ shown_lines attached l)
      (ap (λ t. p ++ t) (take_all (max_partial_line - length p) [] (omega arith)) ∙ append-nil p)

shown_onto-nil :
    (attached : Bool) (l : List (List ℕ)) → shown_onto attached [] l ≡ shown_lines attached l
shown_onto-nil attached [] = refl
shown_onto-nil attached (line ∷ lines) = refl

shown_onto-cons :
    (attached : Bool) (p : List ℕ) (c : ℕ) (l : List (List ℕ))
    → l ≢ []
    → shown_onto attached (p ++ take (max_partial_line - length p) (c ∷ [])) l
      ≡ shown_onto attached p (first_onto c l)
shown_onto-cons attached p c [] h = absurd (h refl)
shown_onto-cons attached p c (line ∷ lines) h =
    ap (λ q. shown attached q ++ shown_lines attached lines)
      (refill max_partial_line p (c ∷ []) line)

-- The events of a writer when more lines come and it is closed.
abbrev onto : LineWriter → List (List ℕ) → List Event
onto w lines = w.events ++ shown_onto w.attached w.partial lines

onto-emit : (w : LineWriter) (l : List (List ℕ)) → onto (emit_locked w) l ≡ onto w ([] ∷ l)
unfolding emit_locked
onto-emit w l =
    ap (λ t. t ++ shown_onto w.attached [] l) (events-emit w)
    ∙ append_assoc w.events (shown w.attached w.partial) (shown_onto w.attached [] l)
    ∙ ap (λ t. w.events ++ (shown w.attached w.partial ++ t)) (shown_onto-nil w.attached l)
    ∙ ap (λ t. w.events ++ t) (sym (shown_onto-newline w.attached w.partial l))

onto-append_partial :
    (c : ℕ) (w : LineWriter) (l : List (List ℕ))
    → l ≢ []
    → onto (append_partial (c ∷ []) w) l ≡ onto w (first_onto c l)
onto-append_partial c w l h =
    rw append_partial_lem (ap (λ t. w.events ++ t) (shown_onto-cons w.attached w.partial c l h))

onto-byte_step :
    (c : ℕ) (text : List ℕ) (w : LineWriter)
    → onto (byte_step c w) (split_lines text) ≡ onto w (split_lines (c ∷ text))
unfolding byte_step
onto-byte_step c text w = elim (Bool-cases (c == newline)) [
  | inl h ↦ rw (split_lines-newline c text h, h) (onto-emit w (split_lines text))
  | inr h ↦
      rw (split_lines-other c text h, h)
        (onto-append_partial c w (split_lines text) (split_lines-ne-nil text))
]

events-run :
    (value : List ℕ) (w : LineWriter) → (close (run value w)).events ≡ onto w (split_lines value)
unfolding run close
events-run [] w =
    events-emit w
    ∙ ap (λ t. w.events ++ t) (sym (shown_onto-newline w.attached w.partial [] ∙ append-nil _))
events-run (c ∷ value) w = events-run value (byte_step c w) ∙ onto-byte_step c value w

-- Several writes, in order.
unfoldable pub write_all : List (List ℕ) → LineWriter → LineWriter
write_all [] w = w
write_all (value ∷ values) w = write_all values (write value w).0

write_all-run : (values : List (List ℕ)) (w : LineWriter) → write_all values w ≡ run (sent values) w
unfolding write_all
write_all-run [] w = unfold run in refl
write_all-run (value ∷ values) w =
    write_all-run values (write value w).0
    ∙ ap (run (sent values)) (run-write value w)
    ∙ sym (run-append value (sent values) w)

-- However a subprocess's output is cut into writes, a new writer that is closed after them has
-- reported one activity event for each non-empty line of the whole output, the unterminated last
-- one included, in order and cut to its first 4096 bytes, and none without a reporter.
pub events-write_all :
    (attached : Bool) (values : List (List ℕ))
    → (close (write_all values (new_line_writer attached))).events
      ≡ shown_lines attached (split_lines (sent values))
unfolding new_line_writer
events-write_all attached values =
    ap (λ w. (close w).events)
      (write_all-run values (record { attached = attached; partial = []; events = [] }))
    ∙ events-run (sent values) (record { attached = attached; partial = []; events = [] })
    ∙ shown_onto-nil attached (split_lines (sent values))
