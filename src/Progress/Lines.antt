-- ===== src/Progress/Lines.antt =====
-- internal/progress/progress.go: `Write` as a machine over single bytes.
use mathlib.Core.List.{append-nil, append_assoc}
use course_infra.Base.{
  ℕ, zero, suc, ◌-◌, ◌≤◌, ◌<◌, ◌≡◌, refl, ap, ◌∙◌, sym, true, false, Option, Option-cases, none,
  some, List, [], ◌∷◌, ◌++◌, arith, length, take, length-append, take_all, take_zero, take_twice,
  ◌==◌, Bool-cases, inl, inr, if◌then◌else◌,
}
use course_infra.Progress.{
  LineWriter, max_partial_line, newline, cut, append_partial, emit_locked, write_loop, write,
}

-- The room that is left is filled, whatever its size.
pub append_partial_lem :
    (value : List ℕ) (w : LineWriter)
    → append_partial value w
      ≡ record w { partial = w.partial ++ take (max_partial_line - length w.partial) value }
unfolding append_partial
append_partial_lem value w = ground (
  arith,
  take_zero (max_partial_line - length w.partial) value,
  take_all (max_partial_line - length w.partial) value,
  append-nil w.partial,
)

-- Two fillings are one.
pub refill :
    (n : ℕ) (p a b : List ℕ)
    → (p ++ take (n - length p) a) ++ take (n - length (p ++ take (n - length p) a)) b
      ≡ p ++ take (n - length p) (a ++ b)
refill n p a b =
    let e : n - length (p ++ take (n - length p) a)
        ≡ n - length p - length (take (n - length p) a) =
      omega (arith, length-append p (take (n - length p) a)) in
    rw (e, append_assoc, take_twice (n - length p) a b)

append_partial-append :
    (a b : List ℕ) (w : LineWriter)
    → append_partial b (append_partial a w) ≡ append_partial (a ++ b) w
append_partial-append a b w =
    rw (append_partial_lem, append_partial_lem, append_partial_lem)
      (ap (λ p. record w { partial = p }) (refill max_partial_line w.partial a b))

append_partial-nil : (w : LineWriter) → append_partial [] w ≡ w
append_partial-nil w = rw append_partial_lem (
    ap (λ p. record w { partial = p })
      (ap (λ t. w.partial ++ t) (take_all (max_partial_line - length w.partial) [] (omega arith))
        ∙ append-nil w.partial))

-- The writer as a machine over single bytes.
unfoldable pub byte_step : ℕ → LineWriter → LineWriter
byte_step c w = if c == newline then emit_locked w else append_partial (c ∷ []) w

unfoldable pub run : List ℕ → LineWriter → LineWriter
run [] w = w
run (c ∷ value) w = run value (byte_step c w)

pub run-append : (a b : List ℕ) (w : LineWriter) → run (a ++ b) w ≡ run b (run a w)
unfolding run
run-append [] b w = refl
run-append (c ∷ a) b w = run-append a b (byte_step c w)

-- One round of the loop is a run to the end of the line.
abbrev round : LineWriter → List ℕ → Option (List ℕ × List ℕ) → LineWriter
round w value none = append_partial value w
round w value (some (before, after)) = run after (emit_locked (append_partial before w))

abbrev consed : ℕ → Option (List ℕ × List ℕ) → Option (List ℕ × List ℕ)
consed c none = none
consed c (some (before, after)) = some (c ∷ before, after)

cut-newline : (c : ℕ) (value : List ℕ) → (c == newline) ≡ true → cut (c ∷ value) ≡ some ([], value)
unfolding cut
cut-newline c value h = rw h

cut-other :
    (c : ℕ) (value : List ℕ) → (c == newline) ≡ false → cut (c ∷ value) ≡ consed c (cut value)
unfolding cut
cut-other c value h = rw h (elim (Option-cases (cut value)) [ inl e ↦ rw e | inr (x, e) ↦ rw e ])

round-consed :
    (c : ℕ) (value : List ℕ) (w : LineWriter) (o : Option (List ℕ × List ℕ))
    → round (append_partial (c ∷ []) w) value o ≡ round w (c ∷ value) (consed c o)
round-consed c value w none = append_partial-append (c ∷ []) value w
round-consed c value w (some (before, after)) =
    ap (λ v. run after (emit_locked v)) (append_partial-append (c ∷ []) before w)

run-cut : (value : List ℕ) (w : LineWriter) → run value w ≡ round w value (cut value)
unfolding run byte_step cut
run-cut [] w = sym (append_partial-nil w)
run-cut (c ∷ value) w = elim (Bool-cases (c == newline)) [
  | inl h ↦ rw (cut-newline c value h, append_partial-nil w, byte_step, h)
  | inr h ↦
      rw (cut-other c value h, ← round-consed c value w (cut value), byte_step, h)
        (run-cut value (append_partial (c ∷ []) w))
]

cut-shorter :
    (value before after : List ℕ) → cut value ≡ some (before, after) → length after < length value
cut-shorter [] before after h = unfold cut in cc h
cut-shorter (c ∷ value) before after h = elim (Bool-cases (c == newline)) [
  | inl e ↦ ground (arith, cut-newline c value e)
  | inr e ↦ elim (Option-cases (cut value)) [
    | inl n ↦ ground (arith, cut-other c value e)
    | inr ((b, a), f) ↦ ground (arith, cut-other c value e, cut-shorter value b a f)
  ]
]

-- The loop of `Write` runs over all of its input: the fuel is enough.
write_loop-run :
    (fuel : ℕ) (value : List ℕ) (w : LineWriter)
    → length value ≤ fuel
    → write_loop fuel value w ≡ run value w
unfolding write_loop
write_loop-run zero [] w h = unfold run in refl
write_loop-run zero (c ∷ value) w h = absurd (omega arith)
write_loop-run (suc fuel) [] w h = unfold run in refl
write_loop-run (suc fuel) (c ∷ value) w h = elim (Option-cases (cut (c ∷ value))) [
  | inl e ↦ rw (run-cut, e, write_loop)
  | inr ((before, after), e) ↦
      rw (run-cut, e, write_loop)
        (write_loop-run fuel after (emit_locked (append_partial before w))
          (omega (arith, cut-shorter (c ∷ value) before after e)))
]

pub run-write : (value : List ℕ) (w : LineWriter) → (write value w).0 ≡ run value w
unfolding write
run-write value w = write_loop-run (length value) value w (omega arith)
