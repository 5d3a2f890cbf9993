-- ===== src/BoundedIo/Contract.antt =====
-- internal/boundedio/buffer.go: what a buffer holds after any writes.
use mathlib.Core.List.{append-nil, append_assoc}
use course_infra.Base.{
  ℕ, ◌-◌, ◌≡◌, refl, ap, ◌∙◌, List, [], ◌∷◌, ◌++◌, arith, length, take, length-append, length-take,
  take_all, take_zero, take-append, ltb, ℤ, pos_part, if◌then◌else◌,
}
use course_infra.BoundedIo.{Buffer, new_buffer, retain, write, write_all}

-- All that was sent, in order.
abbrev pub sent : List (List ℕ) → List ℕ
sent [] = []
sent (value ∷ values) = value ++ sent values

-- The buffer holds the prefix of `all`, and says truthfully whether something is missing.
pub record Holds (all : List ℕ) (b : Buffer) : Type 0 where
  pub kept : b.bytes ≡ take b.limit all
  pub flag : b.truncated ≡ ltb b.limit (length all)

-- Cutting only what is too long is cutting.
clip : (n : ℕ) (xs : List ℕ) → (if ltb n (length xs) then take n xs else xs) ≡ take n xs
clip n xs = ground (arith, take_all n xs)

retain-take :
    (n : ℕ) (all value : List ℕ)
    → retain (n - length (take n all)) (take n all) value ≡ take n (all ++ value)
unfolding retain
retain-take n all value =
    rw (take-append, clip)
      (ground (
        arith,
        length-take n all,
        take_zero (n - length all) value,
        append-nil (take n all),
        take_all n all,
      ))

write-Holds :
    (all value : List ℕ) (b : Buffer) → Holds all b → Holds (all ++ value) (write value b).0
unfolding write
write-Holds all value b h = record {
  kept = rw h.kept (retain-take b.limit all value);
  flag = ground (arith, h.flag, ap length h.kept, length-take b.limit all, length-append all value);
}

write_all-Holds :
    (values : List (List ℕ)) (all : List ℕ) (b : Buffer)
    → Holds all b
    → Holds (all ++ sent values) (write_all values b)
unfolding write_all
write_all-Holds [] all b h = rw append-nil h
write_all-Holds (value ∷ values) all b h =
    rw (← append_assoc)
      (write_all-Holds values (all ++ value) (write value b).0 (write-Holds all value b h))

limit-write_all : (values : List (List ℕ)) (b : Buffer) → (write_all values b).limit ≡ b.limit
unfolding write_all
limit-write_all [] b = refl
limit-write_all (value ∷ values) b = limit-write_all values (write value b).0

-- After any writes to a new buffer it holds the first `limit` bytes of everything that was sent,
-- however it was cut into writes (none, for a limit below 0), `Truncated` says whether more was
-- sent than that, and each write reports its whole input as written.
pub write_all-new_buffer :
    (limit : ℤ) (values : List (List ℕ)) (value : List ℕ)
    → let b = write_all values (new_buffer limit) in
      (b.bytes ≡ take (pos_part limit) (sent values))
      × (b.truncated ≡ ltb (pos_part limit) (length (sent values)))
      × ((write value b).1 ≡ length value)
unfolding write_all new_buffer
write_all-new_buffer limit values value =
    let b = new_buffer limit in
    let h = write_all-Holds values [] b (record {
      kept = ground (arith, take_all {A = ℕ} (pos_part limit) []);
      flag = ground arith;
    }) in
    let e = limit-write_all values b in
    (
      h.kept ∙ ap (λ n. take n (sent values)) e,
      h.flag ∙ ap (λ n. ltb n (length (sent values))) e,
      refl,
    )
