-- ===== src/BoundedIo.antt =====
-- internal/boundedio/buffer.go: an in-memory writer that keeps a bounded prefix of what it is sent.
pub mod Contract
use course_infra.Base.{ℕ, ◌+◌, ◌-◌, Bool, true, false, List, [], ◌∷◌, ◌++◌, length, take, ltb}
use course_infra.Base.{ℤ, pos_part, if◌then◌else◌}

-- `Buffer`; its bytes are numbers.
pub record Buffer : Type 0 where
  pub bytes : List ℕ
  pub limit : ℕ
  pub truncated : Bool

unfoldable pub new_buffer : ℤ → Buffer
new_buffer limit = record { bytes = []; limit = pos_part limit; truncated = false }

-- The bytes that one `Write` keeps: `remaining` is `limit - Len()`, which is above 0 or is not used.
unfoldable pub retain : ℕ → List ℕ → List ℕ → List ℕ
retain remaining bytes value =
    if ltb 0 remaining
    then bytes ++ (if ltb remaining (length value) then take remaining value else value)
    else bytes

-- `Write` and its result. The test `originalLength > remaining` is made with the length that is
-- subtracted in `remaining` on the other side, since that difference may be negative in Go.
unfoldable pub write : List ℕ → Buffer → Buffer × ℕ
unfolding retain
write value b = (
  record {
    bytes = retain (b.limit - length b.bytes) b.bytes value;
    limit = b.limit;
    truncated = if ltb b.limit (length b.bytes + length value) then true else b.truncated;
  },
  length value,
)

-- A producer's writes, in order.
unfoldable pub write_all : List (List ℕ) → Buffer → Buffer
unfolding write
write_all [] b = b
write_all (value ∷ values) b = write_all values (write value b).0
