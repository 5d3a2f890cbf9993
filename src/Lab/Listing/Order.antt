-- ===== src/Lab/Listing/Order.antt =====
-- internal/lab/service.go: the order of the entries of `List`.
use mathlib.Core.List.{Permᴰ}
use mathlib.Core.List.Permᴰ
use course_infra.Base.{
  refl, ℕ, ◌≤◌, String, List, [], ◌∷◌, inl, inr, arith, All, Bool-cases, leb, map,
}
use course_infra.Lab.{RuntimeStatus}
use course_infra.Lab.Listing.{insert_status, sort_statuses}

abbrev pub entry : RuntimeStatus → ℕ × String
entry status = (status.lab, status.namespace)

-- No entry stands before one of a smaller lab.
abbrev pub IsOrdered : List RuntimeStatus → Type 0
IsOrdered [] = Unit
IsOrdered (status ∷ statuses) = All (λ other. status.lab ≤ other.lab) statuses × IsOrdered statuses

insert_status-perm :
    (status : RuntimeStatus) (statuses : List RuntimeStatus)
    → Permᴰ (map entry (insert_status status statuses)) (entry status ∷ map entry statuses)
unfolding insert_status
insert_status-perm status [] = Permᴰ.refl _
insert_status-perm status (other ∷ statuses) = elim (Bool-cases (leb status.lab other.lab)) [
  | inl h ↦ rw h (Permᴰ.refl _)
  | inr h ↦
      rw h
        (Permᴰ.trans (Permᴰ.cons refl (insert_status-perm status statuses)) (Permᴰ.swap refl refl))
]

pub sort_statuses-perm :
    (statuses : List RuntimeStatus)
    → Permᴰ (map entry (sort_statuses statuses)) (map entry statuses)
unfolding sort_statuses
sort_statuses-perm [] = Permᴰ.nil
sort_statuses-perm (status ∷ statuses) =
    Permᴰ.trans (insert_status-perm status (sort_statuses statuses))
      (Permᴰ.cons refl (sort_statuses-perm statuses))

insert_status-All :
    (bound : ℕ) (status : RuntimeStatus) (statuses : List RuntimeStatus)
    → bound ≤ status.lab
    → All (λ other. bound ≤ other.lab) statuses
    → All (λ other. bound ≤ other.lab) (insert_status status statuses)
unfolding insert_status
insert_status-All bound status [] h k = (h, tt)
insert_status-All bound status (other ∷ statuses) h k =
    ground (arith, insert_status-All bound status statuses h)

All-le :
    (low high : ℕ) (statuses : List RuntimeStatus)
    → low ≤ high
    → All (λ other. high ≤ other.lab) statuses
    → All (λ other. low ≤ other.lab) statuses
All-le low high [] h k = tt
All-le low high (other ∷ statuses) h k = (omega arith, All-le low high statuses h k.1)

insert_status-IsOrdered :
    (status : RuntimeStatus) (statuses : List RuntimeStatus)
    → IsOrdered statuses
    → IsOrdered (insert_status status statuses)
unfolding insert_status
insert_status-IsOrdered status [] h = (tt, tt)
insert_status-IsOrdered status (other ∷ statuses) h = elim (Bool-cases (leb status.lab other.lab)) [
  | inl e ↦
      let low : status.lab ≤ other.lab = ground arith in
      rw e ((low, All-le status.lab other.lab statuses low h.0), h)
  | inr e ↦ rw e (
    insert_status-All other.lab status statuses (ground arith) h.0,
    insert_status-IsOrdered status statuses h.1,
  )
]

pub sort_statuses-IsOrdered : (statuses : List RuntimeStatus) → IsOrdered (sort_statuses statuses)
unfolding sort_statuses
sort_statuses-IsOrdered [] = tt
sort_statuses-IsOrdered (status ∷ statuses) =
    insert_status-IsOrdered status (sort_statuses statuses) (sort_statuses-IsOrdered statuses)
