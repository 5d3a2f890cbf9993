-- ===== src/Cluster/Membership/Laws.antt =====
-- internal/cluster/service.go: what `setMembership` makes of a list of environments.
use course_infra.Base.{
  ◌≡◌, ◌≢◌, refl, ap, ◌∙◌, inl, inr, String, Bool, true, false, not, List, [], ◌∷◌, ◌++◌, str_eq,
  eq_iff, ◌&&◌, ◌||◌, arith, All, All-append, Bool-cases, if◌then◌else◌,
}
use course_infra.Sorting.{insert, sort}
use course_infra.Sorting.Laws.{IsSorted, IsDistinct, Permᴰ-IsDistinct, sort-perm, sort-IsSorted}
use course_infra.Config.{itself}
use course_infra.Cluster.{contains}
use course_infra.Cluster.Membership.{delete_first, set_membership}
use mathlib.Core.List.Permᴰ

or_swap : (a b c : Bool) → (a || (b || c)) ≡ (b || (a || c))
or_swap a b c = ground arith

contains-insert :
    (a : String) (l : List String) (name : String)
    → contains (insert itself a l) name ≡ (str_eq a name || contains l name)
unfolding insert contains
contains-insert a [] name = refl
contains-insert a (b ∷ l) name =
    ground
      (arith, contains-insert a l name, or_swap (str_eq a name) (str_eq b name) (contains l name))

contains-sort : (l : List String) (name : String) → contains (sort itself l) name ≡ contains l name
unfolding sort contains
contains-sort [] name = refl
contains-sort (a ∷ l) name =
    contains-insert a (sort itself l) name ∙ ap (str_eq a name ||◌) (contains-sort l name)

contains-append :
    (l : List String) (a name : String)
    → contains (l ++ (a ∷ [])) name ≡ (contains l name || str_eq a name)
unfolding contains
contains-append [] a name = ground arith
contains-append (b ∷ l) a name = ground (arith, contains-append l a name)

-- A text that differs from all members is not contained, and is no second copy of one.
contains-All : (l : List String) (name : String) → contains l name ≡ false → All (λ b. name ≢ b) l
unfolding contains
contains-All [] name h = tt
contains-All (b ∷ l) name h =
    ((λ e. ground (arith, eq_iff b name)), contains-All l name (ground arith))

All-contains : (l : List String) (name : String) → All (λ b. name ≢ b) l → contains l name ≡ false
unfolding contains
All-contains [] name h = refl
All-contains (b ∷ l) name (h, k) = ground (arith, eq_iff b name, All-contains l name k)

contains-delete_first :
    (target : String) (l : List String) (name : String)
    → IsDistinct itself l
    → contains (delete_first target l) name ≡ (not (str_eq name target) && contains l name)
unfolding contains delete_first
contains-delete_first target [] name h = ground arith
contains-delete_first target (b ∷ l) name (h, k) = ground (
  arith,
  eq_iff b target,
  eq_iff b name,
  eq_iff name target,
  All-contains l b h,
  contains-delete_first target l name k,
)

delete_first-All :
    (P : String → Type 0) (target : String) (l : List String)
    → All P l
    → All P (delete_first target l)
unfolding delete_first
delete_first-All P target [] h = tt
delete_first-All P target (b ∷ l) (h, k) = ground (arith, delete_first-All P target l k)

delete_first-IsDistinct :
    (target : String) (l : List String)
    → IsDistinct itself l
    → IsDistinct itself (delete_first target l)
unfolding delete_first
delete_first-IsDistinct target [] h = tt
delete_first-IsDistinct target (b ∷ l) (h, k) =
    ground (arith, delete_first-All (λ c. b ≢ c) target l h, delete_first-IsDistinct target l k)

append-IsDistinct :
    (l : List String) (a : String)
    → contains l a ≡ false
    → IsDistinct itself l
    → IsDistinct itself (l ++ (a ∷ []))
unfolding contains
append-IsDistinct [] a h k = (tt, tt)
append-IsDistinct (b ∷ l) a h (k, j) = (
  All-append (λ c. b ≢ c) l (a ∷ []) k ((λ e. ground (arith, eq_iff b a)), tt),
  append-IsDistinct l a (ground arith) j,
)

-- What the projection is to be: sorted, without a second copy, and with the members of `l` except
-- that `target` is in it if and only if it is present.
pub record IsUpdate (l : List String) (target : String) (present : Bool) (m : List String)
    : Type 0 where
  pub is_sorted : IsSorted itself m
  pub is_distinct : IsDistinct itself m
  pub contains_eq :
      (name : String) → contains m name ≡ (if str_eq name target then present else contains l name)

sorted-IsUpdate :
    (l : List String) (target : String) (present : Bool) (m : List String)
    → IsDistinct itself m
    → ((name : String)
        → contains m name ≡ (if str_eq name target then present else contains l name))
    → IsUpdate l target present (sort itself m)
sorted-IsUpdate l target present m h k = record {
  is_sorted = sort-IsSorted itself m;
  is_distinct = Permᴰ-IsDistinct itself (Permᴰ.symm (sort-perm itself m)) h;
  contains_eq = λ name. contains-sort m name ∙ k name;
}

-- For a list without a second copy of any environment, the result of setting one environment's
-- presence is sorted, has no second copy either, and contains the environment if and only if it is
-- to be present; what it says of every other environment is what the list said.
pub set_membership-IsUpdate :
    (l : List String) (target : String) (present : Bool)
    → IsDistinct itself l
    → IsUpdate l target present (set_membership l target present)
unfolding set_membership
set_membership-IsUpdate l target present h = elim (Bool-cases present) [
  | inl p ↦ elim (Bool-cases (contains l target)) [
    | inl c ↦
        rw (p, c) (sorted-IsUpdate l target true l h (λ name. ground (arith, eq_iff name target)))
    | inr c ↦
        rw (p, c)
          (sorted-IsUpdate l target true _ (append-IsDistinct l target c h) (λ name.
            ground (arith, eq_iff name target, eq_iff target name, contains-append l target name)))
  ]
  | inr p ↦ elim (Bool-cases (contains l target)) [
    | inl c ↦
        rw (p, c)
          (sorted-IsUpdate l target false _ (delete_first-IsDistinct target l h)
            (λ name. ground (arith, contains-delete_first target l name h)))
    | inr c ↦
        rw (p, c) (sorted-IsUpdate l target false l h (λ name. ground (arith, eq_iff name target)))
  ]
]
