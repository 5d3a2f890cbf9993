-- ===== src/Cluster/Membership.antt =====
-- internal/cluster/service.go: `setMembership`, the projection of the environments.
pub mod Laws
use course_infra.Base.{
  String, Bool, true, false, List, [], ◌∷◌, ◌++◌, str_eq, not, ◌&&◌, if◌then◌else◌,
}
use course_infra.Sorting.{sort}
use course_infra.Config.{itself}
use course_infra.Cluster.{contains}

-- `slices.Delete` of the first occurrence, at `slices.Index`.
unfoldable pub delete_first : String → List String → List String
delete_first target [] = []
delete_first target (value ∷ values) =
    if str_eq value target then values else value ∷ delete_first target values

-- `setMembership`
unfoldable pub set_membership : List String → String → Bool → List String
unfolding contains delete_first
set_membership values target present = sort itself (
    if present && not (contains values target)
    then values ++ (target ∷ [])
    else if not present && contains values target
    then delete_first target values
    else values)
