-- ===== src/PushImage/Reference.antt =====
-- internal/pushimage/provider.go: the reference that `Ensure` returns is one that `Generate` accepts.
use course_infra.Base.{
  ℕ, ◌≡◌, refl, sym, subst, ap, ◌∙◌, String, true, List, [], ◌∷◌, ◌++◌, inl, inr, arith, Bool-cases,
  ==_iff,
}
use course_infra.Text.{◌<>◌, codes, is_prefix, has_prefix}
use course_infra.Errors.{ok, ok-injective}
use course_infra.Effects.{finally, lift}
use course_infra.Effects.World.{World, Trace}
use course_infra.Catalog.Images.{local_push_image_repository, image_by_name, reference}
use course_infra.Effects.Results.{IsContinued-bind}
use course_infra.Generator.{Options, is_digest_after, is_immutable, image_reference, matches_name}
use course_infra.PushImage.{Provider, is_local_reference, first_local, build_and_push, ensure}

-- A match is the prefix and a digest.
is_digest_after-split :
    (p cs : List ℕ)
    → is_digest_after p cs ≡ true
    → (rest : List ℕ) × (cs ≡ p ++ rest) × (is_digest_after [] rest ≡ true)
is_digest_after-split [] cs h = (cs, refl, h)
is_digest_after-split (x ∷ p) [] h = absurd (ground arith)
is_digest_after-split (x ∷ p) (c ∷ cs) h =
    let (rest, e, g) = is_digest_after-split p cs (ground arith) in
    let same : x ≡ c = ground (arith, ==_iff x c) in
    (rest, ap (◌∷◌ c) e ∙ ap (λ y. y ∷ p ++ rest) (sym same), g)

is_prefix-append : (p rest : List ℕ) → is_prefix p (p ++ rest) ≡ true
is_prefix-append [] rest = refl
is_prefix-append (x ∷ p) rest = ground (arith, is_prefix-append p rest)

local_matches :
    (rest : List ℕ)
    → is_digest_after [] rest ≡ true
    → matches_name (codes (local_push_image_repository <> "@sha256:") ++ rest) ≡ true
local_matches rest h = h

-- A reference to the managed repository passes both tests of the generator.
is_local_reference-IsPinned :
    (text : String)
    → is_local_reference text ≡ true
    → (is_immutable text ≡ true)
      × (has_prefix text (local_push_image_repository <> "@sha256:") ≡ true)
unfolding is_local_reference is_immutable has_prefix
is_local_reference-IsPinned text h =
    let prefix = codes (local_push_image_repository <> "@sha256:") in
    let (rest, e, g) = is_digest_after-split prefix (codes text) h in
    (
      ap matches_name e ∙ local_matches rest g,
      ap (is_prefix prefix) e ∙ is_prefix-append prefix rest,
    )

first_local-ok :
    (references : List String) (text : String)
    → first_local references ≡ ok text
    → is_local_reference text ≡ true
unfolding first_local
first_local-ok [] text h = absurd (ground arith)
first_local-ok (reference ∷ references) text h = elim (Bool-cases (is_local_reference reference)) [
  | inl e ↦ subst (λ r. is_local_reference r ≡ true) (ok-injective (rw (first_local, e) at h)) e
  | inr e ↦ first_local-ok references text (rw (first_local, e) at h)
]

module _ (W : World) (P : Provider) where
  build_and_push-local :
      (directory text : String) (t : Trace W)
      → (build_and_push W P directory t).0 ≡ ok text
      → is_local_reference text ≡ true
  unfolding build_and_push lift
  build_and_push-local directory text t h =
      let extracted = IsContinued-bind _ _ text t h in
      let built = IsContinued-bind _ _ text _ extracted.second in
      let pushed = IsContinued-bind _ _ text _ built.second in
      let inspected = IsContinued-bind _ _ text _ pushed.second in
      let decoded = IsContinued-bind _ _ text _ inspected.second in
      first_local-ok decoded.value text decoded.second

  ensure-local :
      (text : String) (t : Trace W) → (ensure W P t).0 ≡ ok text → is_local_reference text ≡ true
  unfolding ensure finally
  ensure-local text t h =
      let supported = IsContinued-bind _ _ text t h in
      let present = IsContinued-bind _ _ text _ supported.second in
      let parsed = IsContinued-bind _ _ text _ present.second in
      let matching = IsContinued-bind _ _ text _ parsed.second in
      let prepared = IsContinued-bind _ _ text _ matching.second in
      build_and_push-local prepared.value text _ prepared.second

  -- Whatever Docker answers: a reference that `Ensure` returns without an error is pinned by a SHA-256
  -- digest in the managed local repository, and `Generate` puts it into the manifests as it is.
  pub ensure-image_reference :
      (options : Options) (t : Trace W)
      → (ensure W P t).0 ≡ ok options.push_image_reference
      → (is_local_reference options.push_image_reference ≡ true)
        × (image_reference options "push-service" ≡ ok options.push_image_reference)
  unfolding image_reference image_by_name reference
  ensure-image_reference options t h =
      let here = ensure-local options.push_image_reference t h in
      let (digest, managed) = is_local_reference-IsPinned options.push_image_reference here in
      (here, ground (arith, digest, managed))
