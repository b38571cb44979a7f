-- ===== src/Orchestrator/Order.antt =====
-- `_local_dep_name` and `_topological_order` of orchestrator_service.py
pub mod Release
pub mod Kahn
pub mod LocalDeps
pub mod Invariant
pub mod Topological
pub mod ByName
pub mod Launch
pub mod Validated
use winter_service_tmux.Prelude.{
  ℕ, zero, suc, not, ◌||◌, Option, none, some, List, [], ◌∷◌, ◌++◌, map, nat_beq, if◌then◌else◌,
  ◌==◌, nat_eq, Text, text_eq, contains, length, filter,
}
use winter_service_tmux.Prelude.Int.{ℤ, pos, negsuc, ◌+ℤ◌, int_eq}
use winter_service_tmux.Prelude.Dict.{Dict, lookup, insert, get_or}
use winter_service_tmux.Prelude.Str.{strip_prefix}
use winter_service_tmux.Manifest.Model.{Service}
use winter_service_tmux.Orchestrator.Context.{names_of}

-- A name without a slash is local, as is one qualified by the scope itself.
unfoldable pub local_dep_name : Text → Text → Option Text
unfolding strip_prefix contains
local_dep_name dep scope =
    if not (contains b'/' dep) then some dep else strip_prefix (scope ++ (b'/' ∷ [])) dep

unfoldable pub by_name : List Service → Dict Text Service → Dict Text Service
by_name [] d = d
by_name (svc ∷ services) d = by_name services (insert (svc.name) svc d)

-- the dependencies of a service that take part in the order
unfoldable pub local_deps_of : Text → List Text → Text → List Text → List Text
unfolding local_dep_name
local_deps_of scope names own [] = []
local_deps_of scope names own (dep ∷ deps) =
    let more = local_deps_of scope names own deps in
    elim (local_dep_name dep scope) [
      | none ↦ more
      | some local ↦ if local == own || not (contains local names) then more else local ∷ more
    ]

unfoldable pub local_deps :
    Text → List Text → List Service → Dict Text (List Text) → Dict Text (List Text)
unfolding local_deps_of
local_deps scope names [] d = d
local_deps scope names (svc ∷ services) d =
    local_deps scope names services
      (insert (svc.name) (local_deps_of scope names (svc.name) (svc.depends_on)) d)

unfoldable pub in_degrees : Dict Text (List Text) → Dict Text ℤ
in_degrees [] = []
in_degrees ((name, deps) ∷ d) = (name, pos (length deps)) ∷ in_degrees d

-- The names whose dependencies hold `dep`, once for each time they hold it.
unfoldable pub dependents : Text → Dict Text (List Text) → List Text
dependents dep [] = []
dependents dep ((name, deps) ∷ d) =
    map (λ _. name) (filter (λ x. x == dep) deps) ++ dependents dep d

-- the inner loop: each dependent has one dependency less, and is ready at none
unfoldable pub release : List Text → Dict Text ℤ → List Text → Dict Text ℤ × List Text
unfolding ◌+ℤ◌
release [] degrees ready = (degrees, ready)
release (name ∷ names) degrees ready =
    let left = get_or name (pos 0) degrees +ℤ negsuc 0 in
    release names (insert name left degrees) (if left == pos 0 then ready ++ (name ∷ []) else ready)

-- The outer loop; a name is ready when its degree falls to 0, so at most once, which bounds the
-- rounds by the number of names.
unfoldable pub kahn : ℕ → Dict Text (List Text) → Dict Text ℤ → List Text → List Text → List Text
unfolding release dependents
kahn zero deps degrees ready ordered = ordered
kahn (suc fuel) deps degrees [] ordered = ordered
kahn (suc fuel) deps degrees (name ∷ ready) ordered =
    let (degrees', ready') = release (dependents name deps) degrees ready in
    kahn fuel deps degrees' ready' (ordered ++ (name ∷ []))

unfoldable pub pick : List Text → Dict Text Service → List Service
pick [] d = []
pick (name ∷ names) d =
    let more = pick names d in elim (lookup name d) [ none ↦ more | some svc ↦ svc ∷ more ]

unfoldable pub ordered_names : List Service → Text → List Text
unfolding local_deps in_degrees kahn names_of
ordered_names services scope =
    let names = names_of services in
    let deps = local_deps scope names services [] in
    let degrees = in_degrees deps in
    let ready = filter (λ name. get_or name (pos 0) degrees == pos 0) names in
    let ordered = kahn (length services) deps degrees ready [] in
    if nat_beq (length ordered) (length services)
    then ordered
    else ordered ++ filter (λ name. not (contains name ordered)) names

unfoldable pub topological_order : List Service → Text → List Service
unfolding ordered_names pick by_name
topological_order services scope = pick (ordered_names services scope) (by_name services [])
