-- ===== src/Manifest/Validator/DependsOn.antt =====
-- `_check_depends_on` of src/service_manifest/modules/manifest/validator.py.
use winter_service_tmux.Prelude.{
  Bool, true, false, ◌&&◌, Option, none, some, List, [], ◌∷◌, ◌++◌, if◌then◌else◌, ◌==◌, nat_eq,
  Text, text_eq, contains,
}
use winter_service_tmux.Prelude.Dict.{Dict, lookup, insert}
use winter_service_tmux.Prelude.Str.{strip_prefix}
use winter_service_tmux.Manifest.Model.{Service}
use winter_service_tmux.Manifest.Cycle.{
  Graph, Verdict, clear, cycle, out_of_fuel, find_depends_on_cycle,
}
use winter_service_tmux.Manifest.Violation.{
  Label, Violation, self_dependency, unmatched_dependency, interactive_dependency, dependency_cycle,
  search_out_of_fuel,
}
use winter_service_tmux.Manifest.Validator.Base.{report, is_interactive}

-- The name that a pattern stands for in the scope, `none` for a pattern of another scope. The
-- name of an environment's scope is not known, so `scope_name` is `none` there.
unfoldable pub same_scope : Option Text → Text → Option Text
unfolding contains strip_prefix
same_scope scope_name dep =
    if contains b'/' dep
    then (elim scope_name [ none ↦ none | some scope ↦ strip_prefix (scope ++ (b'/' ∷ [])) dep ])
    else some dep

-- `by_name`: the last service of a name
unfoldable pub last_named : List Service → Dict Text Service → Dict Text Service
unfolding insert
last_named [] d = d
last_named (svc ∷ services) d = last_named services (insert svc.name svc d)

abbrev pub has_no_probe : Service → Bool
has_no_probe svc = elim svc.health [ none ↦ true | some _ ↦ false ]

-- a pattern of the scope: the violations, and the dependency where it counts as one
unfoldable pub check_dep : Label → Dict Text Service → Service → Text → List Violation × List Text
unfolding lookup is_interactive
check_dep label by_name svc dep =
    if dep == svc.name
    then (self_dependency label svc.name dep ∷ [], [])
    else elim (lookup dep by_name) [
      | none ↦ (unmatched_dependency label svc.name dep ∷ [], [])
      | some target ↦ (
        report (is_interactive target && has_no_probe target)
            (interactive_dependency label svc.name dep),
        dep ∷ [],
      )
    ]

-- the loop over the patterns of one service
unfoldable pub check_deps :
    Label → Option Text → Dict Text Service → Service → List Text → List Violation × List Text
unfolding same_scope check_dep
check_deps label scope_name by_name svc [] = ([], [])
check_deps label scope_name by_name svc (pattern ∷ patterns) =
    let (violations, deps) = check_deps label scope_name by_name svc patterns in
    elim (same_scope scope_name pattern) [
      | none ↦ (violations, deps)
      | some dep ↦
          let (here, local) = check_dep label by_name svc dep in (here ++ violations, local ++ deps)
    ]

-- the loop over the services: the violations, and the graph of the dependencies that count
unfoldable pub check_services :
    Label → Option Text → Dict Text Service → List Service → Graph → List Violation × Graph
unfolding check_deps insert
check_services label scope_name by_name [] graph = ([], graph)
check_services label scope_name by_name (svc ∷ services) graph =
    let (here, local_deps) = check_deps label scope_name by_name svc svc.depends_on in
    let (violations, graph') =
      check_services label scope_name by_name services (insert svc.name local_deps graph) in
    (here ++ violations, graph')

abbrev pub cycle_violations : Verdict → List Violation
cycle_violations clear = []
cycle_violations (cycle found) = dependency_cycle found ∷ []
cycle_violations out_of_fuel = search_out_of_fuel ∷ []

unfoldable pub check_depends_on : Label → Option Text → List Service → List Violation
unfolding check_services last_named find_depends_on_cycle
check_depends_on label scope_name services =
    let (violations, graph) =
      check_services label scope_name (last_named services []) services [] in
    violations ++ cycle_violations (find_depends_on_cycle graph)
