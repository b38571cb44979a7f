-- ===== src/Manifest/Cycle.antt =====
-- `_find_depends_on_cycle` of src/service_manifest/modules/manifest/validator.py: the depth-first
-- search for a cycle, with its colours and its stack passed on. The recursion is on fuel.

pub mod Walks
pub mod Colors
pub mod Explores
pub mod Decides
use winter_service_tmux.Prelude.{
  ℕ, zero, suc, ◌+◌, ◌-◌, ◌*◌, ◌/◌, ◌%◌, ◌≤◌, ◌<◌, ◌≡◌, refl, sym, ap, ◌∙◌, ◌≢◌, ◌↔◌, ◌⊎◌, inl, inr,
  Bool, true, false, not, ◌&&◌, ◌||◌, Option, none, some, List, [], ◌∷◌, ◌++◌, map, append_assoc,
  append-nil, arith, ltb, leb, nat_beq, if◌then◌else◌, Bool-cases, Option-cases, Eq, ◌==◌, ==_iff,
  ==_refl, nat_eq, Text, text_eq, text_beq, text_beq_iff, contains, contains-append, length, take,
  drop, filter, any, all, length-append, take-append-drop, length-drop, drop-append, filter-append,
  length-filter-le, All, All-append,
}
use winter_service_tmux.Prelude.Dict.{Dict, keys, lookup, insert, get_or}
use winter_service_tmux.Prelude.Str.{codes}

abbrev pub Graph : Type 0
Graph = Dict Text (List Text)

pub data Color : Type 0 where
  white gray black : Color

-- the colours and the stack that the nested function shares
pub record Search : Type 0 where
  pub color : Dict Text Color
  pub stack : List Text

-- what a call of `_dfs` returns; `out_of_fuel` is no result of the source
pub data Verdict : Type 0 where
  clear : Verdict
  cycle : List Text → Verdict
  out_of_fuel : Verdict

-- `graph.get(node, [])`
unfoldable pub neighbors : Graph → Text → List Text
unfolding get_or
neighbors graph node = get_or node [] graph

-- `stack[stack.index(x):]`
unfoldable pub from_first : Text → List Text → List Text
from_first x [] = []
from_first x (y ∷ stack) = let rest = from_first x stack in if y == x then y ∷ stack else rest

-- the stack without its last element
unfoldable pub pop : List Text → List Text
pop [] = []
pop (x ∷ []) = []
pop (x ∷ y ∷ stack) = x ∷ pop (y ∷ stack)

abbrev pub enter : Text → Search → Search
enter node s = record { color = insert node gray s.color; stack = s.stack ++ (node ∷ []) }

abbrev pub leave : Text → Search → Search
leave node s = record { color = insert node black s.color; stack = pop s.stack }

-- the loop over the neighbours, where `dfs` is the recursive call
unfoldable pub each_neighbor :
    (Text → Search → Verdict × Search) → List Text → Search → Verdict × Search
unfolding from_first get_or
each_neighbor dfs [] s = (clear, s)
each_neighbor dfs (neighbor ∷ rest) s = elim (get_or neighbor white s.color) [
  | gray ↦ (cycle (from_first neighbor s.stack ++ (neighbor ∷ [])), s)
  | black ↦ each_neighbor dfs rest s
  | white ↦
      let (verdict, s') = dfs neighbor s in
      elim verdict [
        | clear ↦ each_neighbor dfs rest s'
        | cycle found ↦ (cycle found, s')
        | out_of_fuel ↦ (out_of_fuel, s')
      ]
]

unfoldable pub dfs : Graph → ℕ → Text → Search → Verdict × Search
unfolding each_neighbor neighbors pop insert
dfs graph zero node s = (out_of_fuel, s)
dfs graph (suc fuel) node s =
    let (verdict, s') = each_neighbor (dfs graph fuel) (neighbors graph node) (enter node s) in
    elim verdict [
      | clear ↦ (clear, leave node s')
      | cycle found ↦ (cycle found, s')
      | out_of_fuel ↦ (out_of_fuel, s')
    ]

-- the outer loop, over the names of the graph
unfoldable pub each_root : Graph → ℕ → List Text → Search → Verdict
unfolding dfs
each_root graph fuel [] s = clear
each_root graph fuel (node ∷ nodes) s = elim (get_or node white s.color) [
  | gray ↦ each_root graph fuel nodes s
  | black ↦ each_root graph fuel nodes s
  | white ↦
      let (verdict, s') = dfs graph fuel node s in
      elim verdict [
        | clear ↦ each_root graph fuel nodes s'
        | cycle found ↦ cycle found
        | out_of_fuel ↦ out_of_fuel
      ]
]

-- `dict.fromkeys(graph, WHITE)`
unfoldable pub all_white : List Text → Dict Text Color
all_white [] = []
all_white (k ∷ ks) = (k, white) ∷ all_white ks

-- A call goes from a white name to a deeper one, so the names bound its depth.
unfoldable pub find_depends_on_cycle : Graph → Verdict
unfolding each_root all_white keys
find_depends_on_cycle graph =
    each_root graph (suc (length graph)) (keys graph)
      (record { color = all_white (keys graph); stack = [] })

abbrev edges : Graph
edges =
    (codes "a", codes "b" ∷ codes "c" ∷ [])
    ∷ (codes "b", [])
    ∷ (codes "c", codes "d" ∷ [])
    ∷ (codes "d", codes "c" ∷ [])
    ∷ []

searches :
    (find_depends_on_cycle edges ≡ cycle (codes "c" ∷ codes "d" ∷ codes "c" ∷ []))
    × (find_depends_on_cycle ((codes "b", codes "x" ∷ []) ∷ []) ≡ clear)
unfolding find_depends_on_cycle text_beq
searches = (refl, refl)
