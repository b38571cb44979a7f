-- ===== src/Prelude/Paths.antt =====
-- The paths of Python's pathlib, as their text: `base / path` and `str`.
use mathlib.Core.Path.{◌≡◌, refl}
use mathlib.Core.Bool.{Bool, false, not, ◌&&◌, ◌||◌}
use mathlib.Core.List.{[], ◌∷◌, ◌++◌}
use winter_service_tmux.Prelude.Tests.{if◌then◌else◌}
use winter_service_tmux.Prelude.Equality.{Text, text_eq, text_beq, nat_eq, ◌==◌}
use winter_service_tmux.Prelude.Lists.{filter}
use winter_service_tmux.Prelude.Str.{codes, split, join, starts_with}

abbrev ends_in_slash : Text → Bool
ends_in_slash [] = false
ends_in_slash (c ∷ []) = c == b'/'
ends_in_slash (c ∷ d ∷ s) = ends_in_slash (d ∷ s)

-- `posixpath.join`: an absolute path replaces the base.
abbrev posix_join : Text → Text → Text
posix_join base path =
    if starts_with path (codes "/")
    then path
    else if base == [] || ends_in_slash base
    then base ++ path
    else base ++ (b'/' ∷ path)

abbrev is_part : Text → Bool
is_part part = not (part == [] || part == codes ".")

-- the root of a path: `//` where exactly two slashes lead it
abbrev root_of : Text → Text
root_of path =
    if starts_with path (codes "//") && not (starts_with path (codes "///"))
    then codes "//"
    else if starts_with path (codes "/")
    then codes "/"
    else []

abbrev or_here : Text → Text
or_here [] = codes "."
or_here (c ∷ s) = c ∷ s

-- `str(Path(path))`: empty parts and `.` are dropped, `..` is kept
unfoldable pub path_text : Text → Text
unfolding starts_with split join filter
path_text path = or_here (root_of path ++ join (codes "/") (filter is_part (split b'/' path)))

-- `str(base / path)`
unfoldable pub path_join : Text → Text → Text
unfolding path_text starts_with
path_join base path = path_text (posix_join base path)

path_runs :
    (path_join (codes "/w") (codes "./a//b/./../c/") ≡ codes "/w/a/b/../c")
    × (path_join (codes "/w") (codes "//x") ≡ codes "//x")
    × (path_join (codes "/w") (codes "///x") ≡ codes "/x")
    × (path_join (codes "/") (codes "x") ≡ codes "/x")
    × (path_join (codes ".") (codes "x") ≡ codes "x")
    × (path_join (codes ".") (codes ".") ≡ codes ".")
unfolding path_join text_beq
path_runs = (refl, refl, refl, refl, refl, refl)
