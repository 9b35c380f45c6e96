-- ===== src/Prelude/Paths.antt =====
-- `path/filepath` of Go on Unix: `Clean`, `Join` of two elements and `IsAbs`.
pub mod Inside
use Prim.Native.Nat.{◌/◌}
use mathlib.Core.Path.{◌≡◌, refl}
use mathlib.Core.Bool.{Bool, true, false, ◌&&◌, ◌||◌, not}
use mathlib.Core.List.{List, [], ◌∷◌, ◌++◌}
use mathlib.Core.List.{reverse}
use tailkitd.Prelude.Tests.{◌==◌, if◌then◌else◌}
use tailkitd.Prelude.Strings.{Text, codes, str_eq, contains_byte}
use tailkitd.Prelude.Splitting.{split, join}

abbrev dot : Text
dot = codes "."

abbrev dot_dot : Text
dot_dot = codes ".."

-- `filepath.IsAbs`
unfoldable pub is_abs : Text → Bool
is_abs [] = false
is_abs (c ∷ s) = c == b'/'

-- What `..` does to the elements so far, the last one first
back : Bool → List Text → List Text
back true [] = []
back false [] = dot_dot ∷ []
back rooted (e ∷ stack) = if str_eq e dot_dot then dot_dot ∷ e ∷ stack else stack

step : Bool → List Text → Text → List Text
unfolding back
step rooted stack e =
    if str_eq e [] || str_eq e dot
    then stack
    else if str_eq e dot_dot
    then back rooted stack
    else e ∷ stack

walk : Bool → List Text → List Text → List Text
walk rooted stack [] = stack
walk rooted stack (e ∷ es) = walk rooted (step rooted stack e) es

render : Bool → List Text → Text
render true es = b'/' ∷ join b'/' es
render false [] = dot
render false (e ∷ es) = join b'/' (e ∷ es)

-- `filepath.Clean`
unfoldable pub clean : Text → Text
unfolding walk step render is_abs
clean path = render (is_abs path) (reverse (walk (is_abs path) [] (split b'/' path)))

-- `filepath.Join(a, b)`
unfoldable pub path_join : Text → Text → Text
path_join [] [] = []
path_join [] (c ∷ b) = clean (c ∷ b)
path_join (c ∷ a) b = clean (c ∷ (a ++ b'/' ∷ b))

-- An element that `Clean` keeps as it is
unfoldable pub is_real : Text → Bool
is_real e =
    not (str_eq e [] || str_eq e dot) && (not (str_eq e dot_dot) && not (contains_byte b'/' e))

clean_sample : clean (codes "/a/../../b/./c//d/..") ≡ codes "/b/c"
unfolding clean split join str_eq
clean_sample = refl

clean_relative : clean (codes "a/../../b/") ≡ codes "../b"
unfolding clean split join str_eq
clean_relative = refl
