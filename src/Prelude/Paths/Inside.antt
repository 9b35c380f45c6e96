-- ===== src/Prelude/Paths/Inside.antt =====
-- `filepath.Clean` on a rooted path: which elements are left, and what a prefix says of them.
use mathlib.Core.Path.{◌≡◌, refl, sym, ap, ◌∙◌}
use mathlib.Core.Logic.{inl, inr}
use mathlib.Core.Bool.{true, false, ◌||◌}
use mathlib.Core.List.{List, [], ◌∷◌, ◌++◌}
use native.Mathlib.Omega.{arith}
use mathlib.Core.List.{reverse, reverse-append, reverse-reverse, append-nil, append_assoc}
use tailkitd.Prelude.Tests.{Bool-cases}
use tailkitd.Prelude.Lists.{All, All-append}
use tailkitd.Prelude.Strings.{Text, str_eq, has_prefix}
use tailkitd.Prelude.Splitting.{
  split, join, NotNil, split-NotNil, split-append, Lacks, split-Lacks, split-join, has_prefix_cut,
}
use tailkitd.Prelude.Paths.{clean, is_abs, is_real, walk, step, back, render}

abbrev pub IsReal : Text → Type 0
IsReal e = is_real e ≡ true

back-IsReal : (stack : List Text) → All IsReal stack → All IsReal (back true stack)
unfolding back is_real
back-IsReal [] h = tt
back-IsReal (e ∷ stack) h = elim (Bool-cases (str_eq e (b'.' ∷ b'.' ∷ []))) [
  | inl same ↦ ground (arith, h.0, same)
  | inr other ↦ rw other h.1
]

step-IsReal :
    (stack : List Text) (e : Text)
    → Lacks b'/' e
    → All IsReal stack
    → All IsReal (step true stack e)
unfolding step is_real
step-IsReal stack e l h = elim (Bool-cases (str_eq e [] || str_eq e (b'.' ∷ []))) [
  | inl skip ↦ rw skip h
  | inr kept ↦ elim (Bool-cases (str_eq e (b'.' ∷ b'.' ∷ []))) [
    | inl up ↦ rw (kept, up) (back-IsReal stack h)
    | inr other ↦ rw (kept, other) (rw (kept, other, l) refl, h)
  ]
]

walk-IsReal :
    (stack es : List Text)
    → All (Lacks b'/') es
    → All IsReal stack
    → All IsReal (walk true stack es)
unfolding walk
walk-IsReal stack [] l h = h
walk-IsReal stack (e ∷ es) l h = walk-IsReal (step true stack e) es l.1 (step-IsReal stack e l.0 h)

All-reverse-IsReal : (es : List Text) → All IsReal es → All IsReal (reverse es)
All-reverse-IsReal [] h = tt
All-reverse-IsReal (e ∷ es) h =
    rw (reverse-append (e ∷ []) es)
      (All-append IsReal (reverse es) (e ∷ []) (All-reverse-IsReal es h.1) (h.0, tt))

-- The elements of a rooted path
abbrev pub Elements : Text → Type 0
Elements p = (es : List Text) × All IsReal es × (p ≡ b'/' ∷ join b'/' es)

pub clean-Elements : (path : Text) → is_abs path ≡ true → Elements (clean path)
unfolding clean render
clean-Elements path rooted = rw rooted (
  reverse (walk true [] (split b'/' path)),
  All-reverse-IsReal (walk true [] (split b'/' path))
      (walk-IsReal [] (split b'/' path) (split-Lacks b'/' path) tt),
  refl,
)

-- A path below the directory `d`, none of whose further elements leads up or out of it.
abbrev pub Inside : Text → Text → Type 0
Inside d p = (s : Text) × (p ≡ d ++ b'/' ∷ s) × All IsReal (split b'/' s)

All-right : (xs ys : List Text) → All IsReal (xs ++ ys) → All IsReal ys
All-right [] ys h = h
All-right (x ∷ xs) ys h = All-right xs ys h.1

All-behind : (es xs ys : List Text) → NotNil xs → [] ∷ es ≡ xs ++ ys → All IsReal es → All IsReal ys
All-behind es [] ys n e h = absurd n
All-behind es (x ∷ xs) ys n e h = let same : es ≡ xs ++ ys = cc e in All-right xs ys (rw (← same) h)

IsReal-Lacks : (es : List Text) → All IsReal es → All (Lacks b'/') es
unfolding is_real
IsReal-Lacks [] h = tt
IsReal-Lacks (e ∷ es) h = (ground (arith, h.0), IsReal-Lacks es h.1)

ne_root : (d : Text) (t : Text) → is_abs d ≡ true → b'/' ∷ [] ≡ d ++ b'/' ∷ t → ⊥
unfolding is_abs
ne_root [] t a e = cc a
ne_root (c ∷ []) t a e = cc e
ne_root (c ∷ b ∷ d) t a e = cc e

split-root : (t : Text) → split b'/' (b'/' ∷ t) ≡ [] ∷ split b'/' t
unfolding split
split-root t = refl

Inside_of :
    (d p t : Text) (es : List Text)
    → is_abs d ≡ true
    → All IsReal es
    → p ≡ b'/' ∷ join b'/' es
    → p ≡ d ++ b'/' ∷ t
    → All IsReal (split b'/' t)
unfolding join
Inside_of d p t [] a h e k = absurd (ne_root d t a (cc (e, k)))
Inside_of d p t (x ∷ es) a h e k =
    let parts : [] ∷ x ∷ es ≡ split b'/' d ++ split b'/' t =
      sym (
        split-root (join b'/' (x ∷ es))
        ∙ ap (λ u. [] ∷ u) (split-join b'/' x es (IsReal-Lacks (x ∷ es) h)))
      ∙ ap (split b'/') (sym e ∙ k)
      ∙ split-append b'/' d t in
    All-behind (x ∷ es) (split b'/' d) (split b'/' t) (split-NotNil b'/' d) parts h

append_slash : (d t : Text) → (d ++ b'/' ∷ []) ++ t ≡ d ++ b'/' ∷ t
append_slash [] t = refl
append_slash (c ∷ d) t = ap (λ u. c ∷ u) (append_slash d t)

-- A cleaned path that begins with a directory and a slash lies inside of it.
pub clean-Inside :
    (d path : Text)
    → is_abs path ≡ true
    → is_abs d ≡ true
    → has_prefix (clean path) (d ++ b'/' ∷ []) ≡ true
    → Inside d (clean path)
clean-Inside d path rooted a h =
    let (es, real, e) = clean-Elements path rooted in
    let (t, k) = has_prefix_cut (clean path) (d ++ b'/' ∷ []) h in
    let k' = k ∙ append_slash d t in (t, k', Inside_of d (clean path) t es a real e k')

pub clean-is_abs : (path : Text) → is_abs path ≡ true → is_abs (clean path) ≡ true
unfolding is_abs
clean-is_abs path rooted = let (es, real, e) = clean-Elements path rooted in rw e refl

step_real : (stack : List Text) (e : Text) → IsReal e → step true stack e ≡ e ∷ stack
unfolding step is_real
step_real stack e h =
    let kept : (str_eq e [] || str_eq e (b'.' ∷ [])) ≡ false = ground (arith, h) in
    let other : str_eq e (b'.' ∷ b'.' ∷ []) ≡ false = ground (arith, h) in rw (kept, other) refl

walk_real : (stack es : List Text) → All IsReal es → walk true stack es ≡ reverse es ++ stack
unfolding walk
walk_real stack [] h = refl
walk_real stack (e ∷ es) h =
    rw
      (
        step_real stack e h.0,
        walk_real (e ∷ stack) es h.1,
        reverse-append (e ∷ []) es,
        append_assoc (reverse es) (e ∷ []) stack,
      )
      refl

-- A path that is made of real elements is clean.
pub clean_real :
    (e : Text) (es : List Text)
    → All IsReal (e ∷ es)
    → clean (b'/' ∷ join b'/' (e ∷ es)) ≡ b'/' ∷ join b'/' (e ∷ es)
unfolding clean render is_abs walk join str_eq
clean_real e es h =
    rw
      (
        split-root (join b'/' (e ∷ es)),
        split-join b'/' e es (IsReal-Lacks (e ∷ es) h),
        walk_real [] (e ∷ es) h,
        append-nil (reverse (e ∷ es)),
        reverse-reverse (e ∷ es),
      )
      refl

walk-append :
    (stack xs ys : List Text) → walk true stack (xs ++ ys) ≡ walk true (walk true stack xs) ys
unfolding walk
walk-append stack [] ys = refl
walk-append stack (x ∷ xs) ys = walk-append (step true stack x) xs ys

walk_nil : (stack : List Text) → walk true stack (split b'/' []) ≡ stack
unfolding walk step split str_eq
walk_nil stack = refl

-- A slash at the end does not matter.
pub clean_slash : (p : Text) → is_abs p ≡ true → clean (p ++ b'/' ∷ []) ≡ clean p
unfolding clean is_abs
clean_slash [] a = cc a
clean_slash (c ∷ p) a =
    rw
      (
        split-append b'/' (c ∷ p) [],
        a,
        walk-append [] (split b'/' (c ∷ p)) (split b'/' []),
        walk_nil (walk true [] (split b'/' (c ∷ p))),
      )
      refl
