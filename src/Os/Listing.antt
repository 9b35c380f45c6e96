-- ===== src/Os/Listing.antt =====
-- `os.ReadDir` of Go: which names it gives.
use tailkitd.Prelude.{
  ◌≡◌, refl, ap, ◌∙◌, inl, inr, false, Option, none, some, List, [], ◌∷◌, ◌++◌, arith, Dict, lookup,
  Occurs, All, sort, sort-All, Text, str_eq, str_eq_refl, eq_of_str_eq, str_lt, cut_prefix,
  contains_byte, ◌==◌, Bool-cases,
}
use tailkitd.Os.{
  names_in, Outcome, World, name_of, continue, syscall, read_dir, syscall-files, ok, err,
}

cut_prefix-append : (s p t : Text) → cut_prefix s p ≡ some t → s ≡ p ++ t
unfolding cut_prefix
cut_prefix-append s [] t h = ground (arith, h)
cut_prefix-append [] (d ∷ p) t h = cc h
cut_prefix-append (c ∷ s) (d ∷ p) t h = elim (Bool-cases (c == d)) [
  | inl e ↦
      let same : c ≡ d = ground (arith, e) in rw (same, cut_prefix-append s p t (rw e at h)) refl
  | inr e ↦ absurd (cc (rw e at h))
]

cut_prefix_same : (dir name : Text) → cut_prefix (dir ++ b'/' ∷ name) (dir ++ b'/' ∷ []) ≡ some name
unfolding cut_prefix
cut_prefix_same [] name = refl
cut_prefix_same (c ∷ dir) name = ground (arith, cut_prefix_same dir name)

name_of-some : (o : Option Text) (name : Text) → name_of o ≡ some name → o ≡ some name
name_of-some none name h = cc h
name_of-some (some t) name h = elim (Bool-cases (contains_byte b'/' t)) [
  | inl e ↦ absurd (cc (rw e at h))
  | inr e ↦ rw e at h
]

below : (dir name : Text) → (dir ++ b'/' ∷ []) ++ name ≡ dir ++ b'/' ∷ name
below [] name = refl
below (c ∷ dir) name = ap (λ t. c ∷ t) (below dir name)

All-named :
    (P : Text → Type 0) (o : Option Text) (rest : List Text)
    → ((name : Text) → o ≡ some name → P name)
    → All P rest
    → All P (elim o [ none ↦ rest | some name ↦ name ∷ rest ])
All-named P none rest h all = all
All-named P (some name) rest h all = (h name refl, all)

Occurs-named :
    (o : Option Text) (rest : List Text) (name : Text)
    → Occurs name rest
    → Occurs name (elim o [ none ↦ rest | some first ↦ first ∷ rest ])
Occurs-named none rest name there = there
Occurs-named (some first) rest name there = inr there

Occurs-first :
    (o : Option Text) (rest : List Text) (name : Text)
    → o ≡ some name
    → Occurs name (elim o [ none ↦ rest | some first ↦ first ∷ rest ])
Occurs-first none rest name h = cc h
Occurs-first (some first) rest name h = let same : first ≡ name = cc h in inl same

named_of :
    (path dir name : Text)
    → path ≡ dir ++ b'/' ∷ name
    → contains_byte b'/' name ≡ false
    → name_of (cut_prefix path (dir ++ b'/' ∷ [])) ≡ some name
named_of path dir name same plain = rw (same, cut_prefix_same dir name, plain) refl

module _ {C : Type 0} (dir : Text) where
  -- The name is that of a file right in the directory.
  abbrev pub Stands : Dict C → Text → Type 0
  Stands files name = (c : C) × (lookup (dir ++ b'/' ∷ name) files ≡ some c)

  Stands-more :
      (path : Text) (c : C) (files : Dict C) (name : Text)
      → Stands files name
      → Stands ((path, c) ∷ files) name
  unfolding lookup
  Stands-more path c files name (d, held) = elim (Bool-cases (str_eq path (dir ++ b'/' ∷ name))) [
    | inl e ↦ (c, rw e refl)
    | inr e ↦ (d, rw e held)
  ]

  All-more :
      (path : Text) (c : C) (files : Dict C) (names : List Text)
      → All (Stands files) names
      → All (Stands ((path, c) ∷ files)) names
  All-more path c files [] h = tt
  All-more path c files (name ∷ names) h =
      (Stands-more path c files name h.0, All-more path c files names h.1)

  first-Stands :
      (path : Text) (c : C) (files : Dict C) (name : Text)
      → name_of (cut_prefix path (dir ++ b'/' ∷ [])) ≡ some name
      → Stands ((path, c) ∷ files) name
  unfolding lookup
  first-Stands path c files name h =
      let cut = name_of-some (cut_prefix path (dir ++ b'/' ∷ [])) name h in
      let same : path ≡ dir ++ b'/' ∷ name =
        cut_prefix-append path (dir ++ b'/' ∷ []) name cut ∙ below dir name in
      (c, rw same (rw (str_eq_refl (dir ++ b'/' ∷ name)) refl))

  names_in-Stands : (files : Dict C) → All (Stands files) (names_in dir files)
  unfolding names_in
  names_in-Stands [] = tt
  names_in-Stands ((path, c) ∷ files) =
      let rest = All-more path c files (names_in dir files) (names_in-Stands files) in
      All-named (Stands ((path, c) ∷ files)) (name_of (cut_prefix path (dir ++ b'/' ∷ [])))
        (names_in dir files) (first-Stands path c files) rest

  listed-Stands :
      (r : Outcome Unit) (w v : World C) (names : List Text)
      → v.files ≡ w.files
      → (continue r (λ _ u. (ok (sort str_lt (names_in dir u.files)), u)) v).0 ≡ ok names
      → All (Stands w.files) names
  listed-Stands (err e) w v names same h = absurd (cc h)
  listed-Stands (ok u) w v names same h =
      let found : sort str_lt (names_in dir v.files) ≡ names = cc h in
      rw (← found, ← same)
        (sort-All str_lt (Stands v.files) (names_in dir v.files) (names_in-Stands v.files))

  pub read_dir-Stands :
      (w : World C) (names : List Text) → (read_dir dir w).0 ≡ ok names → All (Stands w.files) names
  unfolding read_dir
  read_dir-Stands w names h = listed-Stands (syscall w).0 w (syscall w).1 names (syscall-files w) h

  -- A file right in the directory is listed.
  pub lists_file :
      (files : Dict C) (name : Text) (c : C)
      → lookup (dir ++ b'/' ∷ name) files ≡ some c
      → contains_byte b'/' name ≡ false
      → Occurs name (names_in dir files)
  unfolding lookup names_in
  lists_file [] name c held plain = absurd (cc held)
  lists_file ((path, d) ∷ files) name c held plain =
      elim (Bool-cases (str_eq path (dir ++ b'/' ∷ name))) [
        | inl e ↦
            Occurs-first (name_of (cut_prefix path (dir ++ b'/' ∷ []))) (names_in dir files) name
              (named_of path dir name (eq_of_str_eq path (dir ++ b'/' ∷ name) e) plain)
        | inr e ↦
            Occurs-named (name_of (cut_prefix path (dir ++ b'/' ∷ []))) (names_in dir files) name
              (lists_file files name c (rw e at held) plain)
      ]
