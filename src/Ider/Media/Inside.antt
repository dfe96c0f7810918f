-- ===== src/Ider/Media/Inside.antt =====
-- ider.py `_validate_path`: the test for a path inside a directory.
use ansible_collection_intel.Prelude.{
  append-nil, ◌≡◌, refl, sym, ap, ap₂, ◌∙◌, inl, inr, true, false, not, ◌&&◌, Bool-cases, String,
  List, [], ◌∷◌, ◌++◌, map, str_eq, eq_iff, arith,
}
use ansible_collection_intel.Ider.Media.{FilePath, path_eq, parents, path_mem}

-- The components of `directory`, and then others: the directory itself or a path below it.
abbrev pub IsInside : FilePath → FilePath → Type 0
IsInside directory path = (rest : FilePath) × (path ≡ directory ++ rest)

path_eq_sound : (p q : FilePath) → path_eq p q ≡ true → p ≡ q
unfolding path_eq
path_eq_sound [] [] h = refl
path_eq_sound [] (y ∷ q) h = cc
path_eq_sound (x ∷ p) [] h = cc
path_eq_sound (x ∷ p) (y ∷ q) h =
    let both : (str_eq x y ≡ true) × (path_eq p q ≡ true) = ground (arith, h) in
    ap₂ (λ a b. a ∷ b) ((eq_iff x y).0 both.0) (path_eq_sound p q both.1)

abbrev AllInside : FilePath → List FilePath → Type 0
AllInside path [] = Unit
AllInside path (q ∷ qs) = IsInside q path × AllInside path qs

AllInside-append :
    (path : FilePath) (qs rs : List FilePath)
    → AllInside path qs
    → AllInside path rs
    → AllInside path (qs ++ rs)
AllInside-append path [] rs h k = k
AllInside-append path (q ∷ qs) rs h k = (h.0, AllInside-append path qs rs h.1 k)

AllInside-below :
    (x : String) (path : FilePath) (qs : List FilePath)
    → AllInside path qs
    → AllInside (x ∷ path) (map (λ q. x ∷ q) qs)
AllInside-below x path [] h = tt
AllInside-below x path (q ∷ qs) h = ((h.0.0, ap (λ p. x ∷ p) h.0.1), AllInside-below x path qs h.1)

AllInside-parents : (path : FilePath) → AllInside path (parents path)
unfolding parents
AllInside-parents [] = tt
AllInside-parents (x ∷ path) =
    AllInside-append (x ∷ path) _ _ (AllInside-below x path (parents path) (AllInside-parents path))
      ((x ∷ path, refl), tt)

path_mem_sound :
    (d path : FilePath) (qs : List FilePath)
    → AllInside path qs
    → path_mem d qs ≡ true
    → IsInside d path
unfolding path_mem
path_mem_sound d path [] h e = cc
path_mem_sound d path (q ∷ qs) h e = elim (Bool-cases (path_eq d q)) [
  | inl b ↦ (h.0.0, h.0.1 ∙ ap (λ p. p ++ h.0.0) (sym (path_eq_sound d q b)))
  | inr b ↦ path_mem_sound d path qs h.1 (ground (arith, b, e))
]

pub IsInside-of_checks :
    (d path : FilePath)
    → (not (path_eq d path) && not (path_mem d (parents path))) ≡ false
    → IsInside d path
IsInside-of_checks d path h = elim (Bool-cases (path_eq d path)) [
  | inl b ↦ ([], sym (path_eq_sound d path b) ∙ sym (append-nil d))
  | inr b ↦ path_mem_sound d path (parents path) (AllInside-parents path) (ground (arith, b, h))
]
