-- ===== src/Images/Tests.antt =====
-- Files that are paths with an extension or without one: the name of a file is its contents and its bitmap.
use atom_shell.Common.{
  ℕ, ◌≡◌, refl, Bool, true, false, ◌||◌, ◌&&◌, ◌==◌, Option, none, some, List, [], ◌∷◌, ◌++◌,
  if◌then◌else◌,
}
use atom_shell.Images.Representations.{
  Base, scale_factor_pairs, add_image_skia_rep, get_scale_factor_from_path,
  populate_image_skia_reps_from_path, at_sign, letter_x,
}
use atom_shell.Images.Scales.{
  IsBase, KeepsExtension, is_prefix, backwards, loaded_each, populate-loaded_each,
}

abbrev starts_with_x : List ℕ → Bool
starts_with_x [] = false
starts_with_x (c ∷ rest) = c == letter_x

abbrev has_x_last : List ℕ → Bool
has_x_last name = starts_with_x (backwards name [])

abbrev matches_scale : List ℕ → Bool
matches_scale [] = false
matches_scale (c ∷ rest) = ((c == at_sign) && has_x_last rest) || matches_scale rest

has_x_last-x : (l acc : List ℕ) → starts_with_x (backwards (l ++ letter_x ∷ []) acc) ≡ true
has_x_last-x [] acc = refl
has_x_last-x (c ∷ rest) acc = has_x_last-x rest (c ∷ acc)

or_true : (a b : Bool) → b ≡ true → (a || b) ≡ true
or_true true b e = refl
or_true false b e = e

true_or : (a b : Bool) → a ≡ true → (a || b) ≡ true
true_or true b e = refl
true_or false true e = refl
true_or false false e = e

matches_scale-marked :
    (before between : List ℕ)
    → matches_scale (before ++ at_sign ∷ (between ++ letter_x ∷ [])) ≡ true
matches_scale-marked [] between =
    true_or (has_x_last (between ++ letter_x ∷ [])) (matches_scale (between ++ letter_x ∷ []))
      (has_x_last-x between [])
matches_scale-marked (c ∷ rest) between =
    or_true ((c == at_sign) && has_x_last (rest ++ at_sign ∷ (between ++ letter_x ∷ [])))
      (matches_scale (rest ++ at_sign ∷ (between ++ letter_x ∷ [])))
      (matches_scale-marked rest between)

-- What stands before the last dot of a name, if there is one.
abbrev before_dot : List ℕ → Option (List ℕ)
before_dot [] = none
before_dot (c ∷ rest) = elim (before_dot rest) [
  | none ↦ if c == 46 then some [] else none
  | some before ↦ some (c ∷ before)
]

abbrev or_whole : List ℕ → Option (List ℕ) → List ℕ
or_whole path none = path
or_whole path (some before) = before

-- FilePath::RemoveExtension.
abbrev stem : List ℕ → List ℕ
stem path = or_whole path (before_dot path)

-- The last dot of a name and what stands behind it.
abbrev extension : List ℕ → List ℕ
extension [] = []
extension (c ∷ rest) = elim (before_dot rest) [
  | none ↦ if c == 46 then c ∷ rest else extension rest
  | some before ↦ extension rest
]

-- Only names that begin with an "a" are there.
abbrev read : List ℕ → Option (List ℕ)
read [] = none
read (c ∷ rest) = if c == 97 then some (c ∷ rest) else none

abbrev base : Base
base = record {
  FilePath = List ℕ;
  Contents = List ℕ;
  Bitmap = List ℕ;
  stem = stem;
  insert_before_extension = λ path name. stem path ++ name ++ extension path;
  ends_with = λ name end. is_prefix (backwards end []) (backwards name []);
  matches_scale = matches_scale;
  read_file_to_string = read;
  decode_png = λ contents. some contents;
  decode_jpeg = λ contents. none;
}

promises : IsBase base
promises = (λ name end. refl, matches_scale-marked)

get_scale_factor_from_path-2_5 :
    get_scale_factor_from_path base (97 ∷ at_sign ∷ 50 ∷ 46 ∷ 53 ∷ letter_x ∷ 46 ∷ 98 ∷ []) ≡ 250
unfolding get_scale_factor_from_path
get_scale_factor_from_path-2_5 = refl

-- a.b
abbrev file : List ℕ
file = 97 ∷ 46 ∷ 98 ∷ []

file-KeepsExtension : KeepsExtension base file
file-KeepsExtension =
    (refl, (refl, (refl, (refl, (refl, (refl, (refl, (refl, (refl, (refl, (refl, tt)))))))))))

-- The scale 1.25 in the name of a file without an extension is read as 1.
get_scale_factor_from_path-bare :
    get_scale_factor_from_path base (97 ∷ at_sign ∷ 49 ∷ 46 ∷ 50 ∷ 53 ∷ letter_x ∷ []) ≡ 100
unfolding get_scale_factor_from_path
get_scale_factor_from_path-bare = refl

populate-loaded_each_example :
    (populate_image_skia_reps_from_path base [] file).1
    ≡ (add_image_skia_rep base [] file 100).1 ++ loaded_each base scale_factor_pairs file
populate-loaded_each_example = populate-loaded_each base promises file file-KeepsExtension refl
