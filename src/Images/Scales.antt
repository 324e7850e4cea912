-- ===== src/Images/Scales.antt =====
-- The scale of a file by its name, and what loading it adds (atom/common/api/atom_api_native_image.cc).
use atom_shell.Common.{
  ℕ, ◌≡◌, refl, sym, ap, ◌∙◌, Bool, true, false, Option, none, some, List, [], ◌∷◌, ◌++◌,
  if◌then◌else◌, ◌==◌, ◌&&◌, All,
}
use mathlib.Core.List.{append_assoc, append-nil}
use atom_shell.Images.Representations.{
  ScaleFactorPair, scale_factor_pairs, at_sign, letter_x, Base, scale_from,
  get_scale_factor_from_path, Added, add_decoded, or_jpeg, add_read, add_image_skia_rep, also,
  add_pairs, populate_image_skia_reps_from_path,
}

abbrev pub backwards : List ℕ → List ℕ → List ℕ
backwards [] l = l
backwards (c ∷ rest) l = backwards rest (c ∷ l)

abbrev pub is_prefix : List ℕ → List ℕ → Bool
is_prefix [] l = true
is_prefix (c ∷ rest) [] = false
is_prefix (c ∷ rest) (d ∷ l) = (c == d) && is_prefix rest l

-- What base promises: a name ends with another if the other, backwards, begins it backwards, and every name with "@",
-- anything and a last "x" is matched.
abbrev pub IsBase : Base → Type 0
IsBase base =
    ((name end : List ℕ)
      → base.ends_with name end ≡ is_prefix (backwards end []) (backwards name []))
    × ((before between : List ℕ)
        → base.matches_scale (before ++ at_sign ∷ (between ++ letter_x ∷ [])) ≡ true)

-- The file keeps its extension when the name of a pair is inserted, so that its name without the extension gets longer
-- by the name of the pair: of foo.png, but not of foo, whose name with "@1.25x" ends with the extension .25x.
abbrev pub KeepsExtension : (base : Base) → base.FilePath → Type 0
KeepsExtension base path =
    All
      (λ pair.
        base.stem (base.insert_before_extension path pair.name) ≡ base.stem path ++ pair.name)
      scale_factor_pairs

backwards-append : (l r acc : List ℕ) → backwards (l ++ r) acc ≡ backwards r (backwards l acc)
backwards-append [] r acc = refl
backwards-append (c ∷ rest) r acc = backwards-append rest r (c ∷ acc)

scale_by : List ScaleFactorPair → List ℕ → ℕ
scale_by [] l = 100
scale_by (pair ∷ rest) l =
    if is_prefix (backwards pair.name []) l then pair.scale else scale_by rest l

-- The name of each pair gives the scale of the pair, whatever stands before it.
scale_by-pairs :
    (before : List ℕ)
    → All
        (λ pair. scale_by scale_factor_pairs (backwards pair.name before) ≡ pair.scale)
        scale_factor_pairs
unfolding scale_by
scale_by-pairs before =
    (refl, (refl, (refl, (refl, (refl, (refl, (refl, (refl, (refl, (refl, (refl, tt)))))))))))

AreMarked :
    All
      (λ pair. (between : List ℕ) × (pair.name ≡ at_sign ∷ (between ++ letter_x ∷ [])))
      scale_factor_pairs
AreMarked = (
  (50 ∷ [], refl),
  (
    (51 ∷ [], refl),
    (
      (49 ∷ [], refl),
      (
        (52 ∷ [], refl),
        (
          (53 ∷ [], refl),
          (
            (49 ∷ 46 ∷ 50 ∷ 53 ∷ [], refl),
            (
              (49 ∷ 46 ∷ 51 ∷ 51 ∷ [], refl),
              (
                (49 ∷ 46 ∷ 52 ∷ [], refl),
                (
                  (49 ∷ 46 ∷ 53 ∷ [], refl),
                  ((49 ∷ 46 ∷ 56 ∷ [], refl), ((50 ∷ 46 ∷ 53 ∷ [], refl), tt)),
                ),
              ),
            ),
          ),
        ),
      ),
    ),
  ),
)

module _ (base : Base) where
  -- What loading the files with the scales of some pairs adds.
  pub loaded_each : List ScaleFactorPair → base.FilePath → List (base.Bitmap × ℕ)
  loaded_each [] path = []
  loaded_each (pair ∷ rest) path =
      (populate_image_skia_reps_from_path base [] (base.insert_before_extension path pair.name)).1
      ++ loaded_each rest path

module _ (base : Base) (promises : IsBase base) where
  scale_from-scale_by :
      (pairs : List ScaleFactorPair) (name : List ℕ)
      → scale_from base pairs name ≡ scale_by pairs (backwards name [])
  unfolding scale_by
  scale_from-scale_by [] name = refl
  scale_from-scale_by (pair ∷ rest) name =
      ap (λ b. if b then pair.scale else scale_from base rest name) (promises.0 name pair.name)
      ∙ ap (λ n. if is_prefix (backwards pair.name []) (backwards name []) then pair.scale else n)
          (scale_from-scale_by rest name)

  inserted-scale :
      (path : base.FilePath) (pair : ScaleFactorPair)
      → base.stem (base.insert_before_extension path pair.name) ≡ base.stem path ++ pair.name
      → scale_by scale_factor_pairs (backwards pair.name (backwards (base.stem path) []))
        ≡ pair.scale
      → get_scale_factor_from_path base (base.insert_before_extension path pair.name) ≡ pair.scale
  unfolding get_scale_factor_from_path
  inserted-scale path pair keeps e =
      ap (scale_from base scale_factor_pairs) (keeps)
      ∙ scale_from-scale_by scale_factor_pairs (base.stem path ++ pair.name)
      ∙ ap (scale_by scale_factor_pairs) (backwards-append (base.stem path) pair.name [])
      ∙ e

  -- Loading a file whose name has one of the scales.
  inserted-populate :
      (image : List (base.Bitmap × ℕ)) (path : base.FilePath) (pair : ScaleFactorPair)
      → base.stem (base.insert_before_extension path pair.name) ≡ base.stem path ++ pair.name
      → scale_by scale_factor_pairs (backwards pair.name (backwards (base.stem path) []))
        ≡ pair.scale
      → (between : List ℕ) → pair.name ≡ at_sign ∷ (between ++ letter_x ∷ [])
      → populate_image_skia_reps_from_path base image (base.insert_before_extension path pair.name)
        ≡ add_image_skia_rep base image (base.insert_before_extension path pair.name) pair.scale
  unfolding populate_image_skia_reps_from_path
  inserted-populate image path pair keeps e between marked =
      ap
        (λ b.
          if b
          then add_image_skia_rep base image inserted (get_scale_factor_from_path base inserted)
          else add_pairs base scale_factor_pairs inserted (also base inserted 100 (false, image)))
        (ap base.matches_scale (keeps ∙ ap (λ n. base.stem path ++ n) marked)
          ∙ promises.1 (base.stem path) between)
      ∙ ap (add_image_skia_rep base image inserted) (inserted-scale path pair keeps e)
    where
      inserted : base.FilePath
      inserted = base.insert_before_extension path pair.name

  add_image_skia_rep-append :
      (image : List (base.Bitmap × ℕ)) (path : base.FilePath) (scale : ℕ)
      → (add_image_skia_rep base image path scale).1
        ≡ image ++ (add_image_skia_rep base [] path scale).1
  unfolding add_image_skia_rep
  add_image_skia_rep-append image path scale = read (base.read_file_to_string path)
    where
      decoded :
          (bitmap : Option base.Bitmap)
          → (add_decoded base image scale bitmap).1 ≡ image ++ (add_decoded base [] scale bitmap).1
      decoded none = sym (append-nil image)
      decoded (some bitmap) = refl

      read :
          (contents : Option base.Contents)
          → (add_read base image scale contents).1 ≡ image ++ (add_read base [] scale contents).1
      read none = sym (append-nil image)
      read (some contents) = decoded (or_jpeg base contents (base.decode_png contents))

  added_each : List ScaleFactorPair → base.FilePath → List (base.Bitmap × ℕ)
  added_each [] path = []
  added_each (pair ∷ rest) path =
      (add_image_skia_rep base [] (base.insert_before_extension path pair.name) pair.scale).1
      ++ added_each rest path

  loaded_each-added_each :
      (pairs : List ScaleFactorPair) (path : base.FilePath)
      → All
          (λ pair.
            base.stem (base.insert_before_extension path pair.name) ≡ base.stem path ++ pair.name)
          pairs
      → All
          (λ pair.
            scale_by scale_factor_pairs (backwards pair.name (backwards (base.stem path) []))
            ≡ pair.scale)
          pairs
      → All (λ pair. (between : List ℕ) × (pair.name ≡ at_sign ∷ (between ++ letter_x ∷ []))) pairs
      → added_each pairs path ≡ loaded_each base pairs path
  unfolding loaded_each added_each
  loaded_each-added_each [] path kept fits marked = refl
  loaded_each-added_each (pair ∷ rest) path kept fits marked =
      ap (λ a. a.1 ++ added_each rest path)
        (sym (inserted-populate [] path pair (kept.0) (fits.0) (marked.0.0) (marked.0.1)))
      ∙ ap
          (λ l.
            (populate_image_skia_reps_from_path base []
              (base.insert_before_extension path pair.name)).1
            ++ l)
          (loaded_each-added_each rest path (kept.1) (fits.1) (marked.1))

  add_pairs-added_each :
      (pairs : List ScaleFactorPair) (path : base.FilePath) (before : Added base)
      → (add_pairs base pairs path before).1 ≡ before.1 ++ added_each pairs path
  unfolding added_each
  add_pairs-added_each [] path before = sym (append-nil before.1)
  add_pairs-added_each (pair ∷ rest) path before =
      add_pairs-added_each rest path
        (also base (base.insert_before_extension path pair.name) pair.scale before)
      ∙ ap (λ l. l ++ added_each rest path)
          (add_image_skia_rep-append before.1 (base.insert_before_extension path pair.name)
            pair.scale)
      ∙ append_assoc before.1
          (add_image_skia_rep base [] (base.insert_before_extension path pair.name) pair.scale).1
          (added_each rest path)

  -- With names matched as base promises, loading a file whose name gives no scale, and which keeps its extension when
  -- the name of a scale is inserted before it, adds what the file itself gives at scale 1, and then, for each of the
  -- scales in their order, just what loading the file with the scale in its name adds.
  pub populate-loaded_each :
      (path : base.FilePath)
      → KeepsExtension base path
      → base.matches_scale (base.stem path) ≡ false
      → (populate_image_skia_reps_from_path base [] path).1
        ≡ (add_image_skia_rep base [] path 100).1 ++ loaded_each base scale_factor_pairs path
  unfolding populate_image_skia_reps_from_path
  populate-loaded_each path keeps e =
      ap
        (λ b.
          (if b
            then add_image_skia_rep base [] path (get_scale_factor_from_path base path)
            else add_pairs base scale_factor_pairs path (also base path 100 (false, []))).1)
        e
      ∙ add_pairs-added_each scale_factor_pairs path (also base path 100 (false, []))
      ∙ ap (λ l. (add_image_skia_rep base [] path 100).1 ++ l)
          (loaded_each-added_each scale_factor_pairs path keeps
            (scale_by-pairs (backwards (base.stem path) [])) AreMarked)
