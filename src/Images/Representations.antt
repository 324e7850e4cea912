-- ===== src/Images/Representations.antt =====
-- The loading of atom/common/api/atom_api_native_image.cc. A name is the list of its characters' codes, and a scale is in
-- hundredths.
use atom_shell.Common.{
  ℕ, Bool, true, false, ◌||◌, Option, none, some, List, [], ◌∷◌, ◌++◌, if◌then◌else◌,
}

pub record ScaleFactorPair : Type 0 where
  pub name : List ℕ
  pub scale : ℕ

abbrev pub at_sign : ℕ
at_sign = 64

abbrev pub letter_x : ℕ
letter_x = 120

abbrev named : List ℕ → ℕ → ScaleFactorPair
named digits scale = record { name = at_sign ∷ (digits ++ letter_x ∷ []); scale = scale }

-- kScaleFactorPairs; 46 is a dot, and 48 is the code of 0.
abbrev pub scale_factor_pairs : List ScaleFactorPair
scale_factor_pairs =
    named (50 ∷ []) 200
    ∷ named (51 ∷ []) 300
    ∷ named (49 ∷ []) 100
    ∷ named (52 ∷ []) 400
    ∷ named (53 ∷ []) 500
    ∷ named (49 ∷ 46 ∷ 50 ∷ 53 ∷ []) 125
    ∷ named (49 ∷ 46 ∷ 51 ∷ 51 ∷ []) 133
    ∷ named (49 ∷ 46 ∷ 52 ∷ []) 140
    ∷ named (49 ∷ 46 ∷ 53 ∷ []) 150
    ∷ named (49 ∷ 46 ∷ 56 ∷ []) 180
    ∷ named (50 ∷ 46 ∷ 53 ∷ []) 250
    ∷ []

-- base::FilePath: the base name without its extension, and InsertBeforeExtensionASCII; EndsWith and MatchPattern with
-- "*@*x"; asar::ReadFileToString; and the decoders of PNG and JPEG.
pub record Base : Type 1 where
  pub FilePath : Type 0
  pub Contents : Type 0
  pub Bitmap : Type 0
  pub stem : FilePath → List ℕ
  pub insert_before_extension : FilePath → List ℕ → FilePath
  pub ends_with : List ℕ → List ℕ → Bool
  pub matches_scale : List ℕ → Bool
  pub read_file_to_string : FilePath → Option Contents
  pub decode_png : Contents → Option Bitmap
  pub decode_jpeg : Contents → Option Bitmap

module _ (base : Base) where
  abbrev pub scale_from : List ScaleFactorPair → List ℕ → ℕ
  scale_from [] filename = 100
  scale_from (pair ∷ rest) filename =
      if base.ends_with filename pair.name then pair.scale else scale_from rest filename

  unfoldable pub get_scale_factor_from_path : base.FilePath → ℕ
  get_scale_factor_from_path path = scale_from scale_factor_pairs (base.stem path)

  -- Whether a bitmap was added, and the representations of the image.
  abbrev pub Added : Type 0
  Added = Bool × List (base.Bitmap × ℕ)

  abbrev pub add_decoded : List (base.Bitmap × ℕ) → ℕ → Option base.Bitmap → Added
  add_decoded image scale none = (false, image)
  add_decoded image scale (some bitmap) = (true, image ++ (bitmap, scale) ∷ [])

  abbrev pub or_jpeg : base.Contents → Option base.Bitmap → Option base.Bitmap
  or_jpeg contents none = base.decode_jpeg contents
  or_jpeg contents (some bitmap) = some bitmap

  abbrev pub add_read : List (base.Bitmap × ℕ) → ℕ → Option base.Contents → Added
  add_read image scale none = (false, image)
  add_read image scale (some contents) =
      add_decoded image scale (or_jpeg contents (base.decode_png contents))

  -- AddImageSkiaRep of a path.
  unfoldable pub add_image_skia_rep : List (base.Bitmap × ℕ) → base.FilePath → ℕ → Added
  add_image_skia_rep image path scale = add_read image scale (base.read_file_to_string path)

  -- succeed |= AddImageSkiaRep(...)
  abbrev pub also : base.FilePath → ℕ → Added → Added
  also path scale before =
      let after : Added = add_image_skia_rep before.1 path scale in (before.0 || after.0, after.1)

  abbrev pub add_pairs : List ScaleFactorPair → base.FilePath → Added → Added
  add_pairs [] path before = before
  add_pairs (pair ∷ rest) path before =
      add_pairs rest path (also (base.insert_before_extension path pair.name) pair.scale before)

  unfoldable pub populate_image_skia_reps_from_path : List (base.Bitmap × ℕ) → base.FilePath → Added
  populate_image_skia_reps_from_path image path =
      if base.matches_scale (base.stem path)
      then add_image_skia_rep image path (get_scale_factor_from_path path)
      else add_pairs scale_factor_pairs path (also path 100 (false, image))
