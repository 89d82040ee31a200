-- ===== src/Content/Upload.antt =====
-- backend/src/modules/content/upload-validation.service.ts: which uploads are accepted. The two limits of
-- the configuration are arguments.
pub mod Laws
mod Tests
use content_hub.Base.{
  ℕ, suc, Bool, true, false, ◌&&◌, List, [], ◌∷◌, Option, none, some, String, ◌==◌, ltb, leb,
  if◌then◌else◌, length,
}
use content_hub.Content.Mp4.{byte_at, ascii_at, same_ascii, parse_mp4_duration_seconds}

pub data Category : Type 0 where
  image video : Category

-- `AllowedMimeSpec`
pub record AllowedMimeSpec : Type 0 where
  pub mime_type : String
  pub extension : String
  pub category : Category

-- `ALLOWED_TYPES`
abbrev pub jpeg_spec : AllowedMimeSpec
jpeg_spec = record { mime_type = "image/jpeg"; extension = "jpg"; category = image }

abbrev pub png_spec : AllowedMimeSpec
png_spec = record { mime_type = "image/png"; extension = "png"; category = image }

abbrev pub mp4_spec : AllowedMimeSpec
mp4_spec = record { mime_type = "video/mp4"; extension = "mp4"; category = video }

-- `buffer[index] === byte`
abbrev pub is_byte : Option ℕ → ℕ → Bool
is_byte none byte = false
is_byte (some b) byte = b == byte

-- `isJpeg`
unfoldable pub is_jpeg : List ℕ → Bool
is_jpeg buffer =
    leb 3 (length buffer)
    && is_byte (byte_at buffer 0) 255
    && is_byte (byte_at buffer 1) 216
    && is_byte (byte_at buffer 2) 255

abbrev pub png_signature : List ℕ
png_signature = 137 ∷ 80 ∷ 78 ∷ 71 ∷ 13 ∷ 10 ∷ 26 ∷ 10 ∷ []

-- `signature.every((byte, index) => buffer[index] === byte)`, from an index on.
unfoldable pub every_byte : List ℕ → ℕ → List ℕ → Bool
every_byte [] index buffer = true
every_byte (byte ∷ signature) index buffer =
    is_byte (byte_at buffer index) byte && every_byte signature (suc index) buffer

-- `isPng`
unfoldable pub is_png : List ℕ → Bool
is_png buffer = leb (length png_signature) (length buffer) && every_byte png_signature 0 buffer

abbrev pub ftyp : List ℕ
ftyp = 102 ∷ 116 ∷ 121 ∷ 112 ∷ []

-- `isMp4`
unfoldable pub is_mp4 : List ℕ → Bool
is_mp4 buffer = leb 12 (length buffer) && same_ascii (ascii_at buffer 4) ftyp

-- `sniffMimeType`
unfoldable pub sniff_mime_type : List ℕ → Option AllowedMimeSpec
sniff_mime_type buffer =
    if is_jpeg buffer
    then some jpeg_spec
    else if is_png buffer
    then some png_spec
    else if is_mp4 buffer
    then some mp4_spec
    else none

-- `ValidatedUpload`
pub record ValidatedUpload : Type 0 where
  pub spec : AllowedMimeSpec
  pub duration_seconds : Option ℕ

-- The result of `validate`, with the two errors that it throws.
pub data Validation : Type 0 where
  accepted : ValidatedUpload → Validation
  unsupported_file_type file_too_large : Validation

abbrev pub limit_of : ℕ → ℕ → Category → ℕ
limit_of max_image_bytes max_video_bytes image = max_image_bytes
limit_of max_image_bytes max_video_bytes video = max_video_bytes

abbrev pub duration_of : Category → List ℕ → Option ℕ
duration_of image buffer = none
duration_of video buffer = parse_mp4_duration_seconds buffer

-- `validate`
unfoldable pub validate : ℕ → ℕ → List ℕ → Validation
validate max_image_bytes max_video_bytes buffer = elim (sniff_mime_type buffer) [
  | none ↦ unsupported_file_type
  | some detected ↦
      if ltb (limit_of max_image_bytes max_video_bytes detected.category) (length buffer)
      then file_too_large
      else accepted
          record { spec = detected; duration_seconds = duration_of detected.category buffer }
]

-- `streamLevelMaxBytes`
unfoldable pub stream_level_max_bytes : ℕ → ℕ → ℕ
stream_level_max_bytes max_image_bytes max_video_bytes =
    if ltb max_image_bytes max_video_bytes then max_video_bytes else max_image_bytes
