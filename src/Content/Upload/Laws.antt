-- ===== src/Content/Upload/Laws.antt =====
-- When an upload is accepted: by its signature and its size alone.
use content_hub.Base.{
  ℕ, ◌≤◌, ◌%◌, ◌≡◌, ◌↔◌, refl, sym, ◌∙◌, inl, inr, true, false, List, [], ◌∷◌, none, arith, length,
  Bool-cases,
}
use content_hub.Content.Mp4.{byte_at, take, drop, ascii_at, same_ascii, parse_mp4_duration_seconds}
use content_hub.Content.Upload.{
  image, video, is_jpeg, is_png, is_mp4, every_byte, sniff_mime_type, ValidatedUpload, accepted,
  validate, stream_level_max_bytes,
}

-- The first bytes of a file: FF D8 FF, the signature of PNG, or a box of type `ftyp` with at least four bytes
-- more. The text of the type is read as ASCII, which drops the highest bit of a byte.
abbrev pub IsJpegFile : List ℕ → Type 0
IsJpegFile buffer = (rest : List ℕ) × (buffer ≡ 255 ∷ 216 ∷ 255 ∷ rest)

abbrev pub IsPngFile : List ℕ → Type 0
IsPngFile buffer = (rest : List ℕ) × (buffer ≡ 137 ∷ 80 ∷ 78 ∷ 71 ∷ 13 ∷ 10 ∷ 26 ∷ 10 ∷ rest)

pub record IsMp4File (buffer : List ℕ) : Type 0 where
  pub a : ℕ
  pub b : ℕ
  pub c : ℕ
  pub d : ℕ
  pub f : ℕ
  pub t : ℕ
  pub y : ℕ
  pub p : ℕ
  pub rest : List ℕ
  pub starts : buffer ≡ a ∷ b ∷ c ∷ d ∷ f ∷ t ∷ y ∷ p ∷ rest
  pub typed : (f % 128 ≡ 102) × (t % 128 ≡ 116) × (y % 128 ≡ 121) × (p % 128 ≡ 112)
  pub long : 4 ≤ length rest

-- Which uploads are accepted as what: a JPEG or PNG file within the limit of images, without a duration; any other
-- file that starts as an MP4 file, within the limit of videos, with the duration that the parser reads.
pub data IsAccepted (max_image_bytes max_video_bytes : ℕ) (buffer : List ℕ)
    (upload : ValidatedUpload) : Type 0 where
  as_jpeg :
      IsJpegFile buffer
      → length buffer ≤ max_image_bytes
      → upload.spec ≡ record { mime_type = "image/jpeg"; extension = "jpg"; category = image }
      → upload.duration_seconds ≡ none
      → IsAccepted max_image_bytes max_video_bytes buffer upload
  as_png :
      IsPngFile buffer
      → length buffer ≤ max_image_bytes
      → upload.spec ≡ record { mime_type = "image/png"; extension = "png"; category = image }
      → upload.duration_seconds ≡ none
      → IsAccepted max_image_bytes max_video_bytes buffer upload
  as_mp4 :
      IsMp4File buffer
      → ¬ IsJpegFile buffer
      → length buffer ≤ max_video_bytes
      → upload.spec ≡ record { mime_type = "video/mp4"; extension = "mp4"; category = video }
      → upload.duration_seconds ≡ parse_mp4_duration_seconds buffer
      → IsAccepted max_image_bytes max_video_bytes buffer upload

jpeg_iff : (buffer : List ℕ) → (is_jpeg buffer ≡ true) ↔ IsJpegFile buffer
unfolding is_jpeg byte_at
jpeg_iff [] = (λ h. absurd (ground (arith, h)), λ h. absurd (ground (arith, h.1)))
jpeg_iff (x ∷ []) = (λ h. absurd (ground (arith, h)), λ h. absurd (ground (arith, h.1)))
jpeg_iff (x ∷ y ∷ []) = (λ h. absurd (ground (arith, h)), λ h. absurd (ground (arith, h.1)))
jpeg_iff (x ∷ y ∷ z ∷ rest) = (λ h. (rest, ground (arith, h)), λ h. ground (arith, h.1))

png_starts : (buffer : List ℕ) → IsPngFile buffer → is_png buffer ≡ true
unfolding is_png every_byte byte_at
png_starts buffer (rest, same) = rw same (ground arith)

png_found : (buffer : List ℕ) → is_png buffer ≡ true → IsPngFile buffer
unfolding is_png every_byte byte_at
png_found (a ∷ b ∷ c ∷ d ∷ e ∷ f ∷ g ∷ i ∷ rest) h = (rest, ground (arith, h))
png_found _ h = absurd (ground (arith, h))

mp4_starts : (buffer : List ℕ) → IsMp4File buffer → is_mp4 buffer ≡ true
unfolding is_mp4 ascii_at same_ascii take drop
mp4_starts buffer m = ground (arith, m.starts, m.typed, m.long)

mp4_found : (buffer : List ℕ) → is_mp4 buffer ≡ true → IsMp4File buffer
unfolding is_mp4 ascii_at same_ascii take drop
mp4_found (a ∷ b ∷ c ∷ d ∷ f ∷ t ∷ y ∷ p ∷ rest) h = record {
  a = a;
  b = b;
  c = c;
  d = d;
  f = f;
  t = t;
  y = y;
  p = p;
  rest = rest;
  starts = refl;
  typed = (ground (arith, h), ground (arith, h), ground (arith, h), ground (arith, h));
  long = ground (arith, h);
}
mp4_found _ h = absurd (ground (arith, h))

png_no_jpeg : (buffer : List ℕ) → IsPngFile buffer → is_jpeg buffer ≡ false
unfolding is_jpeg byte_at
png_no_jpeg buffer (rest, same) = rw same (ground arith)

no_jpeg : (buffer : List ℕ) → ¬ IsJpegFile buffer → is_jpeg buffer ≡ false
no_jpeg buffer other = elim (Bool-cases (is_jpeg buffer)) [
  | inl jpeg ↦ absurd (other ((jpeg_iff buffer).0 jpeg))
  | inr plain ↦ plain
]

mp4_no_png : (buffer : List ℕ) → IsMp4File buffer → is_png buffer ≡ false
unfolding is_png every_byte byte_at
mp4_no_png buffer m = rw m.starts (ground (arith, m.typed))

accepts :
    (max_image_bytes max_video_bytes : ℕ) (buffer : List ℕ) (upload : ValidatedUpload)
    → IsAccepted max_image_bytes max_video_bytes buffer upload
    → validate max_image_bytes max_video_bytes buffer ≡ accepted upload
unfolding validate sniff_mime_type
accepts max_image_bytes max_video_bytes buffer upload (as_jpeg file small spec none_read) =
    ground (arith, (jpeg_iff buffer).1 file)
accepts max_image_bytes max_video_bytes buffer upload (as_png file small spec none_read) =
    ground (arith, png_no_jpeg buffer file, png_starts buffer file)
accepts max_image_bytes max_video_bytes buffer upload (as_mp4 file other small spec read) =
    ground (arith, no_jpeg buffer other, mp4_no_png buffer file, mp4_starts buffer file)

judged :
    (max_image_bytes max_video_bytes : ℕ) (buffer : List ℕ) (upload : ValidatedUpload)
    → validate max_image_bytes max_video_bytes buffer ≡ accepted upload
    → IsAccepted max_image_bytes max_video_bytes buffer upload
unfolding validate sniff_mime_type
judged max_image_bytes max_video_bytes buffer upload h = elim (Bool-cases (is_jpeg buffer)) [
  | inl jpeg ↦
      as_jpeg ((jpeg_iff buffer).0 jpeg) (ground (arith, h, jpeg)) (ground (arith, h, jpeg))
        (ground (arith, h, jpeg))
  | inr other ↦ elim (Bool-cases (is_png buffer)) [
    | inl png ↦
        as_png (png_found buffer png) (ground (arith, h, other, png))
          (ground (arith, h, other, png)) (ground (arith, h, other, png))
    | inr neither ↦ elim (Bool-cases (is_mp4 buffer)) [
      | inl mp4 ↦
          as_mp4 (mp4_found buffer mp4) (λ j. absurd (cc (sym other ∙ (jpeg_iff buffer).1 j)))
            (ground (arith, h, other, neither, mp4)) (ground (arith, h, other, neither, mp4))
            (ground (arith, h, other, neither, mp4))
      | inr unknown ↦ absurd (ground (arith, h, other, neither, unknown))
    ]
  ]
]

-- An upload is accepted exactly if it starts as a JPEG or PNG file and is within the limit of images, or else it starts as
-- an MP4 file and is within the limit of videos; the result carries the type that was recognised, no duration for an
-- image, and for a video the one that the parser reads, if it reads one.
pub validate_iff :
    (max_image_bytes max_video_bytes : ℕ) (buffer : List ℕ) (upload : ValidatedUpload)
    → (validate max_image_bytes max_video_bytes buffer ≡ accepted upload)
      ↔ IsAccepted max_image_bytes max_video_bytes buffer upload
validate_iff max_image_bytes max_video_bytes buffer upload = (
  judged max_image_bytes max_video_bytes buffer upload,
  accepts max_image_bytes max_video_bytes buffer upload,
)

-- What is accepted is within the limit of the multipart parser, the larger of the two.
pub accepted_within_stream :
    (max_image_bytes max_video_bytes : ℕ) (buffer : List ℕ) {upload : ValidatedUpload}
    → validate max_image_bytes max_video_bytes buffer ≡ accepted upload
    → length buffer ≤ stream_level_max_bytes max_image_bytes max_video_bytes
unfolding stream_level_max_bytes validate
accepted_within_stream max_image_bytes max_video_bytes buffer {upload} h = ground arith
