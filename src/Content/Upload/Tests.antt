-- ===== src/Content/Upload/Tests.antt =====
-- A small MP4 file, read and validated.
use content_hub.Base.{ℕ, ◌≡◌, ◌↔◌, refl, List, [], ◌∷◌, none, some}
use content_hub.Content.Mp4.{
  byte_at, read_more, drop, take, ascii_at, same_ascii, read_extended_size_box, read_box_at,
  find_box_loop, find_box, to_whole_seconds, read_version, read_mvhd_duration_seconds,
  parse_mp4_duration_seconds, Mp4Box, moov,
}
use content_hub.Content.Mp4.Boxes.{FirstBox, find_box-FirstBox}
use content_hub.Content.Upload.{
  is_jpeg, is_png, is_mp4, every_byte, sniff_mime_type, mp4_spec, ValidatedUpload, accepted,
  validate, file_too_large,
}
use content_hub.Content.Upload.Laws.{IsAccepted, validate_iff}

-- An `ftyp` box, and a `moov` box with an `mvhd` box of version 0: 15.5 seconds.
abbrev clip : List ℕ
clip =
    0 ∷ 0 ∷ 0 ∷ 12 ∷ 102 ∷ 116 ∷ 121 ∷ 112 ∷ 0 ∷ 0 ∷ 0 ∷ 0 ∷ 0 ∷ 0 ∷ 0 ∷ 36 ∷ 109 ∷ 111 ∷ 111 ∷ 118
    ∷ 0 ∷ 0 ∷ 0 ∷ 28 ∷ 109 ∷ 118 ∷ 104 ∷ 100 ∷ 0 ∷ 0 ∷ 0 ∷ 0 ∷ 0 ∷ 0 ∷ 0 ∷ 0 ∷ 0 ∷ 0 ∷ 0 ∷ 0 ∷ 0 ∷ 0
    ∷ 3 ∷ 232 ∷ 0 ∷ 0 ∷ 60 ∷ 140 ∷ []

reading : Unit {0}
unfolding byte_at read_more drop take ascii_at same_ascii read_extended_size_box read_box_at
    find_box_loop find_box to_whole_seconds read_version read_mvhd_duration_seconds
    parse_mp4_duration_seconds is_jpeg is_png is_mp4 every_byte sniff_mime_type validate
reading = tt

duration : parse_mp4_duration_seconds clip ≡ some 16
unfolding reading
duration = refl

truncated : parse_mp4_duration_seconds (take 40 clip) ≡ none
unfolding reading
truncated = refl

abbrev upload : ValidatedUpload
upload = record { spec = mp4_spec; duration_seconds = some 16 }

accepts : validate 10 100 clip ≡ accepted upload
unfolding reading
accepts = refl

rejects : validate 100 40 clip ≡ file_too_large
unfolding reading
rejects = refl

validate_iff_example : (validate 10 100 clip ≡ accepted upload) ↔ IsAccepted 10 100 clip upload
validate_iff_example = validate_iff 10 100 clip upload

abbrev movie : Mp4Box
movie = record { type = moov; body_start = 20; end = 48 }

find_box-FirstBox_example : (find_box clip 0 48 moov ≡ some movie) ↔ FirstBox clip 48 moov movie 0
find_box-FirstBox_example = find_box-FirstBox clip 0 48 moov movie

found : find_box clip 0 48 moov ≡ some movie
unfolding reading
found = refl
