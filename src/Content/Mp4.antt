-- ===== src/Content/Mp4.antt =====
-- backend/src/modules/content/mp4-duration.ts: the duration in the `moov > mvhd` box of an MP4 file. A
-- buffer is the list of its bytes. A read past its end throws a RangeError, which
-- `parseMp4DurationSeconds` turns into null, so that it counts as `none` here, as a null does.
pub mod Boxes
use content_hub.Base.{
  ℕ, zero, suc, ◌+◌, ◌-◌, ◌*◌, ◌/◌, ◌%◌, Bool, true, false, ◌&&◌, ◌||◌, List, [], ◌∷◌, map, Option,
  none, some, ◌==◌, ltb, leb, if◌then◌else◌, length,
}

-- `buffer[offset]`
unfoldable pub byte_at : List ℕ → ℕ → Option ℕ
byte_at [] i = none
byte_at (b ∷ bs) zero = some b
byte_at (b ∷ bs) (suc i) = byte_at bs i

abbrev pub push : Option ℕ → Option ℕ → Option ℕ
push none b = none
push (some n) none = none
push (some n) (some b) = some (n * 256 + b)

-- The big-endian number of that many bytes after the digits that were read.
unfoldable pub read_more : Option ℕ → ℕ → List ℕ → ℕ → Option ℕ
read_more read zero buffer offset = read
read_more read (suc n) buffer offset =
    read_more (push read (byte_at buffer offset)) n buffer (offset + 1)

-- `readUInt8`, `readUInt32BE`, `readBigUInt64BE`
abbrev pub read_be : ℕ → List ℕ → ℕ → Option ℕ
read_be n buffer offset = read_more (some 0) n buffer offset

unfoldable pub drop : ℕ → List ℕ → List ℕ
drop zero bs = bs
drop (suc n) [] = []
drop (suc n) (b ∷ bs) = drop n bs

unfoldable pub take : ℕ → List ℕ → List ℕ
take zero bs = []
take (suc n) [] = []
take (suc n) (b ∷ bs) = b ∷ take n bs

-- `buffer.subarray(offset, offset + 4).toString('ascii')`, which clears the highest bit of each byte.
unfoldable pub ascii_at : List ℕ → ℕ → List ℕ
ascii_at buffer offset = map (λ b. b % 128) (take 4 (drop offset buffer))

unfoldable pub same_ascii : List ℕ → List ℕ → Bool
same_ascii [] [] = true
same_ascii (x ∷ xs) (y ∷ ys) = x == y && same_ascii xs ys
same_ascii _ _ = false

-- `Mp4Box`
pub record Mp4Box : Type 0 where
  pub type : List ℕ
  pub body_start : ℕ
  pub end : ℕ

abbrev pub box_header_size : ℕ
box_header_size = 8

abbrev pub extended_size_marker : ℕ
extended_size_marker = 1

abbrev pub to_end_of_range_marker : ℕ
to_end_of_range_marker = 0

abbrev pub max_safe_integer : ℕ
max_safe_integer = 9007199254740991

-- `{ type, bodyStart, end }` where `end` lies in the range.
abbrev pub bounded : List ℕ → ℕ → ℕ → ℕ → ℕ → Option Mp4Box
bounded type offset limit body_start end =
    if leb end offset || ltb limit end
    then none
    else some record { type = type; body_start = body_start; end = end }

abbrev pub sized_large : List ℕ → ℕ → ℕ → Option ℕ → Option Mp4Box
sized_large type offset limit none = none
sized_large type offset limit (some large_size) =
    if ltb max_safe_integer large_size
    then none
    else bounded type offset limit (offset + box_header_size + 8) (offset + large_size)

-- `readExtendedSizeBox`
unfoldable pub read_extended_size_box : List ℕ → ℕ → ℕ → List ℕ → Option Mp4Box
read_extended_size_box buffer offset limit type =
    if ltb limit (offset + box_header_size + 8)
    then none
    else sized_large type offset limit (read_be 8 buffer (offset + box_header_size))

abbrev pub sized : List ℕ → ℕ → ℕ → List ℕ → Option ℕ → Option Mp4Box
sized buffer offset limit type none = none
sized buffer offset limit type (some declared_size) =
    if declared_size == extended_size_marker
    then read_extended_size_box buffer offset limit type
    else bounded type offset limit (offset + box_header_size)
        (if declared_size == to_end_of_range_marker then limit else offset + declared_size)

-- `readBoxAt`
unfoldable pub read_box_at : List ℕ → ℕ → ℕ → Option Mp4Box
read_box_at buffer offset limit =
    if ltb limit (offset + box_header_size)
    then none
    else sized buffer offset limit (ascii_at buffer (offset + 4)) (read_be 4 buffer offset)

-- The loop of `findBox`, on fuel.
unfoldable pub find_box_loop : ℕ → List ℕ → ℕ → ℕ → List ℕ → Option Mp4Box
find_box_loop zero buffer offset limit type = none
find_box_loop (suc fuel) buffer offset limit type =
    if ltb offset limit
    then (elim (read_box_at buffer offset limit) [
      | none ↦ none
      | some box ↦
          let rest = find_box_loop fuel buffer box.end limit type in
          if same_ascii box.type type then some box else rest
    ])
    else none

-- `findBox`. Each box ends after its offset, so that the limit bounds the number of the boxes.
unfoldable pub find_box : List ℕ → ℕ → ℕ → List ℕ → Option Mp4Box
find_box buffer start limit type = find_box_loop (suc limit) buffer start limit type

-- `toWholeSeconds`; `Math.round` of the quotient, which a double holds well enough for durations below
-- 2 ^ 51.
unfoldable pub to_whole_seconds : ℕ → ℕ → Option ℕ
to_whole_seconds timescale duration =
    if timescale == 0 || duration == 0
    then none
    else some ((2 * duration + timescale) / (2 * timescale))

abbrev pub seconds_of : Option ℕ → Option ℕ → Option ℕ
seconds_of (some timescale) (some duration) = to_whole_seconds timescale duration
seconds_of _ _ = none

abbrev pub if_safe : Option ℕ → Option ℕ
if_safe none = none
if_safe (some duration) = if ltb max_safe_integer duration then none else some duration

-- The layouts of versions 0 and 1 after the version and the flags.
unfoldable pub read_version : List ℕ → ℕ → ℕ → ℕ → Option ℕ
read_version buffer after_version_flags end zero =
    if ltb end (after_version_flags + 16)
    then none
    else seconds_of (read_be 4 buffer (after_version_flags + 8))
        (read_be 4 buffer (after_version_flags + 12))
read_version buffer after_version_flags end (suc zero) =
    if ltb end (after_version_flags + 28)
    then none
    else seconds_of (read_be 4 buffer (after_version_flags + 16))
        (if_safe (read_be 8 buffer (after_version_flags + 20)))
read_version buffer after_version_flags end _ = none

-- `readMvhdDurationSeconds`
unfoldable pub read_mvhd_duration_seconds : List ℕ → Mp4Box → Option ℕ
read_mvhd_duration_seconds buffer mvhd = elim (read_be 1 buffer mvhd.body_start) [
  | none ↦ none
  | some version ↦ read_version buffer (mvhd.body_start + 4) mvhd.end version
]

abbrev pub moov : List ℕ
moov = 109 ∷ 111 ∷ 111 ∷ 118 ∷ []

abbrev pub mvhd_type : List ℕ
mvhd_type = 109 ∷ 118 ∷ 104 ∷ 100 ∷ []

-- `parseMp4DurationSeconds`
unfoldable pub parse_mp4_duration_seconds : List ℕ → Option ℕ
parse_mp4_duration_seconds buffer = elim (find_box buffer 0 (length buffer) moov) [
  | none ↦ none
  | some outer ↦ elim (find_box buffer outer.body_start outer.end mvhd_type) [
    | none ↦ none
    | some mvhd ↦ read_mvhd_duration_seconds buffer mvhd
  ]
]
