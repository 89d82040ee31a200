-- ===== src/Content/MediaUrl.antt =====
-- backend/src/modules/content/media-url.util.ts: the URLs that the upload hands out.
use content_hub.Base.{
  ℕ, ◌==◌, Bool, true, false, ◌&&◌, ◌||◌, List, [], ◌∷◌, Option, none, some, String, if◌then◌else◌,
  leb, any, zero, suc,
}
use content_hub.Base.Effects.{M, ensure, bad_request}
use content_hub.Content.Gate.Trim.{codes}

-- The rest after a prefix.
unfoldable pub after : List ℕ → List ℕ → Option (List ℕ)
after [] xs = some xs
after (p ∷ ps) [] = none
after (p ∷ ps) (x ∷ xs) = if x == p then after ps xs else none

-- [a-f0-9-]
abbrev pub is_key_char : ℕ → Bool
is_key_char c = leb 97 c && leb c 102 || leb 48 c && leb c 57 || c == 45

-- The rest after that many characters of a key.
unfoldable pub after_key : ℕ → List ℕ → Option (List ℕ)
after_key zero xs = some xs
after_key (suc n) [] = none
after_key (suc n) (x ∷ xs) = if is_key_char x then after_key n xs else none

unfoldable pub same_codes : List ℕ → List ℕ → Bool
same_codes [] [] = true
same_codes (x ∷ xs) (y ∷ ys) = x == y && same_codes xs ys
same_codes _ _ = false

abbrev pub extensions : List (List ℕ)
extensions = codes ".jpg" ∷ codes ".png" ∷ codes ".mp4" ∷ []

abbrev pub ends_with_extension : Option (List ℕ) → Bool
ends_with_extension none = false
ends_with_extension (some rest) = any (same_codes rest) extensions

abbrev pub then_key : Option (List ℕ) → Option (List ℕ)
then_key none = none
then_key (some rest) = after_key 36 rest

-- `OWNED_MEDIA_URL_PATTERN.test(mediaUrl)`
unfoldable pub is_owned_media_url : String → Bool
is_owned_media_url url = ends_with_extension (then_key (after (codes "/uploads/") (codes url)))

-- `assertMediaUrlIsOwned`
unfoldable pub assert_media_url_is_owned : {S : Type 0} → String → M S (Unit {0})
assert_media_url_is_owned url = ensure (is_owned_media_url url) bad_request
