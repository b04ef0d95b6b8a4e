-- ===== src/Config/Checks.antt =====
-- internal/config/config.go: the tests on texts that `validate` is made of.
pub mod Laws
use alertmanager_webhook_rel.Base.{
  Bool, List, Option, Text, [], contains, false, if◌then◌else◌, leb, ltb, ltz, none, pos, some, str,
  text_eq, to_lower, true, ℕ, ℤ, ◌&&◌, ◌==◌, ◌||◌, ◌∷◌,
}

-- Bytes 0x21 to 0x7e only. The source ranges over characters; one outside ASCII begins with a byte
-- above 0x7e, so the first failure is the same.
unfoldable pub is_printable_ascii : Text → Bool
is_printable_ascii [] = true
is_printable_ascii (b ∷ s) = (leb 0x21 b && leb b 0x7e) && is_printable_ascii s

unfoldable pub contains_control_chars : Text → Bool
contains_control_chars [] = false
contains_control_chars (b ∷ s) = (ltb b 0x20 || b == 0x7f) || contains_control_chars s

-- A description, and the pattern that it stands for.
abbrev Pattern : Type 0
Pattern = Text × Text

abbrev pub dangerous_patterns : List (Text × Text)
dangerous_patterns =
    (str "CRLF", 13 ∷ 10 ∷ [])
    ∷ (str "CR", 13 ∷ [])
    ∷ (str "null byte", 0 ∷ [])
    ∷ (str "ANSI escape", 0x1b ∷ b'[' ∷ [])
    ∷ (str "shell expansion", str "$(")
    ∷ (str "shell expansion", str "`")
    ∷ (str "template injection", str "{{")
    ∷ []

abbrev pub url_encoded_dangerous : List (Text × Text)
url_encoded_dangerous =
    (str "URL-encoded dangerous sequence", str "%00")
    ∷ (str "URL-encoded dangerous sequence", str "%0d%0a")
    ∷ (str "URL-encoded dangerous sequence", str "%0a")
    ∷ (str "URL-encoded dangerous sequence", str "%0d")
    ∷ []

-- The description of the first pattern that the text contains.
unfoldable pub first_found : Text → List (Text × Text) → Option Text
first_found s [] = none
first_found s ((description, pattern_text) ∷ ps) =
    if contains s pattern_text then some description else first_found s ps

-- The first loop's finding, or else the second's.
abbrev pub first_some : Option Text → Option Text → Option Text
first_some (some d) _ = some d
first_some none o = o

unfoldable pub contains_dangerous_sequence : Text → Option Text
contains_dangerous_sequence s =
    first_some (first_found s dangerous_patterns) (first_found (to_lower s) url_encoded_dangerous)

-- `_, ok := set[s]`
unfoldable pub is_one_of : Text → List Text → Bool
is_one_of s [] = false
is_one_of s (t ∷ ts) = text_eq s t || is_one_of s ts

-- `x < lo || x > hi`
abbrev pub is_outside : ℕ → ℕ → ℤ → Bool
is_outside lo hi x = ltz x (pos lo) || ltz (pos hi) x
