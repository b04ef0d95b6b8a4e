-- ===== src/Base/Strings.antt =====
-- What the program uses of Go's package `strings`, over bytes.
use Prim.Native.Nat.{ℕ, zero, suc, ◌+◌}
use mathlib.Core.Path.{◌≡◌, ap}
use mathlib.Core.Logic.{◌↔◌, inl, inr}
use mathlib.Core.Bool.{Bool, true, ◌&&◌, ◌||◌}
use mathlib.Core.List.{List, [], ◌∷◌, ◌++◌, reverse, map}
use mathlib.Core.Option.{Option, none, some}
use native.Mathlib.Omega.{arith}
use alertmanager_webhook_rel.Base.Tests.{◌==◌, leb, if◌then◌else◌, Bool-cases}
use alertmanager_webhook_rel.Base.Lists.{length}
use alertmanager_webhook_rel.Base.Texts.{Text, str, has_prefix, has_prefix_sound, has_prefix-append}

-- `strings.Contains(s, p)`
unfoldable pub contains : Text → Text → Bool
contains [] p = has_prefix [] p
contains (c ∷ s) p = has_prefix (c ∷ s) p || contains s p

-- The white space of Unicode, in UTF-8, beside the ASCII one.
abbrev wide_spaces : List Text
wide_spaces =
    (0xc2 ∷ 0x85 ∷ [])
    ∷ (0xc2 ∷ 0xa0 ∷ [])
    ∷ (0xe1 ∷ 0x9a ∷ 0x80 ∷ [])
    ∷ (0xe2 ∷ 0x80 ∷ 0xa8 ∷ [])
    ∷ (0xe2 ∷ 0x80 ∷ 0xa9 ∷ [])
    ∷ (0xe2 ∷ 0x80 ∷ 0xaf ∷ [])
    ∷ (0xe2 ∷ 0x81 ∷ 0x9f ∷ [])
    ∷ (0xe3 ∷ 0x80 ∷ 0x80 ∷ [])
    ∷ map (λ (b : ℕ). 0xe2 ∷ 0x80 ∷ b ∷ [])
        (0x80 ∷ 0x81 ∷ 0x82 ∷ 0x83 ∷ 0x84 ∷ 0x85 ∷ 0x86 ∷ 0x87 ∷ 0x88 ∷ 0x89 ∷ 0x8a ∷ [])

abbrev narrow_spaces : List Text
narrow_spaces = (9 ∷ []) ∷ (10 ∷ []) ∷ (11 ∷ []) ∷ (12 ∷ []) ∷ (13 ∷ []) ∷ (32 ∷ []) ∷ []

abbrev spaces : List Text
spaces = narrow_spaces ++ wide_spaces

-- The text behind a prefix.
after : Text → Text → Option Text
after s [] = some s
after [] (_ ∷ _) = none
after (a ∷ s) (b ∷ p) = if a == b then after s p else none

-- The text behind the first of these that it begins with.
after_any : List Text → Text → Option Text
after_any [] s = none
after_any (p ∷ ps) s = elim (after s p) [ some r ↦ some r | none ↦ after_any ps s ]

-- Drops prefixes while there is one; each has a byte at least, so the text's length is enough fuel.
trim_left_from : ℕ → List Text → Text → Text
trim_left_from zero ps s = s
trim_left_from (suc f) ps s = elim (after_any ps s) [ none ↦ s | some r ↦ trim_left_from f ps r ]

trim_left : List Text → Text → Text
unfolding after after_any trim_left_from
trim_left ps s = trim_left_from (length s) ps s

-- From the right: a byte sequence of a character ends a text as its reverse begins the reverse.
trim_right_of : List Text → Text → Text
unfolding trim_left
trim_right_of ps s = reverse (trim_left (map reverse ps) (reverse s))

-- `strings.TrimSpace(s)`
unfoldable pub trim_space : Text → Text
unfolding trim_left trim_right_of
trim_space s = trim_right_of spaces (trim_left spaces s)

-- `strings.TrimRight(s, "/")`
unfoldable pub trim_slashes : Text → Text
unfolding trim_right_of
trim_slashes s = trim_right_of (str "/" ∷ []) s

-- The two characters outside ASCII whose lower case is in ASCII, U+0130 and U+212A.
fold_wide : Text → Text
fold_wide (a ∷ b ∷ c ∷ s) =
    let dotted = 0x69 ∷ fold_wide (c ∷ s) in
    let kelvin = 0x6b ∷ fold_wide s in
    let other = a ∷ fold_wide (b ∷ c ∷ s) in
    if a == 0xc4 && b == 0xb0
    then dotted
    else (if a == 0xe2 && b == 0x84 && c == 0xaa then kelvin else other)
fold_wide (a ∷ b ∷ []) = if a == 0xc4 && b == 0xb0 then 0x69 ∷ [] else a ∷ b ∷ []
fold_wide s = s

lower_byte : ℕ → ℕ
lower_byte c = if leb b'A' c && leb c b'Z' then c + 32 else c

-- `strings.ToLower(s)`, as far as comparisons with ASCII texts can tell.
unfoldable pub to_lower : Text → Text
unfolding fold_wide lower_byte
to_lower s = map lower_byte (fold_wide s)

-- `strings.Split(s, ",")`
split_from : Text → Text → List Text
split_from cur [] = reverse cur ∷ []
split_from cur (c ∷ s) =
    let next = reverse cur ∷ split_from [] s in
    let more = split_from (c ∷ cur) s in if c == b',' then next else more

unfoldable pub split_commas : Text → List Text
unfolding split_from
split_commas s = split_from [] s

-- The pattern stands somewhere in the text.
abbrev pub IsInfix : Text → Text → Type 0
IsInfix p s = (before : Text) × (behind : Text) × (s ≡ before ++ p ++ behind)

contains_sound : (s p : Text) → contains s p ≡ true → IsInfix p s
unfolding contains
contains_sound [] p h = let (r, e) = has_prefix_sound [] p h in ([], r, e)
contains_sound (c ∷ s) p h = elim (Bool-cases (has_prefix (c ∷ s) p)) [
  | inl here ↦ let (r, e) = has_prefix_sound (c ∷ s) p here in ([], r, e)
  | inr later ↦
      let (before, behind, e) = contains_sound s p (ground arith) in
      (c ∷ before, behind, ap (λ t. c ∷ t) e)
]

contains_of_prefix : (s p : Text) → has_prefix s p ≡ true → contains s p ≡ true
unfolding contains
contains_of_prefix [] p h = h
contains_of_prefix (c ∷ s) p h = ground arith

contains_append : (before p behind : Text) → contains (before ++ p ++ behind) p ≡ true
unfolding contains
contains_append [] p behind = contains_of_prefix (p ++ behind) p (has_prefix-append p behind)
contains_append (c ∷ before) p behind = ground (arith, contains_append before p behind)

pub contains_iff : (s p : Text) → (contains s p ≡ true) ↔ IsInfix p s
contains_iff s p = (contains_sound s p, λ h. rw (h.2) (contains_append h.0 p h.1))
