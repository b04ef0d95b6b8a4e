-- ===== src/Config/Checks/Laws.antt =====
-- internal/config/config.go: what the tests on texts decide.
use alertmanager_webhook_rel.Base.{
  All, Bool-cases, IsInfix, List, Option, Text, [], arith, contains, contains_iff, false, inl, inr,
  none, pos, some, text_eq_iff, to_lower, true, ℕ, ℤ, ◌↔◌, ◌∷◌, ◌≡◌, ◌≢◌, ◌≤ℤ◌, ◌≤◌, ◌⊎◌,
}
use alertmanager_webhook_rel.Config.Checks.{
  is_outside, contains_control_chars, contains_dangerous_sequence, dangerous_patterns, first_found,
  is_one_of, is_printable_ascii, url_encoded_dangerous, first_some,
}

abbrev pub IsPrintable : Text → Type 0
IsPrintable = All (λ b. (0x21 ≤ b) × (b ≤ 0x7e))

abbrev pub IsPlain : Text → Type 0
IsPlain = All (λ b. (0x20 ≤ b) × (b ≢ 0x7f))

-- The text holds no dangerous pattern, and in lower case no URL-encoded one.
abbrev pub IsHarmless : Text → Type 0
IsHarmless s =
    All (λ p. ¬ IsInfix p.1 s) dangerous_patterns
    × All (λ p. ¬ IsInfix p.1 (to_lower s)) url_encoded_dangerous

abbrev pub IsOneOf : Text → List Text → Type 0
IsOneOf s [] = ⊥
IsOneOf s (t ∷ ts) = (s ≡ t) ⊎ IsOneOf s ts

abbrev pub IsBetween : ℕ → ℕ → ℤ → Type 0
IsBetween lo hi x = (pos lo ≤ℤ x) × (x ≤ℤ pos hi)

pub is_printable_ascii_iff : (s : Text) → (is_printable_ascii s ≡ true) ↔ IsPrintable s
unfolding is_printable_ascii
is_printable_ascii_iff [] = ground arith
is_printable_ascii_iff (b ∷ s) = ground (arith, is_printable_ascii_iff s)

pub contains_control_chars_iff : (s : Text) → (contains_control_chars s ≡ false) ↔ IsPlain s
unfolding contains_control_chars
contains_control_chars_iff [] = ground arith
contains_control_chars_iff (b ∷ s) = ground (arith, contains_control_chars_iff s)

first_found_iff :
    (s : Text) (ps : List (Text × Text)) → (first_found s ps ≡ none) ↔ All (λ p. ¬ IsInfix p.1 s) ps
unfolding first_found
first_found_iff s [] = ground arith
first_found_iff s ((d, p) ∷ ps) = elim (Bool-cases (contains s p)) [
  | inl found ↦ simp found (λ h. cc, λ h. absurd (h.0 ((contains_iff s p).0 found)))
  | inr missed ↦
      let absent : ¬ IsInfix p s = λ i. let hit = (contains_iff s p).1 i in cc in
      simp missed (λ h. (absent, (first_found_iff s ps).0 h), λ h. (first_found_iff s ps).1 h.1)
]

first_some-eq-none_iff : (o q : Option Text) → (first_some o q ≡ none) ↔ ((o ≡ none) × (q ≡ none))
first_some-eq-none_iff none q = ground arith
first_some-eq-none_iff (some d) q = ground arith

-- `containsDangerousSequence` finds nothing exactly in the texts without those patterns.
pub contains_dangerous_sequence_iff :
    (s : Text) → (contains_dangerous_sequence s ≡ none) ↔ IsHarmless s
unfolding contains_dangerous_sequence
contains_dangerous_sequence_iff s =
    let both =
      first_some-eq-none_iff (first_found s dangerous_patterns)
        (first_found (to_lower s) url_encoded_dangerous) in
    (
      λ h. ((first_found_iff s _).0 (both.0 h).0, (first_found_iff (to_lower s) _).0 (both.0 h).1),
      λ h. both.1 ((first_found_iff s _).1 h.0, (first_found_iff (to_lower s) _).1 h.1),
    )

pub is_one_of_iff : (s : Text) (ts : List Text) → (is_one_of s ts ≡ true) ↔ IsOneOf s ts
unfolding is_one_of
is_one_of_iff s [] = ground arith
is_one_of_iff s (t ∷ ts) = ground (arith, text_eq_iff s t, is_one_of_iff s ts)

pub is_outside_iff : (lo hi : ℕ) (x : ℤ) → (is_outside lo hi x ≡ false) ↔ IsBetween lo hi x
is_outside_iff lo hi x = ground arith
