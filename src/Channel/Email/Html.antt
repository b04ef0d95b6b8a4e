-- ===== src/Channel/Email/Html.antt =====
-- `html.EscapeString`, and what makes a text safe inside HTML.
use alertmanager_webhook_rel.Base.{
  All, All-append, IsDigit, Option, Option-cases, Text, [], arith, if◌then◌else◌, inl, inr, none,
  refl, some, str, ℕ, ◌++◌, ◌==◌, ◌||◌, ◌∷◌, ◌≡◌, ◌≢◌,
}

escape_byte : ℕ → Text
escape_byte c =
    if c == b'&'
    then str "&amp;"
    else (if c == 0x27
        then str "&#39;"
        else (if c == b'<'
            then str "&lt;"
            else (if c == b'>' then str "&gt;" else (if c == 0x22 then str "&#34;" else c ∷ []))))

unfoldable pub escape_string : Text → Text
unfolding escape_byte
escape_string [] = []
escape_string (c ∷ s) = escape_byte c ++ escape_string s

-- No angle bracket and no quotation mark.
abbrev pub IsInert : Text → Type 0
IsInert = All (λ c. (c ≢ b'<') × (c ≢ b'>') × (c ≢ 0x22))

-- Where a reader of HTML stands: in text, in a tag, in a quoted attribute of a tag.
pub data Place : Type 0 where
  in_text in_tag in_quotes : Place

-- A bracket where none may stand is refused.
abbrev pub next : Place → ℕ → Option Place
next in_text c = if c == b'<' then some in_tag else (if c == b'>' then none else some in_text)
next in_tag c =
    if c == b'>'
    then some in_text
    else (if c == b'<' then none else (if c == 0x22 then some in_quotes else some in_tag))
next in_quotes c =
    if c == 0x22 then some in_tag else (if c == b'<' || c == b'>' then none else some in_quotes)

-- Where the reader stands behind a text.
unfoldable pub read_html : Place → Text → Option Place
read_html p [] = some p
read_html p (c ∷ s) = elim (next p c) [ none ↦ none | some q ↦ read_html q s ]

-- A text takes the reader from one place to another.
abbrev pub Leads : Place → Text → Place → Type 0
Leads p s q = read_html p s ≡ some q

-- A place where a text may stand that is not markup.
abbrev pub IsForContent : Place → Type 0
IsForContent in_text = Unit
IsForContent in_tag = ⊥
IsForContent in_quotes = Unit

pub IsInert-Leads : (p : Place) (s : Text) → IsForContent p → IsInert s → Leads p s p
unfolding read_html
IsInert-Leads p [] h v = refl
IsInert-Leads in_text (c ∷ s) h v = ground (arith, IsInert-Leads in_text s tt v.1)
IsInert-Leads in_tag (c ∷ s) h v = absurd h
IsInert-Leads in_quotes (c ∷ s) h v = ground (arith, IsInert-Leads in_quotes s tt v.1)

escape_byte-IsInert : (c : ℕ) → IsInert (escape_byte c)
unfolding escape_byte
escape_byte-IsInert c = ground arith

pub escape_string-IsInert : (s : Text) → IsInert (escape_string s)
unfolding escape_string
escape_string-IsInert [] = tt
escape_string-IsInert (c ∷ s) =
    All-append _ (escape_byte c) (escape_string s) (escape_byte-IsInert c) (escape_string-IsInert s)

pub digits-IsInert : (s : Text) → All IsDigit s → IsInert s
digits-IsInert [] h = tt
digits-IsInert (c ∷ s) h = let rest = digits-IsInert s h.1 in ground arith

-- Past a text, the reader goes on from the place that it leads to.
pub read_html-append :
    (p q : Place) (s : Text) → Leads p s q → (t : Text) → read_html p (s ++ t) ≡ read_html q t
unfolding read_html
read_html-append p q [] h t = ground (arith, h)
read_html-append p q (c ∷ s) h t = elim (Option-cases (next p c)) [
  | inl refused ↦ absurd (ground (arith, h))
  | inr (p', taken) ↦
      let rest : Leads p' s q = ground (arith, h) in
      let both = read_html-append p' q s rest t in ground (arith, both)
]

pub read_inert :
    (p : Place)
    → IsForContent p
    → (s : Text) → IsInert s
    → (t : Text) → read_html p (s ++ t) ≡ read_html p t
read_inert p h s v t = read_html-append p p s (IsInert-Leads p s h v) t

-- Escaped text may stand wherever content may, in front of anything.
pub read_escaped :
    (p : Place) → IsForContent p → (s t : Text) → read_html p (escape_string s ++ t) ≡ read_html p t
read_escaped p h s t = read_inert p h (escape_string s) (escape_string-IsInert s) t
