-- ===== src/Channel/Email/Message/Headers.antt =====
-- internal/channel/email/sender.go: what a reader of the mail finds in its header.
use mathlib.Core.Option
use alertmanager_webhook_rel.Base.{
  All, All-append, Bool-cases, List, Option, Option-cases, Text, [], ap, append_assoc, arith, false,
  if◌then◌else◌, inl, inr, is_empty, none, refl, some, str, subst, suc, sym, zero, ℕ, ◌++◌, ◌==◌,
  ◌||◌, ◌∙◌, ◌∷◌, ◌≡◌, ◌≢◌, ◌⊎◌,
}
use alertmanager_webhook_rel.Channel.Email.Message.{
  build_message, after_last_at, crlf, domain_of, generate_message_id, hex, join_commas,
  sanitize_header, trim_brackets, write_line,
}

abbrev drop_line_feed : Text → Text
drop_line_feed [] = []
drop_line_feed (c ∷ s) = if c == 10 then s else c ∷ s

-- The line before the first line break, and what follows it. CRLF is one line break, and so is a
-- carriage return or a line feed that stands alone.
unfoldable pub split_line : Text → Option (Text × Text)
split_line [] = none
split_line (c ∷ s) =
    let later = split_line s in
    if c == 10
    then some ([], s)
    else (if c == 13
        then some ([], drop_line_feed s)
        else Option.map (λ (p : Text × Text). (c ∷ p.0, p.1)) later)

-- What is read after a line, where the rest is read already.
abbrev after_line : Text → Text → Option (List Text × Text) → Option (List Text × Text)
after_line [] body rest = some ([], body)
after_line (c ∷ line) body rest =
    Option.map (λ (p : List Text × Text). ((c ∷ line) ∷ p.0, p.1)) rest

-- The lines up to an empty one, at most this many, and the body behind it.
unfoldable pub read_mail : ℕ → Text → Option (List Text × Text)
read_mail zero s = none
read_mail (suc f) s = elim (split_line s) [
  | none ↦ none
  | some (line, rest) ↦ after_line line rest (read_mail f rest)
]

-- A text with no carriage return and no line feed.
abbrev pub IsOneLine : Text → Type 0
IsOneLine = All (λ c. (c ≢ 13) × (c ≢ 10))

-- The header's lines are read one by one.
split_line-append :
    (line rest : Text) → IsOneLine line → split_line (line ++ crlf ++ rest) ≡ some (line, rest)
unfolding split_line
split_line-append [] rest h = refl
split_line-append (c ∷ line) rest h = let later = split_line-append line rest h.1 in ground arith

read_mail-write_line :
    (f : ℕ) (line rest : Text) {lines : List Text} {body : Text}
    → IsOneLine line
    → is_empty line ≡ false
    → read_mail f rest ≡ some (lines, body)
    → read_mail (suc f) (write_line line ++ rest) ≡ some (line ∷ lines, body)
unfolding read_mail write_line
read_mail-write_line f [] rest h filled k = cc
read_mail-write_line f (c ∷ line) rest h filled k =
    ap (λ o. elim o [ none ↦ none | some (l, r) ↦ after_line l r (read_mail f r) ])
      (split_line-append (c ∷ line) rest h)
    ∙ ap (after_line (c ∷ line) rest) k

read_blank : (body : Text) → read_mail 1 (crlf ++ body) ≡ some ([], body)
unfolding read_mail split_line
read_blank body = refl

-- The second text is the first one without its carriage returns and line feeds.
abbrev pub IsStripped : Text → Text → Type 0
IsStripped [] t = t ≡ []
IsStripped (c ∷ s) t =
    (((c ≡ 13) ⊎ (c ≡ 10)) × IsStripped s t)
    ⊎ ((c ≢ 13) × (c ≢ 10) × (rest : Text) × (t ≡ c ∷ rest) × IsStripped s rest)

sanitize_header-IsStripped : (s : Text) → IsStripped s (sanitize_header s)
unfolding sanitize_header
sanitize_header-IsStripped [] = refl
sanitize_header-IsStripped (c ∷ s) =
    let rest = sanitize_header-IsStripped s in
    elim (Bool-cases (c == 13 || c == 10)) [
      | inl broken ↦ rw broken (inl (ground (arith, broken), rest))
      | inr plain ↦
          rw plain
            (inr (ground (arith, plain), ground (arith, plain), sanitize_header s, refl, rest))
    ]

pub sanitize_header-IsOneLine : (s : Text) → IsOneLine (sanitize_header s)
unfolding sanitize_header
sanitize_header-IsOneLine [] = tt
sanitize_header-IsOneLine (c ∷ s) = let rest = sanitize_header-IsOneLine s in ground arith

join_commas-IsOneLine : (to : List Text) → All IsOneLine to → IsOneLine (join_commas to)
unfolding join_commas
join_commas-IsOneLine [] h = tt
join_commas-IsOneLine (p ∷ []) h = h.0
join_commas-IsOneLine (p ∷ q ∷ to) h =
    All-append _ (p ++ str ", ") (join_commas (q ∷ to))
      (All-append _ p (str ", ") h.0 (ground arith)) (join_commas-IsOneLine (q ∷ to) h.1)

after_last_at-IsOneLine : (s r : Text) → after_last_at s ≡ some r → IsOneLine s → IsOneLine r
unfolding after_last_at
after_last_at-IsOneLine [] r e h = cc
after_last_at-IsOneLine (c ∷ s) r e h = elim (Option-cases (after_last_at s)) [
  | inl last_here ↦ let e : s ≡ r = ground arith in subst IsOneLine e h.1
  | inr (r', later) ↦ after_last_at-IsOneLine s r (ground arith) h.1
]

trim_brackets-IsOneLine : (s : Text) → IsOneLine s → IsOneLine (trim_brackets s)
unfolding trim_brackets
trim_brackets-IsOneLine [] h = tt
trim_brackets-IsOneLine (c ∷ s) h = let rest = trim_brackets-IsOneLine s h.1 in ground arith

domain_of-IsOneLine : (from : Text) → IsOneLine from → IsOneLine (domain_of from)
unfolding domain_of
domain_of-IsOneLine from h = elim (Option-cases (after_last_at from)) [
  | inl no_at ↦ rw no_at (trim_brackets-IsOneLine from h)
  | inr (r, at_r) ↦ rw at_r (trim_brackets-IsOneLine r (after_last_at-IsOneLine from r at_r h))
]

hex-IsOneLine : (s : Text) → IsOneLine (hex s)
unfolding hex
hex-IsOneLine [] = tt
hex-IsOneLine (b ∷ s) = let rest = hex-IsOneLine s in ground arith

generate_message_id-IsOneLine :
    (random from : Text) → IsOneLine from → IsOneLine (generate_message_id random from)
unfolding generate_message_id
generate_message_id-IsOneLine random from h =
    let tail =
      All-append _ (domain_of from) (str ">") (domain_of-IsOneLine from h) (ground arith) in
    let front =
      All-append _ (str "<" ++ hex random) (str "@")
        (All-append _ (str "<") (hex random) (ground arith) (hex-IsOneLine random))
        (ground arith) in
    subst IsOneLine
      (sym (append_assoc (str "<" ++ hex random ++ str "@") (domain_of from) (str ">")))
      (All-append _ (str "<" ++ hex random ++ str "@") (domain_of from ++ str ">") front tail)

abbrev pub header_lines : Text → Text → Text → List Text → Text → List Text
header_lines date random from to title =
    (str "From: " ++ from)
    ∷ (str "To: " ++ join_commas to)
    ∷ (str "Date: " ++ date)
    ∷ (str "Message-ID: " ++ generate_message_id random from)
    ∷ (str "Subject: " ++ title)
    ∷ str "MIME-Version: 1.0"
    ∷ str "Content-Type: text/html; charset=UTF-8"
    ∷ []

read_message :
    (date random from : Text) (to : List Text) (subject html_body : Text)
    → IsOneLine date
    → IsOneLine from
    → All IsOneLine to
    → read_mail 8 (build_message date random from to subject html_body)
      ≡ some (header_lines date random from to (sanitize_header subject), html_body)
unfolding build_message
read_message date random from to subject html_body d f t =
    let sender = All-append _ (str "From: ") from (ground arith) f in
    let recipients =
      All-append _ (str "To: ") (join_commas to) (ground arith) (join_commas-IsOneLine to t) in
    let dated = All-append _ (str "Date: ") date (ground arith) d in
    let named =
      All-append _ (str "Message-ID: ") (generate_message_id random from) (ground arith)
        (generate_message_id-IsOneLine random from f) in
    let titled =
      All-append _ (str "Subject: ") (sanitize_header subject) (ground arith)
        (sanitize_header-IsOneLine subject) in
    read_mail-write_line 7 _ _ sender refl (
      read_mail-write_line 6 _ _ recipients refl (
        read_mail-write_line 5 _ _ dated refl (
          read_mail-write_line 4 _ _ named refl (
            read_mail-write_line 3 _ _ titled refl (
              read_mail-write_line 2 _ _ (ground arith) refl
                (read_mail-write_line 1 _ _ (ground arith) refl (read_blank html_body)))))))

-- What a reader finds: the seven header lines, with the subject less its line breaks, and the body.
abbrev pub IsRead :
    Text → Text → Text → List Text → Text → Text → Option (List Text × Text) → Type 0
IsRead date random from to subject html_body mail =
    (title : Text) × IsStripped subject title
    × IsOneLine title
    × (mail ≡ some (header_lines date random from to title, html_body))

-- A reader that takes CRLF, a lone carriage return and a lone line feed for a line break finds the
-- seven header lines that the program writes, in which the subject is without its line breaks and is
-- otherwise unchanged, and the whole body behind them, whatever the subject and the body hold, where
-- the configured addresses and the date hold no line break.
pub read_mail-build_message :
    (date random from : Text) (to : List Text) (subject html_body : Text)
    → IsOneLine date
    → IsOneLine from
    → All IsOneLine to
    → IsRead date random from to subject html_body
        (read_mail 8 (build_message date random from to subject html_body))
read_mail-build_message date random from to subject html_body d f t = (
  sanitize_header subject,
  sanitize_header-IsStripped subject,
  sanitize_header-IsOneLine subject,
  read_message date random from to subject html_body d f t,
)
