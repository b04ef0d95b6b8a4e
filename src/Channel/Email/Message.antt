-- ===== src/Channel/Email/Message.antt =====
-- internal/channel/email/sender.go: the text of a mail. The date and the random bytes are arguments.
pub mod Headers
use alertmanager_webhook_rel.Base.{
  List, Option, Text, [], if◌then◌else◌, is_empty, ltb, none, some, str, ℕ, ◌%◌, ◌&&◌, ◌++◌, ◌+◌,
  ◌-◌, ◌/◌, ◌==◌, ◌||◌, ◌∷◌,
}

abbrev pub crlf : Text
crlf = 13 ∷ 10 ∷ []

-- `strings.Join(parts, ", ")`
unfoldable pub join_commas : List Text → Text
join_commas [] = []
join_commas (p ∷ []) = p
join_commas (p ∷ q ∷ parts) = p ++ str ", " ++ join_commas (q ∷ parts)

unfoldable pub sanitize_header : Text → Text
sanitize_header [] = []
sanitize_header (c ∷ s) =
    let rest = sanitize_header s in if c == 13 || c == 10 then rest else c ∷ rest

-- What stands behind the last "@", if there is one.
unfoldable pub after_last_at : Text → Option Text
after_last_at [] = none
after_last_at (c ∷ s) = elim (after_last_at s) [
  | some r ↦ some r
  | none ↦ if c == b'@' then some s else none
]

-- `strings.TrimRight(s, ">")`
unfoldable pub trim_brackets : Text → Text
trim_brackets [] = []
trim_brackets (c ∷ s) =
    let rest = trim_brackets s in if c == b'>' && is_empty rest then [] else c ∷ rest

hex_digit : ℕ → ℕ
hex_digit n = if ltb n 10 then b'0' + n else b'a' + (n - 10)

-- `hex.EncodeToString`
unfoldable pub hex : Text → Text
unfolding hex_digit
hex [] = []
hex (b ∷ s) = hex_digit (b / 16 % 16) ∷ hex_digit (b % 16) ∷ hex s

abbrev pub or_whole : Text → Option Text → Text
or_whole s none = s
or_whole s (some r) = r

unfoldable pub domain_of : Text → Text
domain_of from = trim_brackets (or_whole from (after_last_at from))

unfoldable pub generate_message_id : Text → Text → Text
unfolding domain_of
generate_message_id random from = str "<" ++ hex random ++ str "@" ++ domain_of from ++ str ">"

-- A line of the header.
unfoldable pub write_line : Text → Text
write_line s = s ++ crlf

unfoldable pub build_message : Text → Text → Text → List Text → Text → Text → Text
unfolding write_line
build_message date random from to subject html_body =
    write_line (str "From: " ++ from)
    ++ (write_line (str "To: " ++ join_commas to)
        ++ (write_line (str "Date: " ++ date)
            ++ (write_line (str "Message-ID: " ++ generate_message_id random from)
                ++ (write_line (str "Subject: " ++ sanitize_header subject)
                    ++ (write_line (str "MIME-Version: 1.0")
                        ++ (write_line (str "Content-Type: text/html; charset=UTF-8")
                            ++ (crlf ++ html_body)))))))
