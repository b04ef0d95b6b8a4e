-- ===== src/Base/Decimal.antt =====
-- `%d` of package `fmt`, for numbers that are not negative. Shared helpers.
use Prim.Native.Nat.{ℕ, zero, suc, ◌+◌, ◌-◌, ◌*◌, ◌/◌, ◌%◌, ◌<◌, ◌≤◌}
use mathlib.Core.Path.{◌≡◌}
use mathlib.Core.List.{[], ◌∷◌}
use native.Mathlib.Omega.{arith}
use alertmanager_webhook_rel.Base.Tests.{ltb, if◌then◌else◌}
use alertmanager_webhook_rel.Base.Lists.{All}
use alertmanager_webhook_rel.Base.Texts.{Text}

-- The digits before `acc`; `decimal` gives fuel for one digit more than there can be.
digits_from : ℕ → ℕ → Text → Text
digits_from zero n acc = acc
digits_from (suc f) n acc =
    let more = digits_from f (n / 10) ((b'0' + n % 10) ∷ acc) in
    if ltb n 10 then (b'0' + n) ∷ acc else more

unfoldable pub decimal : ℕ → Text
unfolding digits_from
decimal n = digits_from (suc n) n []

-- The number that the digits behind `v` make.
abbrev pub read_from : ℕ → Text → ℕ
read_from v [] = v
read_from v (c ∷ s) = read_from (v * 10 + (c - b'0')) s

read-digits_from :
    (f n : ℕ) (acc : Text) → n < f → read_from 0 (digits_from f n acc) ≡ read_from n acc
unfolding digits_from
read-digits_from zero n acc h = absurd (omega arith)
read-digits_from (suc f) n acc h =
    ground (arith, read-digits_from f (n / 10) ((b'0' + n % 10) ∷ acc))

-- The digits of a number are read back as that number.
pub read-decimal : (n : ℕ) → read_from 0 (decimal n) ≡ n
unfolding decimal
read-decimal n = read-digits_from (suc n) n [] (omega arith)

abbrev pub IsDigit : ℕ → Type 0
IsDigit c = (b'0' ≤ c) × (c ≤ b'9')

digits_from-All : (f n : ℕ) (acc : Text) → All IsDigit acc → All IsDigit (digits_from f n acc)
unfolding digits_from
digits_from-All zero n acc h = h
digits_from-All (suc f) n acc h = ground (arith, digits_from-All f (n / 10) ((b'0' + n % 10) ∷ acc))

pub decimal-All : (n : ℕ) → All IsDigit (decimal n)
unfolding decimal
decimal-All n = digits_from-All (suc n) n [] tt
