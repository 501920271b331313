-- ===== src/Config/Decimal.antt =====
-- The builtin `int` on a text, and the decimal print of a natural number.
pub mod RoundTrip
use Prim.Native.Nat.{◌/◌, ◌%◌, ◌^◌}
use twin_services.Base.{
  ℕ, zero, suc, ◌+◌, ◌-◌, ◌*◌, ◌≤◌, ◌<◌, ◌≡◌, refl, ap, ◌∙◌, Text, Bool, true, false, ◌&&◌, ◌||◌,
  Bool-cases, Option, none, some, List, [], ◌∷◌, length, ltb, leb, ◌==◌, keep, all, arith, inl, inr,
  if◌then◌else◌,
}
use twin_services.Base.Int.{ℤ, pos, ◌-ℤ◌}
use twin_services.Base.Result.{Result, ok, raise, value_error}

-- space, and the five controls from tab on
abbrev is_space : ℕ → Bool
is_space c = (c == 32) || (leb 9 c && leb c 13)

abbrev pub is_digit : ℕ → Bool
is_digit c = leb 48 c && leb c 57

abbrev is_ascii : ℕ → Bool
is_ascii c = ltb c 128

drop_spaces : Text → Text
drop_spaces [] = []
drop_spaces (c ∷ t) = if is_space c then drop_spaces t else c ∷ t

-- Digits, which single underscores may part: the number behind `n`, and the rest of the text. The
-- Boolean tells whether a digit stands before.
scan : Bool → ℕ → Text → Option (ℕ × Text)
scan true n [] = some (n, [])
scan false n [] = none
scan behind_digit n (c ∷ t) =
    let with_digit = scan true (n * 10 + (c - 48)) t in
    let with_underscore = scan false n t in
    if is_digit c
    then with_digit
    else if behind_digit
    then (if c == 95 then with_underscore else some (n, c ∷ t))
    else none

-- Only spaces may follow the number.
ended : Option (ℕ × Text) → Result ℕ
ended none = raise value_error
ended (some (n, rest)) = if all is_space rest then ok n else raise value_error

signed : (ℕ → ℤ) → Result ℕ → Result ℤ
signed sign (ok n) = ok (sign n)
signed sign (raise x) = raise x

magnitude : Text → Result ℕ
unfolding scan ended
magnitude t = ended (scan false 0 t)

-- 43 is `+`, 45 is `-`.
int_of_sign : Text → Result ℤ
unfolding magnitude signed
int_of_sign [] = raise value_error
int_of_sign (c ∷ t) =
    if c == 45
    then signed (λ n. pos 0 -ℤ pos n) (magnitude t)
    else if c == 43
    then signed pos (magnitude t)
    else signed pos (magnitude (c ∷ t))

-- More than 4300 digits are refused.
abbrev max_digits : ℕ
max_digits = 4300

-- `int(text)` on ASCII; any other text is for `wide`.
unfoldable pub int : (Text → Result ℤ) → Text → Result ℤ
unfolding int_of_sign drop_spaces
int wide t =
    if all is_ascii t
    then if leb (length (keep is_digit t)) max_digits
      then int_of_sign (drop_spaces t)
      else raise value_error
    else wide t

-- The last digits first; `fuel` is a bound of the number of rounds.
emit : ℕ → ℕ → Text → Text
emit zero n out = out
emit (suc fuel) n out =
    let longer = emit fuel (n / 10) ((48 + n % 10) ∷ out) in
    if n / 10 == 0 then (48 + n % 10) ∷ out else longer

-- `str(n)`; a number has fewer digits than its successor counts.
unfoldable pub str : ℕ → Text
unfolding emit
str n = emit (suc n) n []
