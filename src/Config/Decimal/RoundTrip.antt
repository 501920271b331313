-- ===== src/Config/Decimal/RoundTrip.antt =====
-- `int` reads back what `str` prints.
use Prim.Native.Nat.{◌/◌, ◌%◌, ◌^◌}
use twin_services.Base.{
  ℕ, zero, suc, ◌+◌, ◌-◌, ◌*◌, ◌≤◌, ◌<◌, ◌≡◌, refl, sym, ap, ◌∙◌, Text, Bool, true, false,
  Bool-cases, [], ◌∷◌, length, leb, ◌==◌, keep, all, arith, inl, inr,
}
use twin_services.Base.Int.{ℤ, pos}
use twin_services.Base.Result.{Result, ok}
use twin_services.Config.Decimal.{
  is_digit, is_ascii, drop_spaces, scan, ended, signed, magnitude, int_of_sign, max_digits, int,
  emit, str,
}

-- One round of the print, and one digit of the reader.
emit_last :
    (fuel n : ℕ) (out : Text) → (n / 10 == 0) ≡ true → emit (suc fuel) n out ≡ (48 + n % 10) ∷ out
unfolding emit
emit_last fuel n out e = rw e refl

emit_more :
    (fuel n : ℕ) (out : Text)
    → (n / 10 == 0) ≡ false
    → emit (suc fuel) n out ≡ emit fuel (n / 10) ((48 + n % 10) ∷ out)
unfolding emit
emit_more fuel n out e = rw e refl

digit_is : (d : ℕ) → d < 10 → is_digit (48 + d) ≡ true
digit_is d h = ground arith

scan_digit :
    (b : Bool) (n d : ℕ) (t : Text) → d < 10 → scan b n ((48 + d) ∷ t) ≡ scan true (n * 10 + d) t
unfolding scan
scan_digit b n d t h = rw (digit_is d h) (ap (λ x. scan true (n * 10 + x) t) (minus_zero d))
  where
    minus_zero : (d : ℕ) → (48 + d) - 48 ≡ d
    minus_zero d = omega arith

-- Reading the print of a number amounts to having read it.
scan-emit :
    (fuel n : ℕ) (b : Bool) (out : Text) → n < fuel → scan b 0 (emit fuel n out) ≡ scan true n out
scan-emit zero n b out h = absurd (omega arith)
scan-emit (suc fuel) n b out h = elim (Bool-cases (n / 10 == 0)) [
  | inl e ↦
      let small : 0 * 10 + n % 10 ≡ n = ground arith in
      ap (scan b 0) (emit_last fuel n out e)
      ∙ scan_digit b 0 (n % 10) out (omega arith)
      ∙ ap (λ x. scan true x out) small
  | inr e ↦
      let whole : (n / 10) * 10 + n % 10 ≡ n = omega arith in
      ap (scan b 0) (emit_more fuel n out e)
      ∙ scan-emit fuel (n / 10) b ((48 + n % 10) ∷ out) (ground arith)
      ∙ scan_digit true (n / 10) (n % 10) out (omega arith)
      ∙ ap (λ x. scan true x out) whole
]

emit-head :
    (fuel n : ℕ) (out : Text)
    → n < fuel
    → (c : ℕ) × (t : Text) × (emit fuel n out ≡ c ∷ t) × (is_digit c ≡ true)
emit-head zero n out h = absurd (omega arith)
emit-head (suc fuel) n out h = elim (Bool-cases (n / 10 == 0)) [
  | inl e ↦ (48 + n % 10, out, emit_last fuel n out e, digit_is (n % 10) (omega arith))
  | inr e ↦
      let (c, t, is, d) = emit-head fuel (n / 10) ((48 + n % 10) ∷ out) (ground arith) in
      (c, t, emit_more fuel n out e ∙ is, d)
]

ascii_is : (d : ℕ) → d < 10 → is_ascii (48 + d) ≡ true
ascii_is d h = ground arith

emit-ascii :
    (fuel n : ℕ) (out : Text) → all is_ascii out ≡ true → all is_ascii (emit fuel n out) ≡ true
unfolding emit
emit-ascii zero n out a = a
emit-ascii (suc fuel) n out a = elim (Bool-cases (n / 10 == 0)) [
  | inl e ↦ rw (e, ascii_is (n % 10) (omega arith)) a
  | inr e ↦
      rw e (emit-ascii fuel (n / 10) ((48 + n % 10) ∷ out) (rw (ascii_is (n % 10) (omega arith)) a))
]

digits : Text → ℕ
digits t = length (keep is_digit t)

digits_more : (d : ℕ) (t : Text) → d < 10 → digits ((48 + d) ∷ t) ≡ suc (digits t)
unfolding digits
digits_more d t h = rw (digit_is d h) refl

tenth : (d n : ℕ) → n < 10 ^ suc (suc d) → n / 10 < 10 ^ suc d
tenth d n h = omega arith

emit-digits :
    (fuel n d : ℕ) (out : Text) → n < 10 ^ suc d → digits (emit fuel n out) ≤ suc d + digits out
emit-digits zero n d out h = unfold emit in omega arith
emit-digits (suc fuel) n zero out h = elim (Bool-cases (n / 10 == 0)) [
  | inl e ↦
      omega (arith, ap digits (emit_last fuel n out e), digits_more (n % 10) out (omega arith))
  | inr e ↦ absurd (ground arith)
]
emit-digits (suc fuel) n (suc d) out h = elim (Bool-cases (n / 10 == 0)) [
  | inl e ↦
      omega (arith, ap digits (emit_last fuel n out e), digits_more (n % 10) out (omega arith))
  | inr e ↦ omega (
    arith,
    ap digits (emit_more fuel n out e),
    digits_more (n % 10) out (omega arith),
    emit-digits fuel (n / 10) d ((48 + n % 10) ∷ out) (tenth d n h),
  )
]

int_parts :
    (wide : Text → Result ℤ) (t : Text)
    → all is_ascii t ≡ true
    → leb (digits t) max_digits ≡ true
    → int wide t ≡ int_of_sign (drop_spaces t)
unfolding int digits
int_parts wide t a d = rw (a, d) refl

int_of_digit :
    (c : ℕ) (t : Text)
    → is_digit c ≡ true
    → int_of_sign (drop_spaces (c ∷ t)) ≡ signed pos (magnitude (c ∷ t))
unfolding int_of_sign drop_spaces
int_of_digit c t d = ground arith

magnitude-str : (n : ℕ) → magnitude (str n) ≡ ok n
unfolding magnitude str ended
magnitude-str n = ap ended (scan-emit (suc n) n false [] (omega arith)) ∙ ended_here n
  where
    ended_here : (n : ℕ) → ended (scan true n []) ≡ ok n
    ended_here n = unfold scan in refl

-- A number with at most 4300 digits is read back from its print.
pub int-str :
    (wide : Text → Result ℤ) (n d : ℕ) → n < 10 ^ suc d → d < 4300 → int wide (str n) ≡ ok (pos n)
int-str wide n d small fits =
    let (c, t, is, digit) = emit-head (suc n) n [] (omega arith) in
    let printed : str n ≡ c ∷ t = unfold str in is in
    int_parts wide (str n) ascii few
    ∙ ap (λ x. int_of_sign (drop_spaces x)) printed
    ∙ int_of_digit c t digit
    ∙ ap (λ x. signed pos (magnitude x)) (sym printed)
    ∙ ap (signed pos) (magnitude-str n)
    ∙ (unfold signed in refl)
  where
    digits_none : digits [] ≡ 0
    digits_none = unfold digits in refl

    ascii : all is_ascii (str n) ≡ true
    ascii = unfold str in emit-ascii (suc n) n [] refl

    few_digits : digits (str n) ≤ suc d + digits []
    few_digits = unfold str in emit-digits (suc n) n d [] small

    few : leb (digits (str n)) max_digits ≡ true
    few = ground (arith, few_digits, digits_none)
