-- ===== src/Config/Decimal/Digits.antt =====
-- What std::to_string writes is read back by std::atoi, and is made of digits.
use Prim.Native.Char.{code}
use chain_replication.Base.{
  ℕ, zero, suc, ◌+◌, ◌*◌, ◌/◌, ◌%◌, ◌<◌, String, ◌≡◌, refl, ap, ◌∙◌, sym, true, arith, ◌==◌,
  Bool-cases, inl, inr,
}
use chain_replication.Config.Decimal.{digit, digits_before, natural, is_digit, read_digits}

code-digit : (n : ℕ) → n < 10 → code (digit n) ≡ 48 + n
unfolding digit
code-digit zero h = refl
code-digit (suc zero) h = refl
code-digit (suc (suc zero)) h = refl
code-digit (suc (suc (suc zero))) h = refl
code-digit (suc (suc (suc (suc zero)))) h = refl
code-digit (suc (suc (suc (suc (suc zero))))) h = refl
code-digit (suc (suc (suc (suc (suc (suc zero)))))) h = refl
code-digit (suc (suc (suc (suc (suc (suc (suc zero))))))) h = refl
code-digit (suc (suc (suc (suc (suc (suc (suc (suc zero)))))))) h = refl
code-digit (suc (suc (suc (suc (suc (suc (suc (suc (suc n))))))))) h = omega arith

is_digit-digit : (n : ℕ) → n < 10 → is_digit (digit n) ≡ true
unfolding is_digit
is_digit-digit n h = ground (arith, code-digit n h)

read_digit :
    (m n : ℕ) (s : String)
    → n < 10
    → read_digits m (String.◌∷◌ (digit n) s) ≡ read_digits (m * 10 + n) s
unfolding read_digits
read_digit m n s h =
    rw (is_digit-digit n h) (rw (code-digit n h) (ap (λ k. read_digits k s) (omega arith)))

read_digits-digits_before :
    (fuel n : ℕ) (s : String) → n < fuel → read_digits 0 (digits_before fuel n s) ≡ read_digits n s
unfolding digits_before
read_digits-digits_before zero n s h = absurd (omega arith)
read_digits-digits_before (suc fuel) n s h = elim (Bool-cases (n / 10 == 0)) [
  | inl last ↦
      rw last (read_digit 0 (n % 10) s (omega arith) ∙ ap (λ k. read_digits k s) (ground arith))
  | inr more ↦ rw more (
      read_digits-digits_before fuel (n / 10) (String.◌∷◌ (digit (n % 10)) s) (ground arith)
      ∙ read_digit (n / 10) (n % 10) s (omega arith)
      ∙ ap (λ k. read_digits k s) (omega arith))
]

pub read_digits-natural : (n : ℕ) → read_digits 0 (natural n) ≡ n
unfolding natural read_digits
read_digits-natural n = read_digits-digits_before (suc n) n "" (omega arith)

pub natural_inj : (m n : ℕ) → natural m ≡ natural n → m ≡ n
natural_inj m n e = sym (read_digits-natural m) ∙ ap (read_digits 0) e ∙ read_digits-natural n

abbrev pub AllDigits : String → Type 0
AllDigits String.[] = Unit
AllDigits (String.◌∷◌ c s) = (is_digit c ≡ true) × AllDigits s

digits_before-AllDigits :
    (fuel n : ℕ) (s : String) → AllDigits s → AllDigits (digits_before fuel n s)
unfolding digits_before
digits_before-AllDigits zero n s h = h
digits_before-AllDigits (suc fuel) n s h = elim (Bool-cases (n / 10 == 0)) [
  | inl last ↦ rw last (is_digit-digit (n % 10) (omega arith), h)
  | inr more ↦ rw more (
      digits_before-AllDigits fuel (n / 10) (String.◌∷◌ (digit (n % 10)) s)
        (is_digit-digit (n % 10) (omega arith), h))
]

pub natural-AllDigits : (n : ℕ) → AllDigits (natural n)
unfolding natural
natural-AllDigits n = digits_before-AllDigits (suc n) n "" tt
