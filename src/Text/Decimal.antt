-- ===== src/Text/Decimal.antt =====
-- The decimal digits of a number, as fmt's %d writes them.
use Prim.Native.Char.{Char, code}
use Prim.Native.String
use Prim.Native.String.{[], ◌∷◌}
use text.Mathlib.TextLemmas.{nil-append, cons-append}
use nexlog_server.Base.{
  ℕ, zero, suc, ◌+◌, ◌-◌, ◌*◌, ◌/◌, ◌%◌, ◌<◌, String, ◌≡◌, refl, sym, ◌∙◌, ap, Bool, true, false,
  ◌&&◌, ◌||◌, leb, some, arith, inl, inr, Bool-cases, nat_eq,
}
use nexlog_server.Text.{has_char, before, after, digit, digits_from, itoa}

pub has_char-append :
    (n : ℕ) (s t : String) → has_char n (String.◌++◌ s t) ≡ (has_char n s || has_char n t)
unfolding has_char
has_char-append n [] t = rw nil-append refl
has_char-append n (c ∷ s) t = rw cons-append (ground (arith, has_char-append n s t))

unfoldable pub all_digits : String → Bool
all_digits [] = true
all_digits (c ∷ s) = leb 48 (code c) && leb (code c) 57 && all_digits s

-- A text of digits has no character whose number is below that of 0.
pub has_char-all_digits : (n : ℕ) (s : String) → n < 48 → all_digits s ≡ true → has_char n s ≡ false
unfolding has_char all_digits
has_char-all_digits n [] small h = refl
has_char-all_digits n (c ∷ s) small h = ground (arith, has_char-all_digits n s small)

all_digits-append : (s t : String) → all_digits (String.◌++◌ s t) ≡ (all_digits s && all_digits t)
unfolding all_digits
all_digits-append [] t = rw nil-append refl
all_digits-append (c ∷ s) t = rw cons-append (ground (arith, all_digits-append s t))

all_digits-digit : (d : ℕ) → all_digits (digit d) ≡ true
unfolding all_digits
all_digits-digit zero = refl
all_digits-digit (suc zero) = refl
all_digits-digit (suc (suc zero)) = refl
all_digits-digit (suc (suc (suc zero))) = refl
all_digits-digit (suc (suc (suc (suc zero)))) = refl
all_digits-digit (suc (suc (suc (suc (suc zero))))) = refl
all_digits-digit (suc (suc (suc (suc (suc (suc zero)))))) = refl
all_digits-digit (suc (suc (suc (suc (suc (suc (suc zero))))))) = refl
all_digits-digit (suc (suc (suc (suc (suc (suc (suc (suc zero)))))))) = refl
all_digits-digit (suc (suc (suc (suc (suc (suc (suc (suc (suc d))))))))) = refl

all_digits-digits_from :
    (fuel n : ℕ) (acc : String) → all_digits acc ≡ true → all_digits (digits_from fuel n acc) ≡ true
unfolding digits_from
all_digits-digits_from zero n acc h = h
all_digits-digits_from (suc fuel) n acc h =
    let here : all_digits (String.◌++◌ (digit (n % 10)) acc) ≡ true =
      rw (all_digits-append, all_digits-digit, h) refl in
    ground (arith, all_digits-digits_from fuel (n / 10) (String.◌++◌ (digit (n % 10)) acc) here)

pub all_digits-itoa : (n : ℕ) → all_digits (itoa n) ≡ true
unfolding itoa all_digits
all_digits-itoa n = all_digits-digits_from (suc n) n "" refl

-- The number that digits stand for, after those that made `acc`.
unfoldable pub digits_value : ℕ → String → ℕ
digits_value acc [] = acc
digits_value acc (c ∷ s) = digits_value (acc * 10 + (code c - 48)) s

one_digit :
    (d acc : ℕ) (s : String)
    → d < 10
    → digits_value acc (String.◌++◌ (digit d) s) ≡ digits_value (acc * 10 + d) s
unfolding digits_value
one_digit zero acc s h = rw (cons-append, nil-append) refl
one_digit (suc zero) acc s h = rw (cons-append, nil-append) refl
one_digit (suc (suc zero)) acc s h = rw (cons-append, nil-append) refl
one_digit (suc (suc (suc zero))) acc s h = rw (cons-append, nil-append) refl
one_digit (suc (suc (suc (suc zero)))) acc s h = rw (cons-append, nil-append) refl
one_digit (suc (suc (suc (suc (suc zero))))) acc s h = rw (cons-append, nil-append) refl
one_digit (suc (suc (suc (suc (suc (suc zero)))))) acc s h = rw (cons-append, nil-append) refl
one_digit (suc (suc (suc (suc (suc (suc (suc zero))))))) acc s h = rw (cons-append, nil-append) refl
one_digit (suc (suc (suc (suc (suc (suc (suc (suc zero)))))))) acc s h =
    rw (cons-append, nil-append) refl
one_digit (suc (suc (suc (suc (suc (suc (suc (suc (suc zero))))))))) acc s h =
    rw (cons-append, nil-append) refl
one_digit (suc (suc (suc (suc (suc (suc (suc (suc (suc (suc d)))))))))) acc s h = omega (arith, h)

digits_value-digits_from :
    (fuel n : ℕ) (acc : String)
    → n < fuel
    → digits_value 0 (digits_from fuel n acc) ≡ digits_value n acc
unfolding digits_from
digits_value-digits_from zero n acc h = omega (arith, h)
digits_value-digits_from (suc fuel) n acc h =
    let last = one_digit (n % 10) (n / 10) acc (omega arith) in
    elim (Bool-cases (nat_eq (n / 10) 0)) [
      | inl done ↦
          rw done
            (one_digit (n % 10) 0 acc (omega arith) ∙ ap (λ m. digits_value m acc) (ground arith))
      | inr more ↦ rw more (
          digits_value-digits_from fuel (n / 10) _ (ground arith)
          ∙ (last ∙ ap (λ m. digits_value m acc) (omega arith)))
    ]

-- The digits of a number stand for it.
pub digits_value-itoa : (n : ℕ) → digits_value 0 (itoa n) ≡ n
unfolding itoa digits_value
digits_value-itoa n = digits_value-digits_from (suc n) n "" (omega arith)

pub itoa_injective : (m n : ℕ) → itoa m ≡ itoa n → m ≡ n
itoa_injective m n same =
    sym (digits_value-itoa m) ∙ (ap (digits_value 0) same ∙ digits_value-itoa n)

-- A text that does not hold the separator is what stands before it, and the rest what comes after.
pub before-separator :
    (c : Char) (s t : String)
    → has_char (code c) s ≡ false
    → before (code c) (String.◌++◌ s (c ∷ t)) ≡ s
unfolding before has_char
before-separator c [] t h = rw nil-append (ground arith)
before-separator c (d ∷ s) t h = rw cons-append (ground (arith, before-separator c s t))

pub after-separator :
    (c : Char) (s t : String)
    → has_char (code c) s ≡ false
    → after (code c) (String.◌++◌ s (c ∷ t)) ≡ some t
unfolding after has_char
after-separator c [] t h = rw nil-append (ground arith)
after-separator c (d ∷ s) t h = rw cons-append (ground (arith, after-separator c s t))
