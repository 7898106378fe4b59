-- ===== src/Py/Number.antt =====
-- `str(n)` on Python's integers, and that it tells them apart.
use Prim.Native.Char.{code}
use Prim.Native.String.{slice}
use project_nexus.Prelude.{
  ℕ, zero, suc, ◌+◌, ◌-◌, ◌*◌, ◌/◌, ◌%◌, ◌<◌, ◌≡◌, refl, sym, ap, ◌∙◌, String, ltb, arith, if_known,
  if◌then◌else◌, ltb→lt,
}
use text.Mathlib.TextLemmas.{cons-append, nil-append}
use project_nexus.Prelude.Int.{ℤ, pos, negsuc}
use project_nexus.Py.Text.{◌⧺◌}

unfoldable pub digit : ℕ → String
digit n = slice "0123456789" n (n + 1)

unfoldable pub digits_of : ℕ → ℕ → String
digits_of zero n = ""
digits_of (suc fuel) n =
    let rest = digits_of fuel (n / 10) in if ltb n 10 then digit n else rest ⧺ digit (n % 10)

-- str(n)
unfoldable pub str_of_nat : ℕ → String
unfolding digits_of digit
str_of_nat n = digits_of (suc n) n

unfoldable pub str_of_int : ℤ → String
unfolding str_of_nat
str_of_int (pos n) = str_of_nat n
str_of_int (negsuc n) = "-" ⧺ str_of_nat (n + 1)

-- the number that the digits write, after those that gave `acc`
read : ℕ → String → ℕ
read acc String.[] = acc
read acc (String.◌∷◌ c s) = read (acc * 10 + (code c - 48)) s

read-append : (acc : ℕ) (s t : String) → read acc (s ⧺ t) ≡ read (read acc s) t
unfolding read
read-append acc String.[] t = ap (read acc) (nil-append t)
read-append acc (String.◌∷◌ c s) t =
    rw (cons-append c s t) (read-append (acc * 10 + (code c - 48)) s t)

below_ten {ℓ} :
    (P : ℕ → Type ℓ)
    → P 0
    → P 1
    → P 2
    → P 3
    → P 4
    → P 5
    → P 6
    → P 7
    → P 8
    → P 9
    → (n : ℕ) → n < 10
    → P n
below_ten P a b c d e f g h i j zero lt = a
below_ten P a b c d e f g h i j (suc zero) lt = b
below_ten P a b c d e f g h i j (suc (suc zero)) lt = c
below_ten P a b c d e f g h i j (suc (suc (suc zero))) lt = d
below_ten P a b c d e f g h i j (suc (suc (suc (suc zero)))) lt = e
below_ten P a b c d e f g h i j (suc (suc (suc (suc (suc zero))))) lt = f
below_ten P a b c d e f g h i j (suc (suc (suc (suc (suc (suc zero)))))) lt = g
below_ten P a b c d e f g h i j (suc (suc (suc (suc (suc (suc (suc zero))))))) lt = h
below_ten P a b c d e f g h i j (suc (suc (suc (suc (suc (suc (suc (suc zero)))))))) lt = i
below_ten P a b c d e f g h i j (suc (suc (suc (suc (suc (suc (suc (suc (suc zero))))))))) lt = j
below_ten P a b c d e f g h i j (suc (suc (suc (suc (suc (suc (suc (suc (suc (suc n)))))))))) lt =
    absurd (ground arith)

read-digit : (n : ℕ) → n < 10 → (acc : ℕ) → read acc (digit n) ≡ acc * 10 + n
unfolding read digit
read-digit =
    below_ten (λ n. (acc : ℕ) → read acc (digit n) ≡ acc * 10 + n) (λ acc. refl) (λ acc. refl)
      (λ acc. refl) (λ acc. refl) (λ acc. refl) (λ acc. refl) (λ acc. refl) (λ acc. refl)
      (λ acc. refl) (λ acc. refl)

read-digits_of : (fuel n : ℕ) → n < fuel → read 0 (digits_of fuel n) ≡ n
unfolding digits_of
read-digits_of zero n h = omega (arith, h)
read-digits_of (suc fuel) n h =
    if_known (λ s. read 0 s ≡ n) (ltb n 10) (λ e. read-digit n (ltb→lt n 10 e) 0 ∙ omega arith)
      (λ e.
        read-append 0 (digits_of fuel (n / 10)) (digit (n % 10))
        ∙ read-digit (n % 10) (omega arith) (read 0 (digits_of fuel (n / 10)))
        ∙ ap (λ q. q * 10 + n % 10) (read-digits_of fuel (n / 10) (ground arith))
        ∙ omega arith)

pub str_of_nat_injective : (n m : ℕ) → str_of_nat n ≡ str_of_nat m → n ≡ m
unfolding str_of_nat
str_of_nat_injective n m h =
    sym (read-digits_of (suc n) n (omega arith))
    ∙ ap (read 0) h
    ∙ read-digits_of (suc m) m (omega arith)
