-- ===== src/Text/Digits.antt =====
-- Decimal numbers: the bytes of a printed number, and reading it back.
use rocommon.Prelude.{
  if_holds, ◌∙◌, length-append, ℕ, zero, suc, ◌+◌, ◌-◌, ◌*◌, ◌/◌, ◌%◌, ◌<◌, ◌≤◌, List, [], ◌∷◌,
  ◌++◌, some, ◌≡◌, ◌≢◌, All, refl, arith, ltb, length,
}
use rocommon.Text.{String, ℤ, pos, negsuc, digits_from, itoa, read_digits}

-- A char between `lo` and the digit 9.
abbrev pub Between : ℕ → ℕ → Type 0
Between lo c = (lo ≤ c) × (c ≤ 57)

pub All-append {ℓ} :
    {A : Type ℓ} (P : A → Type 0) (xs ys : List A) → All P xs → All P ys → All P (xs ++ ys)
All-append P [] ys p q = q
All-append P (x ∷ xs) ys p q = (p.0, All-append P xs ys (p.1) q)

pub All-mono {ℓ} :
    {A : Type ℓ} (P Q : A → Type 0) → ((a : A) → P a → Q a) → (xs : List A) → All P xs → All Q xs
All-mono P Q f [] p = tt
All-mono P Q f (x ∷ xs) p = (f x (p.0), All-mono P Q f xs (p.1))

pub digits_from-Between : (f n : ℕ) → n ≤ f → All (Between 48) (digits_from f n)
unfolding digits_from
digits_from-Between zero n h = (omega arith, tt)
digits_from-Between (suc f) n h =
    let i = digits_from-Between f (n / 10) (omega arith) in
    let j : All (Between 48) (digits_from f (n / 10) ++ (48 + n % 10) ∷ []) =
      All-append (Between 48) (digits_from f (n / 10)) ((48 + n % 10) ∷ []) i
        ((omega arith, omega arith), tt) in
    if_holds (All (Between 48)) (ltb n 10) (λ e. ((omega arith, ground arith), tt)) (λ e. j)

-- A char of a printed int.
abbrev pub IntChar : ℕ → Type 0
IntChar c = (45 ≤ c) × (c ≤ 57) × (c ≢ 47)

pub itoa-IntChar : (z : ℤ) → All IntChar (itoa z)
unfolding itoa
itoa-IntChar (pos n) =
    All-mono (Between 48) IntChar (λ c p. (omega arith, omega arith, λ e. omega arith))
      (digits_from n n) (digits_from-Between n n (omega arith))
itoa-IntChar (negsuc n) = (
  (omega arith, omega arith, λ e. omega arith),
  All-mono (Between 48) IntChar (λ c p. (omega arith, omega arith, λ e. omega arith))
      (digits_from (suc n) (suc n)) (digits_from-Between (suc n) (suc n) (omega arith)),
)

read_digits-snoc :
    (xs : String) (acc a d : ℕ)
    → read_digits acc xs ≡ some a
    → d < 10
    → read_digits acc (xs ++ (48 + d) ∷ []) ≡ some (a * 10 + d)
unfolding read_digits
read_digits-snoc [] acc a d h k = ground arith
read_digits-snoc (x ∷ xs) acc a d h k = ground (
  arith,
  λ (q : read_digits (acc * 10 + (x - 48)) xs ≡ some a).
      read_digits-snoc xs (acc * 10 + (x - 48)) a d q k,
)

pub read_digits-digits_from : (f n : ℕ) → n ≤ f → read_digits 0 (digits_from f n) ≡ some n
unfolding digits_from read_digits
read_digits-digits_from zero n h = ground arith
read_digits-digits_from (suc f) n h =
    let i = read_digits-digits_from f (n / 10) (omega arith) in
    let j = read_digits-snoc (digits_from f (n / 10)) 0 (n / 10) (n % 10) i (omega arith) in
    ground arith

pub length-digits_from : (f n : ℕ) → 0 < length (digits_from f n)
unfolding digits_from
length-digits_from zero n = omega arith
length-digits_from (suc f) n =
    ground (arith, length-append (digits_from f (n / 10)) ((48 + n % 10) ∷ []))

digits_from-fuel : (f g n : ℕ) → n ≤ f → n ≤ g → digits_from f n ≡ digits_from g n
unfolding digits_from
digits_from-fuel zero zero n h k = refl
digits_from-fuel zero (suc g) n h k = ground arith
digits_from-fuel (suc f) zero n h k = ground arith
digits_from-fuel (suc f) (suc g) n h k =
    ground (arith, digits_from-fuel f g (n / 10) (omega arith) (omega arith))

-- The int with one digit more is printed with one digit more.
pub itoa_extended :
    (z d : ℕ) → 0 < z → d < 10 → itoa (pos (10 * z + d)) ≡ itoa (pos z) ++ (48 + d) ∷ []
unfolding itoa
itoa_extended z d h k =
    digits_from-fuel (10 * z + d) (suc (10 * z + d)) (10 * z + d) (omega arith) (omega arith)
    ∙ ground (
      arith,
      digits_from-fuel (10 * z + d) z z (omega arith) (omega arith),
      let q : (10 * z + d) / 10 ≡ z = omega arith in q,
      let q : (10 * z + d) % 10 ≡ d = omega arith in q,
    )
