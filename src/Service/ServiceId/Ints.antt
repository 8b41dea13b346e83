-- ===== src/Service/ServiceId/Ints.antt =====
-- The ints of service/etcddesc.go: what is printed is parsed as the int it was.
use rocommon.Prelude.{
  ap, ◌∙◌, ℕ, suc, Bool, ◌^◌, ◌<◌, [], ◌∷◌, some, ◌≡◌, true, false, All, arith, length,
}
use rocommon.Text.{String, ℤ, pos, negsuc, digits_from, itoa, read_digits}
use rocommon.Text.Digits.{Between, digits_from-Between, read_digits-digits_from, length-digits_from}
use rocommon.Service.ServiceId.{unsigned, in_range, str2_num}

-- An int that `strconv.ParseInt(…, 10, 32)` accepts: one of 32 bits.
abbrev pub Fits : ℤ → Type 0
Fits (pos n) = n < 2 ^ 31
Fits (negsuc n) = n < 2 ^ 31

unsigned-digits :
    (negative : Bool) (s : String) (n : ℕ)
    → read_digits 0 s ≡ some n
    → All (Between 48) s
    → 0 < length s
    → (unsigned negative s ≡ in_range negative (some n)) × (str2_num s ≡ unsigned false s)
unfolding unsigned str2_num
unsigned-digits negative [] n h d k = absurd (omega arith)
unsigned-digits negative (c ∷ cs) n h d k = (ap (in_range negative) h, ground arith)

-- A printed int of 32 bits is parsed as the int it was.
pub str2_num-itoa : (z : ℤ) → Fits z → str2_num (itoa z) ≡ some z
unfolding itoa in_range str2_num
str2_num-itoa (pos n) h =
    let (a, b) =
      unsigned-digits false (digits_from n n) n (read_digits-digits_from n n (omega arith))
        (digits_from-Between n n (omega arith)) (length-digits_from n n) in
    b ∙ a ∙ ground arith
str2_num-itoa (negsuc n) h =
    let (a, b) =
      unsigned-digits true (digits_from (suc n) (suc n)) (suc n)
        (read_digits-digits_from (suc n) (suc n) (omega arith))
        (digits_from-Between (suc n) (suc n) (omega arith)) (length-digits_from (suc n) (suc n)) in
    a ∙ ground arith
