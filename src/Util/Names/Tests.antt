-- ===== src/Util/Names/Tests.antt =====
-- The name functions at concrete inputs.
use rocommon.Prelude.{
  ℕ, ◌+◌, ◌-◌, List, [], ◌∷◌, ◌++◌, Option, none, some, Bool, leb, ◌&&◌, if◌then◌else◌, ◌≡◌, ◌≢◌,
  arith, ap, refl, ◌∙◌,
}
use rocommon.Text.{String, split, read_digits, itoa, pos}
use rocommon.Text.Digits.{Between, digits_from-Between, read_digits-digits_from, All-mono}
use rocommon.Text.Split.{Free, split_at, split-Free}
use rocommon.Util.Names.{Letters, Ip, v4, dotted}
use rocommon.Util.Names.Camel.{IsUnicode}
use rocommon.Util.Names.Address.{ReadsDotted}

abbrev is_capital : ℕ → Bool
is_capital c = leb 65 c && leb c 90

abbrev ascii : Letters
ascii = record {
  to_lower = λ c. if is_capital c then c + 32 else c;
  to_upper = λ c. if leb 97 c && leb c 122 then c - 32 else c;
  is_upper = is_capital;
}

ascii-IsUnicode : IsUnicode ascii
ascii-IsUnicode = record {
  upper_of_lower = λ c e. ground arith;
  lower_no_underscore = λ c e. ground arith;
}

abbrev four : List (Option ℕ) → Option Ip
four (some a ∷ some b ∷ some c ∷ some d ∷ []) = some (v4 a b c d)
four ns = none

abbrev numbers : List String → List (Option ℕ)
numbers [] = []
numbers (s ∷ ss) = read_digits 0 s ∷ numbers ss

abbrev parse_v4 : String → Option Ip
parse_v4 s = four (numbers (split 46 s))

itoa-Free : (n : ℕ) → Free 46 (itoa (pos n))
unfolding itoa
itoa-Free n =
    All-mono (Between 48) (λ c. c ≢ 46) (λ c p e. omega arith) (itoa (pos n))
      (digits_from-Between n n (omega arith))

reads_itoa : (n : ℕ) → read_digits 0 (itoa (pos n)) ≡ some n
unfolding itoa
reads_itoa n = read_digits-digits_from n n (omega arith)

split-itoa : (n : ℕ) (s : String) → split 46 (itoa (pos n) ++ 46 ∷ s) ≡ itoa (pos n) ∷ split 46 s
split-itoa n s = split_at 46 (itoa (pos n)) s (itoa-Free n)

split-dotted :
    (a b c d : ℕ)
    → split 46 (dotted a b c d) ≡ itoa (pos a) ∷ itoa (pos b) ∷ itoa (pos c) ∷ itoa (pos d) ∷ []
unfolding dotted
split-dotted a b c d =
    split-itoa a (itoa (pos b) ++ 46 ∷ (itoa (pos c) ++ 46 ∷ itoa (pos d)))
    ∙ ap (λ ss. itoa (pos a) ∷ ss)
        (split-itoa b (itoa (pos c) ++ 46 ∷ itoa (pos d))
          ∙ ap (λ ss. itoa (pos b) ∷ ss)
              (split-itoa c (itoa (pos d))
                ∙ ap (λ ss. itoa (pos c) ∷ ss) (split-Free 46 (itoa (pos d)) (itoa-Free d))))

parse_v4-ReadsDotted : ReadsDotted parse_v4
parse_v4-ReadsDotted a b c d ha hb hc hd =
    ap (λ ss. four (numbers ss)) (split-dotted a b c d)
    ∙ rw (reads_itoa a, reads_itoa b, reads_itoa c, reads_itoa d) refl
