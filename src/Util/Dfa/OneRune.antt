-- ===== src/Util/Dfa/OneRune.antt =====
-- What `searcSentence` of util/dfa_filter.go finds of words of one rune. After a piece that begins no
-- word it goes on with a piece of two runes.
use rocommon.Prelude.{
  ℕ, zero, suc, ◌+◌, ◌-◌, ◌≡◌, ◌≤◌, ◌⊎◌, refl, List, [], ◌∷◌, true, false, arith, length, inl, ap,
  take, drop, ◌∙◌,
}
use rocommon.Util.Dfa.{
  TrieNode, starts_with, MatchIndex, slice, longest_word, push, searc_loop, searc_sentence,
}

two_runes :
    (start : ℕ) (s : List ℕ)
    → start + 2 ≤ length s
    → (c : ℕ) × (d : ℕ) × (take 2 (drop start s) ≡ c ∷ d ∷ [])
two_runes zero [] h = absurd (omega arith)
two_runes zero (c ∷ []) h = absurd (omega arith)
two_runes zero (c ∷ d ∷ s) h = (c, d, refl)
two_runes (suc n) [] h = absurd (omega arith)
two_runes (suc n) (c ∷ s) h = two_runes n s (omega arith)

-- No two runes begin a word.
abbrev pub OneRune : TrieNode → Type 0
OneRune t = (c d : ℕ) → starts_with (c ∷ d ∷ []) t ≡ false

slice-OneRune :
    (t : TrieNode) (s : List ℕ) (start end : ℕ)
    → OneRune t
    → end ≡ start + 2
    → end ≤ length s
    → starts_with (slice s start end) t ≡ false
slice-OneRune t s start end o e h =
    let (c, d, q) = two_runes start s (omega arith) in
    let n : end - start ≡ 2 = omega arith in
    ap (λ x. starts_with (take x (drop start s)) t) n ∙ ap (λ x. starts_with x t) q ∙ o c d

searc_loop-OneRune :
    (fuel : ℕ) (t : TrieNode) (s : List ℕ) (start end : ℕ) (ms : List MatchIndex)
    → OneRune t
    → end ≡ start + 2
    → searc_loop fuel t s start end false ms ≡ ms
unfolding searc_loop
searc_loop-OneRune zero t s start end ms o e = refl
searc_loop-OneRune (suc fuel) t s start end ms o e = ground (
  arith,
  λ (h : end ≤ length s). slice-OneRune t s start end o e h,
  searc_loop-OneRune fuel t s (end - 1) (end + 1) ms o (omega arith),
)

-- The match of the first rune.
abbrev pub first_rune : MatchIndex
first_rune = record { start = 0; end = 0 }

started-OneRune :
    (fuel : ℕ) (t : TrieNode) (s : List ℕ)
    → OneRune t
    → searc_loop fuel t s 0 2 true [] ≡ push (longest_word t s 0 1) []
unfolding searc_loop
started-OneRune zero t s o = refl
started-OneRune (suc fuel) t s o = ground (
  arith,
  λ (h : 2 ≤ length s). slice-OneRune t s 0 2 o refl h,
  searc_loop-OneRune fuel t s 1 3 (push (longest_word t s 0 1) []) o refl,
)

pushed_first :
    (t : TrieNode) (s : List ℕ)
    → (push (longest_word t s 0 1) [] ≡ []) ⊎ (push (longest_word t s 0 1) [] ≡ first_rune ∷ [])
unfolding longest_word
pushed_first t s = ground arith

-- With a filter in which no two runes begin a word, such as one of words of one rune, the search finds
-- nothing in a text but its first rune: the same word further on is missed.
pub searc_sentence-OneRune :
    (t : TrieNode) (s : List ℕ)
    → OneRune t
    → (searc_sentence t s ≡ []) ⊎ (searc_sentence t s ≡ first_rune ∷ [])
unfolding searc_sentence searc_loop
searc_sentence-OneRune t [] o = inl refl
searc_sentence-OneRune t (c ∷ s) o = ground (
  arith,
  started-OneRune (length s) t (c ∷ s) o,
  searc_loop-OneRune (length s) t (c ∷ s) 0 2 [] o refl,
  pushed_first t (c ∷ s),
)
