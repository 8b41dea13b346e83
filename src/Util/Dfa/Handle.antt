-- ===== src/Util/Dfa/Handle.antt =====
-- `HandleWord` and `IsMatch` of util/dfa_filter.go on the matches.
use native.Mathlib.Decide.{ℕ_discrete}
use rocommon.Prelude.{
  ap, ℕ, zero, suc, ◌+◌, ◌-◌, ◌≡◌, ◌≢◌, ◌<◌, ◌⊎◌, inl, inr, refl, List, [], ◌∷◌, Bool, false, some,
  ◌==◌, ◌&&◌, ◌||◌, arith, if◌then◌else◌, ltb, leb, length, get_elem?, set, length-set,
  get_elem?-set_self, get_elem?-set_ne,
}
use rocommon.Util.Dfa.{
  TrieNode, MatchIndex, searc_sentence, stripped, replace_range, replace_all, handle_word,
}

abbrev spans : MatchIndex → ℕ → Bool
spans m i = leb m.start i && leb i m.end

-- Whether a match spans an index.
abbrev pub is_covered : List MatchIndex → ℕ → Bool
is_covered [] i = false
is_covered (m ∷ ms) i = spans m i || is_covered ms i

get_elem?-set :
    (s : List ℕ) (i j v : ℕ)
    → j < length s
    → get_elem? (set s i v) j ≡ (if i == j then some v else get_elem? s j)
get_elem?-set s i j v h = elim (ℕ_discrete i j) [
  | yes e ↦ ground (arith, get_elem?-set_self s i v, ap (get_elem? (set s i v)) e)
  | no ne ↦ ground (arith, get_elem?-set_ne s {i = i} {j = j} v ne)
]

length-replace_range :
    (n index ch : ℕ) (s : List ℕ) → length (replace_range n index ch s) ≡ length s
unfolding replace_range
length-replace_range zero index ch s = refl
length-replace_range (suc n) index ch s =
    omega (arith, length-replace_range n (index + 1) ch (set s index ch), length-set s index ch)

get_elem?-replace_range :
    (n index ch : ℕ) (s : List ℕ) (i : ℕ)
    → i < length s
    → get_elem? (replace_range n index ch s) i
      ≡ (if leb index i && ltb i (index + n) then some ch else get_elem? s i)
unfolding replace_range
get_elem?-replace_range zero index ch s i h = ground arith
get_elem?-replace_range (suc n) index ch s i h = ground (
  arith,
  get_elem?-replace_range n (index + 1) ch (set s index ch) i,
  length-set s index ch,
  get_elem?-set s index i ch h,
)

length-replace_all :
    (ms : List MatchIndex) (ch : ℕ) (s : List ℕ) → length (replace_all ms ch s) ≡ length s
unfolding replace_all
length-replace_all [] ch s = refl
length-replace_all (m ∷ ms) ch s = omega (
  arith,
  length-replace_all ms ch (replace_range (m.end + 1 - m.start) m.start ch s),
  length-replace_range (m.end + 1 - m.start) m.start ch s,
)

get_elem?-replace_all :
    (ms : List MatchIndex) (ch : ℕ) (s : List ℕ) (i : ℕ)
    → i < length s
    → get_elem? (replace_all ms ch s) i ≡ (if is_covered ms i then some ch else get_elem? s i)
unfolding replace_all
get_elem?-replace_all [] ch s i h = refl
get_elem?-replace_all (m ∷ ms) ch s i h = ground (
  arith,
  get_elem?-replace_all ms ch (replace_range (m.end + 1 - m.start) m.start ch s) i,
  length-replace_range (m.end + 1 - m.start) m.start ch s,
  get_elem?-replace_range (m.end + 1 - m.start) m.start ch s i h,
)

handled :
    (t : TrieNode) (sentence : List ℕ) (ch : ℕ) (ms : List MatchIndex)
    → searc_sentence t (stripped sentence) ≡ ms
    → ((ms ≡ []) × (handle_word t sentence ch ≡ sentence))
      ⊎ ((ms ≢ []) × (handle_word t sentence ch ≡ replace_all ms ch (stripped sentence)))
unfolding handle_word
handled t sentence ch [] e = inl (refl, ground arith)
handled t sentence ch (m ∷ ms) e = inr (λ p. cc, ground arith)

-- With no match `HandleWord` returns the sentence as it was given. With one it returns the stripped
-- sentence at its length, with the replacement at exactly the indices that a match spans.
pub handle_word-get_elem? :
    (t : TrieNode) (sentence : List ℕ) (ch : ℕ)
    → let ms = searc_sentence t (stripped sentence) in
      ((ms ≡ []) × (handle_word t sentence ch ≡ sentence))
      ⊎ ((ms ≢ [])
          × (length (handle_word t sentence ch) ≡ length (stripped sentence))
          × ((i : ℕ)
              → i < length (stripped sentence)
              → get_elem? (handle_word t sentence ch) i
                ≡ (if is_covered ms i then some ch else get_elem? (stripped sentence) i)))
handle_word-get_elem? t sentence ch =
    let ms = searc_sentence t (stripped sentence) in
    elim (handled t sentence ch ms refl) [
      | inl untouched ↦ inl untouched
      | inr (found, e) ↦ inr (
        found,
        rw e (length-replace_all ms ch (stripped sentence)),
        λ i h. rw e (get_elem?-replace_all ms ch (stripped sentence) i h),
      )
    ]
