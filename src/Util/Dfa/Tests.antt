-- ===== src/Util/Dfa/Tests.antt =====
-- Runs of util/dfa_filter.go, and its theorems at the words "ab" and "b".
use rocommon.Prelude.{
  ℕ, ◌≡◌, ◌≢◌, ◌<◌, ◌⊎◌, refl, List, [], ◌∷◌, false, some, ◌==◌, ◌||◌, arith, if◌then◌else◌, length,
  get_elem?,
}
use rocommon.Util.Dfa.{
  starts_with, searc_word, searc_loop, searc_sentence, stripped, is_match, handle_word,
  new_dfa_util,
}
use rocommon.Util.Dfa.Trie.{is_listed, begins_listed, new_dfa_util-words}
use rocommon.Util.Dfa.Search.{Within, searc_sentence-Within}
use rocommon.Util.Dfa.OneRune.{OneRune}
use rocommon.Util.Dfa.Handle.{is_covered, handle_word-get_elem?}

abbrev words : List (List ℕ)
words = (b'a' ∷ b'b' ∷ []) ∷ (b'b' ∷ []) ∷ []

abbrev text : List ℕ
text = b'x' ∷ b' ' ∷ b'a' ∷ b'b' ∷ b'c' ∷ []

handle_run : handle_word (new_dfa_util words) text b'*' ≡ b'x' ∷ b'*' ∷ b'*' ∷ b'c' ∷ []
unfolding handle_word new_dfa_util searc_sentence starts_with searc_word stripped
handle_run = refl

-- "xb" holds the word "b", and is not matched.
missed_run : is_match (new_dfa_util words) (b'x' ∷ b'b' ∷ []) ≡ false
unfolding is_match new_dfa_util searc_sentence starts_with searc_word stripped
missed_run = refl

new_dfa_util-words_example :
    (searc_word (b'b' ∷ []) (new_dfa_util words) ≡ is_listed words (b'b' ∷ []))
    × (starts_with (b'b' ∷ []) (new_dfa_util words) ≡ (1 == 0 || begins_listed words (b'b' ∷ [])))
new_dfa_util-words_example = new_dfa_util-words words (b'b' ∷ [])

searc_sentence-Within_example :
    Within (new_dfa_util words) text 0 5 (searc_sentence (new_dfa_util words) text)
searc_sentence-Within_example = searc_sentence-Within (new_dfa_util words) text

abbrev b_word : List (List ℕ)
b_word = (b'b' ∷ []) ∷ []

b_word-OneRune : OneRune (new_dfa_util b_word)
unfolding new_dfa_util starts_with
b_word-OneRune c d = ground arith

one_rune_run : searc_sentence (new_dfa_util b_word) (b'x' ∷ b'b' ∷ b'x' ∷ []) ≡ []
unfolding new_dfa_util searc_sentence searc_loop starts_with
one_rune_run = refl

handle_word-get_elem?_example :
    let ms = searc_sentence (new_dfa_util words) (stripped text) in
    ((ms ≡ []) × (handle_word (new_dfa_util words) text b'*' ≡ text))
    ⊎ ((ms ≢ [])
        × (length (handle_word (new_dfa_util words) text b'*') ≡ length (stripped text))
        × ((i : ℕ)
            → i < length (stripped text)
            → get_elem? (handle_word (new_dfa_util words) text b'*') i
              ≡ (if is_covered ms i then some b'*' else get_elem? (stripped text) i)))
handle_word-get_elem?_example = handle_word-get_elem? (new_dfa_util words) text b'*'
