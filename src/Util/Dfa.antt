-- ===== src/Util/Dfa.antt =====
-- util/dfa_filter.go: a filter of sensitive words over a trie. A text is the list of its runes. The
-- trie's nodes are reached by one pointer each, so that it is a tree; a node's map of children is
-- the list of its entries.
pub mod Trie
pub mod OneRune
pub mod Search
pub mod Handle
mod Tests
use rocommon.Prelude.{
  ℕ, zero, suc, ◌+◌, ◌-◌, List, [], ◌∷◌, ◌++◌, Bool, true, false, Option, none, some, ltb, leb,
  ◌==◌, ◌&&◌, ◌||◌, if◌then◌else◌, length, take, drop, set, not,
}
use mathlib.Core.List.{reverse}

mutual
  pub data TrieNode : Type 0 where
    node : Bool → Children → TrieNode

  pub data Children : Type 0 where
    nil : Children
    child : ℕ → TrieNode → Children → Children

abbrev pub new_trie_node : TrieNode
new_trie_node = node false nil

pub get_child : Children → ℕ → Option TrieNode
get_child nil c = none
get_child (child d t cs) c = if d == c then some t else get_child cs c

-- Go on in the child under a rune, which is made if it is not there.
pub update_child : Children → ℕ → (TrieNode → TrieNode) → Children
update_child nil c f = child c (f new_trie_node) nil
update_child (child d t cs) c f =
    if d == c then child d (f t) cs else child d t (update_child cs c f)

pub insert_word : List ℕ → TrieNode → TrieNode
unfolding update_child
insert_word [] (node is_end cs) = node true cs
insert_word (c ∷ word) (node is_end cs) = node is_end (update_child cs c (insert_word word))

pub starts_with : List ℕ → TrieNode → Bool
unfolding get_child
starts_with [] t = true
starts_with (c ∷ prefix) (node is_end cs) = elim (get_child cs c) [
  | none ↦ false
  | some t ↦ starts_with prefix t
]

pub searc_word : List ℕ → TrieNode → Bool
unfolding get_child
searc_word [] (node is_end cs) = is_end
searc_word (c ∷ word) (node is_end cs) = elim (get_child cs c) [
  | none ↦ false
  | some t ↦ searc_word word t
]

pub record MatchIndex : Type 0 where
  pub start : ℕ
  pub end : ℕ

-- `sentenceRuneList[start:end]`
abbrev pub slice : List ℕ → ℕ → ℕ → List ℕ
slice s start end = take (end - start) (drop start s)

-- `for index := …; index > start; index--` up to the first word found.
pub longest_word : TrieNode → List ℕ → ℕ → ℕ → Option MatchIndex
longest_word t s start zero = none
longest_word t s start (suc index) =
    let shorter = longest_word t s start index in
    if ltb start (suc index)
    then (if searc_word (slice s start (suc index)) t
        then some (record { start = start; end = index })
        else shorter)
    else none

abbrev pub push : Option MatchIndex → List MatchIndex → List MatchIndex
push none ms = ms
push (some m) ms = ms ++ m ∷ []

-- The loop of `searcSentence`, and the check after it. Each round adds 1 to `end`, so that as many
-- rounds as the sentence is long are enough.
pub searc_loop : ℕ → TrieNode → List ℕ → ℕ → ℕ → Bool → List MatchIndex → List MatchIndex
searc_loop zero t s start end started ms =
    if started then push (longest_word t s start (end - 1)) ms else ms
searc_loop (suc fuel) t s start end started ms = elim (leb end (length s)) [
  | false ↦ if started then push (longest_word t s start (end - 1)) ms else ms
  | true ↦ elim (starts_with (slice s start end) t) [
    | true ↦ searc_loop fuel t s start (end + 1) true ms
    | false ↦
        searc_loop fuel t s (end - 1) (end + 1) false
          (if started then push (longest_word t s start (end - 1)) ms else ms)
  ]
]

pub searc_sentence : TrieNode → List ℕ → List MatchIndex
unfolding searc_loop longest_word
searc_sentence t s = searc_loop (length s) t s 0 1 false []

-- `unicode.IsSpace`
is_space : ℕ → Bool
is_space c =
    (leb 9 c && leb c 13)
    || c == 32
    || c == 0x85
    || c == 0xa0
    || c == 0x1680
    || (leb 0x2000 c && leb c 0x200a)
    || c == 0x2028
    || c == 0x2029
    || c == 0x202f
    || c == 0x205f
    || c == 0x3000

drop_space : List ℕ → List ℕ
drop_space [] = []
drop_space (c ∷ s) = if is_space c then drop_space s else c ∷ s

trim_space : List ℕ → List ℕ
unfolding drop_space is_space
trim_space s = reverse (drop_space (reverse (drop_space s)))

-- `strings.Replace(s, c, "", -1)` at a single character.
without : ℕ → List ℕ → List ℕ
without c [] = []
without c (d ∷ s) = if d == c then without c s else d ∷ without c s

-- The clean-up that `IsMatch` and `HandleWord` begin with.
pub stripped : List ℕ → List ℕ
unfolding trim_space without
stripped s = without b'&' (without b' ' (trim_space s))

pub is_match : TrieNode → List ℕ → Bool
is_match t sentence = elim (searc_sentence t (stripped sentence)) [ [] ↦ false | m ∷ ms ↦ true ]

-- The inner loop of `HandleWord`, over the indices of one match: `n` of them from `index` on.
pub replace_range : ℕ → ℕ → ℕ → List ℕ → List ℕ
replace_range zero index ch s = s
replace_range (suc n) index ch s = replace_range n (index + 1) ch (set s index ch)

pub replace_all : List MatchIndex → ℕ → List ℕ → List ℕ
unfolding replace_range
replace_all [] ch s = s
replace_all (m ∷ ms) ch s = replace_all ms ch (replace_range (m.end + 1 - m.start) m.start ch s)

pub handle_word : TrieNode → List ℕ → ℕ → List ℕ
unfolding replace_all
handle_word t sentence replace_ch = elim (searc_sentence t (stripped sentence)) [
  | [] ↦ sentence
  | m ∷ ms ↦ replace_all (m ∷ ms) replace_ch (stripped sentence)
]

-- `DFAInsertWord`, which skips empty words.
pub dfa_insert_word : TrieNode → List (List ℕ) → TrieNode
unfolding insert_word
dfa_insert_word t [] = t
dfa_insert_word t (word ∷ words) =
    dfa_insert_word (if ltb 0 (length word) then insert_word word t else t) words

pub new_dfa_util : List (List ℕ) → TrieNode
unfolding dfa_insert_word
new_dfa_util words = dfa_insert_word new_trie_node words
