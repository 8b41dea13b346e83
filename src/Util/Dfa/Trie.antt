-- ===== src/Util/Dfa/Trie.antt =====
-- The trie of util/dfa_filter.go is a set of words with their prefixes.
use rocommon.Prelude.{
  ℕ, ◌≡◌, refl, List, [], ◌∷◌, Bool, true, false, Option, none, some, ◌==◌, ◌&&◌, ◌||◌, arith,
  if◌then◌else◌, ltb, length,
}
use rocommon.Util.Dfa.{
  TrieNode, node, Children, nil, child, new_trie_node, get_child, update_child, insert_word,
  starts_with, searc_word, dfa_insert_word, new_dfa_util,
}

pub same_word : List ℕ → List ℕ → Bool
same_word [] [] = true
same_word [] (d ∷ v) = false
same_word (c ∷ w) [] = false
same_word (c ∷ w) (d ∷ v) = c == d && same_word w v

pub is_prefix : List ℕ → List ℕ → Bool
is_prefix [] w = true
is_prefix (c ∷ p) [] = false
is_prefix (c ∷ p) (d ∷ w) = c == d && is_prefix p w

abbrev or_new : Option TrieNode → TrieNode
or_new none = new_trie_node
or_new (some t) = t

get_child-update_child :
    (cs : Children) (c d : ℕ) (f : TrieNode → TrieNode)
    → get_child (update_child cs c f) d
      ≡ (if c == d then some (f (or_new (get_child cs c))) else get_child cs d)
unfolding get_child update_child
get_child-update_child nil c d f = ground arith
get_child-update_child (child e t cs) c d f = ground (arith, get_child-update_child cs c d f)

searc_word-new : (v : List ℕ) → searc_word v new_trie_node ≡ false
unfolding searc_word
searc_word-new [] = refl
searc_word-new (d ∷ v) = refl

starts_with-new : (c : ℕ) (p : List ℕ) → starts_with (c ∷ p) new_trie_node ≡ false
unfolding starts_with
starts_with-new c p = refl

starts_with-nil : (t : TrieNode) → starts_with [] t ≡ true
unfolding starts_with
starts_with-nil (node e cs) = refl

-- After an insertion the words are the inserted one and those before.
pub searc_word-insert_word :
    (w v : List ℕ) (t : TrieNode)
    → searc_word v (insert_word w t) ≡ (same_word w v || searc_word v t)
unfolding searc_word insert_word same_word
searc_word-insert_word [] [] (node e cs) = refl
searc_word-insert_word [] (d ∷ v) (node e cs) = refl
searc_word-insert_word (c ∷ w) [] (node e cs) = refl
searc_word-insert_word (c ∷ w) (d ∷ v) (node e cs) = ground (
  arith,
  get_child-update_child cs c d (insert_word w),
  searc_word-insert_word w v (or_new (get_child cs c)),
  searc_word-new v,
)

-- After an insertion the prefixes are those of the inserted word and those before.
pub starts_with-insert_word :
    (w p : List ℕ) (t : TrieNode)
    → starts_with p (insert_word w t) ≡ (is_prefix p w || starts_with p t)
unfolding starts_with insert_word is_prefix
starts_with-insert_word [] [] (node e cs) = refl
starts_with-insert_word [] (d ∷ p) (node e cs) = refl
starts_with-insert_word (c ∷ w) [] (node e cs) = refl
starts_with-insert_word (c ∷ w) (d ∷ []) (node e cs) = ground (
  arith,
  get_child-update_child cs c d (insert_word w),
  starts_with-insert_word w [] (or_new (get_child cs c)),
)
starts_with-insert_word (c ∷ w) (d ∷ b ∷ p) (node e cs) = ground (
  arith,
  get_child-update_child cs c d (insert_word w),
  starts_with-insert_word w (b ∷ p) (or_new (get_child cs c)),
  starts_with-new b p,
)

-- Whether a text is one of the words, the empty ones left aside.
pub is_listed : List (List ℕ) → List ℕ → Bool
is_listed [] v = false
is_listed (w ∷ ws) v = ltb 0 (length w) && same_word w v || is_listed ws v

-- Whether a text begins one of the words.
pub begins_listed : List (List ℕ) → List ℕ → Bool
begins_listed [] p = false
begins_listed (w ∷ ws) p = ltb 0 (length w) && is_prefix p w || begins_listed ws p

searc_word-dfa_insert_word :
    (ws : List (List ℕ)) (v : List ℕ) (t : TrieNode)
    → searc_word v (dfa_insert_word t ws) ≡ (is_listed ws v || searc_word v t)
unfolding dfa_insert_word is_listed
searc_word-dfa_insert_word [] v t = refl
searc_word-dfa_insert_word (w ∷ ws) v t = ground (
  arith,
  searc_word-dfa_insert_word ws v t,
  searc_word-dfa_insert_word ws v (insert_word w t),
  searc_word-insert_word w v t,
)

starts_with-dfa_insert_word :
    (ws : List (List ℕ)) (p : List ℕ) (t : TrieNode)
    → starts_with p (dfa_insert_word t ws) ≡ (begins_listed ws p || starts_with p t)
unfolding dfa_insert_word begins_listed
starts_with-dfa_insert_word [] p t = refl
starts_with-dfa_insert_word (w ∷ ws) p t = ground (
  arith,
  starts_with-dfa_insert_word ws p t,
  starts_with-dfa_insert_word ws p (insert_word w t),
  starts_with-insert_word w p t,
)

-- The filter made from a list of words finds exactly its nonempty words, and takes for prefixes the
-- empty text and what begins one of these words.
pub new_dfa_util-words :
    (ws : List (List ℕ)) (v : List ℕ)
    → (searc_word v (new_dfa_util ws) ≡ is_listed ws v)
      × (starts_with v (new_dfa_util ws) ≡ (length v == 0 || begins_listed ws v))
unfolding new_dfa_util
new_dfa_util-words ws [] = (
  ground (arith, searc_word-dfa_insert_word ws [] new_trie_node, searc_word-new []),
  ground (arith, starts_with-dfa_insert_word ws [] new_trie_node, starts_with-nil new_trie_node),
)
new_dfa_util-words ws (c ∷ v) = (
  ground (arith, searc_word-dfa_insert_word ws (c ∷ v) new_trie_node, searc_word-new (c ∷ v)),
  ground (arith, starts_with-dfa_insert_word ws (c ∷ v) new_trie_node, starts_with-new c v),
)
