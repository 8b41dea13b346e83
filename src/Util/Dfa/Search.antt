-- ===== src/Util/Dfa/Search.antt =====
-- The matches of `searcSentence` of util/dfa_filter.go.
use native.Mathlib.Decide.{dec_le}
use rocommon.Prelude.{
  ℕ, zero, suc, ◌+◌, ◌-◌, ◌≡◌, ◌≤◌, ◌<◌, refl, List, [], ◌∷◌, ◌++◌, Bool, true, false, some, arith,
  if◌then◌else◌, length, inl, inr, Bool-cases, Option-cases,
}
use rocommon.Util.Dfa.{
  TrieNode, starts_with, searc_word, MatchIndex, slice, longest_word, push, searc_loop,
  searc_sentence,
}

-- A match lies in the text, and what it spans is a word.
pub record IsFound (t : TrieNode) (s : List ℕ) (m : MatchIndex) : Type 0 where
  pub ordered : m.start ≤ m.end
  pub inside : m.end < length s
  pub word : searc_word (slice s m.start (m.end + 1)) t ≡ true

-- Found matches, in order and disjoint, from `lo` on and below `hi`.
abbrev pub Within : TrieNode → List ℕ → ℕ → ℕ → List MatchIndex → Type 0
Within t s lo hi [] = lo ≤ hi
Within t s lo hi (m ∷ ms) = (lo ≤ m.start) × IsFound t s m × Within t s (m.end + 1) hi ms

Within-mono :
    (t : TrieNode) (s : List ℕ) (lo hi top : ℕ) (ms : List MatchIndex)
    → hi ≤ top
    → Within t s lo hi ms
    → Within t s lo top ms
Within-mono t s lo hi top [] h w = omega arith
Within-mono t s lo hi top (m ∷ ms) h (a, f, w) = (a, f, Within-mono t s (m.end + 1) hi top ms h w)

Within-append :
    (t : TrieNode) (s : List ℕ) (lo hi top : ℕ) (ms : List MatchIndex) (m : MatchIndex)
    → Within t s lo hi ms
    → hi ≤ m.start
    → IsFound t s m
    → m.end + 1 ≤ top
    → Within t s lo top (ms ++ m ∷ [])
Within-append t s lo hi top [] m w h f le = (omega arith, f, le)
Within-append t s lo hi top (n ∷ ms) m (a, g, w) h f le =
    (a, g, Within-append t s (n.end + 1) hi top ms m w h f le)

longest_word-IsFound :
    (t : TrieNode) (s : List ℕ) (start index : ℕ) (m : MatchIndex)
    → index ≤ length s
    → longest_word t s start index ≡ some m
    → (m.start ≡ start) × (m.end < index) × IsFound t s m
unfolding longest_word
longest_word-IsFound t s start zero m h e = cc
longest_word-IsFound t s start (suc index) m h e =
    ground (arith, longest_word-IsFound t s start index m)

push-Within :
    (t : TrieNode) (s : List ℕ) (start end : ℕ) (started : Bool) (ms : List MatchIndex)
    → start < end
    → end ≤ length s + 1
    → Within t s 0 start ms
    → Within t s 0 (end - 1) (if started then push (longest_word t s start (end - 1)) ms else ms)
push-Within t s start end false ms h le w = Within-mono t s 0 start (end - 1) ms (omega arith) w
push-Within t s start end true ms h le w = elim (Option-cases (longest_word t s start (end - 1))) [
  | inl e ↦ rw e (Within-mono t s 0 start (end - 1) ms (omega arith) w)
  | inr (m, e) ↦
      let (at, before, found) = longest_word-IsFound t s start (end - 1) m (omega arith) e in
      rw e (Within-append t s 0 start (end - 1) ms m w (omega arith) found (omega arith))
]

module _ (fuel : ℕ) (t : TrieNode) (s : List ℕ) (start end : ℕ) (started : Bool)
    (ms : List MatchIndex) where
  -- The three branches of a round.
  searc_loop_longer :
      end ≤ length s
      → starts_with (slice s start end) t ≡ true
      → searc_loop (suc fuel) t s start end started ms ≡ searc_loop fuel t s start (end + 1) true ms
  unfolding searc_loop
  searc_loop_longer h e = ground arith

  searc_loop_next :
      end ≤ length s
      → starts_with (slice s start end) t ≡ false
      → searc_loop (suc fuel) t s start end started ms
        ≡ searc_loop fuel t s
            (end - 1)
            (end + 1)
            false
            (if started then push (longest_word t s start (end - 1)) ms else ms)
  unfolding searc_loop
  searc_loop_next h e = ground arith

  searc_loop_over :
      length s < end
      → searc_loop (suc fuel) t s start end started ms
        ≡ (if started then push (longest_word t s start (end - 1)) ms else ms)
  unfolding searc_loop
  searc_loop_over h = ground arith

searc_loop-Within :
    (fuel : ℕ) (t : TrieNode) (s : List ℕ) (start end : ℕ) (started : Bool) (ms : List MatchIndex)
    → start < end
    → end ≤ length s + 1
    → Within t s 0 start ms
    → Within t s 0 (length s) (searc_loop fuel t s start end started ms)
unfolding searc_loop
searc_loop-Within zero t s start end started ms h le w =
    Within-mono t s 0 (end - 1) (length s) _ (omega arith)
      (push-Within t s start end started ms h le w)
searc_loop-Within (suc fuel) t s start end started ms h le w = elim (dec_le end (length s)) [
  | yes more ↦ elim (Bool-cases (starts_with (slice s start end) t)) [
    | inl longer ↦
        rw (searc_loop_longer fuel t s start end started ms more longer)
          (searc_loop-Within fuel t s start (end + 1) true ms (omega arith) (omega arith) w)
    | inr next ↦ rw (searc_loop_next fuel t s start end started ms more next) (
        searc_loop-Within fuel t s (end - 1) (end + 1) false _ (omega arith) (omega arith)
          (push-Within t s start end started ms h le w))
  ]
  | no over ↦ rw (searc_loop_over fuel t s start end started ms (omega arith)) (
      Within-mono t s 0 (end - 1) (length s) _ (omega arith)
        (push-Within t s start end started ms h le w))
]

-- Every match that is reported lies in the text and spans a word of the filter; the matches are in
-- order and do not overlap.
pub searc_sentence-Within :
    (t : TrieNode) (s : List ℕ) → Within t s 0 (length s) (searc_sentence t s)
unfolding searc_sentence
searc_sentence-Within t s =
    searc_loop-Within (length s) t s 0 1 false [] (omega arith) (omega arith) (omega arith)

searc_loop-over :
    (fuel : ℕ) (t : TrieNode) (s : List ℕ) (start end : ℕ) (started : Bool) (ms : List MatchIndex)
    → length s < end
    → searc_loop fuel t s start end started ms ≡ searc_loop 0 t s start end started ms
unfolding searc_loop
searc_loop-over zero t s start end started ms h = refl
searc_loop-over (suc fuel) t s start end started ms h =
    searc_loop_over fuel t s start end started ms h

searc_loop-fuel :
    (fuel more : ℕ) (t : TrieNode) (s : List ℕ) (start end : ℕ) (started : Bool)
    (ms : List MatchIndex)
    → length s < end + fuel
    → fuel ≤ more
    → searc_loop more t s start end started ms ≡ searc_loop fuel t s start end started ms
unfolding searc_loop
searc_loop-fuel zero more t s start end started ms h le =
    searc_loop-over more t s start end started ms (omega arith)
searc_loop-fuel (suc fuel) zero t s start end started ms h le = elim le [ ]
searc_loop-fuel (suc fuel) (suc more) t s start end started ms h le = ground (
  arith,
  searc_loop-fuel fuel more t s start (end + 1) true ms,
  searc_loop-fuel fuel more t s (end - 1) (end + 1) false
      (if started then push (longest_word t s start (end - 1)) ms else ms),
)

-- The loop ends within as many rounds as the text has runes: with any more rounds allowed the
-- matches are the same.
pub searc_sentence-rounds :
    (t : TrieNode) (s : List ℕ) (rounds : ℕ)
    → length s ≤ rounds
    → searc_loop rounds t s 0 1 false [] ≡ searc_sentence t s
unfolding searc_sentence
searc_sentence-rounds t s rounds h =
    searc_loop-fuel (length s) rounds t s 0 1 false [] (omega arith) h
