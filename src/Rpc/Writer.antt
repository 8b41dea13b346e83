-- ===== src/Rpc/Writer.antt =====
-- util/ioutil.go, `WriteFull`. What an `io.Writer` does is a script, one entry for each call: it
-- takes some bytes, or takes some and fails.
use rocommon.Prelude.{
  ap, append_assoc, ℕ, ◌≤◌, ◌≡◌, refl, List, [], ◌∷◌, ◌++◌, arith, length, take, drop, All,
  take-append-drop, length-drop, ◌<◌,
}

pub data WriteStep : Type 0 where
  wrote failed : ℕ → WriteStep

-- All was written; a call failed; the script ended before.
pub data WriteEnd : Type 0 where
  done fault blocked : WriteEnd

-- The bytes that left, and how the loop over `buf[pos:]` ended.
pub write_full : List WriteStep → List ℕ → List ℕ × WriteEnd
write_full steps [] = ([], done)
write_full [] (b ∷ bs) = ([], blocked)
write_full (failed n ∷ steps) (b ∷ bs) = (take n (b ∷ bs), fault)
write_full (wrote n ∷ steps) (b ∷ bs) =
    let (out, end) = write_full steps (drop n (b ∷ bs)) in (take n (b ∷ bs) ++ out, end)

-- The bytes still to be written, had the loop gone on.
pub unwritten : List WriteStep → List ℕ → List ℕ
unwritten steps [] = []
unwritten [] (b ∷ bs) = b ∷ bs
unwritten (failed n ∷ steps) (b ∷ bs) = drop n (b ∷ bs)
unwritten (wrote n ∷ steps) (b ∷ bs) = unwritten steps (drop n (b ∷ bs))

-- What left is a front part of the buffer in its order, whatever the writer does, and all of it
-- where the loop reports success.
pub write_full-prefix :
    (steps : List WriteStep) (buf : List ℕ)
    → ((write_full steps buf).0 ++ unwritten steps buf ≡ buf)
      × ((write_full steps buf).1 ≡ done → (write_full steps buf).0 ≡ buf)
unfolding write_full unwritten
write_full-prefix [] [] = (refl, λ _. refl)
write_full-prefix (s ∷ steps) [] = (refl, λ _. refl)
write_full-prefix [] (b ∷ bs) = (refl, λ e. cc)
write_full-prefix (failed n ∷ steps) (b ∷ bs) = (take-append-drop n (b ∷ bs), λ e. cc)
write_full-prefix (wrote n ∷ steps) (b ∷ bs) =
    let (whole, all) = write_full-prefix steps (drop n (b ∷ bs)) in
    (
      simp append_assoc (rw whole (take-append-drop n (b ∷ bs))),
      λ e. rw (all e) (take-append-drop n (b ∷ bs)),
    )

abbrev pub TakesSome : WriteStep → Type 0
TakesSome (wrote n) = 0 < n
TakesSome (failed n) = ⊥

-- A writer that takes a byte at least on each call ends the loop with success, within as many calls
-- as there are bytes.
pub write_full-done :
    (steps : List WriteStep) (buf : List ℕ)
    → All TakesSome steps
    → length buf ≤ length steps
    → write_full steps buf ≡ (buf, done)
unfolding write_full
write_full-done steps [] h le = refl
write_full-done [] (b ∷ bs) h le = elim le [ ]
write_full-done (failed n ∷ steps) (b ∷ bs) h le = absurd h.0
write_full-done (wrote n ∷ steps) (b ∷ bs) h le =
    rw (write_full-done steps (drop n (b ∷ bs)) h.1 (omega (arith, length-drop n (b ∷ bs))))
      (ap (λ (xs : List ℕ). (xs, done)) (take-append-drop n (b ∷ bs)))
