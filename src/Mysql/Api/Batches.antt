-- ===== src/Mysql/Api/Batches.antt =====
-- The batches of `SqlValuesInsertBatch` of socket/mysql/sql_api.go.
use rocommon.Prelude.{
  sym, ◌∙◌, if_holds, false, ap, true, ℕ, zero, suc, ◌+◌, ◌≤◌, ◌<◌, List, [], ◌∷◌, ◌++◌, Option,
  none, some, ltb, leb, if◌then◌else◌, length, take, drop, ◌≡◌, refl, inl, inr, arith, All,
  Bool-cases, length-drop, length-take, take-append-drop, append-nil,
}
use rocommon.Text.{String, join, codes}
use rocommon.Mysql.{DbError, Driver}
use rocommon.Mysql.Api.{sql_exec, or_next, insert_loop, sql_values_insert_batch}

abbrev pub concat {ℓ} : {A : Type ℓ} → List (List A) → List A
concat [] = []
concat (xs ∷ xss) = xs ++ concat xss

drop-drop : {A : Type 0} (n m k : ℕ) (xs : List A) → k ≡ m + n → drop n (drop m xs) ≡ drop k xs
drop-drop n zero k xs h = ap (λ i. drop i xs) (omega (arith, h))
drop-drop zero (suc m) zero [] h = refl
drop-drop zero (suc m) (suc k) [] h = refl
drop-drop (suc n) (suc m) zero [] h = refl
drop-drop (suc n) (suc m) (suc k) [] h = refl
drop-drop n (suc m) zero (x ∷ xs) h = absurd (omega (arith, h))
drop-drop n (suc m) (suc k) (x ∷ xs) h = drop-drop n m k xs (omega (arith, h))

module _ {D : Type 0} (drv : Driver D) (format : String → String) where
  -- One insert for each batch, until one fails.
  pub insert_each : List (List String) → D → Option (Option DbError × D)
  insert_each [] d = some (none, d)
  insert_each (part ∷ parts) d =
      or_next drv (sql_exec drv (format (join part (codes ","))) d) (λ e. insert_each parts e)

  -- A batch is not empty, and not longer than the size.
  abbrev pub IsBatch : ℕ → List String → Type 0
  IsBatch size part = (1 ≤ length part) × (length part ≤ size)

  -- What is left from a position on, in batches.
  abbrev Batched : ℕ → List String → ℕ → (D → Option (Option DbError × D)) → Type 0
  Batched size sqlarr pos result =
      (parts : List (List String)) × (concat parts ≡ drop pos sqlarr)
      × All (IsBatch size) parts
      × ((d : D) → result d ≡ insert_each parts d)

  loop_last :
      (n size : ℕ) (sqlarr : List String) (pos : ℕ) (d : D)
      → leb (length sqlarr) (pos + size) ≡ true
      → insert_loop drv (suc n) format sqlarr size pos d ≡ insert_each (drop pos sqlarr ∷ []) d
  unfolding insert_loop insert_each
  loop_last n size sqlarr pos d h = rw h refl

  loop_more :
      (n size : ℕ) (sqlarr : List String) (pos : ℕ) (d : D)
      → leb (length sqlarr) (pos + size) ≡ false
      → insert_loop drv (suc n) format sqlarr size pos d
        ≡ or_next drv
            (sql_exec drv (format (join (take size (drop pos sqlarr)) (codes ","))) d)
            (λ e. insert_loop drv n format sqlarr size (pos + size) e)
  unfolding insert_loop
  loop_more n size sqlarr pos d h = rw h refl

  or_next_cong :
      (r : Option DbError × D) (f g : D → Option (Option DbError × D))
      → ((e : D) → f e ≡ g e)
      → or_next drv r f ≡ or_next drv r g
  unfolding or_next
  or_next_cong (none, d) f g h = h d
  or_next_cong (some x, d) f g h = refl

  Batched-more :
      (n size : ℕ) (sqlarr : List String) (pos : ℕ)
      → leb (length sqlarr) (pos + size) ≡ false
      → 1 ≤ size
      → Batched size sqlarr (pos + size) (insert_loop drv n format sqlarr size (pos + size))
      → Batched size sqlarr pos (insert_loop drv (suc n) format sqlarr size pos)
  unfolding insert_each
  Batched-more n size sqlarr pos h hs (parts, same, batches, runs) = (
    take size (drop pos sqlarr) ∷ parts,
    ap (λ r. take size (drop pos sqlarr) ++ r)
          (same ∙ sym (drop-drop size pos (pos + size) sqlarr refl))
        ∙ take-append-drop size (drop pos sqlarr),
    (
      (
        ground (arith, length-take size (drop pos sqlarr), length-drop pos sqlarr, h),
        ground (arith, length-take size (drop pos sqlarr)),
      ),
      batches,
    ),
    λ d.
        loop_more n size sqlarr pos d h
        ∙ or_next_cong (sql_exec drv (format (join (take size (drop pos sqlarr)) (codes ","))) d)
            (λ e. insert_loop drv n format sqlarr size (pos + size) e) (λ e. insert_each parts e)
            runs,
  )

  Batched-loop :
      (n size : ℕ) (sqlarr : List String) (pos : ℕ)
      → 1 ≤ size
      → pos < length sqlarr
      → length sqlarr < n + pos
      → Batched size sqlarr pos (insert_loop drv n format sqlarr size pos)
  Batched-loop zero size sqlarr pos h hp hn = absurd (ground (arith, hp, hn))
  Batched-loop (suc n) size sqlarr pos h hp hn =
      elim (Bool-cases (leb (length sqlarr) (pos + size))) [
        | inl last ↦ (
          drop pos sqlarr ∷ [],
          append-nil (drop pos sqlarr),
          (
            (ground (arith, length-drop pos sqlarr), ground (arith, length-drop pos sqlarr, last)),
            tt,
          ),
          λ d. loop_last n size sqlarr pos d last,
        )
        | inr more ↦
            Batched-more n size sqlarr pos more h
              (Batched-loop n size sqlarr (pos + size) h (ground (arith, more)) (omega arith))
      ]

  -- A list that is not empty is inserted in batches that hold all its values in their order, none of
  -- them empty or longer than the size, or 100 for a smaller size: one statement for each, until one
  -- fails, within as many rounds as the list is long and one more.
  pub sql_values_insert_batch-insert_each :
      (sqlarr : List String) (size : ℕ)
      → 1 ≤ length sqlarr
      → (parts : List (List String)) × (concat parts ≡ sqlarr)
        × All (IsBatch (if ltb size 100 then 100 else size)) parts
        × ((d : D)
            → sql_values_insert_batch drv (suc (length sqlarr)) format sqlarr size d
              ≡ insert_each parts d)
  unfolding sql_values_insert_batch
  sql_values_insert_batch-insert_each sqlarr size h =
      Batched-loop (suc (length sqlarr)) (if ltb size 100 then 100 else size) sqlarr 0
        (if_holds (λ k. 1 ≤ k) (ltb size 100) (λ e. omega arith) (λ e. ground (arith, e))) h
        (omega arith)

  -- The empty list is no exception: one statement without values is executed.
  pub sql_values_insert_batch_empty :
      (size : ℕ) (d : D) → sql_values_insert_batch drv 1 format [] size d ≡ insert_each ([] ∷ []) d
  unfolding sql_values_insert_batch
  sql_values_insert_batch_empty size d =
      loop_last 0 (if ltb size 100 then 100 else size) [] 0 d (ground arith)
