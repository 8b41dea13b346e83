-- ===== src/Util/LogFile/Rotation.antt =====
-- Where the messages of util/loghelper.go go.
use mathlib.Core.Path.{subst}
use rocommon.Prelude.{
  ℕ, zero, suc, ◌+◌, ◌≤◌, ◌<◌, ◌++◌, true, false, some, ◌≡◌, ◌≢◌, refl, sym, ap, ◌∙◌, arith, length,
  length-append, leb, Bool-cases, inl, inr,
}
use rocommon.Text.{String, codes, itoa, pos, ◌=s◌}
use rocommon.Text.Equal.{=s_refl, =s_eq, =s_sym}
use rocommon.Util.LogFile.{
  LogInfo, log_file_name, appended, rotate, choose_file, append_to, write_log,
}

-- The file is the one of its number.
abbrev pub IsNumbered : String → LogInfo → Type 0
IsNumbered today info = info.file_name ≡ log_file_name today info.file_index info

module _ (today : String) (files : String → ℕ) where
  -- The info of the next file.
  abbrev next_file : LogInfo → LogInfo
  next_file info = record info {
    file_index = info.file_index + 1;
    file_name = log_file_name today (info.file_index + 1) info;
  }

  -- What the search finds within `j` files.
  abbrev Finds : ℕ → LogInfo → ℕ → Type 0
  Finds j info n =
      (found : LogInfo) × (rotate n today files info ≡ some found)
      × IsNumbered today found
      × (files found.file_name < info.log_max_size)
      × (info.file_index ≤ found.file_index)
      × (found.file_index ≤ info.file_index + j)

  Finds-here :
      (j n : ℕ) (info : LogInfo)
      → IsNumbered today info
      → files info.file_name < info.log_max_size
      → Finds j info (suc n)
  unfolding rotate
  Finds-here j n info named room =
      (info, ground (arith, room), named, room, omega arith, omega arith)

  Finds-next :
      (j n : ℕ) (info : LogInfo)
      → leb info.log_max_size (files info.file_name) ≡ true
      → Finds j (next_file info) n
      → Finds (suc j) info (suc n)
  unfolding rotate log_file_name
  Finds-next j n info full (found, e, named, room, low, high) =
      (found, ground (arith, full, e), named, room, omega (arith, low), omega (arith, high))

  -- When the file that lies `j` numbers ahead has room, `j + 1` rounds are enough, and the file that they
  -- find has room and lies at most that far ahead.
  pub rotate-room :
      (j : ℕ) (info : LogInfo)
      → IsNumbered today info
      → files (log_file_name today (info.file_index + j) info) < info.log_max_size
      → (found : LogInfo) × (rotate (suc j) today files info ≡ some found)
        × IsNumbered today found
        × (files found.file_name < info.log_max_size)
        × (info.file_index ≤ found.file_index)
        × (found.file_index ≤ info.file_index + j)
  unfolding log_file_name
  rotate-room zero info named room = Finds-here 0 0 info named (
      subst (λ f. files f < info.log_max_size)
        (ap (λ i. log_file_name today i info) (omega arith) ∙ sym named) room)
  rotate-room (suc j) info named room =
      elim (Bool-cases (leb info.log_max_size (files info.file_name))) [
        | inr has_room ↦ Finds-here (suc j) (suc j) info named (ground (arith, has_room))
        | inl full ↦ Finds-next j (suc j) info full (
            rotate-room j (next_file info) refl (
              subst (λ i. files (log_file_name today i info) < info.log_max_size) (omega arith)
                room))
      ]

length-log_file_name :
    (today : String) (i : ℕ) (info : LogInfo)
    → length (log_file_name today (suc i) info) ≢ length (log_file_name today 0 info)
unfolding log_file_name
length-log_file_name today i info e =
    let n = itoa (pos (suc i)) in
    ground (
      arith,
      e,
      length-append info.path
          (codes "/" ++ (info.prefix ++ (today ++ (codes "_" ++ (n ++ codes ".log"))))),
      length-append info.prefix (today ++ (codes "_" ++ (n ++ codes ".log"))),
      length-append today (codes "_" ++ (n ++ codes ".log")),
      length-append n (codes ".log"),
      length-append info.path (codes "/" ++ (info.prefix ++ (today ++ codes ".log"))),
      length-append info.prefix (today ++ codes ".log"),
      length-append today (codes ".log"),
    )

-- The names of the first file and of a later one differ.
log_file_name-first :
    (today : String) (i : ℕ) (info : LogInfo)
    → (log_file_name today (suc i) info =s log_file_name today 0 info) ≡ false
log_file_name-first today i info =
    elim (Bool-cases (log_file_name today (suc i) info =s log_file_name today 0 info)) [
      | inr apart ↦ apart
      | inl same ↦ absurd (
          length-log_file_name today i info (
            ap length (=s_eq (log_file_name today (suc i) info) (log_file_name today 0 info) same)))
    ]

module _ (today : String) (info : LogInfo) where
  -- The infos of the day's first two files.
  abbrev pub first_file : LogInfo
  first_file = record info { file_name = log_file_name today 0 info; file_index = 0 }

  abbrev pub second_file : LogInfo
  second_file = record info { file_name = log_file_name today 1 info; file_index = 1 }

module _ (today : String) (files : String → ℕ) (info : LogInfo) where
  write_log_full :
      (n log_level size : ℕ)
      → info.level ≤ log_level
      → info.log_max_size ≤ files (log_file_name today 0 info)
      → files (log_file_name today 1 info) < info.log_max_size
      → write_log (suc (suc n)) today log_level size (first_file today info, files)
        ≡ some (second_file today info, appended (log_file_name today 1 info) size files)
  unfolding write_log choose_file append_to rotate log_file_name
  write_log_full n log_level size level full room =
      ground (arith, =s_refl (log_file_name today 0 info), level, full, room)

  -- A message that finds a later file of the day open goes to the first one, however full that is.
  write_back :
      (n log_level size : ℕ)
      → info.level ≤ log_level
      → write_log n today log_level size (second_file today info, files)
        ≡ some (first_file today info, appended (log_file_name today 0 info) size files)
  unfolding write_log choose_file append_to log_file_name
  write_back n log_level size level = ground (arith, log_file_name-first today 0 info, level)

-- Once the first file of a day is full, of two messages the one goes to the second file, and the other to the
-- full one again, which so grows with every second message.
pub write_log-write_log :
    (today : String) (files : String → ℕ) (info : LogInfo) (n log_level one two : ℕ)
    → info.level ≤ log_level
    → info.log_max_size ≤ files (log_file_name today 0 info)
    → files (log_file_name today 1 info) < info.log_max_size
    → (between after : String → ℕ) × (write_log
          (suc (suc n))
          today
          log_level
          one
          (first_file today info, files)
        ≡ some (second_file today info, between))
      × (write_log (suc (suc n)) today log_level two (second_file today info, between)
          ≡ some (first_file today info, after))
      × (after (log_file_name today 0 info) ≡ files (log_file_name today 0 info) + two)
      × (after (log_file_name today 1 info) ≡ files (log_file_name today 1 info) + one)
unfolding log_file_name
write_log-write_log today files info n log_level one two level full room =
    let between = appended (log_file_name today 1 info) one files in
    let apart = log_file_name-first today 0 info in
    (
      between,
      appended (log_file_name today 0 info) two between,
      write_log_full today files info n log_level one level full room,
      write_back today between info (suc (suc n)) log_level two level,
      ground (arith, apart, =s_refl (log_file_name today 0 info)),
      ground (
        arith,
        =s_sym (log_file_name today 1 info) (log_file_name today 0 info) apart,
        =s_refl (log_file_name today 1 info),
      ),
    )
