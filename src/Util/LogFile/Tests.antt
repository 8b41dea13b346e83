-- ===== src/Util/LogFile/Tests.antt =====
-- Log files of util/loghelper.go on a disk where the first file of the day is full.
use rocommon.Prelude.{ℕ, [], ◌∷◌, ◌+◌, ◌≡◌, ◌≤◌, ◌<◌, if◌then◌else◌, some, arith, length, ltb, refl}
use rocommon.Text.{String, codes}
use rocommon.Util.LogFile.{LogInfo, log_file_name, rotate, write_log}
use rocommon.Util.LogFile.Rotation.{
  first_file, second_file, IsNumbered, rotate-room, write_log-write_log,
}

-- A day's name, an info with empty path and prefix, and files by the length of their names.
abbrev today : String
today = 1 ∷ []

abbrev info : LogInfo
info = record {
  path = [];
  prefix = [];
  file_name = 47 ∷ 1 ∷ codes ".log";
  level = 2;
  file_index = 0;
  log_max_size = 100;
}

abbrev sizes : String → ℕ
sizes f = if ltb (length f) 7 then 120 else 40

info-IsNumbered : IsNumbered today info
unfolding log_file_name
info-IsNumbered = refl

first_full : sizes (log_file_name today 0 info) ≡ 120
unfolding log_file_name
first_full = refl

second_room : sizes (log_file_name today 1 info) ≡ 40
unfolding log_file_name
second_room = refl

rotate-room_example :
    (found : LogInfo) × (rotate 2 today sizes info ≡ some found)
    × IsNumbered today found
    × (sizes found.file_name < 100)
    × (0 ≤ found.file_index)
    × (found.file_index ≤ 1)
rotate-room_example = rotate-room today sizes 1 info info-IsNumbered (ground (arith, second_room))

write_log-write_log_example :
    (between after : String → ℕ) × (write_log 3 today 3 10 (first_file today info, sizes)
      ≡ some (second_file today info, between))
    × (write_log 3 today 3 20 (second_file today info, between)
        ≡ some (first_file today info, after))
    × (after (log_file_name today 0 info) ≡ sizes (log_file_name today 0 info) + 20)
    × (after (log_file_name today 1 info) ≡ sizes (log_file_name today 1 info) + 10)
write_log-write_log_example =
    write_log-write_log today sizes info 1 3 10 20 (omega arith) (ground (arith, first_full))
      (ground (arith, second_room))
