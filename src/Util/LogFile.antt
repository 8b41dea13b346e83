-- ===== src/Util/LogFile.antt =====
-- The log files of util/loghelper.go: their names, and which file a message is appended to. The date and
-- the size of a message are arguments; a file system is the size of each file, 0 for one that does
-- not exist, and opening a file and Stat succeed. What a call to the package log prints is left out.
pub mod Rotation
mod Tests
use rocommon.Prelude.{
  ℕ, zero, suc, ◌+◌, ◌*◌, List, [], ◌∷◌, ◌++◌, Bool, true, false, not, Option, none, some, ltb, leb,
  ◌==◌, if◌then◌else◌, ◌≡◌, map,
}
use rocommon.Text.{String, codes, itoa, pos, negsuc, ℤ, ◌=s◌}

-- LogStInfo, whose `fileLogging` is the file of `file_name`.
pub record LogInfo : Type 0 where
  pub path : String
  pub prefix : String
  pub file_name : String
  pub level : ℕ
  pub file_index : ℕ
  pub log_max_size : ℕ

-- `logFileName`
unfoldable pub log_file_name : String → ℕ → LogInfo → String
unfolding itoa
log_file_name today index info =
    if index == 0
    then info.path ++ (codes "/" ++ (info.prefix ++ (today ++ codes ".log")))
    else info.path
      ++ (codes "/"
          ++ (info.prefix ++ (today ++ (codes "_" ++ (itoa (pos index) ++ codes ".log")))))

-- The limit in bytes of a size in MB, 500 MB for one that is not positive.
abbrev pub max_size_of : ℤ → ℕ
max_size_of (pos zero) = 524288000
max_size_of (pos (suc n)) = suc n * 1024 * 1024
max_size_of (negsuc n) = 524288000

-- The two infos of `InitLog`, once the directories are there.
pub init_log : String → ℕ → ℤ → String → String → String → LogInfo × LogInfo
unfolding log_file_name
init_log today log_level max_size path_str prefix_str uni_path_str =
    let common : LogInfo = record {
      path = path_str;
      prefix = prefix_str;
      file_name = [];
      level = log_level;
      file_index = 0;
      log_max_size = max_size_of max_size;
    } in
    let uni : LogInfo = record {
      path = uni_path_str;
      prefix = codes "gamestatistic_" ++ prefix_str;
      file_name = [];
      level = 0;
      file_index = 0;
      log_max_size = max_size_of max_size;
    } in
    (
      record common { file_name = log_file_name today 0 common },
      record uni { file_name = log_file_name today 0 uni },
    )

-- A message appended to a file.
abbrev pub appended : String → ℕ → (String → ℕ) → String → ℕ
appended name n files f = if name =s f then files f + n else files f

-- The loop that looks for a file with room. None: the rounds do not suffice.
unfoldable pub rotate : ℕ → String → (String → ℕ) → LogInfo → Option LogInfo
unfolding log_file_name
rotate zero today files info = none
rotate (suc n) today files info =
    let rest = rotate n today files (record info {
      file_index = info.file_index + 1;
      file_name = log_file_name today (info.file_index + 1) info;
    }) in
    if leb info.log_max_size (files info.file_name) then rest else some info

-- The file of the day, from its first one on another day's name.
unfoldable pub choose_file : ℕ → String → (String → ℕ) → LogInfo → Option LogInfo
unfolding rotate log_file_name ◌=s◌
choose_file n today files info =
    if not (info.file_name =s log_file_name today 0 info)
    then some (record info { file_name = log_file_name today 0 info; file_index = 0 })
    else rotate n today files info

append_to : ℕ → (String → ℕ) → Option LogInfo → Option (LogInfo × (String → ℕ))
append_to size files none = none
append_to size files (some info) = some (info, appended info.file_name size files)

-- `writeLog` of a message of `size` bytes.
unfoldable pub write_log :
    ℕ → String → ℕ → ℕ → LogInfo × (String → ℕ) → Option (LogInfo × (String → ℕ))
unfolding choose_file append_to
write_log n today log_level size (info, files) =
    if ltb log_level info.level
    then some (info, files)
    else append_to size files (choose_file n today files info)

-- `specialWriteLog`: no level, and nothing without a path.
unfoldable pub special_write_log :
    ℕ → String → ℕ → LogInfo × (String → ℕ) → Option (LogInfo × (String → ℕ))
unfolding choose_file append_to
special_write_log n today size (info, files) = elim info.path [
  | [] ↦ some (info, files)
  | c ∷ cs ↦ append_to size files (choose_file n today files info)
]

-- What stands before a message of each level.
pub level_prefix : ℕ → String
level_prefix zero = codes "[TRACE] "
level_prefix (suc zero) = codes "[DEBUG] "
level_prefix (suc (suc zero)) = codes "[INFO] "
level_prefix (suc (suc (suc zero))) = codes "[WARN] "
level_prefix (suc (suc (suc (suc zero)))) = codes "[ERROR] "
level_prefix (suc (suc (suc (suc (suc n))))) = codes "[FATAL] "
