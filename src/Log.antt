-- ===== src/Log.antt =====
-- stdsc/stdsc_log.cpp and stdsc_log.hpp: the level of the log, which messages it lets through, and
-- the line that is printed for one. The text that `vsprintf` makes of a format and its arguments is an
-- argument, and the digits that a stream writes for an int are a parameter.
pub mod Levels
pub mod Lines
use stdsc.Base.{
  ℕ, ◌-◌, ◌+◌, ◌*◌, Bool, Option, none, some, if◌then◌else◌, [], ◌∷◌, ◌++◌, leb, length, drop,
  replicate,
}
use stdsc.Base.Int.{ℤ, pos, negsuc, ltb_ℤ, leb_ℤ}
use stdsc.Exec.{Result, ok, fault}
use stdsc.Packet.{Bytes}
use stdsc.Utility.{Host, getenv, isdigit, find_last_of, after}

-- LogLevel_t; levels that are not of the enumeration come from casts
abbrev pub level_info : ℤ
level_info = pos 2

abbrev pub level_debug : ℤ
level_debug = pos 4

abbrev pub level_num : ℤ
level_num = pos 5

-- STDSC_DEFAULT_LOG_LEVEL
abbrev pub default_level : ℤ
default_level = level_info

-- the level of a number in the environment
abbrev level_of : Option ℤ → Option ℤ
level_of none = none
level_of (some x) = some (if ltb_ℤ x level_num then x else negsuc 0)

abbrev or_default : Option ℤ → Option ℤ
or_default none = none
or_default (some level) = some (if ltb_ℤ level (pos 0) then default_level else level)

module _ {W : Type 0} (host : Host W) (level_env : Bytes) (stoi : Bytes → Option ℤ) where
  -- `none` is an exception of std::stoi. `level_env` is the name of the variable.
  unfoldable pub read_env : W → Option ℤ
  read_env w =
      let env_str = getenv host level_env w in
      if isdigit env_str then level_of (stoi env_str) else some (negsuc 0)

  -- Logger::get_instance: the level that it leaves the logger with
  unfoldable pub get_instance : W → Option ℤ
  unfolding read_env
  get_instance w = or_default (read_env w)

-- whether a message says where it comes from
abbrev pub shows_source : ℤ → Bool
shows_source current_level = leb_ℤ level_debug current_level

-- STDSC_LOG_MAX_LENGTH
abbrev pub max_length : ℕ
max_length = 1024 * 5

abbrev pub space : ℕ
space = 32

-- std::setw(width) << std::left, and std::right
abbrev pub left : ℕ → Bytes → Bytes
left width text = text ++ replicate (width - length text) space

abbrev pub right : ℕ → Bytes → Bytes
right width text = replicate (width - length text) space ++ text

-- what make_debuginfo erases up to
abbrev pub striped : Bytes → Bytes
striped source_file_name = drop (after (find_last_of 47 source_file_name)) source_file_name

-- Where a message comes from: the file, the function and the number of the line.
pub record Place : Type 0 where
  pub source_file_name : Bytes
  pub func_name : Bytes
  pub source_line_number : ℤ

module _ (print_int : ℤ → Bytes) where
  unfoldable pub make_debuginfo : Place → Bytes
  make_debuginfo place =
      left 24 (striped place.source_file_name)
      ++ (space ∷ [])
      ++ right 5 (print_int place.source_line_number)
      ++ (space ∷ [])
      ++ left 32 place.func_name
      ++ (space ∷ [])

  -- Logger::emit: `none` where it prints nothing, otherwise the line. The array takes a terminating
  -- zero after the message.
  unfoldable pub emit : ℤ → ℤ → Place → Bytes → Result (Option Bytes)
  unfolding make_debuginfo
  emit current_level level place message =
      if ltb_ℤ current_level level
      then ok none
      else if leb (length message + 1) max_length
      then ok (
          some (
            left 48 message
            ++ (if shows_source current_level then make_debuginfo place else [])
            ++ (10 ∷ [])))
      else fault

  -- STDSC_LOG; the logger is its level, and `none` where g_logger is null
  unfoldable pub log : Option ℤ → ℤ → Place → Bytes → Result (Option Bytes)
  unfolding emit
  log none level place message = ok none
  log (some current_level) level place message = emit current_level level place message

-- STDSC_SET_LOG_LEVEL
unfoldable pub set_level : ℤ → Option ℤ → Option ℤ
set_level level none = none
set_level level (some _) = some level
