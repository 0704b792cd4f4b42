-- ===== src/Logger.antt =====
-- The log lines: src/include/logger/logger.hpp, src/include/logger/logger.impl.hpp,
-- src/include/logger/logger.params.hpp and src/include/ss_p2p/ss_logger.hpp. The times, as strftime formats
-- them, and which files can be opened are inputs. The mutex and the flag _is_muted, which nothing reads, are
-- left out.
pub mod Utils
pub mod Replace
pub mod Laws
mod Tests
use Prim.Native.Char.{code}
use Prim.Native.String.{String}
use ss_p2p_node_controller.Common.{
  ℕ, Bool, true, false, if◌then◌else◌, List, [], ◌∷◌, ◌++◌, Option, none, some, ◌>>=◌,
}
use ss_p2p_node_controller.Json.{Text}
use ss_p2p_node_controller.Endpoint.{Net, endpoint_to_str}
use ss_p2p_node_controller.Logger.Utils.{replace}

-- The characters of a literal.
abbrev pub codes : String → Text
codes String.[] = []
codes (String.◌∷◌ c s) = code c ∷ codes s

pub data LogLevel : Type 0 where
  emergency alert critical error warning notice info debug invalid : LogLevel

pub data FgColor : Type 0 where
  fg_reset fg_red fg_green fg_yellow fg_blue fg_magenta fg_grey : FgColor

pub data BgColor : Type 0 where
  bg_reset bg_red bg_green bg_yellow bg_blue bg_magenta bg_grey : BgColor

-- `\x1b`, the escape character.
abbrev pub escape : String → Text
escape s = 27 ∷ codes s

abbrev pub get_bg_color_code : BgColor → Text
get_bg_color_code bg_reset = escape "[0m"
get_bg_color_code bg_red = escape "[41m"
get_bg_color_code bg_green = escape "[42m"
get_bg_color_code bg_yellow = escape "[43m"
get_bg_color_code bg_blue = escape "[44m"
get_bg_color_code bg_magenta = escape "[45m"
get_bg_color_code bg_grey = escape "[46m"

abbrev pub get_fg_color_code : FgColor → Text
get_fg_color_code fg_reset = escape "[0m"
get_fg_color_code fg_red = escape "[31m"
get_fg_color_code fg_green = escape "[32m"
get_fg_color_code fg_yellow = escape "[33m"
get_fg_color_code fg_blue = escape "[34m"
get_fg_color_code fg_magenta = escape "[35m"
get_fg_color_code fg_grey = escape "[36m"

abbrev pub get_serity_str : LogLevel → Text
get_serity_str emergency = codes "EMERGENCY"
get_serity_str alert = codes "ALERT"
get_serity_str critical = codes "CRITICAL"
get_serity_str error = codes "ERROR"
get_serity_str warning = codes "WARNING"
get_serity_str notice = codes "NOTICE"
get_serity_str info = codes "INFO"
get_serity_str debug = codes "DEBUG"
get_serity_str invalid = []

-- The background, then the foreground.
abbrev pub get_serity_color_code : LogLevel → Text
get_serity_color_code emergency = get_bg_color_code bg_red
get_serity_color_code alert = get_bg_color_code bg_yellow
get_serity_color_code critical = get_bg_color_code bg_yellow ++ get_fg_color_code fg_red
get_serity_color_code error = get_fg_color_code fg_red
get_serity_color_code warning = get_fg_color_code fg_yellow
get_serity_color_code notice = []
get_serity_color_code info = get_fg_color_code fg_green
get_serity_color_code debug = get_fg_color_code fg_magenta
get_serity_color_code invalid = []

pub record Logger : Type 0 where
  pub logger_outfile_dir : Text
  pub logger_outfile_name : Text
  pub max_log_level : LogLevel
  pub custom_header : Text

abbrev pub new_logger : Logger
new_logger = record {
  logger_outfile_dir = codes ".";
  logger_outfile_name = codes "d_ss";
  max_log_level = debug;
  custom_header = [];
}

unfoldable pub set_max_log_level : LogLevel → Logger → Logger
set_max_log_level level l = record l { max_log_level = level }

unfoldable pub set_custom_header : Text → Logger → Logger
set_custom_header target l = record l { custom_header = target }

unfoldable pub set_logger_outfile_name : Text → Logger → Logger
set_logger_outfile_name target l = record l { logger_outfile_name = target }

-- The severity in a prefix, for the console in color.
abbrev pub shown_serity : LogLevel → Bool → Text
shown_serity ll is_graphical =
    if is_graphical
    then get_serity_color_code ll ++ (get_serity_str ll ++ escape "[39m")
    else get_serity_str ll

-- The formats of src/include/logger/logger.params.hpp.
abbrev pub prefix_format : Text
prefix_format = codes "[{TIME}][{SERITY}] {CUSTOM} "

abbrev pub outfile_format : Text
outfile_format = codes "{EXE}_{DATE}.log"

unfoldable pub get_prefix : Text → LogLevel → Bool → Logger → Option Text
unfolding replace
get_prefix time ll is_graphical l = do
  with_serity ← replace prefix_format (codes "{SERITY}") (shown_serity ll is_graphical)
  with_time ← replace with_serity (codes "{TIME}") time
  replace with_time (codes "{CUSTOM}") l.custom_header

-- The path that `get_log_ofs` opens.
unfoldable pub log_path : Text → Logger → Option Text
unfolding replace
log_path date l = do
  with_exe ← replace outfile_format (codes "{EXE}") l.logger_outfile_name
  name ← replace with_exe (codes "{DATE}") date
  some (l.logger_outfile_dir ++ (codes "/" ++ name))

-- Each argument with a space after it, and the end of the line.
abbrev pub line : List Text → Text
line [] = codes "\n"
line (a ∷ args) = a ++ (codes " " ++ line args)

-- What a call writes: to the console, to the error stream, and to the end of the file at a path.
pub record Written : Type 0 where
  pub console : Text
  pub errors : Text
  pub path : Text
  pub appended : Text

-- The times of the two prefixes, and the date of the file.
pub record Times : Type 0 where
  pub console_time : Text
  pub outfile_time : Text
  pub date : Text

-- A file that does not open takes nothing.
abbrev pub write_out : Bool → Text → Text → Text → Written
write_out opened path console_line outfile_line =
    if opened
    then record { console = console_line; errors = []; path = path; appended = outfile_line }
    else record {
      console = console_line;
      errors = codes "Error opening log file: " ++ (path ++ codes "\n");
      path = path;
      appended = [];
    }

unfoldable pub log : (Text → Bool) → Times → LogLevel → List Text → Logger → Option Written
unfolding get_prefix log_path
log can_open at ll args l = do
  console_prefix_str ← get_prefix at.console_time ll true l
  outfile_prefix_str ← get_prefix at.outfile_time ll false l
  path ← log_path at.date l
  some (
      write_out (can_open path) path (console_prefix_str ++ line args)
        (outfile_prefix_str ++ line args))

-- `ss_logger`: one logger for the system, one for the packets.
pub record SsLogger : Type 0 where
  pub logger : Logger
  pub packet_logger : Logger

pub data PacketDirection : Type 0 where
  incoming outgoing : PacketDirection

abbrev pub ss_header : Text
ss_header = codes "[SS_P2P]"

unfoldable pub new_ss_logger : SsLogger
unfolding set_custom_header set_logger_outfile_name
new_ss_logger = record {
  logger = set_custom_header ss_header new_logger;
  packet_logger =
      set_custom_header ss_header (set_logger_outfile_name (codes "ss_pakcet") new_logger);
}

unfoldable pub ss_log :
    (Text → Bool) → Times → LogLevel → List Text → SsLogger → Option (SsLogger × Written)
unfolding log set_custom_header
ss_log can_open at ll args s = do
  written ← log can_open at ll args s.logger
  let s' : SsLogger = record {
    logger = set_custom_header ss_header s.logger;
    packet_logger = set_custom_header ss_header s.packet_logger;
  }
  some (s', written)

abbrev pub direction_word : PacketDirection → Text
direction_word incoming = codes "(receive):"
direction_word outgoing = codes "(send):"

module _ {E A : Type 0} (net : Net E A) where
  unfoldable pub log_packet :
      (Text → Bool) → Times → LogLevel → PacketDirection → E → List Text → SsLogger → Option Written
  unfolding log endpoint_to_str
  log_packet can_open at ll pd ep args s =
      log can_open at ll (direction_word pd ∷ endpoint_to_str net ep ∷ args) s.packet_logger
