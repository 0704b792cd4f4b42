-- ===== src/Logger/Tests.antt =====
-- Concrete log lines of src/include/logger/logger.impl.hpp and src/include/ss_p2p/ss_logger.hpp.
use ss_p2p_node_controller.Common.{
  if◌then◌else◌, ◌≡◌, ◌≢◌, refl, Bool, true, false, List, [], ◌∷◌, ◌++◌, some,
}
use ss_p2p_node_controller.Json.{Text}
use ss_p2p_node_controller.Logger.Utils.{replace, replace_loop, find_from, first}
use ss_p2p_node_controller.Logger.Replace.{substitute, replace-substitute}
use ss_p2p_node_controller.Logger.Laws.{filled_prefix, filled_path, log_lem}
use ss_p2p_node_controller.Logger.{
  codes, escape, info, critical, Logger, new_logger, set_custom_header, shown_serity, get_prefix,
  log_path, line, Written, Times, log, new_ss_logger, set_logger_outfile_name,
}

abbrev noon : Times
noon = record {
  console_time = codes "12:00:00";
  outfile_time = codes "12:00:01";
  date = codes "2024_05_06";
}

-- An occurrence that the replacement makes is not replaced.
replace_test : replace (codes "aabab") (codes "ab") (codes "xab") ≡ some (codes "axabxab")
unfolding replace replace_loop find_from first
replace_test = refl

ab_not_empty : codes "ab" ≢ []
ab_not_empty h = absurd cc

replace-substitute_example :
    replace (codes "aabab") (codes "ab") (codes "b")
    ≡ some (substitute (codes "ab") (codes "b") 0 (codes "aabab"))
replace-substitute_example =
    replace-substitute (codes "aabab") (codes "ab") (codes "b") ab_not_empty

-- A critical line, although the maximum is below its level.
abbrev quiet : Logger
quiet = record new_logger { max_log_level = critical; custom_header = codes "[SS_P2P]" }

abbrev start_args : List Text
start_args = codes "(@node_controller)" ∷ codes "start" ∷ []

abbrev always : Text → Bool
always path = true

log_test :
    log always noon info start_args quiet
    ≡ some (record {
      console =
          codes "[12:00:00]["
          ++ (escape "[32mINFO"
              ++ (escape "[39m] " ++ codes "[SS_P2P] (@node_controller) start \n"));
      errors = [];
      path = codes "./d_ss_2024_05_06.log";
      appended = codes "[12:00:01][INFO] [SS_P2P] (@node_controller) start \n";
    })
unfolding log get_prefix log_path replace replace_loop find_from first
log_test = refl

log_lem_example :
    let path = filled_path (codes ".") (codes "d_ss") noon.date in
    (w : Written) × (log always noon info start_args quiet ≡ some w)
    × (w.console
        ≡ filled_prefix noon.console_time (shown_serity info true) (codes "[SS_P2P]")
          ++ line start_args)
    × (w.path ≡ path)
    × (w.appended ≡ (
        if always path
        then filled_prefix noon.outfile_time (shown_serity info false) (codes "[SS_P2P]")
          ++ line start_args
        else []))
    × (w.errors
        ≡ (if always path then [] else codes "Error opening log file: " ++ (path ++ codes "\n")))
log_lem_example = log_lem always noon info start_args quiet refl refl refl

-- The lines of the system do not go to a file with the name "ss_system".
ss_path_test : log_path noon.date new_ss_logger.logger ≡ some (codes "./d_ss_2024_05_06.log")
unfolding log_path replace replace_loop find_from first new_ss_logger set_custom_header
    set_logger_outfile_name
ss_path_test = refl
