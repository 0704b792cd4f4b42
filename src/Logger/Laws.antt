-- ===== src/Logger/Laws.antt =====
-- What log of src/include/logger/logger.impl.hpp writes.
use mathlib.Core.Option.{some-injective}
use ss_p2p_node_controller.Common.{
  if◌then◌else◌, bind-some, sym, ℕ, ◌≡◌, ◌≢◌, refl, ap, ◌∙◌, Bool, true, false, not, ◌&&◌, ◌==◌,
  List, [], ◌∷◌, ◌++◌, some,
}
use ss_p2p_node_controller.Json.{Text}
use ss_p2p_node_controller.Logger.Utils.{replace}
use ss_p2p_node_controller.Logger.Replace.{substitute, replace-substitute}
use ss_p2p_node_controller.Logger.{
  codes, LogLevel, emergency, alert, critical, error, warning, notice, info, debug, invalid, Logger,
  shown_serity, prefix_format, outfile_format, get_prefix, log_path, line, Written, Times,
  write_out, log, set_custom_header, set_logger_outfile_name, SsLogger, new_ss_logger, ss_log,
}

-- The code of an opening brace.
abbrev pub brace : ℕ
brace = 123

-- Whether a text has no opening brace.
abbrev pub is_plain : Text → Bool
is_plain [] = true
is_plain (c ∷ t) = not (brace == c) && is_plain t

and_true : (a b : Bool) → (not a && b) ≡ true → (a ≡ false) × (b ≡ true)
and_true true b h = absurd cc
and_true false b h = (refl, h)

substitute-plain :
    (p rpl_to t u : Text)
    → is_plain t ≡ true
    → substitute (brace ∷ p) rpl_to 0 (t ++ u) ≡ t ++ substitute (brace ∷ p) rpl_to 0 u
unfolding substitute
substitute-plain p rpl_to [] u h = refl
substitute-plain p rpl_to (c ∷ t) u h =
    let (other, rest) = and_true (brace == c) (is_plain t) h in
    rw other (ap (λ v. c ∷ v) (substitute-plain p rpl_to t u rest))

shown_serity_plain : (ll : LogLevel) (g : Bool) → is_plain (shown_serity ll g) ≡ true
shown_serity_plain emergency true = refl
shown_serity_plain emergency false = refl
shown_serity_plain alert true = refl
shown_serity_plain alert false = refl
shown_serity_plain critical true = refl
shown_serity_plain critical false = refl
shown_serity_plain error true = refl
shown_serity_plain error false = refl
shown_serity_plain warning true = refl
shown_serity_plain warning false = refl
shown_serity_plain notice true = refl
shown_serity_plain notice false = refl
shown_serity_plain info true = refl
shown_serity_plain info false = refl
shown_serity_plain debug true = refl
shown_serity_plain debug false = refl
shown_serity_plain invalid true = refl
shown_serity_plain invalid false = refl

-- A prefix with its placeholders filled.
abbrev pub filled_prefix : Text → Text → Text → Text
filled_prefix time serity header =
    codes "[" ++ (time ++ (codes "][" ++ (serity ++ (codes "] " ++ (header ++ codes " ")))))

abbrev pub filled_path : Text → Text → Text → Text
filled_path dir name date = dir ++ (codes "/" ++ (name ++ (codes "_" ++ (date ++ codes ".log"))))

abbrev after_serity : Text → Text
after_serity serity = codes "[{TIME}][" ++ (serity ++ codes "] {CUSTOM} ")

abbrev after_time : Text → Text → Text
after_time time serity = codes "[" ++ (time ++ (codes "][" ++ (serity ++ codes "] {CUSTOM} ")))

not_empty : (c : ℕ) (t : Text) → (c ∷ t) ≢ []
not_empty c t h = absurd cc

replace-serity : (x : Text) → replace prefix_format (codes "{SERITY}") x ≡ some (after_serity x)
unfolding substitute
replace-serity x = replace-substitute prefix_format (codes "{SERITY}") x (not_empty _ _)

replace-time :
    (x time : Text)
    → is_plain x ≡ true
    → replace (after_serity x) (codes "{TIME}") time ≡ some (after_time time x)
unfolding substitute
replace-time x time h =
    replace-substitute (after_serity x) (codes "{TIME}") time (not_empty _ _)
    ∙ rw (substitute-plain (codes "TIME}") time x (codes "] {CUSTOM} ") h) refl

replace-custom :
    (x time header : Text)
    → is_plain x ≡ true
    → is_plain time ≡ true
    → replace (after_time time x) (codes "{CUSTOM}") header ≡ some (filled_prefix time x header)
unfolding substitute
replace-custom x time header h plain =
    replace-substitute (after_time time x) (codes "{CUSTOM}") header (not_empty _ _)
    ∙ rw
        (
          substitute-plain (codes "CUSTOM}") header time (codes "][" ++ (x ++ codes "] {CUSTOM} "))
              plain,
          substitute-plain (codes "CUSTOM}") header x (codes "] {CUSTOM} ") h,
        )
        refl

get_prefix_lem :
    (time : Text) (ll : LogLevel) (g : Bool) (l : Logger)
    → is_plain time ≡ true
    → get_prefix time ll g l ≡ some (filled_prefix time (shown_serity ll g) l.custom_header)
unfolding get_prefix
get_prefix_lem time ll g l h =
    let plain = shown_serity_plain ll g in
    rw (replace-serity (shown_serity ll g), replace-time (shown_serity ll g) time plain)
      (replace-custom (shown_serity ll g) time l.custom_header plain h)

log_path_lem :
    (date : Text) (l : Logger)
    → is_plain l.logger_outfile_name ≡ true
    → log_path date l ≡ some (filled_path l.logger_outfile_dir l.logger_outfile_name date)
unfolding log_path substitute
log_path_lem date l h =
    rw
      (
        replace-substitute outfile_format (codes "{EXE}") l.logger_outfile_name (not_empty _ _),
        replace-substitute (l.logger_outfile_name ++ codes "_{DATE}.log") (codes "{DATE}") date
            (not_empty _ _),
        substitute-plain (codes "DATE}") date l.logger_outfile_name (codes "_{DATE}.log") h,
      )
      refl

write_out_lem :
    (b : Bool) (path c o : Text)
    → let w = write_out b path c o in
      (w.console ≡ c)
      × (w.path ≡ path)
      × (w.appended ≡ (if b then o else []))
      × (w.errors ≡ (if b then [] else codes "Error opening log file: " ++ (path ++ codes "\n")))
write_out_lem true path c o = (refl, refl, refl, refl)
write_out_lem false path c o = (refl, refl, refl, refl)

-- Let neither the two times nor the name of the file hold an opening brace. Then log returns. For every level,
-- also one beyond the maximum that was set, it writes the arguments to the console, each with a space after
-- it, after a prefix with the time, the level in its color and the header. It writes the same without the
-- color to the end of the file with the name and the date, or nothing there and an error if that does not
-- open.
pub log_lem :
    (can_open : Text → Bool) (at : Times) (ll : LogLevel) (args : List Text) (l : Logger)
    → is_plain at.console_time ≡ true
    → is_plain at.outfile_time ≡ true
    → is_plain l.logger_outfile_name ≡ true
    → let path = filled_path l.logger_outfile_dir l.logger_outfile_name at.date in
      (w : Written) × (log can_open at ll args l ≡ some w)
      × (w.console
          ≡ filled_prefix at.console_time (shown_serity ll true) l.custom_header ++ line args)
      × (w.path ≡ path)
      × (w.appended ≡ (
          if can_open path
          then filled_prefix at.outfile_time (shown_serity ll false) l.custom_header ++ line args
          else []))
      × (w.errors ≡ (
          if can_open path then [] else codes "Error opening log file: " ++ (path ++ codes "\n")))
unfolding log
log_lem can_open at ll args l h g n =
    let path = filled_path l.logger_outfile_dir l.logger_outfile_name at.date in
    let console_line =
      filled_prefix at.console_time (shown_serity ll true) l.custom_header ++ line args in
    let outfile_line =
      filled_prefix at.outfile_time (shown_serity ll false) l.custom_header ++ line args in
    let (shown, at_path, appended, errors) =
      write_out_lem (can_open path) path console_line outfile_line in
    (
      write_out (can_open path) path console_line outfile_line,
      rw
          (
            get_prefix_lem at.console_time ll true l h,
            get_prefix_lem at.outfile_time ll false l g,
            log_path_lem at.date l n,
          )
          refl,
      shown,
      at_path,
      appended,
      errors,
    )

-- Logging leaves the two loggers as the constructor made them.
ss_log_keeps :
    (can_open : Text → Bool) (at : Times) (ll : LogLevel) (args : List Text) (s : SsLogger)
    (w : Written)
    → ss_log can_open at ll args new_ss_logger ≡ some (s, w)
    → s ≡ new_ss_logger
unfolding ss_log new_ss_logger set_custom_header set_logger_outfile_name
ss_log_keeps can_open at ll args s w h =
    let (w', logged, e) = bind-some (log can_open at ll args new_ss_logger.logger) _ _ h in
    ap (λ r. r.0) (sym (some-injective _ _ e))
