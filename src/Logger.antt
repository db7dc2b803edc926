-- ===== src/Logger.antt =====
-- logger/logger.go: the loggers of the program's parts, and the syslog connections that they open.
pub mod Writers
mod Tests
use rabbit_mtcp_ws_socks.Prelude.{
  subst, ℕ, zero, suc, ◌+◌, ◌-◌, ◌*◌, ◌/◌, ◌%◌, ◌^◌, ◌≤◌, ◌<◌, min, max, ◌≡◌, refl, sym, ap, ◌∙◌,
  ◌≢◌, ◌↔◌, ◌⊎◌, inl, inr, Bool, true, false, not, ◌&&◌, ◌||◌, Option, none, some, List, [], ◌∷◌,
  ◌++◌, map, append-nil, append_assoc, arith, ltb, leb, ◌==◌, if◌then◌else◌, ltb→lt, lt→ltb, ltb→le,
  le→ltb, ==→eq, ==→ne, eq→==, ne→==, Bool-cases, Option-cases, Result, ok, err, Result-cases,
  length, take, drop, replicate, get_or, set, All, length-append, take-append-drop, length-take,
  length-drop, length-replicate, take-append, drop-append, take_all, drop_all, drop-nil, drop-drop,
  All-append, drop-take, take-min,
}
use rabbit_mtcp_ws_socks.Prelude.Strings.{codes}
use rabbit_mtcp_ws_socks.Config.{ℤ, pos, negsuc}

abbrev pub log_level_fatal : ℕ
log_level_fatal = 1

abbrev pub log_level_error : ℕ
log_level_error = 2

abbrev pub log_level_warn : ℕ
log_level_warn = 3

abbrev pub log_level_info : ℕ
log_level_info = 4

abbrev pub log_level_info_a : ℕ
log_level_info_a = 5

abbrev pub log_level_debug : ℕ
log_level_debug = 6

pub record Line : Type 0 where
  pub prefix : List ℕ
  pub text : List ℕ

-- The package's variables and what the process has put out: its syslog writers are numbered as they
-- are opened.
pub record Process : Type 0 where
  pub level : ℤ
  pub use_syslog : Bool
  pub syslog_writer : Option ℕ
  pub opened : ℕ
  pub closed : List ℕ
  pub stdout : List Line
  pub syslog : List (ℕ × Line)

pub record Logger : Type 0 where
  pub prefix : List ℕ
  pub level : ℤ
  pub writer : Option ℕ

-- `NewLogger`; it ends the process, none, where the syslog daemon cannot be reached.
unfoldable pub new_logger : (reachable : Bool) → List ℕ → Process → Option (Logger × Process)
new_logger reachable prefix p =
    if p.use_syslog
    then (if reachable
        then some (
          record { prefix = prefix; level = p.level; writer = some p.opened },
          record p { syslog_writer = some p.opened; opened = suc p.opened },
        )
        else none)
    else some (record { prefix = prefix; level = p.level; writer = none }, p)

-- `CloseSyslog`.
unfoldable pub close_syslog : Process → Process
close_syslog p = elim p.syslog_writer [
  | none ↦ p
  | some w ↦ record p { closed = p.closed ++ (w ∷ []) }
]

abbrev pub also_syslog : Option ℕ → Line → Process → Process
also_syslog none line p = p
also_syslog (some w) line p = record p { syslog = p.syslog ++ ((w, line) ∷ []) }

-- `Logln`, and `Logf` with the text that its format makes.
pub logln : Logger → List ℕ → Process → Process
logln l v p =
    let line : Line = record { prefix = l.prefix; text = v } in
    also_syslog l.writer line (record p { stdout = p.stdout ++ (line ∷ []) })

abbrev pub enough : ℤ → ℕ → Bool
enough (pos n) level = leb level n
enough (negsuc n) level = false

-- The methods of each level, with "ln" and with a format.
pub debugln : Logger → List ℕ → Process → Process
debugln l v p = if enough l.level log_level_debug then logln l (codes "[Debug] " ++ v) p else p

pub info_aln : Logger → List ℕ → Process → Process
info_aln l v p = if enough l.level log_level_info_a then logln l (codes "[Info] " ++ v) p else p

pub infoln : Logger → List ℕ → Process → Process
infoln l v p = if enough l.level log_level_info then logln l (codes "[Info] " ++ v) p else p

pub warnln : Logger → List ℕ → Process → Process
warnln l v p = if enough l.level log_level_warn then logln l (codes "[Warn] " ++ v) p else p

pub errorln : Logger → List ℕ → Process → Process
errorln l v p = if enough l.level log_level_error then logln l (codes "[Error] " ++ v) p else p

pub fatalln : Logger → List ℕ → Process → Process
fatalln l v p = if enough l.level log_level_fatal then logln l (codes "[Fatal] " ++ v) p else p
