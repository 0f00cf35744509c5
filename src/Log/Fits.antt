-- ===== src/Log/Fits.antt =====
-- The buffer of write_log has room for every format.
use keyless.Prelude.{
  ℕ, ◌+◌, ◌<◌, ◌≡◌, arith, none, some, List, [], ◌∷◌, ◌++◌, Bool, ◌&&◌, ◌||◌, not, lt→ltb, length,
  if◌then◌else◌, length-append,
}
use keyless.Log.{
  to_stdout, to_stderr, to_syslog_info, to_syslog_err, Line, Settings, name, strcat, to_syslog,
  write_log,
}

strcat-fits :
    (room : ℕ) (text more : List ℕ)
    → length text + length more < room
    → strcat room text more ≡ some (text ++ more)
unfolding strcat
strcat-fits room text more h = rw (lt→ltb (length text + length more) room h)

-- Which lines are logged.
abbrev pub is_logged : Settings → Bool → Bool → Bool
is_logged s malloc_ok e =
    (s.windows || (not s.silent || s.use_syslog)) && ((e || s.verbose) && malloc_ok)

-- The lines: an error goes to LOG_ERR or to stderr, and only a stream's line ends in a newline.
abbrev pub logged : Settings → Bool → List ℕ → Line
logged s e fmt =
    if to_syslog s
    then record { destination = if e then to_syslog_err else to_syslog_info; newfmt = name ++ fmt }
    else record {
      destination = if e then to_stderr else to_stdout;
      newfmt = (name ++ fmt) ++ 10 ∷ [];
    }

-- write_log never writes outside its buffer, for any format. Without the platform Windows, it logs
-- nothing if it is silent and has no syslog; on every platform it logs a message that is no error
-- only if it is verbose. Otherwise, with memory, it logs the name of the program and the format.
pub write_log-logged :
    (s : Settings) (malloc_ok e : Bool) (fmt : List ℕ)
    → write_log s malloc_ok e fmt
      ≡ some (if is_logged s malloc_ok e then some (logged s e fmt) else none)
unfolding write_log
write_log-logged s malloc_ok e fmt =
    rw
      (
        strcat-fits (length fmt + 1 + 14 + 1) [] name (omega arith),
        strcat-fits (length fmt + 1 + 14 + 1) name fmt (omega arith),
        strcat-fits (length fmt + 1 + 14 + 1) (name ++ fmt) (10 ∷ [])
            (omega (arith, length-append name fmt)),
      )
      (ground arith)
