-- ===== src/Log.antt =====
-- kssl_log.c: write_log.
pub mod Fits
use keyless.Prelude.{
  ℕ, ◌+◌, Option, none, some, List, [], ◌∷◌, ◌++◌, Bool, true, false, ◌&&◌, not, ltb, length,
  if◌then◌else◌,
}
use keyless.Protocol.{◌>>=◌}

pub data Destination : Type 0 where
  to_stdout to_stderr to_syslog_info to_syslog_err : Destination

-- What is given to vfprintf or vsyslog: the format, without the 0 at its end.
pub record Line : Type 0 where
  pub destination : Destination
  pub newfmt : List ℕ

-- The globals; `windows` is PLATFORM_WINDOWS.
pub record Settings : Type 0 where
  pub windows : Bool
  pub silent : Bool
  pub verbose : Bool
  pub use_syslog : Bool

-- "[kssl_server] "
abbrev pub name : List ℕ
name = 91 ∷ 107 ∷ 115 ∷ 115 ∷ 108 ∷ 95 ∷ 115 ∷ 101 ∷ 114 ∷ 118 ∷ 101 ∷ 114 ∷ 93 ∷ 32 ∷ []

-- strcpy and strcat into a buffer of `room` bytes; it must have room for the 0 too.
unfoldable pub strcat : ℕ → List ℕ → List ℕ → Option (List ℕ)
strcat room text more = if ltb (length text + length more) room then some (text ++ more) else none

abbrev pub to_syslog : Settings → Bool
to_syslog s = not s.windows && s.use_syslog

-- The inner `none` says that nothing is logged. `malloc_ok` is for the new format.
unfoldable pub write_log : Settings → Bool → Bool → List ℕ → Option (Option Line)
unfolding strcat
write_log s malloc_ok e fmt =
    if not s.windows && (s.silent && not s.use_syslog)
    then some none
    else if not e && not s.verbose
    then some none
    else if not malloc_ok
    then some none
    else (strcat (length fmt + 1 + length name + 1) [] name >>= λ text.
        strcat (length fmt + 1 + length name + 1) text fmt >>= λ text.
        if to_syslog s
        then some (
            some
              (record { destination = if e then to_syslog_err else to_syslog_info; newfmt = text }))
        else (strcat (length fmt + 1 + length name + 1) text (10 ∷ []) >>= λ text.
            some
              (some (record { destination = if e then to_stderr else to_stdout; newfmt = text }))))
