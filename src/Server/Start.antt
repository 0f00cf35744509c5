-- ===== src/Server/Start.antt =====
-- keyless.c: what main does before it sets up OpenSSL, on platforms other than Windows.
pub mod Ends
pub mod Checked
pub mod Last
pub mod Naming
use keyless.Prelude.{
  ℕ, zero, suc, Option, none, some, List, [], ◌∷◌, Bool, true, false, ◌&&◌, ◌||◌, not,
  if◌then◌else◌,
}
use keyless.Server.Options.{
  Result, fault, exits, goes, ◌>>+◌, Account, Options, System, Given, defaults, scan, check_options,
}

-- What fopen, fprintf and fclose say of the pid file.
pub record PidAccess : Type 0 where
  pub open_ok : Bool
  pub print_ok : Bool
  pub close_ok : Bool

-- A file that was opened, and the pid that was printed into it.
pub record Written : Type 0 where
  pub pid_file : List ℕ
  pub pid : Option ℕ

unfoldable pub write_pid : PidAccess → Option (List ℕ) → ℕ → Bool → Result (Option Written)
write_pid fp none pid write = goes none
write_pid fp (some pid_file) pid write =
    if fp.open_ok && ((not write || fp.print_ok) && fp.close_ok)
    then goes (some (record { pid_file = pid_file; pid = if write then some pid else none }))
    else exits 1

-- The calls that give up the rights of root
pub data Call : Type 0 where
  setgid : ℕ → Call
  initgroups : List ℕ → ℕ → Call
  setuid : ℕ → Call

-- The process: what fork and getpid give, and whether a call succeeds.
pub record Process : Type 0 where
  pub fork : Option ℕ
  pub getpid : ℕ
  pub access : PidAccess
  pub succeeds : Call → Bool

-- The process that goes on writes the pid file, or, where it is forked, the process that forked it.
unfoldable pub fork_or_write : Process → Options → Result (Option Written)
unfolding write_pid
fork_or_write p o =
    if o.daemon && not o.test_mode
    then elim p.fork [
      | none ↦ exits 1
      | some zero ↦ goes none
      | some (suc n) ↦ write_pid p.access o.pid_file (suc n) (not o.test_mode) >>+ λ w. exits 0
    ]
    else write_pid p.access o.pid_file p.getpid (not o.test_mode)

-- One call after another, until one fails.
unfoldable pub call_all : Process → List Call → Result (List Call)
call_all p [] = goes []
call_all p (c ∷ cs) = elim (p.succeeds c) [
  | false ↦ exits 1
  | true ↦ call_all p cs >>+ λ done. goes (c ∷ done)
]

unfoldable pub switch_user : Process → Option Account → Result (List Call)
unfolding call_all
switch_user p none = goes []
switch_user p (some a) = call_all p (setgid a.gid ∷ initgroups a.user a.gid ∷ setuid a.uid ∷ [])

-- main, up to the set-up of OpenSSL: the options, the pid file, and the calls that were made.
pub record Started : Type 0 where
  pub options : Options
  pub written : Option Written
  pub calls : List Call

unfoldable pub start_main : System → Process → List Given → Result Started
unfolding scan check_options fork_or_write switch_user
start_main sys p argv = scan sys argv defaults >>+ λ o. check_options o >>+ λ o.
    fork_or_write p o >>+ λ w.
    switch_user p o.account >>+ λ calls. goes (record { options = o; written = w; calls = calls })
