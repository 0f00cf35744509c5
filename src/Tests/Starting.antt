-- ===== src/Tests/Starting.antt =====
-- Loading keys from two files.
use keyless.Prelude.{arith, ltb, ◌-◌, if◌then◌else◌, none, ℕ, ◌≡◌, refl, some, List, [], ◌∷◌, true}
use keyless.Keys.{PkList, get_ski, digest_public_key, digest_by_type, is_sound}
use keyless.Keys.Free.{Frees}
use keyless.Server.{KeyFile, KeyFolder, Loading, loaded, load_private_keys, sighup_cb}
use keyless.Server.Success.{IsGood, load_private_keys-loads}
use keyless.Server.Loaded.{HasKeys, Loaded, load_private_keys-Loaded, sighup_cb-Reloads}
use keyless.Server.Options.{
  ℤ, pos, negsuc, goes, Given, server_cert, server_key, ca_file, private_key_directory, num_workers,
  user, pid_file, Options, System, defaults, scan, take_option, find_account, find_group,
  split_colon, group_of, read_workers, check_options, bad_workers,
}
use keyless.Server.Start.{
  Process, setgid, initgroups, setuid, Started, start_main, fork_or_write, write_pid, switch_user,
  call_all,
}
use keyless.Server.Start.Checked.{IsStarted, start_main-IsStarted}
use keyless.Server.Start.Last.{Takes, last, scan-Takes}
use keyless.Server.Start.Naming.{Forms, find_account-Forms}
use keyless.Server.Handles.{written}
use keyless.Tests.Sample.{toy, toy-OpensslLaws, two_keys, two_keys-IsValid}

abbrev file_of : ℕ → KeyFile
file_of k = record { bio = true; content = some (k ∷ 10 ∷ []) }

abbrev two_files : KeyFolder
two_files = record {
  pattern_ok = true;
  globbed = some (file_of 1 ∷ file_of 2 ∷ []);
  header_ok = true;
  array_ok = true;
}

one-IsGood : IsGood toy (file_of 1)
unfolding get_ski digest_public_key digest_by_type is_sound
one-IsGood = record {
  bio = refl;
  bytes = 1 ∷ 10 ∷ [];
  opens = refl;
  key = 1;
  reads = refl;
  sound = refl;
  ski = _;
  has_ski = refl;
  digest = _;
  has_digest = refl;
}

two-IsGood : IsGood toy (file_of 2)
unfolding get_ski digest_public_key digest_by_type is_sound
two-IsGood = record {
  bio = refl;
  bytes = 2 ∷ 10 ∷ [];
  opens = refl;
  key = 2;
  reads = refl;
  sound = refl;
  ski = _;
  has_ski = refl;
  digest = _;
  has_digest = refl;
}

load_private_keys-loads_example :
    (list : PkList toy) × (load_private_keys toy two_files ≡ loaded list)
    × HasKeys toy two_files list
load_private_keys-loads_example =
    load_private_keys-loads toy toy-OpensslLaws two_files (file_of 1) (file_of 2 ∷ []) refl refl
      refl refl (one-IsGood, (two-IsGood, tt))

load_private_keys-Loaded_example : Loaded toy two_files (load_private_keys toy two_files)
load_private_keys-Loaded_example = load_private_keys-Loaded toy toy-OpensslLaws two_files

sighup_cb-Reloads_example :
    (ks : List ℕ) × (l : Loading toy) × (sighup_cb toy two_files (some two_keys) ≡ some (ks, l))
    × Frees toy two_keys 0 ks
    × Loaded toy two_files l
sighup_cb-Reloads_example =
    sighup_cb-Reloads toy toy-OpensslLaws two_files two_keys two_keys-IsValid

abbrev atoi_digit : List ℕ → ℤ
atoi_digit [] = pos 0
atoi_digit (c ∷ cs) = if ltb c 48 then negsuc 0 else pos (c - 48)

-- A system with one user and one group, and numbers of one digit
abbrev small_system : System
small_system = record {
  atoi = atoi_digit;
  inet_pton = λ a. none;
  geteuid = 0;
  getpwnam = λ n. some 1000;
  getgrnam = λ n. some 100;
}

abbrev process : Process
process = record {
  fork = some 0;
  getpid = 7;
  access = record { open_ok = true; print_ok = true; close_ok = true };
  succeeds = λ c. true;
}

-- "k"
abbrev keyless_user : List ℕ
keyless_user = 107 ∷ []

abbrev command_line : List Given
command_line =
    server_cert (97 ∷ [])
    ∷ server_key (98 ∷ [])
    ∷ ca_file (99 ∷ [])
    ∷ private_key_directory (100 ∷ [])
    ∷ num_workers (some (50 ∷ []))
    ∷ user keyless_user
    ∷ pid_file (101 ∷ [])
    ∷ num_workers (some (52 ∷ []))
    ∷ []

abbrev scanned : Options
scanned = record defaults {
  server_cert = some (97 ∷ []);
  server_key = some (98 ∷ []);
  ca_file = some (99 ∷ []);
  private_key_directory = some (100 ∷ []);
  num_workers = pos 4;
  pid_file = some (101 ∷ []);
  account = some (record { user = keyless_user; group = keyless_user; uid = 1000; gid = 100 });
}

command_line-scanned : scan small_system command_line defaults ≡ goes scanned
unfolding scan take_option find_account find_group split_colon group_of read_workers
command_line-scanned = refl

abbrev started : Started
started = record {
  options = scanned;
  written = some (record { pid_file = 101 ∷ []; pid = some 7 });
  calls = setgid 100 ∷ initgroups keyless_user 100 ∷ setuid 1000 ∷ [];
}

command_line-started : start_main small_system process command_line ≡ goes started
unfolding start_main scan take_option find_account find_group split_colon group_of read_workers
    check_options bad_workers fork_or_write write_pid switch_user call_all
command_line-started = refl

scan-Takes_example : Takes small_system (λ A sel. last sel command_line) defaults scanned
scan-Takes_example = scan-Takes small_system command_line defaults scanned command_line-scanned

start_main-IsStarted_example : IsStarted small_system process command_line started
start_main-IsStarted_example =
    start_main-IsStarted small_system process command_line started command_line-started

find_account-Forms_example : Forms small_system refl keyless_user (114 ∷ []) 1000
find_account-Forms_example =
    find_account-Forms small_system refl keyless_user 114 [] 1000 (omega arith, tt) refl
