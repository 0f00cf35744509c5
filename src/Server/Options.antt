-- ===== src/Server/Options.antt =====
-- keyless.c: what main reads from the command line, on platforms other than Windows.
use keyless.Prelude.{
  ℕ, Option, none, some, List, [], ◌∷◌, Bool, true, false, ltb, leb, ◌||◌, ◌==◌, if◌then◌else◌,
}

-- An int
pub data ℤ : Type 0 where
  pos : ℕ → ℤ
  negsuc : ℕ → ℤ

-- How a part of main ends: a NULL that is followed is a fault, exit has a code, or main goes on.
pub data Result {ℓ} (A : Type ℓ) : Type ℓ where
  fault : Result A
  exits : ℕ → Result A
  goes : A → Result A

infixl 5 ◌>>+◌
abbrev pub ◌>>+◌ {ℓ κ} : {A : Type ℓ} {B : Type κ} → Result A → (A → Result B) → Result B
fault >>+ f = fault
exits n >>+ f = exits n
goes a >>+ f = f a

-- What getopt_long returns before -1, with optarg.
pub data Given : Type 0 where
  unknown silent verbose help daemon syslog version test : Given
  port server_cert server_key private_key_directory ca_file pid_file ip user : List ℕ → Given
  num_workers : Option (List ℕ) → Given

-- The --user option as it was taken apart, and the two IDs
pub record Account : Type 0 where
  pub user : List ℕ
  pub group : List ℕ
  pub uid : ℕ
  pub gid : ℕ

-- The variables that the options set; `account` is none while usergroup is 0.
pub record Options : Type 0 where
  pub port : ℤ
  pub server_cert : Option (List ℕ)
  pub server_key : Option (List ℕ)
  pub private_key_directory : Option (List ℕ)
  pub ca_file : Option (List ℕ)
  pub pid_file : Option (List ℕ)
  pub silent : Bool
  pub verbose : Bool
  pub use_syslog : Bool
  pub num_workers : ℤ
  pub help : Bool
  pub address : ℕ
  pub account : Option Account
  pub daemon : Bool
  pub test_mode : Bool

abbrev pub defaults : Options
defaults = record {
  port = pos 2407;
  server_cert = none;
  server_key = none;
  private_key_directory = none;
  ca_file = none;
  pid_file = none;
  silent = false;
  verbose = false;
  use_syslog = false;
  num_workers = pos 1;
  help = false;
  address = 0;
  account = none;
  daemon = false;
  test_mode = false;
}

-- The functions of the C library that main calls for the options
pub record System : Type 0 where
  pub atoi : List ℕ → ℤ
  pub inet_pton : List ℕ → Option ℕ
  pub geteuid : ℕ
  pub getpwnam : List ℕ → Option ℕ
  pub getgrnam : List ℕ → Option ℕ

-- strstr of ":", and the two parts where there is one
unfoldable pub split_colon : List ℕ → List ℕ × Option (List ℕ)
split_colon [] = ([], none)
split_colon (c ∷ cs) =
    let rest = split_colon cs in if c == 58 then ([], some cs) else (c ∷ rest.0, rest.1)

-- `group` once the option is taken apart
unfoldable pub group_of : List ℕ × Option (List ℕ) → Option (List ℕ)
group_of (name, none) = some name
group_of (name, some []) = none
group_of (name, some (c ∷ cs)) = some (c ∷ cs)

module _ (sys : System) where
  -- getgrnam of NULL is a fault.
  unfoldable pub find_group : List ℕ → ℕ → Option (List ℕ) → Result Account
  find_group name uid none = fault
  find_group name uid (some group) = elim (sys.getgrnam group) [
    | none ↦ exits 1
    | some gid ↦ goes (record { user = name; group = group; uid = uid; gid = gid })
  ]

  unfoldable pub find_account : List ℕ → Result Account
  unfolding find_group split_colon group_of
  find_account optarg = elim (sys.geteuid == 0) [
    | false ↦ exits 1
    | true ↦ elim (sys.getpwnam (split_colon optarg).0) [
      | none ↦ exits 1
      | some uid ↦ find_group (split_colon optarg).0 uid (group_of (split_colon optarg))
    ]
  ]

  -- atoi of the NULL that an argument left out gives is a fault.
  unfoldable pub read_workers : Option (List ℕ) → Result ℤ
  read_workers none = fault
  read_workers (some optarg) = goes (sys.atoi optarg)

  -- inet_pton is asked for an IPv4 address.
  unfoldable pub read_address : List ℕ → Result ℕ
  read_address optarg = elim (sys.inet_pton optarg) [ none ↦ exits 1 | some a ↦ goes a ]

  -- The switch over the options
  unfoldable pub take_option : Given → Options → Result Options
  unfolding find_account read_workers read_address
  take_option unknown o = exits 1
  take_option (port a) o = goes (record o { port = sys.atoi a })
  take_option (server_cert a) o = goes (record o { server_cert = some a })
  take_option (server_key a) o = goes (record o { server_key = some a })
  take_option (private_key_directory a) o = goes (record o { private_key_directory = some a })
  take_option (ca_file a) o = goes (record o { ca_file = some a })
  take_option silent o = goes (record o { silent = true })
  take_option verbose o = goes (record o { verbose = true })
  take_option (pid_file a) o = goes (record o { pid_file = some a })
  take_option (num_workers a) o = read_workers a >>+ λ n. goes (record o { num_workers = n })
  take_option help o = goes (record o { help = true })
  take_option (ip a) o = read_address a >>+ λ n. goes (record o { address = n })
  take_option (user a) o = find_account a >>+ λ x. goes (record o { account = some x })
  take_option daemon o = goes (record o { daemon = true })
  take_option syslog o = goes (record o { use_syslog = true })
  take_option version o = exits 1
  take_option test o = goes (record o { test_mode = true })

  -- The loop over the options
  unfoldable pub scan : List Given → Options → Result Options
  unfolding take_option
  scan [] o = goes o
  scan (g ∷ gs) o = take_option g o >>+ λ o. scan gs o

-- `num_workers <= 0 || num_workers > MAX_WORKERS`
unfoldable pub bad_workers : ℤ → Bool
bad_workers (pos n) = leb n 0 || ltb 32 n
bad_workers (negsuc n) = true

abbrev pub is_null : Option (List ℕ) → Bool
is_null none = true
is_null (some s) = false

-- The tests that follow the loop; each one that fails ends the program with code 1.
unfoldable pub check_options : Options → Result Options
unfolding bad_workers
check_options o =
    if o.help
    then exits 1
    else if is_null o.server_cert
    then exits 1
    else if is_null o.server_key
    then exits 1
    else if is_null o.ca_file
    then exits 1
    else if is_null o.private_key_directory
    then exits 1
    else if bad_workers o.num_workers
    then exits 1
    else goes o
