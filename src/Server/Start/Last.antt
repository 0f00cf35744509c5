-- ===== src/Server/Start/Last.antt =====
-- The loop over the options: the last of an option's values counts.
use keyless.Prelude.{ℕ, ◌≡◌, ◌∙◌, refl, sym, ap, Bool, true, Option, none, some, List, [], ◌∷◌}
use mathlib.Core.Path.{subst}
use keyless.Server.Options.{
  ℤ, Result, exits, goes, Given, unknown, silent, verbose, help, daemon, syslog, test, Account,
  version, server_cert, server_key, private_key_directory, ca_file, pid_file, ip, user, num_workers,
  port, Options, System, take_option, scan, find_account, read_workers, read_address,
}
use keyless.Server.Start.Ends.{goes_inj, >>+-goes}

abbrev pub later : {A : Type 0} → Option A → Option A → Option A
later none a = a
later (some x) a = some x

-- The last value that is given, if there is one
unfoldable pub last : {A : Type 0} → (Given → Option A) → List Given → Option A
last sel [] = none
last sel (g ∷ gs) = later (last sel gs) (sel g)

abbrev pub or_else : {A : Type 0} → Option A → A → A
or_else none a = a
or_else (some x) a = x

abbrev pub cert_in : Given → Option (Option (List ℕ))
cert_in (server_cert a) = some (some a)
cert_in _ = none

abbrev pub key_in : Given → Option (Option (List ℕ))
key_in (server_key a) = some (some a)
key_in _ = none

abbrev pub folder_in : Given → Option (Option (List ℕ))
folder_in (private_key_directory a) = some (some a)
folder_in _ = none

abbrev pub ca_in : Given → Option (Option (List ℕ))
ca_in (ca_file a) = some (some a)
ca_in _ = none

abbrev pub pid_in : Given → Option (Option (List ℕ))
pid_in (pid_file a) = some (some a)
pid_in _ = none

abbrev pub silent_in : Given → Option Bool
silent_in silent = some true
silent_in _ = none

abbrev pub verbose_in : Given → Option Bool
verbose_in verbose = some true
verbose_in _ = none

abbrev pub syslog_in : Given → Option Bool
syslog_in syslog = some true
syslog_in _ = none

abbrev pub help_in : Given → Option Bool
help_in help = some true
help_in _ = none

abbrev pub daemon_in : Given → Option Bool
daemon_in daemon = some true
daemon_in _ = none

abbrev pub test_in : Given → Option Bool
test_in test = some true
test_in _ = none

-- An account that find_account comes to
abbrev pub named : Result Account → Option (Option Account)
named (goes a) = some (some a)
named _ = none

module _ (sys : System) where
  abbrev pub port_in : Given → Option ℤ
  port_in (port a) = some (sys.atoi a)
  port_in _ = none

  abbrev pub workers_in : Given → Option ℤ
  workers_in (num_workers (some a)) = some (sys.atoi a)
  workers_in _ = none

  -- The IPv4 address that inet_pton reads
  abbrev pub address_in : Given → Option ℕ
  address_in (ip a) = sys.inet_pton a
  address_in _ = none

  abbrev pub account_in : Given → Option (Option Account)
  account_in (user a) = named (find_account sys a)
  account_in _ = none

  -- Some values of options, from which `o'` is taken, and else from `o`.
  abbrev pub Takes : ((A : Type 0) → (Given → Option A) → Option A) → Options → Options → Type 0
  Takes pick o o' =
      (o'.server_cert ≡ or_else (pick (Option (List ℕ)) cert_in) o.server_cert)
      × (o'.server_key ≡ or_else (pick (Option (List ℕ)) key_in) o.server_key)
      × (o'.private_key_directory
          ≡ or_else (pick (Option (List ℕ)) folder_in) o.private_key_directory)
      × (o'.ca_file ≡ or_else (pick (Option (List ℕ)) ca_in) o.ca_file)
      × (o'.pid_file ≡ or_else (pick (Option (List ℕ)) pid_in) o.pid_file)
      × (o'.port ≡ or_else (pick ℤ port_in) o.port)
      × (o'.num_workers ≡ or_else (pick ℤ workers_in) o.num_workers)
      × (o'.silent ≡ or_else (pick Bool silent_in) o.silent)
      × (o'.verbose ≡ or_else (pick Bool verbose_in) o.verbose)
      × (o'.use_syslog ≡ or_else (pick Bool syslog_in) o.use_syslog)
      × (o'.help ≡ or_else (pick Bool help_in) o.help)
      × (o'.daemon ≡ or_else (pick Bool daemon_in) o.daemon)
      × (o'.test_mode ≡ or_else (pick Bool test_in) o.test_mode)
      × (o'.address ≡ or_else (pick ℕ address_in) o.address)
      × (o'.account ≡ or_else (pick (Option Account) account_in) o.account)

  read_address-goes : (n : List ℕ) (a : ℕ) → read_address sys n ≡ goes a → sys.inet_pton n ≡ some a
  unfolding read_address
  read_address-goes n a h = go (sys.inet_pton n) h
    where
      go : (r : Option ℕ) → elim r [ none ↦ exits 1 | some x ↦ goes x ] ≡ goes a → r ≡ some a
      go none h = cc
      go (some x) h = ap some (goes_inj h)

  take_option-Takes :
      (g : Given) (o o' : Options) → take_option sys g o ≡ goes o' → Takes (λ A sel. sel g) o o'
  unfolding take_option read_workers
  take_option-Takes unknown o o' h = cc
  take_option-Takes version o o' h = cc
  take_option-Takes (num_workers none) o o' h = cc
  take_option-Takes (num_workers (some n)) o o' h =
      subst (Takes (λ A sel. sel (num_workers (some n))) o) (goes_inj h)
        (refl, refl, refl, refl, refl, refl, refl, refl, refl, refl, refl, refl, refl, refl, refl)
  take_option-Takes (ip n) o o' h =
      let (a, g, e) = >>+-goes (read_address sys n) _ o' h in
      let is : sys.inet_pton n ≡ some a = read_address-goes n a g in
      subst (Takes (λ A sel. sel (ip n)) o) (goes_inj e) (
        refl,
        refl,
        refl,
        refl,
        refl,
        refl,
        refl,
        refl,
        refl,
        refl,
        refl,
        refl,
        refl,
        ap (λ x. or_else x o.address) (sym is),
        refl,
      )
  take_option-Takes (user n) o o' h =
      let (x, f, e) = >>+-goes (find_account sys n) _ o' h in
      subst (Takes (λ A sel. sel (user n)) o) (goes_inj e) (
        refl,
        refl,
        refl,
        refl,
        refl,
        refl,
        refl,
        refl,
        refl,
        refl,
        refl,
        refl,
        refl,
        refl,
        ap (λ r. or_else (named r) o.account) (sym f),
      )
  take_option-Takes g o o' h =
      subst (Takes (λ A sel. sel g) o) (goes_inj h)
        (refl, refl, refl, refl, refl, refl, refl, refl, refl, refl, refl, refl, refl, refl, refl)

  or_else-later :
      {A : Type 0} (l s : Option A) (x y z : A)
      → y ≡ or_else s x
      → z ≡ or_else l y
      → z ≡ or_else (later l s) x
  or_else-later none s x y z h i = i ∙ h
  or_else-later (some a) s x y z h i = i

  -- If the loop over the options does not end the program, each variable has the value of the last
  -- option that sets it, and where there is none the value from before.
  pub scan-Takes :
      (gs : List Given) (o o' : Options)
      → scan sys gs o ≡ goes o'
      → Takes (λ A sel. last sel gs) o o'
  unfolding scan last
  scan-Takes [] o o' h =
      subst (Takes (λ A sel. none) o) (goes_inj h)
        (refl, refl, refl, refl, refl, refl, refl, refl, refl, refl, refl, refl, refl, refl, refl)
  scan-Takes (g ∷ gs) o o' h =
      let (o1, r, e) = >>+-goes (take_option sys g o) _ o' h in
      let (a1, a2, a3, a4, a5, a6, a7, a8, a9, a10, a11, a12, a13, a14, a15) =
        take_option-Takes g o o1 r in
      let (b1, b2, b3, b4, b5, b6, b7, b8, b9, b10, b11, b12, b13, b14, b15) =
        scan-Takes gs o1 o' e in
      (
        or_else-later (last cert_in gs) (cert_in g) _ _ _ a1 b1,
        or_else-later (last key_in gs) (key_in g) _ _ _ a2 b2,
        or_else-later (last folder_in gs) (folder_in g) _ _ _ a3 b3,
        or_else-later (last ca_in gs) (ca_in g) _ _ _ a4 b4,
        or_else-later (last pid_in gs) (pid_in g) _ _ _ a5 b5,
        or_else-later (last port_in gs) (port_in g) _ _ _ a6 b6,
        or_else-later (last workers_in gs) (workers_in g) _ _ _ a7 b7,
        or_else-later (last silent_in gs) (silent_in g) _ _ _ a8 b8,
        or_else-later (last verbose_in gs) (verbose_in g) _ _ _ a9 b9,
        or_else-later (last syslog_in gs) (syslog_in g) _ _ _ a10 b10,
        or_else-later (last help_in gs) (help_in g) _ _ _ a11 b11,
        or_else-later (last daemon_in gs) (daemon_in g) _ _ _ a12 b12,
        or_else-later (last test_in gs) (test_in g) _ _ _ a13 b13,
        or_else-later (last address_in gs) (address_in g) _ _ _ a14 b14,
        or_else-later (last account_in gs) (account_in g) _ _ _ a15 b15,
      )
