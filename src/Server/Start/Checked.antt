-- ===== src/Server/Start/Checked.antt =====
-- What holds of the options with which main goes on.
use keyless.Prelude.{
  ℕ, ◌≤◌, ◌<◌, ◌≡◌, ◌∙◌, refl, sym, ap, arith, Option, none, some, List, [], ◌∷◌, inl, inr, Bool,
  All, true, false, ◌==◌, if◌then◌else◌, ==_iff, Bool-cases, Option-cases, some-eq-some,
}
use mathlib.Core.Path.{subst}
use keyless.Server.Options.{
  ℤ, pos, negsuc, Result, exits, goes, ◌>>+◌, Given, unknown, version, ip, user, num_workers,
  Account, Options, System, defaults, bad_workers, is_null, check_options, take_option, scan,
  find_account, find_group, read_workers, read_address, split_colon, group_of,
}
use keyless.Server.Start.Ends.{goes_inj, >>+-goes}
use keyless.Server.Start.Last.{Takes, last, scan-Takes}
use keyless.Server.Start.{
  Process, Call, setgid, initgroups, setuid, Started, fork_or_write, call_all, switch_user,
  start_main,
}

-- The four files are named, and there are 1 to 32 workers.
pub record IsComplete (o : Options) : Type 0 where
  pub server_cert : (s : List ℕ) × (o.server_cert ≡ some s)
  pub server_key : (s : List ℕ) × (o.server_key ≡ some s)
  pub ca_file : (s : List ℕ) × (o.ca_file ≡ some s)
  pub private_key_directory : (s : List ℕ) × (o.private_key_directory ≡ some s)
  pub workers : (n : ℕ) × (o.num_workers ≡ pos n) × (0 < n) × (n ≤ 32)
  pub no_help : o.help ≡ false

given : (f : Option (List ℕ)) → is_null f ≡ false → (s : List ℕ) × (f ≡ some s)
given none h = cc
given (some s) h = (s, refl)

good_workers : (z : ℤ) → bad_workers z ≡ false → (n : ℕ) × (z ≡ pos n) × (0 < n) × (n ≤ 32)
unfolding bad_workers
good_workers (pos n) h = (n, refl, ground arith, ground arith)
good_workers (negsuc n) h = cc

-- A test that ends the program where it holds.
guard :
    {A : Type 0} (b : Bool) (r : Result A) (x : A)
    → (if b then exits 1 else r) ≡ goes x
    → (b ≡ false) × (r ≡ goes x)
guard true r x h = cc
guard false r x h = (refl, h)

pub check_options-IsComplete :
    (o o' : Options) → check_options o ≡ goes o' → (o ≡ o') × IsComplete o'
unfolding check_options
check_options-IsComplete o o' h =
    let (shown, h1) = guard o.help _ o' h in
    let (cert, h2) = guard (is_null o.server_cert) _ o' h1 in
    let (key, h3) = guard (is_null o.server_key) _ o' h2 in
    let (ca, h4) = guard (is_null o.ca_file) _ o' h3 in
    let (dir, h5) = guard (is_null o.private_key_directory) _ o' h4 in
    let (n, h6) = guard (bad_workers o.num_workers) _ o' h5 in
    let same : o ≡ o' = goes_inj h6 in
    let complete : IsComplete o = record {
      server_cert = given o.server_cert cert;
      server_key = given o.server_key key;
      ca_file = given o.ca_file ca;
      private_key_directory = given o.private_key_directory dir;
      workers = good_workers o.num_workers n;
      no_help = shown;
    } in
    (same, subst IsComplete same complete)

module _ (sys : System) where
  -- Only root can name an account, and it is one that the system knows.
  pub record IsKnown (a : Account) : Type 0 where
    pub root : sys.geteuid ≡ 0
    pub user : sys.getpwnam a.user ≡ some a.uid
    pub group : sys.getgrnam a.group ≡ some a.gid

  find_group-IsKnown :
      (name : List ℕ) (uid : ℕ) (group : Option (List ℕ)) (a : Account)
      → sys.geteuid ≡ 0
      → sys.getpwnam name ≡ some uid
      → find_group sys name uid group ≡ goes a
      → IsKnown a
  unfolding find_group
  find_group-IsKnown name uid none a r u h = cc
  find_group-IsKnown name uid (some g) a r u h = elim (Option-cases (sys.getgrnam g)) [
    | inl e ↦
        let r' : find_group sys name uid (some g) ≡ exits 1 = rw (e, find_group) refl in cc (r', h)
    | inr (gid, e) ↦
        let now : Account = record { user = name; group = g; uid = uid; gid = gid } in
        let r' : find_group sys name uid (some g) ≡ goes now = rw (e, find_group) refl in
        subst IsKnown (goes_inj (sym r' ∙ h)) (record { root = r; user = u; group = e })
  ]

  find_account-IsKnown :
      (optarg : List ℕ) (a : Account) → find_account sys optarg ≡ goes a → IsKnown a
  unfolding find_account
  find_account-IsKnown optarg a h = elim (Bool-cases (sys.geteuid == 0)) [
    | inr n ↦ let r : find_account sys optarg ≡ exits 1 = rw (n, find_account) refl in cc (r, h)
    | inl y ↦ elim (Option-cases (sys.getpwnam (split_colon optarg).0)) [
      | inl e ↦
          let r : find_account sys optarg ≡ exits 1 = rw (y, e, find_account) refl in cc (r, h)
      | inr (uid, e) ↦
          let name : List ℕ = (split_colon optarg).0 in
          let group : Option (List ℕ) = group_of (split_colon optarg) in
          let r : find_account sys optarg ≡ find_group sys name uid group =
            rw (y, e, find_account) refl in
          find_group-IsKnown name uid group a ((==_iff sys.geteuid 0).0 y) e (sym r ∙ h)
    ]
  ]

  abbrev pub HasKnown : Options → Type 0
  HasKnown o = (a : Account) → o.account ≡ some a → IsKnown a

  take_option-IsKnown :
      (g : Given) (o o' : Options) → take_option sys g o ≡ goes o' → HasKnown o → HasKnown o'
  unfolding take_option
  take_option-IsKnown unknown o o' h k = cc
  take_option-IsKnown version o o' h k = cc
  take_option-IsKnown (num_workers n) o o' h k =
      let (_, _, e) = >>+-goes (read_workers sys n) _ o' h in subst HasKnown (goes_inj e) k
  take_option-IsKnown (ip n) o o' h k =
      let (_, _, e) = >>+-goes (read_address sys n) _ o' h in subst HasKnown (goes_inj e) k
  take_option-IsKnown (user n) o o' h k =
      let (x, f, e) = >>+-goes (find_account sys n) _ o' h in
      subst HasKnown (goes_inj e)
        (λ a is. subst IsKnown (some-eq-some is) (find_account-IsKnown n x f))
  take_option-IsKnown _ o o' h k = subst HasKnown (goes_inj h) k

  scan-IsKnown :
      (gs : List Given) (o o' : Options) → scan sys gs o ≡ goes o' → HasKnown o → HasKnown o'
  unfolding scan
  scan-IsKnown [] o o' h k = subst HasKnown (goes_inj h) k
  scan-IsKnown (g ∷ gs) o o' h k =
      let (o1, r, e) = >>+-goes (take_option sys g o) _ o' h in
      scan-IsKnown gs o1 o' e (take_option-IsKnown g o o1 r k)

  call_all-All :
      (p : Process) (cs done : List Call)
      → call_all p cs ≡ goes done
      → (done ≡ cs) × All (λ c. p.succeeds c ≡ true) cs
  unfolding call_all
  call_all-All p [] done h = (sym (goes_inj h), tt)
  call_all-All p (c ∷ cs) done h = elim (Bool-cases (p.succeeds c)) [
    | inr n ↦ let r : call_all p (c ∷ cs) ≡ exits 1 = rw (n, call_all) refl in cc (r, h)
    | inl y ↦
        let r : call_all p (c ∷ cs) ≡ (call_all p cs >>+ λ done. goes (c ∷ done)) =
          rw (y, call_all) refl in
        let (d, e, f) = >>+-goes (call_all p cs) (λ done. goes (c ∷ done)) done (sym r ∙ h) in
        let (same, all) = call_all-All p cs d e in
        (sym (goes_inj f) ∙ ap (λ t. c ∷ t) same, (y, all))
  ]

  -- The rights of the process that goes on: root's, or only those of the account that was named.
  pub data Rights (p : Process) : Option Account → List Call → Type 0 where
    unchanged : Rights p none []
    given_up :
        {a : Account}
        → IsKnown a
        → All
            (λ c. p.succeeds c ≡ true)
            (setgid a.gid ∷ initgroups a.user a.gid ∷ setuid a.uid ∷ [])
        → Rights p (some a) (setgid a.gid ∷ initgroups a.user a.gid ∷ setuid a.uid ∷ [])

  switch_user-Rights :
      (p : Process) (a : Option Account) (calls : List Call)
      → switch_user p a ≡ goes calls
      → ((x : Account) → a ≡ some x → IsKnown x)
      → Rights p a calls
  unfolding switch_user
  switch_user-Rights p none calls h k = subst (Rights p none) (goes_inj h) unchanged
  switch_user-Rights p (some a) calls h k =
      let (same, all) = call_all-All p _ calls h in
      subst (Rights p (some a)) (sym same) (given_up (k a refl) all)

  pub record IsStarted (p : Process) (argv : List Given) (s : Started) : Type 0 where
    pub options : Takes sys (λ A sel. last sel argv) defaults s.options
    pub complete : IsComplete s.options
    pub rights : Rights p s.options.account s.calls

  -- If main comes to the set-up of OpenSSL, on any command line, every variable has the value of the
  -- last option for it, or its default. The four files are named, and there are 1 to 32 workers. If
  -- there was no --user, the user and groups are as they were. Otherwise root gave it, the account of
  -- the last --user has a user and a group that the system knows, and setgid, initgroups and setuid
  -- to them were called, in this order, and succeeded.
  pub start_main-IsStarted :
      (p : Process) (argv : List Given) (s : Started)
      → start_main sys p argv ≡ goes s
      → IsStarted p argv s
  unfolding start_main
  start_main-IsStarted p argv s h =
      let (o, r, h1) = >>+-goes (scan sys argv defaults) _ s h in
      let (o', c, h2) = >>+-goes (check_options o) _ s h1 in
      let (w, f, h3) = >>+-goes (fork_or_write p o') _ s h2 in
      let (calls, u, h4) = >>+-goes (switch_user p o'.account) _ s h3 in
      let (same, complete) = check_options-IsComplete o o' c in
      let known : HasKnown o = scan-IsKnown argv defaults o r (λ a e. cc) in
      subst (IsStarted p argv) (goes_inj h4) (record {
        options =
            subst (Takes sys (λ A sel. last sel argv) defaults) same
              (scan-Takes sys argv defaults o r);
        complete = complete;
        rights = switch_user-Rights p o'.account calls u (subst HasKnown same known);
      })
