-- ===== src/Server/Start/Naming.antt =====
-- How --user is taken apart.
use keyless.Prelude.{
  ℕ, ◌≡◌, ◌≢◌, refl, ap, ◌∙◌, Option, none, some, List, [], ◌∷◌, ◌++◌, true, All, ◌==◌, ==_iff,
  ne→==,
}
use keyless.Server.Options.{fault, System, split_colon, group_of, find_group, find_account}

split_colon-append :
    (name rest : List ℕ)
    → All (λ c. c ≢ 58) name
    → split_colon (name ++ 58 ∷ rest) ≡ (name, some rest)
unfolding split_colon
split_colon-append [] rest h = refl
split_colon-append (c ∷ cs) rest h =
    rw (ne→== c 58 h.0, split_colon) (rw (split_colon-append cs rest h.1) refl)

split_colon-whole : (name : List ℕ) → All (λ c. c ≢ 58) name → split_colon name ≡ (name, none)
unfolding split_colon
split_colon-whole [] h = refl
split_colon-whole (c ∷ cs) h = rw (ne→== c 58 h.0, split_colon) (rw (split_colon-whole cs h.1) refl)

module _ (sys : System) (root : sys.geteuid ≡ 0) where
  taken_apart :
      (optarg : List ℕ) (parts : List ℕ × Option (List ℕ)) (uid : ℕ)
      → split_colon optarg ≡ parts
      → sys.getpwnam parts.0 ≡ some uid
      → find_account sys optarg ≡ find_group sys parts.0 uid (group_of parts)
  unfolding find_account
  taken_apart optarg parts uid e u =
      let r : (sys.geteuid == 0) ≡ true = (==_iff sys.geteuid 0).1 root in
      let known : sys.getpwnam (split_colon optarg).0 ≡ some uid =
        ap (λ (s : List ℕ × Option (List ℕ)). sys.getpwnam s.0) e ∙ u in
      let step : find_account sys optarg
          ≡ find_group sys (split_colon optarg).0 uid (group_of (split_colon optarg)) =
        rw (r, known, find_account) refl in
      step ∙ ap (λ (s : List ℕ × Option (List ℕ)). find_group sys s.0 uid (group_of s)) e

  -- What --user leads to for root, with each of the three forms of its argument: `name` and
  -- `name:group` name an account, and `name:` makes main follow a NULL.
  pub record Forms (name group : List ℕ) (uid : ℕ) : Type 0 where
    pub alone : find_account sys name ≡ find_group sys name uid (some name)
    pub both : find_account sys (name ++ 58 ∷ group) ≡ find_group sys name uid (some group)
    pub trailing : find_account sys (name ++ 58 ∷ []) ≡ fault

  -- For root and a user that the system knows, whose name has no colon, --user with the name alone
  -- stands for the group of that name, with `name:group` for the group that is not empty, and with
  -- `name:` it follows a NULL.
  pub find_account-Forms :
      (name : List ℕ) (c : ℕ) (cs : List ℕ) (uid : ℕ)
      → All (λ c. c ≢ 58) name
      → sys.getpwnam name ≡ some uid
      → Forms name (c ∷ cs) uid
  unfolding group_of find_group
  find_account-Forms name c cs uid h u = record {
    alone = taken_apart name (name, none) uid (split_colon-whole name h) u;
    both =
        taken_apart (name ++ 58 ∷ c ∷ cs) (name, some (c ∷ cs)) uid
          (split_colon-append name (c ∷ cs) h) u;
    trailing = taken_apart (name ++ 58 ∷ []) (name, some []) uid (split_colon-append name [] h) u;
  }
