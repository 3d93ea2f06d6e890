-- ===== src/Daemon/Home.antt =====
-- The user of the greeters and their home directory: `_entrance_uid_gid_init` of src/daemon/entrance.c.
use entrance.Daemon.{
  Passwd, FileKind, missing, directory, other_file, Users, UserSystem, chown, nobody_name, no_home,
  known_as, or_else, start_entry, choose_home, make_by_kind, chosen_user, make_client_home,
  with_user, entrance_uid_gid_init,
}
use entrance.Common.{
  ◌≡◌, ◌≢◌, ◌⊎◌, inl, inr, refl, sym, ◌∙◌, ap, subst, true, false, [], ◌∷◌, Option, none, some, Str,
  Bool-cases, head?,
}

-- A name that is not empty and is in the password database.
abbrev Known : UserSystem → Str → Type 0
Known sys name = (name ≢ []) × ((pwd : Passwd) × (sys.getpwnam name ≡ some pwd))

-- Whose user it is: the configured one, or nobody when the configured one is not known.
abbrev pub Who : UserSystem → Str → Type 0
Who sys name =
    (sys.start_user ≡ some name)
    ⊎ ((name ≡ nobody_name)
        × ((other : Str)
            → sys.start_user ≡ some other
            → (other ≡ []) ⊎ (sys.getpwnam other ≡ none)))

-- The home directory: the user's, or else the client's own, which is then a directory if it can be made.
abbrev pub HomeOf : UserSystem → Passwd → Str → Users → Type 0
HomeOf sys pwd home t =
    ((pwd.dir ≡ some home) × (no_home (some home) ≡ false))
    ⊎ ((home ≡ sys.client_home_path)
        × ((no_home pwd.dir ≡ true)
            × (sys.can_mkdir ≡ true → sys.can_remove ≡ true → t.client_home ≡ directory)))

pub record Settled (sys : UserSystem) (t : Users) : Type 0 where
  pub name : Str
  pub pwd : Passwd
  pub home : Str
  pub who : Who sys name
  pub known : sys.getpwnam name ≡ some pwd
  pub user : t.user ≡ some name
  pub uid : t.uid ≡ pwd.uid
  pub gid : t.gid ≡ pwd.gid
  pub home_path : t.home_path ≡ some home
  pub home_of : HomeOf sys pwd home t
  pub parent : head? t.chowned ≡ some (sys.dirname home, (pwd.uid, pwd.gid))

known_as-some :
    (given name : Str) (o : Option Passwd) (pwd : Passwd)
    → known_as given o ≡ some (name, pwd)
    → (given ≡ name) × (o ≡ some pwd)
known_as-some given name none pwd e = cc
known_as-some given name (some p) pwd e = (cc, cc)

or_else-none : (o other : Option (Str × Passwd)) → or_else o other ≡ none → other ≡ none
or_else-none none other e = e
or_else-none (some found) other e = cc

module _ (sys : UserSystem) where
  made_by_kind :
      (k : FileKind) (s : Users)
      → s.client_home ≡ k
      → sys.can_mkdir ≡ true
      → sys.can_remove ≡ true
      → (make_by_kind sys k s).client_home ≡ directory
  unfolding chown
  made_by_kind missing s e m r = rw (e, m) refl
  made_by_kind directory s e m r = e
  made_by_kind other_file s e m r = rw (e, m, r) refl

  client_home_made :
      (s : Users)
      → sys.can_mkdir ≡ true
      → sys.can_remove ≡ true
      → (make_client_home sys s).client_home ≡ directory
  unfolding make_client_home
  client_home_made s m r = made_by_kind s.client_home s refl m r

  -- Nobody's entry is the one that was found.
  abbrev Nobody : Option (Str × Passwd) → Type 0
  Nobody found = known_as nobody_name (sys.getpwnam nobody_name) ≡ found

  is_Nobody :
      (name : Str) (pwd : Passwd)
      → Nobody (some (name, pwd))
      → ((other : Str) → sys.start_user ≡ some other → (other ≡ []) ⊎ (sys.getpwnam other ≡ none))
      → Who sys name × (sys.getpwnam name ≡ some pwd)
  is_Nobody name pwd e unknown =
      let (n, p) = known_as-some nobody_name name (sys.getpwnam nobody_name) pwd e in
      (inr (sym n, unknown), subst (λ m. sys.getpwnam m ≡ some pwd) n p)

  chosen-Who :
      (name : Str) (pwd : Passwd) (o : Option Str)
      → sys.start_user ≡ o
      → or_else (start_entry sys o) (known_as nobody_name (sys.getpwnam nobody_name))
        ≡ some (name, pwd)
      → Who sys name × (sys.getpwnam name ≡ some pwd)
  chosen-Who name pwd none h e = is_Nobody name pwd e (λ other g. cc)
  chosen-Who name pwd (some []) h e = is_Nobody name pwd e (λ other g. inl (cc))
  chosen-Who name pwd (some (c ∷ n)) h e = by_entry (sys.getpwnam (c ∷ n)) refl e
    where
      by_entry :
          (p : Option Passwd)
          → sys.getpwnam (c ∷ n) ≡ p
          → or_else (known_as (c ∷ n) p) (known_as nobody_name (sys.getpwnam nobody_name))
            ≡ some (name, pwd)
          → Who sys name × (sys.getpwnam name ≡ some pwd)
      by_entry none g e = is_Nobody name pwd e (λ other k. inr (cc))
      by_entry (some p) g e =
          let same : c ∷ n ≡ name = cc in
          (inl (h ∙ ap some same), subst (λ m. sys.getpwnam m ≡ some pwd) same (g ∙ cc))

  -- The home directory after the user is set.
  home_chosen :
      (pwd : Passwd) (s : Users) (o : Option Str)
      → pwd.dir ≡ o
      → (home : Str) × (((choose_home sys o s).home_path ≡ some home)
          × HomeOf sys pwd home (choose_home sys o s))
  unfolding no_home
  home_chosen pwd s none e =
      (sys.client_home_path, (refl, inr (refl, (rw e refl, λ m r. client_home_made s m r))))
  home_chosen pwd s (some dir) e = elim (Bool-cases (no_home (some dir))) [
    | inl y ↦ rw y (
      sys.client_home_path,
      (refl, inr (refl, (ap no_home e ∙ y, λ m r. client_home_made s m r))),
    )
    | inr n ↦ rw n (dir, (refl, inl (e, n)))
  ]

  -- Neither the client's directory nor the home's path changes whose they are.
  pub record SameIds (s t : Users) : Type 0 where
    pub user : t.user ≡ s.user
    pub uid : t.uid ≡ s.uid
    pub gid : t.gid ≡ s.gid

  made-SameIds : (k : FileKind) (s : Users) → SameIds s (make_by_kind sys k s)
  unfolding chown
  made-SameIds missing s = record { user = refl; uid = refl; gid = refl }
  made-SameIds directory s = record { user = refl; uid = refl; gid = refl }
  made-SameIds other_file s = record { user = refl; uid = refl; gid = refl }

  pub chosen_home-SameIds : (o : Option Str) (s : Users) → SameIds s (choose_home sys o s)
  unfolding make_client_home
  chosen_home-SameIds none s =
      let m = made-SameIds s.client_home s in record { user = m.user; uid = m.uid; gid = m.gid }
  chosen_home-SameIds (some dir) s =
      let m = made-SameIds s.client_home s in
      elim (Bool-cases (no_home (some dir))) [
        | inl y ↦ rw y (record { user = m.user; uid = m.uid; gid = m.gid })
        | inr n ↦ rw n (record { user = refl; uid = refl; gid = refl })
      ]

  with_user-Settled :
      (name : Str) (pwd : Passwd) (s : Users)
      → Who sys name
      → sys.getpwnam name ≡ some pwd
      → Settled sys (with_user sys (name, pwd) s)
  unfolding with_user chown
  with_user-Settled name pwd s who known =
      let u = record s { user = some name; gid = pwd.gid; uid = pwd.uid } in
      let v = choose_home sys pwd.dir u in
      let (home, (path, home_of)) = home_chosen pwd u pwd.dir refl in
      let ids = chosen_home-SameIds pwd.dir u in
      let settled : Settled sys
          (elim (some home) [ none ↦ v | some h ↦ chown (sys.dirname h) v.uid v.gid v ]) =
        record {
          name = name;
          pwd = pwd;
          home = home;
          who = who;
          known = known;
          user = ids.user;
          uid = ids.uid;
          gid = ids.gid;
          home_path = path;
          home_of = home_of;
          parent =
              ap (λ i. some (sys.dirname home, i))
                (ap (λ i. (i, v.gid)) ids.uid ∙ ap (λ i. (pwd.uid, i)) ids.gid);
        } in
      subst (λ o. Settled sys (elim o [ none ↦ v | some h ↦ chown (sys.dirname h) v.uid v.gid v ]))
        (sym path) settled

  -- When the password database has nobody, the greeters get the configured user, or nobody when that one
  -- is not known: its name and its ids, and its home directory, or the client's own one when it has none,
  -- which is then a directory if a directory can be made and a file in its place removed; and the
  -- directory above the home is given to the user.
  pub entrance_uid_gid_init-Settled :
      (nobody : Passwd) (s : Users)
      → sys.getpwnam nobody_name ≡ some nobody
      → Settled sys (entrance_uid_gid_init sys s)
  unfolding entrance_uid_gid_init chosen_user
  entrance_uid_gid_init-Settled nobody s e = by_chosen (chosen_user sys) refl
    where
      by_chosen :
          (o : Option (Str × Passwd))
          → chosen_user sys ≡ o
          → Settled sys (entrance_uid_gid_init sys s)
      by_chosen none h =
          let gone = or_else-none (start_entry sys sys.start_user) _ h in
          let there : known_as nobody_name (sys.getpwnam nobody_name) ≡ some (nobody_name, nobody) =
            ap (known_as nobody_name) e in
          cc
      by_chosen (some (name, pwd)) h =
          let (who, known) = chosen-Who name pwd sys.start_user refl h in
          subst (λ o. Settled sys (elim o [ none ↦ s | some found ↦ with_user sys found s ]))
            (sym h) (with_user-Settled name pwd s who known)
