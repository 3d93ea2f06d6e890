-- ===== src/Daemon/Greeters.antt =====
-- The user that the daemon chooses in src/daemon/entrance.c is the one that the greeter of
-- src/bin/entrance_client.c runs as.
use entrance.Daemon.{
  Passwd, Users, UserSystem, or_else, known_as, start_entry, nobody_name, chown, choose_home,
  chosen_user, with_user, entrance_uid_gid_init,
}
use entrance.Daemon.Home.{chosen_home-SameIds}
use entrance.Greeter.Main.{Options, Process, MainSystem, parsed, pos, allowed, greeter_main}
use entrance.Greeter.Main.Unprivileged.{Dropped, greeter_main-Dropped}
use entrance.Common.{
  ℕ, zero, suc, ◌<◌, ◌≡◌, refl, sym, ◌∙◌, ap, subst, Option, none, some, Str, ◌∷◌, arith,
}

allowed-pos_self : (n : ℕ) → 0 < n → allowed (pos n) ≡ n
unfolding allowed
allowed-pos_self zero h = absurd (omega arith)
allowed-pos_self (suc n) h = refl

module _ (sys : UserSystem) where
  with_user-ids :
      (name : Str) (pwd : Passwd) (s : Users)
      → ((with_user sys (name, pwd) s).uid ≡ pwd.uid)
        × ((with_user sys (name, pwd) s).gid ≡ pwd.gid)
  unfolding with_user chown
  with_user-ids name pwd s = by_home (choose_home sys pwd.dir u).home_path
    where
      u : Users
      u = record s { user = some name; gid = pwd.gid; uid = pwd.uid }

      v : Users
      v = choose_home sys pwd.dir u

      by_home :
          (o : Option Str)
          → ((elim o as (λ _. Users) [
            | none ↦ v
            | some h ↦ chown (sys.dirname h) v.uid v.gid v
          ]).uid
              ≡ pwd.uid)
            × ((elim o as (λ _. Users) [
              | none ↦ v
              | some h ↦ chown (sys.dirname h) v.uid v.gid v
            ]).gid
                ≡ pwd.gid)
      by_home none = let ids = chosen_home-SameIds sys pwd.dir u in (ids.uid, ids.gid)
      by_home (some h) = let ids = chosen_home-SameIds sys pwd.dir u in (ids.uid, ids.gid)

  start_user-ids :
      (c : ℕ) (name : Str) (pwd : Passwd) (s : Users)
      → sys.start_user ≡ some (c ∷ name)
      → sys.getpwnam (c ∷ name) ≡ some pwd
      → ((entrance_uid_gid_init sys s).uid ≡ pwd.uid)
        × ((entrance_uid_gid_init sys s).gid ≡ pwd.gid)
  unfolding entrance_uid_gid_init chosen_user
  start_user-ids c name pwd s given known =
      let nobody = known_as nobody_name (sys.getpwnam nobody_name) in
      let taken : chosen_user sys ≡ some (c ∷ name, pwd) =
        ap (λ o. or_else (start_entry sys o) nobody) given
        ∙ ap (λ e. or_else (known_as (c ∷ name) e) nobody) known in
      let after = λ (o : Option (Str × Passwd)). elim o as (λ _. Users) [
        | none ↦ s
        | some found ↦ with_user sys found s
      ] in
      subst (λ o. ((after o).uid ≡ pwd.uid) × ((after o).gid ≡ pwd.gid)) (sym taken)
        (with_user-ids (c ∷ name) pwd s)

  -- A configured user that the password database has, and that is not root nor of root's group: when the
  -- greeter's program is given the ids that the daemon has for it, it asks the system for that user's
  -- group and then for that user, goes on only when both are granted, and asks for no other ids.
  pub greeter_main-RunsAs :
      (main : MainSystem) (c : ℕ) (name : Str) (pwd : Passwd) (s : Users) (o : Options)
      (p : Process)
      → sys.start_user ≡ some (c ∷ name)
      → sys.getpwnam (c ∷ name) ≡ some pwd
      → 0 < pwd.uid
      → 0 < pwd.gid
      → o.uid ≡ pos (entrance_uid_gid_init sys s).uid
      → o.gid ≡ pos (entrance_uid_gid_init sys s).gid
      → Dropped main pwd.gid pwd.uid p (greeter_main main (parsed o) p)
  greeter_main-RunsAs main c name pwd s o p given known u g ou og =
      let (su, sg) = start_user-ids c name pwd s given known in
      let uid : allowed o.uid ≡ pwd.uid =
        ap allowed (ou ∙ ap pos su) ∙ allowed-pos_self pwd.uid u in
      let gid : allowed o.gid ≡ pwd.gid =
        ap allowed (og ∙ ap pos sg) ∙ allowed-pos_self pwd.gid g in
      let (a, (b, dropped)) = greeter_main-Dropped main o p in
      let r = greeter_main main (parsed o) p in
      subst (λ i. Dropped main i pwd.uid p r) gid
        (subst (λ i. Dropped main (allowed o.gid) i p r) uid dropped)
