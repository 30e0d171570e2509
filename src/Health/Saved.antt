-- ===== src/Health/Saved.antt =====
-- src/health.rs and src/main.rs: the users and rules after any requests, and after a restart.
use miuturn.Common.{
  ℕ, List, [], ◌∷◌, Option, none, some, ◌≡◌, refl, sym, ap, subst, ◌∙◌, ◌⊎◌, inl, inr, All, Text,
}
use miuturn.Common.Map.{lookup}
use miuturn.Common.Texts.{Text-discrete}
use miuturn.Auth.Manager.{AuthManager, check_acl}
use miuturn.Config.Types.{Config}
use miuturn.Config.Load.{manager_of_config}
use miuturn.Config.Save.{save_config, existing_or_default}
use miuturn.Config.Restore.{restored, manager_of_config-save_config}
use miuturn.Health.State.{Web, Visit, Site, write_config}
use miuturn.Health.Routes.{Request, serve}
use miuturn.Health.Outcomes.{WellFormed, Changed, serve-Outcome}

module _ (web : Web) where
  unfoldable pub run : Site → List (Visit × Request) → Site
  run site [] = site
  run site ((visit, req) ∷ requests) = run (serve web site visit req).0 requests

-- What is written to the file is there afterwards.
abbrev pub IsWritten : Visit × Request → Type 0
IsWritten (visit, req) = (c : Config) → visit.written c ≡ some c

abbrev pub HasNoKeys : Option Config → Type 0
HasNoKeys file = ((existing_or_default file).auth).api_keys ≡ []

-- The users and rules after a restart from a file.
abbrev pub Restores : Config → AuthManager → Type 0
Restores c m =
    (unix_secs : ℕ)
    → let m' = manager_of_config unix_secs c in
      (m'.acl_rules ≡ m.acl_rules)
      × ((ip : Text) → check_acl m' ip ≡ check_acl m ip)
      × ((name : Text)
          → lookup Text-discrete name m'.users
            ≡ restored unix_secs (lookup Text-discrete name m.users) none)

-- The file has what the site has.
abbrev pub IsSaved : Site → Type 0
IsSaved site = (c : Config) × (site.file ≡ some c) × Restores c site.auth

record IsSite (path : Text) (site : Site) : Type 0 where
  here : site.app.config_path ≡ some path
  formed : WellFormed site.auth
  no_keys : HasNoKeys site.file

save_config-HasNoKeys :
    (m : AuthManager) (file : Option Config)
    → HasNoKeys file
    → HasNoKeys (some (save_config m file))
unfolding save_config
save_config-HasNoKeys m file h = h

at_path :
    (path : Option Text) (p : Text) (site site' : Site)
    → path ≡ some p
    → elim path as (λ x. Site) [ none ↦ site | some q ↦ site' ] ≡ site'
at_path path p site site' e = rw e refl

write_config_lem :
    (path : Text) (site : Site) (visit : Visit)
    → site.app.config_path ≡ some path
    → visit.written (save_config site.auth site.file) ≡ some (save_config site.auth site.file)
    → write_config site visit ≡ record site { file = some (save_config site.auth site.file) }
unfolding write_config
write_config_lem path site visit here written =
    at_path site.app.config_path path site _ here
    ∙ ap (λ (f : Option Config). record site { file = f }) written

-- A change that is written leaves a site whose file has what the site has.
Changed-IsSaved :
    (path : Text) (site site' : Site) (visit : Visit)
    → ((c : Config) → visit.written c ≡ some c)
    → IsSite path site
    → Changed site visit site'
    → IsSite path site' × IsSaved site'
Changed-IsSaved path site site' visit written v (session, (m, formed, e)) =
    let c = save_config m site.file in
    let after : Site = record site { auth = m; file = some c } in
    let w = formed v.formed in
    let moved : site' ≡ after =
      e ∙ write_config_lem path (record site { auth = m }) visit v.here (written c) in
    subst (λ s. IsSite path s × IsSaved s) (sym moved)
      (
        record { here = v.here; formed = w; no_keys = save_config-HasNoKeys m site.file v.no_keys },
        (
          c,
          refl,
          λ unix_secs.
              manager_of_config-save_config m site.file unix_secs w.sorted w.unique w.named
                v.no_keys,
        ),
      )

IsSaved-serve :
    (web : Web) (path : Text) (site : Site) (visit : Visit) (req : Request)
    → ((c : Config) → visit.written c ≡ some c)
    → IsSite path site
    → let site' = (serve web site visit req).0 in
      (site' ≡ site) ⊎ (IsSite path site' × IsSaved site')
IsSaved-serve web path site visit req written v = elim (serve-Outcome web site visit req) [
  | inl same ↦ inl same
  | inr (admitted, changed) ↦ inr (Changed-IsSaved path site _ visit written v changed)
]

stays-IsSaved :
    (web : Web) (path : Text) (site : Site) (requests : List (Visit × Request))
    → All IsWritten requests
    → IsSite path site
    → IsSaved site
    → IsSite path (run web site requests) × IsSaved (run web site requests)
unfolding run
stays-IsSaved web path site [] written v saved = (v, saved)
stays-IsSaved web path site ((visit, req) ∷ requests) written v saved =
    let site' : Site = (serve web site visit req).0 in
    let (v', saved') : IsSite path site' × IsSaved site' =
      elim (IsSaved-serve web path site visit req written.0 v) [
        | inl same ↦ subst (λ s. IsSite path s × IsSaved s) (sym same) (v, saved)
        | inr after ↦ after
      ] in
    stays-IsSaved web path site' requests written.1 v' saved'

-- After any requests to a site whose configuration file can be written and has no API keys, nothing
-- has changed, or the file has the users and rules of the site: a restart from it gives the same
-- rules in the same order, which judge every address alike, and the same users, but for the time of
-- their creation. At first the rules are in order of priority, and users are kept under their own
-- names.
pub run-IsSaved :
    (web : Web) (path : Text) (site : Site) (requests : List (Visit × Request))
    → All IsWritten requests
    → site.app.config_path ≡ some path
    → WellFormed site.auth
    → HasNoKeys site.file
    → (run web site requests ≡ site)
      ⊎ (WellFormed (run web site requests).auth × IsSaved (run web site requests))
unfolding run
run-IsSaved web path site [] written here formed no_keys = inl refl
run-IsSaved web path site ((visit, req) ∷ requests) written here formed no_keys =
    let v : IsSite path site = record { here = here; formed = formed; no_keys = no_keys } in
    elim (IsSaved-serve web path site visit req written.0 v) [
      | inl same ↦
          subst
            (λ s.
              (run web s requests ≡ site)
              ⊎ (WellFormed (run web s requests).auth × IsSaved (run web s requests)))
            (sym same) (run-IsSaved web path site requests written.1 here formed no_keys)
      | inr (v', saved) ↦
          let (after, restored') = stays-IsSaved web path _ requests written.1 v' saved in
          inr (after.formed, restored')
    ]
