-- ===== src/Config/Restore.antt =====
-- src/health.rs and src/main.rs: what is saved is there again after a restart.
use miuturn.Common.{
  ℕ, ◌≤◌, ◌≡◌, ◌≢◌, refl, sym, ap, subst, ◌∙◌, List, [], ◌∷◌, ◌++◌, Option, none, some, All, arith,
  map, append_assoc, append-nil, Text, ℕ_discrete,
}
use miuturn.Common.Map.{IsMap, lookup, lookup-insert, lookup_fresh}
use miuturn.Common.Texts.{Text-discrete}
use miuturn.Auth.Acl.{AclRule, AclAction, allow, deny, insert_rule, sort_rules, decide}
use miuturn.Auth.Manager.{
  User, UserType, temporary, fixed, api_key, AuthManager, new, add_user, add_acl_rule, check_acl,
  list_users,
}
use miuturn.Auth.Priority.{IsSorted}
use miuturn.Config.Types.{Config}
use miuturn.Config.Load.{
  user_of_config, user_type_of, rule_of_config, action_of, add_users, add_rules, api_key_user,
  manager_of_config,
}
use miuturn.Config.Save.{
  config_of_user, type_name, config_of_rule, action_name, save_config, existing_or_default,
}

user_type_of-type_name : (t : UserType) → user_type_of (type_name t) ≡ t
unfolding Text-discrete ℕ_discrete
user_type_of-type_name temporary = refl
user_type_of-type_name fixed = refl
user_type_of-type_name api_key = refl

action_of-action_name : (a : AclAction) → action_of (action_name a) ≡ a
unfolding Text-discrete ℕ_discrete
action_of-action_name allow = refl
action_of-action_name deny = refl

rule_of_config-config_of_rule : (r : AclRule) → rule_of_config (config_of_rule r) ≡ r
unfolding rule_of_config config_of_rule
rule_of_config-config_of_rule r =
    ap (λ (a : AclAction). record r { action = a }) (action_of-action_name r.action)

map_rules : (rules : List AclRule) → map rule_of_config (map config_of_rule rules) ≡ rules
map_rules [] = refl
map_rules (r ∷ rules) = cc (rule_of_config-config_of_rule r, map_rules rules)

-- A rule that no other exceeds stays in front, so sorting sorted rules changes nothing.
insert_rule_first :
    (rule : AclRule) (rules : List AclRule)
    → All (λ r. r.priority ≤ rule.priority) rules
    → insert_rule rule rules ≡ rule ∷ rules
insert_rule_first rule [] h = refl
insert_rule_first rule (r ∷ rules) h = ground (arith, h.0)

sort_rules-sorted : (rules : List AclRule) → IsSorted rules → sort_rules rules ≡ rules
sort_rules-sorted [] h = refl
sort_rules-sorted (rule ∷ rules) h =
    ap (insert_rule rule) (sort_rules-sorted rules h.1) ∙ insert_rule_first rule rules h.0

All-prefix :
    (n : ℕ) (xs ys : List AclRule)
    → All (λ r. r.priority ≤ n) (xs ++ ys)
    → All (λ r. r.priority ≤ n) xs
All-prefix n [] ys h = tt
All-prefix n (x ∷ xs) ys h = (h.0, All-prefix n xs ys h.1)

IsSorted-prefix : (xs ys : List AclRule) → IsSorted (xs ++ ys) → IsSorted xs
IsSorted-prefix [] ys h = tt
IsSorted-prefix (x ∷ xs) ys h = (All-prefix x.priority xs ys h.0, IsSorted-prefix xs ys h.1)

add_rules-sorted :
    (m : AuthManager) (rules : List AclRule)
    → IsSorted (m.acl_rules ++ rules)
    → add_rules m rules ≡ record m { acl_rules = m.acl_rules ++ rules }
unfolding add_rules add_acl_rule
add_rules-sorted m [] h = ap (λ l. record m { acl_rules = l }) (sym (append-nil m.acl_rules))
add_rules-sorted m (r ∷ rules) h =
    let assoc = append_assoc m.acl_rules (r ∷ []) rules in
    let h' : IsSorted ((m.acl_rules ++ r ∷ []) ++ rules) = subst IsSorted (sym assoc) h in
    let m' : AuthManager = record m { acl_rules = m.acl_rules ++ r ∷ [] } in
    let added : add_acl_rule m r ≡ m' =
      ap (λ l. record m { acl_rules = l })
        (sort_rules-sorted (m.acl_rules ++ r ∷ []) (IsSorted-prefix _ rules h')) in
    ap (λ x. add_rules x rules) added
    ∙ (add_rules-sorted m' rules h' ∙ ap (λ l. record m { acl_rules = l }) assoc)

-- The users are entered one by one; a user who was saved replaces one of that name.
abbrev saved : ℕ → User → User
saved unix_secs u = record u { created_at = unix_secs }

saved_lem :
    (unix_secs : ℕ) (u : User) → user_of_config unix_secs (config_of_user u) ≡ saved unix_secs u
unfolding user_of_config config_of_user
saved_lem unix_secs u =
    ap (λ (t : UserType). record u { created_at = unix_secs; user_type = t })
      (user_type_of-type_name u.user_type)

abbrev pub restored : ℕ → Option User → Option User → Option User
restored unix_secs none old = old
restored unix_secs (some u) old = some (saved unix_secs u)

lookup-add_users :
    (unix_secs : ℕ) (m : AuthManager) (users : List (Text × User)) (name : Text)
    → IsMap users
    → All (λ e. e.0 ≡ (e.1).username) users
    → lookup Text-discrete name
        (add_users m
          (map (user_of_config unix_secs) (map config_of_user (map (λ e. e.1) users)))).users
      ≡ restored unix_secs (lookup Text-discrete name users) (lookup Text-discrete name m.users)
unfolding add_users add_user
lookup-add_users unix_secs m [] name v k = refl
lookup-add_users unix_secs m ((key, u) ∷ users) name v k =
    let u' : User = user_of_config unix_secs (config_of_user u) in
    let ih = lookup-add_users unix_secs (add_user m u') users name v.1 k.1 in
    let law = lookup-insert Text-discrete u.username name u' m.users in
    let same = saved_lem unix_secs u in
    elim (Text-discrete key name) [
      | yes e ↦
          let gone : lookup Text-discrete name users ≡ none =
            lookup_fresh Text-discrete name users (subst (λ n. All (λ x. x.0 ≢ n) users) e v.0) in
          ground (arith, ih, law, same, k.0, e, gone)
      | no n ↦ ground (arith, ih, law, same, k.0, n)
    ]

add_users-acl_rules :
    (m : AuthManager) (users : List User) → (add_users m users).acl_rules ≡ m.acl_rules
unfolding add_users add_user
add_users-acl_rules m [] = refl
add_users-acl_rules m (u ∷ users) = add_users-acl_rules (add_user m u) users

-- The manager after the first of the three loops.
abbrev reloaded : AuthManager → Option Config → ℕ → AuthManager
reloaded m existing unix_secs =
    add_users (new ((existing_or_default existing).server).realm)
      (map (user_of_config unix_secs) (map config_of_user (map (λ e. e.1) m.users)))

after_restart :
    (m : AuthManager) (existing : Option Config) (unix_secs : ℕ)
    → IsSorted m.acl_rules
    → ((existing_or_default existing).auth).api_keys ≡ []
    → manager_of_config unix_secs (save_config m existing)
      ≡ record (reloaded m existing unix_secs) { acl_rules = m.acl_rules }
unfolding manager_of_config save_config list_users new add_users
after_restart m existing unix_secs sorted no_keys =
    let us : AuthManager = reloaded m existing unix_secs in
    let none_yet : us.acl_rules ≡ [] =
      add_users-acl_rules (new ((existing_or_default existing).server).realm)
        (map (user_of_config unix_secs) (map config_of_user (map (λ e. e.1) m.users))) in
    let rules : List AclRule = map rule_of_config (map config_of_rule m.acl_rules) in
    ap (λ k. add_rules (add_users us (map (λ e. api_key_user e.1) k)) rules) no_keys
    ∙ (ap (add_rules us) (map_rules m.acl_rules)
        ∙ (add_rules-sorted us m.acl_rules
              (subst (λ l. IsSorted (l ++ m.acl_rules)) (sym none_yet) sorted)
            ∙ ap (λ l. record us { acl_rules = l ++ m.acl_rules }) none_yet))

-- The manager that the saved configuration gives after a restart has the same rules in the same
-- order, so it judges every address alike, and the same users under the same names, but for the
-- time of their creation. The rules are in order of priority, users are kept under their own names,
-- and the existing file has no API keys.
pub manager_of_config-save_config :
    (m : AuthManager) (existing : Option Config) (unix_secs : ℕ)
    → IsSorted m.acl_rules
    → IsMap m.users
    → All (λ e. e.0 ≡ (e.1).username) m.users
    → ((existing_or_default existing).auth).api_keys ≡ []
    → let m' = manager_of_config unix_secs (save_config m existing) in
      (m'.acl_rules ≡ m.acl_rules)
      × ((ip : Text) → check_acl m' ip ≡ check_acl m ip)
      × ((name : Text)
          → lookup Text-discrete name m'.users
            ≡ restored unix_secs (lookup Text-discrete name m.users) none)
unfolding new
manager_of_config-save_config m existing unix_secs sorted v keys no_keys =
    let e = after_restart m existing unix_secs sorted no_keys in
    let rules = ap (λ (x : AuthManager). x.acl_rules) e in
    (
      rules,
      λ ip. unfold check_acl in (ap (λ l. decide l ip) rules),
      λ name.
          ap (λ (x : AuthManager). lookup Text-discrete name x.users) e
          ∙ lookup-add_users unix_secs (new ((existing_or_default existing).server).realm) m.users
              name v keys,
    )
