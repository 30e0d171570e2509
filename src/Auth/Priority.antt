-- ===== src/Auth/Priority.antt =====
-- src/auth.rs: the access rule of the highest priority decides.
use miuturn.Common.{
  ℕ, ◌≤◌, ◌≡◌, refl, ap, subst, ◌∙◌, List, [], ◌∷◌, ◌++◌, Bool, true, false, ◌⊎◌, inl, inr, All,
  All-retain, retain, leb, Bool-cases, arith, Text,
}
use mathlib.Core.List.{Perm, perm_middle, append-nil}
use mathlib.Core.List.Perm
use miuturn.Auth.Acl.{AclRule, is_allow, ip_in_range, decide, insert_rule, sort_rules}
use miuturn.Auth.Manager.{AuthManager, new, add_acl_rule, remove_acl_rule, check_acl}

-- Priorities fall along the list.
abbrev pub IsSorted : List AclRule → Type 0
IsSorted [] = Unit {0}
IsSorted (rule ∷ rules) = All (λ r. r.priority ≤ rule.priority) rules × IsSorted rules

abbrev Below : ℕ → List AclRule → Type 0
Below n rules = All (λ r. r.priority ≤ n) rules

Below-insert_rule :
    (n : ℕ) (rule : AclRule) (rules : List AclRule)
    → rule.priority ≤ n
    → Below n rules
    → Below n (insert_rule rule rules)
Below-insert_rule n rule [] h hs = (h, tt)
Below-insert_rule n rule (r ∷ rules) h hs = ground (arith, Below-insert_rule n rule rules h hs.1)

Below-trans : (m n : ℕ) (rules : List AclRule) → m ≤ n → Below m rules → Below n rules
Below-trans m n [] h hs = tt
Below-trans m n (r ∷ rules) h hs = (omega (arith, hs.0), Below-trans m n rules h hs.1)

insert_rule-IsSorted :
    (rule : AclRule) (rules : List AclRule) → IsSorted rules → IsSorted (insert_rule rule rules)
insert_rule-IsSorted rule [] h = (tt, tt)
insert_rule-IsSorted rule (r ∷ rules) h = ground (
  arith,
  insert_rule-IsSorted rule rules h.1,
  Below-insert_rule r.priority rule rules,
  Below-trans r.priority rule.priority rules,
)

pub sort_rules-IsSorted : (rules : List AclRule) → IsSorted (sort_rules rules)
sort_rules-IsSorted [] = tt
sort_rules-IsSorted (rule ∷ rules) =
    insert_rule-IsSorted rule (sort_rules rules) (sort_rules-IsSorted rules)

pub retain-IsSorted :
    (p : AclRule → Bool) (rules : List AclRule) → IsSorted rules → IsSorted (retain p rules)
retain-IsSorted p [] h = tt
retain-IsSorted p (rule ∷ rules) h =
    ground
      (arith, retain-IsSorted p rules h.1, All-retain (λ r. r.priority ≤ rule.priority) p rules h.0)

-- A change of the rules.
pub data Call : Type 0 where
  add : AclRule → Call
  remove : Text → ℕ → Call

unfoldable pub step : AuthManager → Call → AuthManager
step manager (add rule) = add_acl_rule manager rule
step manager (remove ip_range priority) = remove_acl_rule manager ip_range priority

unfoldable pub run : AuthManager → List Call → AuthManager
run manager [] = manager
run manager (c ∷ calls) = run (step manager c) calls

run-IsSorted :
    (manager : AuthManager) (calls : List Call)
    → IsSorted manager.acl_rules
    → IsSorted (run manager calls).acl_rules
unfolding run step add_acl_rule remove_acl_rule
run-IsSorted manager [] h = h
run-IsSorted manager (add rule ∷ calls) h =
    run-IsSorted (add_acl_rule manager rule) calls
      (sort_rules-IsSorted (manager.acl_rules ++ rule ∷ []))
run-IsSorted manager (remove ip_range priority ∷ calls) h =
    run-IsSorted (remove_acl_rule manager ip_range priority) calls
      (retain-IsSorted _ manager.acl_rules h)

abbrev pub Matching : Text → AclRule → Type 0
Matching ip rule = ip_in_range ip rule.ip_range ≡ true

-- A rule of the list that matches, with no matching rule of a higher priority.
pub record IsHighest (ip : Text) (rules : List AclRule) (rule : AclRule) : Type 0 where
  pub member : (before after : List AclRule) × (rules ≡ before ++ rule ∷ after)
  pub matching : Matching ip rule
  pub highest : All (λ r. Matching ip r → r.priority ≤ rule.priority) rules

abbrev pub Decided : Text → List AclRule → Bool → Type 0
Decided ip rules verdict =
    (All (λ r. ip_in_range ip r.ip_range ≡ false) rules × (verdict ≡ true))
    ⊎ ((rule : AclRule) × IsHighest ip rules rule × (verdict ≡ is_allow rule.action))

All-Matching-Below :
    (ip : Text) (n : ℕ) (rules : List AclRule)
    → Below n rules
    → All (λ r. Matching ip r → r.priority ≤ n) rules
All-Matching-Below ip n [] h = tt
All-Matching-Below ip n (r ∷ rules) h = (λ m. h.0, All-Matching-Below ip n rules h.1)

later_rule :
    (ip : Text) (first rule : AclRule) (rules : List AclRule)
    → ip_in_range ip first.ip_range ≡ false
    → IsHighest ip rules rule
    → IsHighest ip (first ∷ rules) rule
later_rule ip first rule rules no_match h =
    let (before, after, e) = h.member in
    record {
      member = (first ∷ before, after, ap (λ l. first ∷ l) e);
      matching = h.matching;
      highest = (λ m. absurd (ground (arith, m, no_match)), h.highest);
    }

decide_lem :
    (ip : Text) (rules : List AclRule) → IsSorted rules → Decided ip rules (decide rules ip)
decide_lem ip [] h = inl (tt, unfold decide in refl)
decide_lem ip (first ∷ rules) h = elim (Bool-cases (ip_in_range ip first.ip_range)) [
  | inl hit ↦
      let highest = All-Matching-Below ip first.priority rules h.0 in
      inr (
        first,
        record {
          member = ([], rules, refl);
          matching = hit;
          highest = (λ m. omega arith, highest);
        },
        unfold decide in (rw hit refl),
      )
  | inr miss ↦
      let same : decide (first ∷ rules) ip ≡ decide rules ip = unfold decide in (rw miss refl) in
      elim (decide_lem ip rules h.1) [
        | inl (none_match, e) ↦ inl ((miss, none_match), same ∙ e)
        | inr (rule, highest, e) ↦ inr (rule, later_rule ip first rule rules miss highest, same ∙ e)
      ]
]

-- After any additions and removals of rules, an address is judged by a rule that matches it and has
-- the highest priority of those that do, and is allowed if none matches.
pub run-Decided :
    (realm : Text) (calls : List Call) (ip : Text)
    → let manager = run (new realm) calls in Decided ip manager.acl_rules (check_acl manager ip)
unfolding check_acl new
run-Decided realm calls ip =
    decide_lem ip (run (new realm) calls).acl_rules (run-IsSorted (new realm) calls tt)

insert_rule-perm :
    (rule : AclRule) (rules : List AclRule) → Perm (insert_rule rule rules) (rule ∷ rules)
insert_rule-perm rule [] = Perm.rfl
insert_rule-perm rule (r ∷ rules) = elim (Bool-cases (leb r.priority rule.priority)) [
  | inl e ↦ rw e Perm.rfl
  | inr e ↦ rw e (Perm.trans (Perm.cons r (insert_rule-perm rule rules)) (Perm.swap rule r rules))
]

sort_rules-perm : (rules : List AclRule) → Perm (sort_rules rules) rules
sort_rules-perm [] = Perm.rfl
sort_rules-perm (rule ∷ rules) =
    Perm.trans (insert_rule-perm rule (sort_rules rules)) (Perm.cons rule (sort_rules-perm rules))

-- Adding a rule keeps the others, as often as they were there.
pub add_acl_rule-perm :
    (manager : AuthManager) (rule : AclRule)
    → Perm (add_acl_rule manager rule).acl_rules (rule ∷ manager.acl_rules)
unfolding add_acl_rule
add_acl_rule-perm manager rule = Perm.trans (sort_rules-perm (manager.acl_rules ++ rule ∷ [])) (
    subst (λ l. Perm (manager.acl_rules ++ rule ∷ []) (rule ∷ l)) (append-nil manager.acl_rules)
      (perm_middle manager.acl_rules []))
