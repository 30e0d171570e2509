-- ===== src/Auth/Acl.antt =====
-- src/auth.rs: access rules and the ranges of addresses that they name.
use miuturn.Common.{
  ℕ, ◌+◌, ◌-◌, ◌*◌, ◌^◌, List, [], ◌∷◌, Option, none, some, Bool, true, false, leb, ◌==◌,
  if◌then◌else◌, bit_and, map, Text,
}
use miuturn.Common.Texts.{same_text, has_char, split, parse_unsigned}

pub data AclAction : Type 0 where
  allow deny : AclAction

pub record AclRule : Type 0 where
  pub ip_range : Text
  pub action : AclAction
  pub priority : ℕ

-- `parse().unwrap_or(..)`
abbrev pub unwrap_or : Option ℕ → ℕ → ℕ
unwrap_or none d = d
unwrap_or (some n) d = n

-- The parts of a dotted address, as `u8`s; a part that is no `u8` is read as 0.
unfoldable pub octets : Text → List ℕ
unfolding split parse_unsigned
octets ip = map (λ part. unwrap_or (parse_unsigned 256 part) 0) (split b'.' ip)

-- Four octets as a `u32`.
abbrev pub ip_int : List ℕ → Option ℕ
ip_int (a ∷ b ∷ c ∷ d ∷ []) = some (a * 2 ^ 24 + b * 2 ^ 16 + c * 2 ^ 8 + d)
ip_int _ = none

-- `!((1u32 << (32 - mask)) - 1)`, or all ones from 32 on.
abbrev pub mask_int : ℕ → ℕ
mask_int mask = if leb 32 mask then 2 ^ 32 - 1 else 2 ^ 32 - 2 ^ (32 - mask)

abbrev pub same_subnet : Option ℕ → Option ℕ → ℕ → Bool
same_subnet (some ip) (some base) mask = bit_and ip (mask_int mask) == bit_and base (mask_int mask)
same_subnet _ _ mask = false

unfoldable pub ip_matches_subnet : Text → Text → ℕ → Bool
unfolding octets
ip_matches_subnet ip base mask =
    if mask == 0 then true else same_subnet (ip_int (octets ip)) (ip_int (octets base)) mask

abbrev pub in_parts : Text → List Text → Bool
in_parts ip (base ∷ mask ∷ []) =
    ip_matches_subnet ip base (unwrap_or (parse_unsigned (2 ^ 32) mask) 32)
in_parts ip _ = false

unfoldable pub ip_in_range : Text → Text → Bool
unfolding ip_matches_subnet
ip_in_range ip range =
    if has_char b'/' range then in_parts ip (split b'/' range) else same_text ip range

abbrev pub is_allow : AclAction → Bool
is_allow allow = true
is_allow deny = false

-- The loop of `check_acl`: the first rule that matches decides, and no rule means allowed.
unfoldable pub decide : List AclRule → Text → Bool
unfolding ip_in_range
decide [] ip = true
decide (rule ∷ rules) ip =
    if ip_in_range ip rule.ip_range then is_allow rule.action else decide rules ip

-- A rule is put before the first one of no higher priority.
abbrev pub insert_rule : AclRule → List AclRule → List AclRule
insert_rule rule [] = rule ∷ []
insert_rule rule (r ∷ rules) =
    if leb r.priority rule.priority then rule ∷ r ∷ rules else r ∷ insert_rule rule rules

-- `sort_by` on descending priorities. The sort is stable.
abbrev pub sort_rules : List AclRule → List AclRule
sort_rules [] = []
sort_rules (rule ∷ rules) = insert_rule rule (sort_rules rules)
