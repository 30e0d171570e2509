-- ===== src/Common/Map.antt =====
-- Maps as association lists without repeated keys: a `HashMap` whose order of iteration is the
-- list's. The laws hold whatever that order is.
use Prim.Native.Nat.{◌+◌}
use mathlib.Core.Path.{subst, ◌≡◌, refl, sym}
use mathlib.Core.Logic.{◌≢◌, ite, if_pos, if_neg}
use mathlib.Core.Bool.{Bool, true, false}
use mathlib.Core.List.{List, [], ◌∷◌}
use mathlib.Core.Option.{Option, none, some}
use native.Mathlib.Omega.{arith}
use miuturn.Common.Tests.{Bool-cases}
use mathlib.Core.Logic.{inl, inr}
use miuturn.Common.Lists.{length, All, find, retain, All-retain}

abbrev pub keep_if : {V : Type 0} → (V → Bool) → Option V → Option V
keep_if p none = none
keep_if p (some v) = elim (p v) [ true ↦ some v | false ↦ none ]

module _ {K V : Type 0} where
  -- No key twice.
  abbrev pub IsMap : List (K × V) → Type 0
  IsMap [] = Unit {0}
  IsMap ((k, v) ∷ m) = All (λ e. e.0 ≢ k) m × IsMap m

  pub retain-IsMap : (p : K × V → Bool) (m : List (K × V)) → IsMap m → IsMap (retain p m)
  retain-IsMap p [] h = tt
  retain-IsMap p ((k, v) ∷ m) h =
      ground (arith, retain-IsMap p m h.1, All-retain (λ e. e.0 ≢ k) p m h.0)

module _ {K V : Type 0} (dec : Discrete K) where
  abbrev pub lookup : K → List (K × V) → Option V
  lookup k [] = none
  lookup k ((j, v) ∷ m) = ite (dec j k) (some v) (lookup k m)

  -- Replaces the value of a key that is there, and adds one that is not.
  abbrev pub insert : K → V → List (K × V) → List (K × V)
  insert k v [] = (k, v) ∷ []
  insert k v ((j, w) ∷ m) = ite (dec j k) ((k, v) ∷ m) ((j, w) ∷ insert k v m)

  abbrev pub remove : K → List (K × V) → List (K × V)
  remove k [] = []
  remove k ((j, w) ∷ m) = ite (dec j k) (remove k m) ((j, w) ∷ remove k m)

  pub lookup-insert :
      (k j : K) (v : V) (m : List (K × V))
      → lookup j (insert k v m) ≡ ite (dec k j) (some v) (lookup j m)
  lookup-insert k j v [] = refl
  lookup-insert k j v ((i, w) ∷ m) = ground (arith, lookup-insert k j v m)

  pub lookup-insert_self : (k : K) (v : V) (m : List (K × V)) → lookup k (insert k v m) ≡ some v
  lookup-insert_self k v m = ground (arith, lookup-insert k k v m)

  pub lookup-insert_ne :
      (k j : K) (v : V) (m : List (K × V)) → k ≢ j → lookup j (insert k v m) ≡ lookup j m
  lookup-insert_ne k j v m h = ground (arith, lookup-insert k j v m)

  pub lookup-remove :
      (k j : K) (m : List (K × V)) → lookup j (remove k m) ≡ ite (dec k j) none (lookup j m)
  lookup-remove k j [] = ground arith
  lookup-remove k j ((i, w) ∷ m) = ground (arith, lookup-remove k j m)

  -- A key that no entry has is not found, and the other way round.
  pub lookup_fresh : (k : K) (m : List (K × V)) → All (λ e. e.0 ≢ k) m → lookup k m ≡ none
  lookup_fresh k [] h = refl
  lookup_fresh k ((j, w) ∷ m) h = ground (arith, lookup_fresh k m h.1)

  pub fresh_of_lookup : (k : K) (m : List (K × V)) → lookup k m ≡ none → All (λ e. e.0 ≢ k) m
  fresh_of_lookup k [] h = tt
  fresh_of_lookup k ((j, w) ∷ m) h = elim (dec j k) [
    | yes p ↦ absurd (ground arith)
    | no p ↦ (p, fresh_of_lookup k m (ground arith))
  ]

  pub lookup-retain :
      (p : K × V → Bool) (k : K) (m : List (K × V))
      → IsMap m
      → lookup k (retain p m) ≡ keep_if (λ v. p (k, v)) (lookup k m)
  lookup-retain p k [] h = refl
  lookup-retain p k ((j, w) ∷ m) h = elim (dec j k) [
    | yes e ↦ ground (
      arith,
      lookup_fresh k m,
      lookup-retain p k m h.1,
      subst (λ i. All (λ (x : K × V). x.0 ≢ i) m) e h.0,
    )
    | no e ↦ ground (arith, lookup-retain p k m h.1)
  ]

  pub All-insert :
      (P : K × V → Type 0) (k : K) (v : V) (m : List (K × V))
      → P (k, v)
      → All P m
      → All P (insert k v m)
  All-insert P k v [] h hs = (h, tt)
  All-insert P k v ((j, w) ∷ m) h hs = ground (arith, All-insert P k v m h hs.1)

  pub All-remove : (P : K × V → Type 0) (k : K) (m : List (K × V)) → All P m → All P (remove k m)
  All-remove P k [] hs = tt
  All-remove P k ((j, w) ∷ m) hs = ground (arith, All-remove P k m hs.1)

  pub insert-IsMap : (k : K) (v : V) (m : List (K × V)) → IsMap m → IsMap (insert k v m)
  insert-IsMap k v [] h = (tt, tt)
  insert-IsMap k v ((j, w) ∷ m) h = elim (dec j k) [
    | yes e ↦ rw (if_pos _ e) (subst (λ i. All (λ (x : K × V). x.0 ≢ i) m) e h.0, h.1)
    | no e ↦
        rw (if_neg _ e)
          (All-insert (λ x. x.0 ≢ j) k v m (λ q. e (sym q)) h.0, insert-IsMap k v m h.1)
  ]

  pub remove-IsMap : (k : K) (m : List (K × V)) → IsMap m → IsMap (remove k m)
  remove-IsMap k [] h = tt
  remove-IsMap k ((j, w) ∷ m) h =
      ground (arith, remove-IsMap k m h.1, All-remove (λ x. x.0 ≢ j) k m h.0)

  pub length-insert_new :
      (k : K) (v : V) (m : List (K × V)) → lookup k m ≡ none → length (insert k v m) ≡ length m + 1
  length-insert_new k v [] h = omega arith
  length-insert_new k v ((j, w) ∷ m) h = ground (arith, length-insert_new k v m)

  pub remove_fresh : (k : K) (m : List (K × V)) → lookup k m ≡ none → remove k m ≡ m
  remove_fresh k [] h = refl
  remove_fresh k ((j, w) ∷ m) h = ground (arith, remove_fresh k m)

  pub length-remove :
      (k : K) (v : V) (m : List (K × V))
      → IsMap m
      → lookup k m ≡ some v
      → length (remove k m) + 1 ≡ length m
  length-remove k v [] h e = cc
  length-remove k v ((j, w) ∷ m) h e = elim (dec j k) [
    | yes q ↦ ground (
      arith,
      remove_fresh k m,
      lookup_fresh k m (subst (λ i. All (λ (x : K × V). x.0 ≢ i) m) q h.0),
    )
    | no q ↦ ground (arith, length-remove k v m h.1)
  ]

  pub All-lookup :
      (P : K × V → Type 0) (k : K) (v : V) (m : List (K × V))
      → All P m
      → lookup k m ≡ some v
      → P (k, v)
  All-lookup P k v [] h e = cc
  All-lookup P k v ((j, w) ∷ m) h e = elim (dec j k) [
    | yes q ↦ let r : w ≡ v = ground arith in subst (λ i. P (i, v)) q (subst (λ u. P (j, u)) r h.0)
    | no q ↦ All-lookup P k v m h.1 (ground arith)
  ]

  -- What a search finds passes the test and is the value of its key; a search that fails has met
  -- every entry.
  pub find-some :
      (p : K × V → Bool) (k : K) (v : V) (m : List (K × V))
      → IsMap m
      → find p m ≡ some (k, v)
      → (lookup k m ≡ some v) × (p (k, v) ≡ true)
  find-some p k v [] h e = cc
  find-some p k v ((j, w) ∷ m) h e = elim (Bool-cases (p (j, w))) [
    | inl t ↦ ground (arith, t)
    | inr f ↦
        let (later, passed) = find-some p k v m h.1 (ground (arith, f)) in
        let other : k ≢ j = All-lookup (λ x. x.0 ≢ j) k v m h.0 later in
        (ground (arith, later, λ (q : j ≡ k). other (sym q)), passed)
  ]

  pub find-none :
      (p : K × V → Bool) (k : K) (v : V) (m : List (K × V))
      → find p m ≡ none
      → lookup k m ≡ some v
      → p (k, v) ≡ false
  find-none p k v [] e l = cc
  find-none p k v ((j, w) ∷ m) e l = ground (arith, find-none p k v m)

  pub length-insert_old :
      (k : K) (v w : V) (m : List (K × V)) → lookup k m ≡ some w → length (insert k v m) ≡ length m
  length-insert_old k v w [] h = cc
  length-insert_old k v w ((j, u) ∷ m) h = ground (arith, length-insert_old k v w m)
