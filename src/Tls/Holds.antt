-- ===== src/Tls/Holds.antt =====
-- src/tls.rs: the cache holds what was written to it.
use miuturn.Common.{ℕ, List, ◌∷◌, Option, none, some, true, ◌≡◌, refl, Text, arith}
use miuturn.Sds.Types.{Tried, got, failed, ◌>>=◌}
use miuturn.Tls.Pem.{Crypto, TlsConfig, from_pem, parse_certificate_chain}
use miuturn.Tls.Cache.{
  Disk, CachePaths, write_cached_certificate, cached_certificate_is_usable, is_before_renewal,
  renew_before_secs,
}
use miuturn.Tls.Load.{store_fetched, use_cache}

-- What `std::fs` promises about two paths that name different ordinary files, which may be read, or
-- would name such files once they are created: writing replaces the whole contents of one and leaves
-- the other, a file that was written exists, and creating missing directories leaves files that
-- exist. `AreFiles` says of a state of the disk that two paths are such paths.
pub record IsDisk {Files : Type 0} (disk : Disk Files) (AreFiles : Files → Text → Text → Type 0)
    : Type 0 where
  pub first_written :
      (fs : Files) (p q : Text) (s : List ℕ)
      → AreFiles fs p q
      → (disk.write fs p s).1 ≡ got tt
      → (disk.read (disk.write fs p s).0 p ≡ got s)
        × (disk.exists (disk.write fs p s).0 p ≡ true)
        × AreFiles (disk.write fs p s).0 p q
  pub second_written :
      (fs : Files) (p q : Text) (s s' : List ℕ)
      → AreFiles fs p q
      → disk.read fs p ≡ got s'
      → disk.exists fs p ≡ true
      → (disk.write fs q s).1 ≡ got tt
      → (disk.read (disk.write fs q s).0 q ≡ got s)
        × (disk.exists (disk.write fs q s).0 q ≡ true)
        × (disk.read (disk.write fs q s).0 p ≡ got s')
        × (disk.exists (disk.write fs q s).0 p ≡ true)
        × AreFiles (disk.write fs q s).0 p q
  pub created :
      (fs : Files) (d p q : Text) (s s' : List ℕ)
      → AreFiles fs p q
      → (disk.create_dir_all fs d).1 ≡ got tt
      → disk.read fs p ≡ got s
      → disk.exists fs p ≡ true
      → disk.read fs q ≡ got s'
      → disk.exists fs q ≡ true
      → let fs' = (disk.create_dir_all fs d).0 in
        (disk.read fs' p ≡ got s)
        × (disk.exists fs' p ≡ true)
        × (disk.read fs' q ≡ got s')
        × (disk.exists fs' q ≡ true)

-- The two files hold the certificate and the key.
abbrev pub Holds : {Files : Type 0} → Disk Files → CachePaths → Text → Text → Files → Type 0
Holds disk paths cert key fs =
    (disk.read fs paths.cert_path ≡ got cert)
    × (disk.exists fs paths.cert_path ≡ true)
    × (disk.read fs paths.key_path ≡ got key)
    × (disk.exists fs paths.key_path ≡ true)

bind-got : {A : Type 0} (w : Tried (Unit {0})) (a : A) → (w >>= (λ u. got a)) ≡ got a → w ≡ got tt
bind-got (failed e) a h = absurd (ground arith)
bind-got (got u) a h = refl

pub at_some :
    {A : Type 0} (o : Option Text) (name : Text) (x : A) (f : Text → A)
    → o ≡ some name
    → elim o as (λ y. A) [ none ↦ x | some r ↦ f r ] ≡ f name
at_some o name x f e = rw e refl

module _ {Files : Type 0} (crypto : Crypto) (disk : Disk Files)
    (AreFiles : Files → Text → Text → Type 0) (laws : IsDisk disk AreFiles) where
  -- The files hold what was written, and are still two files.
  abbrev pub Kept : CachePaths → Text → Text → Files → Type 0
  Kept paths cert key fs = Holds disk paths cert key fs × AreFiles fs paths.cert_path paths.key_path

  write_cached_certificate-Kept :
      (paths : CachePaths) (cert key : Text) (fs : Files)
      → AreFiles fs paths.cert_path paths.key_path
      → (write_cached_certificate crypto disk paths.cert_path paths.key_path cert key fs).1 ≡ got tt
      → Kept paths cert key
          (write_cached_certificate crypto disk paths.cert_path paths.key_path cert key fs).0
  unfolding write_cached_certificate
  write_cached_certificate-Kept paths cert key fs apart done =
      by_first (disk.write fs paths.cert_path cert).1 refl done
    where
      by_first :
          (w : Tried (Unit {0}))
          → (disk.write fs paths.cert_path cert).1 ≡ w
          → (elim w as (λ x. Files × Tried (Unit {0})) [
            | failed e ↦ ((disk.write fs paths.cert_path cert).0, failed e)
            | got u ↦ disk.write (disk.write fs paths.cert_path cert).0 paths.key_path key
          ]).1
            ≡ got tt
          → Kept paths cert key
              (elim w as (λ x. Files × Tried (Unit {0})) [
                | failed e ↦ ((disk.write fs paths.cert_path cert).0, failed e)
                | got u ↦ disk.write (disk.write fs paths.cert_path cert).0 paths.key_path key
              ]).0
      by_first (failed e) first h = absurd (ground arith)
      by_first (got u) first h =
          let fs' : Files = (disk.write fs paths.cert_path cert).0 in
          let (cert_read, cert_there, files) =
            laws.first_written fs paths.cert_path paths.key_path cert apart first in
          let (key_read, key_there, still_read, still_there, files') =
            laws.second_written fs' paths.cert_path paths.key_path key cert files cert_read
              cert_there h in
          ((still_read, still_there, key_read, key_there), files')

  usable :
      (paths : CachePaths) (cert key : Text) (fs : Files) (now end : ℕ) (first : List ℕ)
      (others : List (List ℕ))
      → Holds disk paths cert key fs
      → parse_certificate_chain crypto cert ≡ got (first ∷ others)
      → disk.not_after first ≡ got end
      → cached_certificate_is_usable crypto disk paths.cert_path paths.key_path
          paths.renew_before_days fs now
        ≡ got (is_before_renewal now end (renew_before_secs paths.renew_before_days))
  unfolding cached_certificate_is_usable
  usable paths cert key fs now end first others (c, c', k, k') chain ends =
      rw (c', k', c, chain, ends, cached_certificate_is_usable) refl

  pub use_cache-got :
      (paths : CachePaths) (cert key e : Text) (fs : Files) (now end : ℕ) (first : List ℕ)
      (others : List (List ℕ))
      → Holds disk paths cert key fs
      → parse_certificate_chain crypto cert ≡ got (first ∷ others)
      → disk.not_after first ≡ got end
      → is_before_renewal now end (renew_before_secs paths.renew_before_days) ≡ true
      → disk.from_utf8 cert ≡ got cert
      → disk.from_utf8 key ≡ got key
      → use_cache crypto disk paths e fs now ≡ got (cert, key)
  use_cache-got paths cert key e fs now end first others h chain ends early cert_text key_text =
      rw
        (
          usable paths cert key fs now end first others h chain ends,
          early,
          h.0,
          h.2,
          cert_text,
          key_text,
        )
        refl

  pub store_fetched-Kept :
      (paths : CachePaths) (cert key : Text) (fs : Files)
      → AreFiles fs paths.cert_path paths.key_path
      → (store_fetched crypto disk paths cert key fs).1 ≡ got (cert, key)
      → Kept paths cert key (store_fetched crypto disk paths cert key fs).0
  store_fetched-Kept paths cert key fs apart done = by_pem (from_pem crypto cert key) done
    where
      stored : Files × Tried (Unit {0})
      stored = write_cached_certificate crypto disk paths.cert_path paths.key_path cert key fs

      by_pem :
          (t : Tried TlsConfig)
          → (elim t as (λ x. Files × Tried (Text × Text)) [
            | failed e ↦ (fs, failed e)
            | got tls ↦ (stored.0, stored.1 >>= (λ u. got (cert, key)))
          ]).1
            ≡ got (cert, key)
          → Kept paths cert key
              (elim t as (λ x. Files × Tried (Text × Text)) [
                | failed e ↦ (fs, failed e)
                | got tls ↦ (stored.0, stored.1 >>= (λ u. got (cert, key)))
              ]).0
      by_pem (failed e) h = absurd (ground arith)
      by_pem (got tls) h =
          write_cached_certificate-Kept paths cert key fs apart (bind-got stored.1 (cert, key) h)

  pub create_dir_all-Holds :
      (paths : CachePaths) (cert key d : Text) (fs : Files)
      → Kept paths cert key fs
      → (disk.create_dir_all fs d).1 ≡ got tt
      → Holds disk paths cert key (disk.create_dir_all fs d).0
  create_dir_all-Holds paths cert key d fs ((c, c', k, k'), files) made =
      laws.created fs d paths.cert_path paths.key_path cert key files made c c' k k'
