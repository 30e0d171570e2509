-- ===== src/Tls/Cache.antt =====
-- src/tls.rs: the files of the cache. The file system is an argument.
use miuturn.Common.{
  ℕ, ◌+◌, ◌-◌, ◌*◌, ◌^◌, List, [], ◌∷◌, ◌++◌, none, some, Bool, true, false, ◌&&◌, ◌||◌, ltb, leb,
  ◌==◌, if◌then◌else◌, map, min, Text,
}
use miuturn.Common.Texts.{codes}
use miuturn.Config.Types.{CertificateConfig}
use miuturn.Sds.Types.{Tried, got, failed, ◌>>=◌}
use miuturn.Sds.Subscription.{text_or, number_or}
use miuturn.Tls.Pem.{Crypto, join_texts, parse_certificate_chain}

-- The operations of the file system on its state, the joining of paths, the reading of UTF-8, and
-- the second of the end of a certificate, counted from 1970.
pub record Disk (Files : Type 0) : Type 0 where
  pub exists : Files → Text → Bool
  pub read : Files → Text → Tried (List ℕ)
  pub write : Files → Text → List ℕ → Files × Tried (Unit {0})
  pub create_dir_all : Files → Text → Files × Tried (Unit {0})
  pub join : Text → Text → Text
  pub from_utf8 : List ℕ → Tried Text
  pub not_after : List ℕ → Tried ℕ

abbrev pub is_kept : ℕ → Bool
is_kept c =
    (leb b'0' c && leb c b'9')
    || ((leb b'A' c && leb c b'Z') || ((leb b'a' c && leb c b'z') || (c == b'.' || c == b'-')))

-- A character of more than one byte is one underscore: bytes that continue one are dropped.
unfoldable pub sanitize_filename : Text → Text
sanitize_filename [] = []
sanitize_filename (c ∷ s) =
    let rest = sanitize_filename s in
    if is_kept c then c ∷ rest else if leb 128 c && ltb c 192 then rest else b'_' ∷ rest

unfoldable pub cache_prefix : Text → List Text → Text
unfolding sanitize_filename
cache_prefix environment domains =
    codes "letsencrypt-"
    ++ (environment ++ (b'-' ∷ join_texts (codes "-") (map sanitize_filename domains)))

abbrev pub default_cache_dir : Text
default_cache_dir = codes "./cert-cache"

-- The seconds before the end at which a certificate is renewed, saturated as a `u64`.
abbrev pub renew_before_secs : ℕ → ℕ
renew_before_secs days = min (days * 86400) (2 ^ 64 - 1)

-- The comparison of `i64`s: a number of seconds from 2^63 on is negative there.
abbrev pub is_before_renewal : ℕ → ℕ → ℕ → Bool
is_before_renewal now end secs =
    if ltb secs (2 ^ 63)
    then ltb (now + secs) end
    else ltb now (min (end + (2 ^ 64 - secs)) (2 ^ 63 - 1))

-- The name of the resource, the two paths and the days before the renewal.
pub record CachePaths : Type 0 where
  pub resource_name : Text
  pub cert_path : Text
  pub key_path : Text
  pub renew_before_days : ℕ

module _ {Files : Type 0} (crypto : Crypto) (disk : Disk Files) where
  abbrev pub paths_in : Text → Text → ℕ → Text → CachePaths
  paths_in cache_dir prefix days resource_name = record {
    resource_name = resource_name;
    cert_path = disk.join cache_dir (prefix ++ codes ".fullchain.pem");
    key_path = disk.join cache_dir (prefix ++ codes ".privkey.pem");
    renew_before_days = days;
  }

  unfoldable pub sds_cache_paths : CertificateConfig → Files → Files × Tried CachePaths
  unfolding cache_prefix
  sds_cache_paths config files = elim config.sds_resource_name [
    | none ↦ (files, failed (codes "certificates.sds_resource_name is required for source=\"sds\""))
    | some resource_name ↦
        let cache_dir = text_or default_cache_dir config.cache_dir in
        let (files', created) = disk.create_dir_all files cache_dir in
        (
          files',
          created >>= (λ u. got (
              paths_in cache_dir (cache_prefix (codes "sds") (resource_name ∷ []))
                (number_or 30 config.renew_before_days) resource_name)),
        )
  ]

  -- The certificate first, and the key only if that succeeds.
  unfoldable pub write_cached_certificate :
      Text → Text → Text → Text → Files → Files × Tried (Unit {0})
  write_cached_certificate cert_path key_path cert_pem key_pem files =
      let (files', written) = disk.write files cert_path cert_pem in
      elim written [ failed e ↦ (files', failed e) | got u ↦ disk.write files' key_path key_pem ]

  abbrev pub first_end : List (List ℕ) → Tried ℕ
  first_end [] = failed []
  first_end (cert ∷ certs) = disk.not_after cert

  -- `now` is the seconds since 1970.
  unfoldable pub cached_certificate_is_usable : Text → Text → ℕ → Files → ℕ → Tried Bool
  unfolding parse_certificate_chain
  cached_certificate_is_usable cert_path key_path renew_before_days files now =
      elim (disk.exists files cert_path && disk.exists files key_path) [
        | false ↦ got false
        | true ↦ disk.read files cert_path >>= (λ cert_data.
            parse_certificate_chain crypto cert_data >>= (λ certs.
              first_end certs
              >>= (λ end. got (is_before_renewal now end (renew_before_secs renew_before_days)))))
      ]

  -- The two files as texts.
  abbrev pub read_cached : Text → Text → Files → Tried (Text × Text)
  read_cached cert_path key_path files =
      (disk.read files cert_path >>= disk.from_utf8) >>= (λ cert_pem.
        (disk.read files key_path >>= disk.from_utf8) >>= (λ key_pem. got (cert_pem, key_pem)))
