-- ===== src/Tls/Load.antt =====
-- src/tls.rs: where the certificate and the key come from. The protocol that orders a certificate,
-- and the answer of the control plane, are arguments.
use miuturn.Common.{ℕ, [], ◌∷◌, ◌++◌, true, false, if◌then◌else◌, Text}
use miuturn.Common.Texts.{codes, same_text}
use miuturn.Config.Types.{CertificateConfig}
use miuturn.Sds.Types.{Tried, got, failed, ◌>>=◌}
use miuturn.Sds.Subscription.{text_or, number_or, ok_or}
use miuturn.Tls.Pem.{Crypto, from_pem}
use miuturn.Tls.Cache.{
  Disk, CachePaths, cache_prefix, default_cache_dir, paths_in, sds_cache_paths,
  write_cached_certificate, cached_certificate_is_usable, read_cached,
}

module _ {Files : Type 0} (crypto : Crypto) (disk : Disk Files) where
  abbrev pub store_fetched : CachePaths → Text → Text → Files → Files × Tried (Text × Text)
  store_fetched paths cert_pem key_pem files = elim (from_pem crypto cert_pem key_pem) [
    | failed e ↦ (files, failed e)
    | got tls ↦
        let (files', written) =
          write_cached_certificate crypto disk paths.cert_path paths.key_path cert_pem key_pem
            files in
        (files', written >>= (λ u. got (cert_pem, key_pem)))
  ]

  abbrev pub use_cache : CachePaths → Text → Files → ℕ → Tried (Text × Text)
  use_cache paths e files now =
      cached_certificate_is_usable crypto disk paths.cert_path paths.key_path
        paths.renew_before_days files now
      >>= (λ usable. elim usable [
        | true ↦ read_cached crypto disk paths.cert_path paths.key_path files
        | false ↦ failed (
            codes "failed to fetch SDS certificate for resource \""
            ++ (paths.resource_name ++ (codes "\" and no usable cache was found: " ++ e)))
      ])

  -- What is done with the answer of the control plane once the paths are known.
  abbrev pub with_paths :
      Tried (Text × Text) → ℕ → Files × Tried CachePaths → Files × Tried (Text × Text)
  with_paths fetched now (files, failed e) = (files, failed e)
  with_paths (got pems) now (files, got paths) = store_fetched paths pems.0 pems.1 files
  with_paths (failed e) now (files, got paths) = (files, use_cache paths e files now)

  unfoldable pub load_sds_certificate :
      CertificateConfig → Tried (Text × Text) → Files → ℕ → Files × Tried (Text × Text)
  unfolding sds_cache_paths
  load_sds_certificate config fetched files now =
      with_paths fetched now (sds_cache_paths crypto disk config files)

  -- A usable certificate is taken from the cache, and an ordered one is written to it without a look
  -- at what it holds. `order` has the key and the chain, or the error of one of its steps.
  unfoldable pub provision_letsencrypt :
      CertificateConfig → Tried (Text × Text) → Files → ℕ → Files × Tried (Text × Text)
  unfolding cache_prefix write_cached_certificate cached_certificate_is_usable
  provision_letsencrypt config order files now = elim config.domains [
    | [] ↦ (files, failed (codes "certificates.domains must contain at least one domain"))
    | domain ∷ domains ↦
        let environment = text_or (codes "staging") config.environment in
        let cache_dir = text_or default_cache_dir config.cache_dir in
        let (files', created) = disk.create_dir_all files cache_dir in
        let paths =
          paths_in crypto disk cache_dir (cache_prefix environment (domain ∷ domains))
            (number_or 30 config.renew_before_days) [] in
        let usable = created >>= (λ u.
          cached_certificate_is_usable crypto disk paths.cert_path paths.key_path
            paths.renew_before_days files' now) in
        elim usable [
          | failed e ↦ (files', failed e)
          | got true ↦ (files', read_cached crypto disk paths.cert_path paths.key_path files')
          | got false ↦ elim order [
            | failed e ↦ (files', failed e)
            | got ordered ↦
                let (files'', written) =
                  write_cached_certificate crypto disk paths.cert_path paths.key_path ordered.1
                    ordered.0 files' in
                (files'', written >>= (λ u. got (ordered.1, ordered.0)))
          ]
        ]
  ]

  unfoldable pub load_certificate_pem :
      CertificateConfig
      → Tried (Text × Text)
      → Tried (Text × Text)
      → Files
      → ℕ
      → Files × Tried (Text × Text)
  unfolding load_sds_certificate provision_letsencrypt
  load_certificate_pem config fetched order files now =
      if same_text config.source (codes "local")
      then (
        files,
        ok_or (codes "certificates.cert_path is required for source=\"local\"") config.cert_path
            >>= (λ cert_path.
                ok_or (codes "certificates.key_path is required for source=\"local\"")
                  config.key_path
                >>= (λ key_path. read_cached crypto disk cert_path key_path files)),
      )
      else if same_text config.source (codes "letsencrypt")
      then provision_letsencrypt config order files now
      else if same_text config.source (codes "sds")
      then load_sds_certificate config fetched files now
      else (
        files,
        failed (
            codes "unsupported certificates.source \""
            ++ (config.source ++ codes "\"; expected \"local\", \"letsencrypt\", or \"sds\"")),
      )
