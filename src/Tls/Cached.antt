-- ===== src/Tls/Cached.antt =====
-- src/tls.rs: a certificate of the control plane is there again when it cannot be fetched.
use miuturn.Common.{ℕ, List, [], ◌∷◌, some, true, ◌≡◌, sym, ap, subst, ◌∙◌, Text, arith}
use miuturn.Common.Texts.{codes}
use miuturn.Config.Types.{CertificateConfig}
use miuturn.Sds.Types.{Tried, got, failed, ◌>>=◌}
use miuturn.Sds.Subscription.{text_or, number_or}
use miuturn.Tls.Pem.{Crypto, parse_certificate_chain}
use miuturn.Tls.Cache.{
  Disk, CachePaths, cache_prefix, default_cache_dir, paths_in, sds_cache_paths, is_before_renewal,
  renew_before_secs,
}
use miuturn.Tls.Holds.{
  IsDisk, Kept, at_some, store_fetched-Kept, create_dir_all-Holds, use_cache-got,
}
use miuturn.Tls.Load.{load_sds_certificate, with_paths}

module _ {Files : Type 0} (crypto : Crypto) (disk : Disk Files)
    (AreFiles : Files → Text → Text → Type 0) (laws : IsDisk disk AreFiles) where
  abbrev cache_dir_of : CertificateConfig → Text
  cache_dir_of config = text_or default_cache_dir config.cache_dir

  abbrev days_of : CertificateConfig → ℕ
  days_of config = number_or 30 config.renew_before_days

  abbrev paths_of : CertificateConfig → Text → CachePaths
  paths_of config name =
      paths_in crypto disk (cache_dir_of config) (cache_prefix (codes "sds") (name ∷ []))
        (days_of config) name

  sds_cache_paths_lem :
      (config : CertificateConfig) (name : Text) (fs : Files)
      → config.sds_resource_name ≡ some name
      → sds_cache_paths crypto disk config fs ≡ (
        (disk.create_dir_all fs (cache_dir_of config)).0,
        (disk.create_dir_all fs (cache_dir_of config)).1 >>= (λ u. got (paths_of config name)),
      )
  unfolding sds_cache_paths
  sds_cache_paths_lem config name fs named = at_some config.sds_resource_name name _ _ named

  loaded-Kept :
      (config : CertificateConfig) (name cert key : Text) (fs : Files) (now : ℕ)
      (created : Tried (Unit {0}))
      → AreFiles fs (paths_of config name).cert_path (paths_of config name).key_path
      → let found = created >>= (λ u. got (paths_of config name)) in
        (with_paths crypto disk (got (cert, key)) now (fs, found)).1 ≡ got (cert, key)
        → Kept crypto disk AreFiles laws
            (paths_of config name)
            cert
            key
            (with_paths crypto disk (got (cert, key)) now (fs, found)).0
  loaded-Kept config name cert key fs now (failed e) files h = absurd (ground arith)
  loaded-Kept config name cert key fs now (got u) files h =
      store_fetched-Kept crypto disk AreFiles laws (paths_of config name) cert key fs files h

  -- A certificate that was fetched and loaded is loaded from the cache again when a later fetch
  -- fails and nothing else has changed the files, as long as the first certificate of its chain is
  -- not due for renewal. The two paths in the cache name different ordinary files, for which the
  -- file system keeps what is written; the directory of the cache is there or can be created again,
  -- and the two texts are UTF-8.
  pub load_sds_certificate_cached :
      (config : CertificateConfig) (name cert key e : Text) (fs : Files) (now later end : ℕ)
      (leaf : List ℕ) (chain : List (List ℕ))
      → config.sds_resource_name ≡ some name
      → AreFiles
          (disk.create_dir_all fs (cache_dir_of config)).0
          (paths_of config name).cert_path
          (paths_of config name).key_path
      → (load_sds_certificate crypto disk config (got (cert, key)) fs now).1 ≡ got (cert, key)
      → parse_certificate_chain crypto cert ≡ got (leaf ∷ chain)
      → disk.not_after leaf ≡ got end
      → is_before_renewal later end (renew_before_secs (days_of config)) ≡ true
      → disk.from_utf8 cert ≡ got cert
      → disk.from_utf8 key ≡ got key
      → let fs' = (load_sds_certificate crypto disk config (got (cert, key)) fs now).0 in
        (disk.create_dir_all fs' (cache_dir_of config)).1 ≡ got tt
        → (load_sds_certificate crypto disk config (failed e) fs' later).1 ≡ got (cert, key)
  unfolding load_sds_certificate
  load_sds_certificate_cached config name cert key e fs now later end leaf chain named files done
        parsed ends early cert_text key_text created =
      let paths : CachePaths = paths_of config name in
      let d : Text = cache_dir_of config in
      let fs' : Files = (load_sds_certificate crypto disk config (got (cert, key)) fs now).0 in
      let first = sds_cache_paths_lem config name fs named in
      let holds =
        loaded-Kept config name cert key (disk.create_dir_all fs d).0 now
          (disk.create_dir_all fs d).1 files
          (ap (λ x. (with_paths crypto disk (got (cert, key)) now x).1) (sym first) ∙ done) in
      let kept : Kept crypto disk AreFiles laws paths cert key fs' =
        subst (Kept crypto disk AreFiles laws paths cert key)
          (ap (λ x. (with_paths crypto disk (got (cert, key)) now x).0) (sym first)) holds in
      ap (λ x. (with_paths crypto disk (failed e) later x).1)
        (sds_cache_paths_lem config name fs' named)
      ∙ (ap
            (λ (w : Tried (Unit {0})).
              (with_paths crypto disk (failed e) later
                ((disk.create_dir_all fs' d).0, w >>= (λ u. got paths))).1)
            created
          ∙ use_cache-got crypto disk AreFiles laws paths cert key e (disk.create_dir_all fs' d).0
              later end leaf chain
              (create_dir_all-Holds crypto disk AreFiles laws paths cert key d fs' kept created)
              parsed ends early cert_text key_text)
