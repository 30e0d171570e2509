-- ===== src/Tls/Tests.antt =====
-- Runs of src/tls.rs on a disk that is an association list, and the theorem applied to one.
use miuturn.Common.{
  ℕ, List, [], ◌∷◌, ◌++◌, Option, none, some, Bool, true, false, ◌≡◌, ◌≢◌, sym, ◌∙◌, refl, ap, Text,
  arith, ℕ_discrete,
}
use miuturn.Common.Map.{lookup, insert, lookup-insert_self, lookup-insert_ne}
use miuturn.Common.Texts.{Text-discrete, codes}
use miuturn.Config.Types.{CertificateConfig}
use miuturn.Sds.Types.{Tried, got, failed}
use miuturn.Tls.Pem.{Crypto, pkcs8, from_pem, parse_certificate_chain, parse_private_key, first_key}
use miuturn.Tls.Cache.{
  Disk, cache_prefix, sanitize_filename, sds_cache_paths, write_cached_certificate,
  cached_certificate_is_usable,
}
use miuturn.Tls.Load.{load_sds_certificate}
use miuturn.Tls.Holds.{IsDisk}
use miuturn.Tls.Cached.{load_sds_certificate_cached}

program : Unit {0}
unfolding Text-discrete ℕ_discrete from_pem parse_certificate_chain parse_private_key first_key
    cache_prefix sanitize_filename sds_cache_paths write_cached_certificate
    cached_certificate_is_usable load_sds_certificate
program = tt

abbrev Files : Type 0
Files = List (Text × List ℕ)

abbrev content : Option (List ℕ) → Tried (List ℕ)
content none = failed (codes "no such file")
content (some s) = got s

abbrev is_there : Option (List ℕ) → Bool
is_there none = false
is_there (some s) = true

-- Every certificate ends after ten years.
abbrev disk : Disk Files
disk = record {
  exists = λ fs p. is_there (lookup Text-discrete p fs);
  read = λ fs p. content (lookup Text-discrete p fs);
  write = λ fs p s. (insert Text-discrete p s fs, got tt);
  create_dir_all = λ fs d. (fs, got tt);
  join = λ d s. d ++ (b'/' ∷ s);
  from_utf8 = λ s. got s;
  not_after = λ cert. got 315360000;
}

-- Every file is one block.
abbrev crypto : Crypto
crypto = record {
  parse_many = λ s. got (record { tag = codes "CERTIFICATE"; contents = s } ∷ []);
  encode_pem = λ block. block.contents;
  key_kind_of = λ key. got pkcs8;
  p256_to_pkcs8 = λ key. got key;
  trim = λ s. s;
  dtls_is_rsa = λ s. got false;
}

disk-IsDisk : IsDisk disk (λ fs p q. p ≢ q)
disk-IsDisk = record {
  first_written = λ fs p q s apart done. (
    ap content (lookup-insert_self Text-discrete p s fs),
    ap is_there (lookup-insert_self Text-discrete p s fs),
    apart,
  );
  second_written = λ fs p q s s' apart e there done.
      let same = lookup-insert_ne Text-discrete q p s fs (λ h. apart (sym h)) in
      (
        ap content (lookup-insert_self Text-discrete q s fs),
        ap is_there (lookup-insert_self Text-discrete q s fs),
        ap content same ∙ e,
        ap is_there same ∙ there,
        apart,
      );
  created = λ fs d p q s s' apart done e there e' there'. (e, there, e', there');
}

different :
    disk.join
      (codes "cache")
      (cache_prefix (codes "sds") (codes "turn" ∷ []) ++ codes ".fullchain.pem")
    ≢ disk.join
        (codes "cache")
        (cache_prefix (codes "sds") (codes "turn" ∷ []) ++ codes ".privkey.pem")
unfolding program
different = λ e. absurd (ground (arith, e))

sanitizes : cache_prefix (codes "sds") (codes "turn/cert" ∷ []) ≡ codes "letsencrypt-sds-turn_cert"
unfolding program
sanitizes = refl

abbrev config : CertificateConfig
config = record {
  source = codes "sds";
  cert_path = none;
  key_path = none;
  domains = [];
  email = none;
  environment = none;
  cache_dir = some (codes "cache");
  http01_address = none;
  renew_before_days = none;
  sds_address = some (codes "127.0.0.1:18000");
  sds_api = none;
  sds_resource_name = some (codes "turn");
  sds_node_id = none;
  sds_cluster = none;
  sds_timeout_secs = none;
}

abbrev cert : Text
cert = codes "C"

abbrev key : Text
key = codes "K"

loads : (load_sds_certificate crypto disk config (got (cert, key)) [] 5).1 ≡ got (cert, key)
unfolding program
loads = refl

one_certificate : parse_certificate_chain crypto cert ≡ got (cert ∷ [])
unfolding program
one_certificate = refl

load_sds_certificate_cached_example :
    (load_sds_certificate crypto disk config
      (failed (codes "refused"))
      (load_sds_certificate crypto disk config (got (cert, key)) [] 5).0
      1000).1
    ≡ got (cert, key)
load_sds_certificate_cached_example =
    load_sds_certificate_cached crypto disk (λ fs p q. p ≢ q) disk-IsDisk config (codes "turn") cert
      key (codes "refused") [] 5 1000 315360000 cert [] refl different loads one_certificate refl
      refl refl refl refl
