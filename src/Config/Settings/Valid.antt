-- ===== src/Config/Settings/Valid.antt =====
-- What a validated configuration satisfies.
use mathlib.Core.Path.{subst}
use aero_nyx_private_ed.Base.{
  ◌≤◌, ◌≡◌, ◌≢◌, ◌↔◌, ◌⊎◌, inl, inr, refl, true, Option, none, some, Text, codes, text_iff,
  list_beq, contains_text, Holds, contains_text_iff, Result, ok, >>=-eq-ok, >>-eq-ok, ok_injective,
  arith, Bool-cases,
}
use aero_nyx_private_ed.Config.Settings.{
  NodeMode, depin_only, vpn_enabled, hybrid, TransportSecurity, tls, raw, ConfigError, ServerArgs,
  ServerConfig, Disk, has_vpn, is_tls, needs_files, check_vpn, is_obfuscation, is_security_mode,
  validate, validated,
}
use aero_nyx_private_ed.Config.Settings.Args.{
  overridden, overriding_addr, from_line, chosen, from_args, listen_of, files_of,
}

pub record IsValid (disk : Disk) (config : ServerConfig) : Type 0 where
  pub subnet : config.mode ≢ depin_only → Holds (codes "/") config.subnet
  pub files :
      config.mode ≢ depin_only
      → config.transport_security ≡ tls
      → ¬ Holds (codes "dummy") config.cert_file
      → (disk.exists config.cert_file ≡ true) × (disk.exists config.key_file ≡ true)
  pub obfuscation :
      config.enable_obfuscation ≡ true
      → (config.obfuscation_method ≡ codes "xor")
        ⊎ (config.obfuscation_method ≡ codes "scramblesuit")
        ⊎ (config.obfuscation_method ≡ codes "obfs4")
  pub rotation : 300 ≤ config.key_rotation_interval
  pub session : 300 ≤ config.session_timeout
  pub security :
      (config.remote_security_mode ≡ codes "restricted")
      ⊎ (config.remote_security_mode ≡ codes "full-access")

has_vpn_iff : (mode : NodeMode) → (has_vpn mode ≡ true) ↔ (mode ≢ depin_only)
unfolding has_vpn
has_vpn_iff depin_only = (λ h e. cc h, λ other. absurd (other refl))
has_vpn_iff vpn_enabled = (λ h e. cc e, λ other. refl)
has_vpn_iff hybrid = (λ h e. cc e, λ other. refl)

is_tls_iff : (t : TransportSecurity) → (is_tls t ≡ true) ↔ (t ≡ tls)
unfolding is_tls
is_tls_iff tls = (λ h. refl, λ e. refl)
is_tls_iff raw = (λ h. cc h, λ e. cc e)

needs_files_iff :
    (config : ServerConfig)
    → (needs_files config ≡ true)
      ↔ ((config.transport_security ≡ tls) × ¬ Holds (codes "dummy") config.cert_file)
unfolding needs_files
needs_files_iff config =
    let secured = is_tls_iff config.transport_security in
    let dummy = contains_text_iff (codes "dummy") config.cert_file in
    (
      λ h. (secured.0 (ground (arith, h)), λ held. ground (arith, h, dummy.1 held)),
      λ (e, real). elim (Bool-cases (contains_text (codes "dummy") config.cert_file)) [
        | inl found ↦ absurd (real (dummy.0 found))
        | inr free ↦ rw (secured.1 e, free)
      ],
    )

is_obfuscation_iff :
    (method : Text)
    → (is_obfuscation method ≡ true)
      ↔ ((method ≡ codes "xor") ⊎ (method ≡ codes "scramblesuit") ⊎ (method ≡ codes "obfs4"))
unfolding is_obfuscation
is_obfuscation_iff method =
    let xor = text_iff method (codes "xor") in
    let suit = text_iff method (codes "scramblesuit") in
    let obfs = text_iff method (codes "obfs4") in
    (
      λ h. elim (Bool-cases (list_beq method (codes "xor"))) [
        | inl is ↦ inl (xor.0 is)
        | inr isnt ↦ elim (Bool-cases (list_beq method (codes "scramblesuit"))) [
          | inl is ↦ inr (inl (suit.0 is))
          | inr not_suit ↦ inr (inr (obfs.0 (ground (arith, h, isnt, not_suit))))
        ]
      ],
      λ known. elim known [
        | inl e ↦ rw (xor.1 e)
        | inr rest ↦ elim rest [
          | inl e ↦ ground (arith, suit.1 e)
          | inr e ↦ ground (arith, obfs.1 e)
        ]
      ],
    )

is_security_mode_iff :
    (mode : Text)
    → (is_security_mode mode ≡ true) ↔ ((mode ≡ codes "restricted") ⊎ (mode ≡ codes "full-access"))
unfolding is_security_mode
is_security_mode_iff mode =
    let limited = text_iff mode (codes "restricted") in
    let full = text_iff mode (codes "full-access") in
    (
      λ h. elim (Bool-cases (list_beq mode (codes "restricted"))) [
        | inl is ↦ inl (limited.0 is)
        | inr isnt ↦ inr (full.0 (ground (arith, h, isnt)))
      ],
      λ known. elim known [ inl e ↦ rw (limited.1 e) | inr e ↦ ground (arith, full.1 e) ],
    )

-- What the tests of `validate` say, one by one.
record Passes (disk : Disk) (config : ServerConfig) : Type 0 where
  subnet : has_vpn config.mode ≡ true → contains_text (codes "/") config.subnet ≡ true
  files :
      has_vpn config.mode ≡ true
      → needs_files config ≡ true
      → (disk.exists config.cert_file ≡ true) × (disk.exists config.key_file ≡ true)
  obfuscation : config.enable_obfuscation ≡ true → is_obfuscation config.obfuscation_method ≡ true
  rotation : 300 ≤ config.key_rotation_interval
  session : 300 ≤ config.session_timeout
  security : is_security_mode config.remote_security_mode ≡ true

module _ (disk : Disk) (config : ServerConfig) where
  validate-Passes : validate disk config ≡ ok tt → Passes disk config
  unfolding validate check_vpn
  validate-Passes h = record {
    subnet = λ vpn. ground (arith, h, vpn);
    files = λ vpn needs. (ground (arith, h, vpn, needs), ground (arith, h, vpn, needs));
    obfuscation = λ on. ground (arith, h, on);
    rotation = ground (arith, h);
    session = ground (arith, h);
    security = ground (arith, h);
  }

  Passes-validate : Passes disk config → validate disk config ≡ ok tt
  unfolding validate check_vpn
  Passes-validate v =
      ground (arith, v.subnet, v.files, v.obfuscation, v.rotation, v.session, v.security)

  validate-ok : validate disk config ≡ ok tt → IsValid disk config
  validate-ok h =
      let v = validate-Passes h in
      let vpn = has_vpn_iff config.mode in
      record {
        subnet = λ on. (contains_text_iff (codes "/") config.subnet).0 (v.subnet (vpn.1 on));
        files = λ on secured real. v.files (vpn.1 on) ((needs_files_iff config).1 (secured, real));
        obfuscation = λ on. (is_obfuscation_iff config.obfuscation_method).0 (v.obfuscation on);
        rotation = v.rotation;
        session = v.session;
        security = (is_security_mode_iff config.remote_security_mode).0 v.security;
      }

  validate_complete : IsValid disk config → validate disk config ≡ ok tt
  validate_complete v =
      let vpn = has_vpn_iff config.mode in
      Passes-validate (record {
        subnet = λ on. (contains_text_iff (codes "/") config.subnet).1 (v.subnet (vpn.0 on));
        files = λ on needs.
            let (secured, real) = (needs_files_iff config).0 needs in
            v.files (vpn.0 on) secured real;
        obfuscation = λ on. (is_obfuscation_iff config.obfuscation_method).1 (v.obfuscation on);
        rotation = v.rotation;
        session = v.session;
        security = (is_security_mode_iff config.remote_security_mode).1 v.security;
      })

-- Validation accepts a configuration exactly when its subnet has a slash and its TLS files are there,
-- where it offers a VPN, its obfuscation is known, where it obfuscates, both of its intervals are at
-- least 300 seconds, and its remote security mode is one of the two.
pub validate_iff :
    (disk : Disk) (config : ServerConfig) → (validate disk config ≡ ok tt) ↔ IsValid disk config
validate_iff disk config = (validate-ok disk config, validate_complete disk config)

validated-ok :
    (disk : Disk) (c config : ServerConfig)
    → validated disk c ≡ ok config
    → (c ≡ config) × IsValid disk config
unfolding validated
validated-ok disk c config h =
    let (valid, same) = >>-eq-ok (validate disk c) (ok c) h in
    (ok_injective same, subst (IsValid disk) (ok_injective same) (validate-ok disk c valid))

-- The settings that the command line decides in any case.
abbrev pub Decided : ServerArgs → ServerConfig → Type 0
Decided args config =
    (config.mode ≡ args.mode)
    × (config.transport_security ≡ args.transport_security)
    × (config.enable_remote_management ≡ args.enable_remote_management)
    × (config.remote_security_mode ≡ args.remote_security_mode)

from_line-Decided :
    (disk : Disk) (args : ServerArgs) (registered : Option Text × Option Text)
    (config : ServerConfig)
    → from_line disk args registered ≡ ok config
    → Decided args config
unfolding from_line
from_line-Decided disk args (code, wallet) config h =
    let (addr, _, h1) = >>=-eq-ok (listen_of disk args) _ h in
    let (files, _, h2) = >>=-eq-ok (files_of args) _ h1 in
    let (_, h3) = >>-eq-ok _ _ h2 in subst (Decided args) (ok_injective h3) (refl, refl, refl, refl)

overridden-Decided :
    (disk : Disk) (args : ServerArgs) (registered : Option Text × Option Text)
    (c config : ServerConfig)
    → overridden disk args registered c ≡ ok config
    → Decided args config
unfolding overridden
overridden-Decided disk args (code, wallet) c config h =
    let (addr, _, h1) = >>=-eq-ok (overriding_addr disk args c) _ h in
    subst (Decided args) (ok_injective h1) (refl, refl, refl, refl)

chosen-Decided :
    (disk : Disk) (args : ServerArgs) (registered : Option Text × Option Text)
    (read : Option (Result ConfigError ServerConfig)) (config : ServerConfig)
    → chosen disk args registered read ≡ ok config
    → Decided args config
unfolding chosen
chosen-Decided disk args registered none config h = from_line-Decided disk args registered config h
chosen-Decided disk args registered (some read) config h =
    let (c, _, h1) = >>=-eq-ok read _ h in overridden-Decided disk args registered c config h1

-- A configuration made from the command line is valid, also where a file gave the rest, and its mode,
-- its transport security and its remote management are those of the command line.
pub from_args-IsValid :
    (disk : Disk) (args : ServerArgs) (config : ServerConfig)
    → from_args disk args ≡ ok config
    → IsValid disk config × Decided args config
unfolding from_args
from_args-IsValid disk args config h =
    let (c, made, passed) = >>=-eq-ok _ (validated disk) h in
    let (same, valid) = validated-ok disk c config passed in
    (valid, subst (Decided args) same (chosen-Decided disk args _ _ c made))
