-- ===== src/Erase/Decision.antt =====
-- crates/vajra-erase/src/decision_engine.rs: the recommended method. Of its texts there is left whether
-- a residual risk is told, whether the overwrite is advised against, and the method that the
-- alternative names; the summary and the reason are left out.
pub mod Advice
use vajra_forensics_platform.Prelude.{
  ℕ, ◌+◌, Bool, true, false, ◌||◌, ◌&&◌, Option, none, some, List, [], ◌∷◌, ◌==◌, if◌then◌else◌,
}

pub data MediaType : Type 0 where
  hdd sata_ssd nvme sed usb sd_card forensic_image : MediaType

pub data SanitizeMethod : Type 0 where
  ata_secure_erase : SanitizeMethod
  ata_enhanced_secure_erase : SanitizeMethod
  nvme_sanitize_block : SanitizeMethod
  nvme_sanitize_crypto : SanitizeMethod
  nvme_format : SanitizeMethod
  cryptographic_erase : SanitizeMethod
  host_overwrite_single_pass : SanitizeMethod
  host_overwrite_multi_pass : ℕ → SanitizeMethod
  scsi_sanitize_overwrite : SanitizeMethod
  scsi_sanitize_crypto : SanitizeMethod

-- The derived equality: the constructor, and the number of passes.
abbrev pub media_tag : MediaType → ℕ
media_tag hdd = 0
media_tag sata_ssd = 1
media_tag nvme = 2
media_tag sed = 3
media_tag usb = 4
media_tag sd_card = 5
media_tag forensic_image = 6

abbrev pub method_tag : SanitizeMethod → ℕ
method_tag ata_secure_erase = 0
method_tag ata_enhanced_secure_erase = 1
method_tag nvme_sanitize_block = 2
method_tag nvme_sanitize_crypto = 3
method_tag nvme_format = 4
method_tag cryptographic_erase = 5
method_tag host_overwrite_single_pass = 6
method_tag scsi_sanitize_overwrite = 7
method_tag scsi_sanitize_crypto = 8
method_tag (host_overwrite_multi_pass passes) = 9 + passes

abbrev pub is_media : MediaType → MediaType → Bool
is_media a b = media_tag a == media_tag b

pub supports : List SanitizeMethod → SanitizeMethod → Bool
supports [] m = false
supports (s ∷ ss) m = method_tag s == method_tag m || supports ss m

pub record SanitizationRecommendation : Type 0 where
  pub media_type : MediaType
  pub is_sed : Bool
  pub recommended_method : SanitizeMethod
  pub alternative_available : Option SanitizeMethod
  pub overwrite_not_recommended : Bool
  pub residual_risk_warning : Bool

-- A method of the controller.
abbrev pub controller_native :
    MediaType → Bool → SanitizeMethod → Option SanitizeMethod → SanitizationRecommendation
controller_native media is_sed method alternative = record {
  media_type = media;
  is_sed = is_sed;
  recommended_method = method;
  alternative_available = alternative;
  overwrite_not_recommended = true;
  residual_risk_warning = false;
}

-- The overwrite by the host, with a warning or not.
abbrev pub host_overwrite : MediaType → Bool → SanitizationRecommendation
host_overwrite media warning = record {
  media_type = media;
  is_sed = false;
  recommended_method = host_overwrite_single_pass;
  alternative_available = some (host_overwrite_multi_pass 3);
  overwrite_not_recommended = false;
  residual_risk_warning = warning;
}

-- Steps 4 and 5.
pub recommend_overwrite : MediaType → SanitizationRecommendation
recommend_overwrite media =
    if is_media media hdd then host_overwrite media false else host_overwrite media true

-- Steps 2 and 3, and what follows them.
pub recommend_native : MediaType → List SanitizeMethod → SanitizationRecommendation
unfolding supports recommend_overwrite
recommend_native media ms =
    if is_media media nvme && supports ms nvme_sanitize_block
    then controller_native media false nvme_sanitize_block
        (if supports ms nvme_format then some nvme_format else none)
    else if is_media media nvme && supports ms nvme_format
    then controller_native media false nvme_format none
    else if is_media media sata_ssd && supports ms ata_enhanced_secure_erase
    then controller_native media false ata_enhanced_secure_erase
        (if supports ms ata_secure_erase then some ata_secure_erase else none)
    else if is_media media sata_ssd && supports ms ata_secure_erase
    then controller_native media false ata_secure_erase none
    else recommend_overwrite media

pub recommend : MediaType → List SanitizeMethod → SanitizationRecommendation
unfolding supports recommend_native
recommend media ms =
    let is_sed = is_media media sed || supports ms cryptographic_erase in
    if is_sed && supports ms cryptographic_erase
    then controller_native media true cryptographic_erase (
        if supports ms nvme_sanitize_block
        then some nvme_sanitize_block
        else if supports ms ata_enhanced_secure_erase
        then some ata_enhanced_secure_erase
        else none)
    else recommend_native media ms
