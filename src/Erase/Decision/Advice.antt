-- ===== src/Erase/Decision/Advice.antt =====
-- What a recommendation of decision_engine.rs rests on.
use vajra_forensics_platform.Prelude.{
  ◌≡◌, ◌⊎◌, refl, Bool, Bool-cases, inl, inr, true, false, not, ◌&&◌, ◌||◌, Option, if◌then◌else◌,
  List, ◌==◌,
}
use vajra_forensics_platform.Erase.Decision.{
  MediaType, hdd, nvme, sata_ssd, sed, controller_native, SanitizeMethod,
  host_overwrite_single_pass, cryptographic_erase, nvme_sanitize_block, nvme_format,
  ata_secure_erase, ata_enhanced_secure_erase, is_media, method_tag, supports, recommend,
  recommend_native, recommend_overwrite, SanitizationRecommendation,
}

-- A recommendation that the device can follow, with the warnings that belong to it.
pub record IsSound (media : MediaType) (ms : List SanitizeMethod) (r : SanitizationRecommendation)
    : Type 0 where
  pub available :
      (supports ms r.recommended_method ≡ true)
      ⊎ (r.recommended_method ≡ host_overwrite_single_pass)
  pub told : r.residual_risk_warning ≡ (
      (method_tag r.recommended_method == method_tag host_overwrite_single_pass)
      && not (is_media media hdd))
  pub advised :
      r.overwrite_not_recommended
      ≡ not (method_tag r.recommended_method == method_tag host_overwrite_single_pass)

recommend_overwrite-IsSound :
    (media : MediaType) (ms : List SanitizeMethod) → IsSound media ms (recommend_overwrite media)
unfolding recommend_overwrite
recommend_overwrite-IsSound media ms = elim (Bool-cases (is_media media hdd)) [
  | inl t ↦
      rw (recommend_overwrite, t)
        (record { available = inr refl; told = rw t refl; advised = refl })
  | inr t ↦
      rw (recommend_overwrite, t)
        (record { available = inr refl; told = rw t refl; advised = refl })
]

-- A controller-native method that the device has.
native-IsSound :
    (media : MediaType) (is_sed : Bool) (ms : List SanitizeMethod) (m : SanitizeMethod)
    (alternative : Option SanitizeMethod)
    → supports ms m ≡ true
    → (method_tag m == method_tag host_overwrite_single_pass) ≡ false
    → IsSound media ms (controller_native media is_sed m alternative)
native-IsSound media is_sed ms m alternative has other = record {
  available = inl has;
  told = rw other refl;
  advised = rw other refl;
}

-- A rule of the flowchart: the method when its condition holds, else what follows.
rule-IsSound :
    (media : MediaType) (ms : List SanitizeMethod) (asked has : Bool)
    (r rest : SanitizationRecommendation)
    → (has ≡ true → IsSound media ms r)
    → IsSound media ms rest
    → IsSound media ms (if asked && has then r else rest)
rule-IsSound media ms true true r rest sound fallback = sound refl
rule-IsSound media ms true false r rest sound fallback = fallback
rule-IsSound media ms false has r rest sound fallback = fallback

recommend_native-IsSound :
    (media : MediaType) (ms : List SanitizeMethod) → IsSound media ms (recommend_native media ms)
unfolding recommend_native
recommend_native-IsSound media ms =
    rule-IsSound media ms (is_media media nvme) (supports ms nvme_sanitize_block) _ _
      (λ has. native-IsSound media false ms nvme_sanitize_block _ has refl)
      (rule-IsSound media ms (is_media media nvme) (supports ms nvme_format) _ _
        (λ has. native-IsSound media false ms nvme_format _ has refl)
        (rule-IsSound media ms (is_media media sata_ssd) (supports ms ata_enhanced_secure_erase) _ _
          (λ has. native-IsSound media false ms ata_enhanced_secure_erase _ has refl)
          (rule-IsSound media ms (is_media media sata_ssd) (supports ms ata_secure_erase) _ _
            (λ has. native-IsSound media false ms ata_secure_erase _ has refl)
            (recommend_overwrite-IsSound media ms))))

-- Every recommendation names a method that the device supports, or the single overwrite by the
-- host; a residual risk is told exactly when the overwrite is recommended for a medium that is no
-- magnetic disk, and the overwrite is advised against exactly when another method is recommended.
pub recommend-IsSound :
    (media : MediaType) (ms : List SanitizeMethod) → IsSound media ms (recommend media ms)
unfolding recommend
recommend-IsSound media ms =
    rule-IsSound media ms (is_media media sed || supports ms cryptographic_erase)
      (supports ms cryptographic_erase) _ _
      (λ has. native-IsSound media true ms cryptographic_erase _ has refl)
      (recommend_native-IsSound media ms)
