-- ===== src/Xtask/Coverage/Manifest.antt =====
-- The coverage manifests and the registry of product keys.
use development_kit.Prelude.{Str, codes, ◌≡◌, refl, List, [], ◌∷◌, ◌++◌, ok}
use development_kit.Shared.FeatureKey.{
  FeatureKey, export_pdf, cloud_sync, advanced_reports, team_members, max_projects,
  priority_support, api_access,
}
use development_kit.Shared.ProductFeatureKey.{ProductFeatureKey}
use development_kit.Shared.ProductFeatureKey as Key

-- There is no layer for the screen.
pub data GateLayer : Type 0 where
  tauri_command backend : GateLayer

unfoldable pub as_str : GateLayer → Str
as_str tauri_command = codes "tauri-command"
as_str backend = codes "backend"

pub record CoverageEntry : Type 0 where
  pub key : FeatureKey
  pub layer : GateLayer
  pub test : Str

pub record ProductKeyEntry : Type 0 where
  pub key : ProductFeatureKey

pub record ProductCoverageEntry : Type 0 where
  pub key : ProductFeatureKey
  pub layer : GateLayer
  pub test : Str

-- The name of an authenticated gate test, from the part that differs.
abbrev gate_test : Str → Str
gate_test feature =
    codes "api::feature_gate_authenticated::gate_denies_"
    ++ (feature ++ codes "_authenticated_without_entitlement_and_allows_with_it")

abbrev backend_entry : FeatureKey → Str → CoverageEntry
backend_entry key test = record { key = key; layer = backend; test = test }

abbrev tauri_entry : FeatureKey → Str → CoverageEntry
tauri_entry key test = record { key = key; layer = tauri_command; test = test }

unfoldable pub coverage_manifest : List CoverageEntry
coverage_manifest =
    backend_entry export_pdf (gate_test (codes "export_pdf"))
    ∷ backend_entry cloud_sync (gate_test (codes "cloud_sync"))
    ∷ backend_entry advanced_reports (gate_test (codes "advanced_reports"))
    ∷ backend_entry team_members (gate_test (codes "team_members"))
    ∷ backend_entry max_projects (gate_test (codes "max_projects"))
    ∷ backend_entry priority_support (gate_test (codes "priority_support"))
    ∷ backend_entry api_access (gate_test (codes "api_access"))
    ∷ tauri_entry advanced_reports (
        codes "desktop_lib::feature_gate::tests::"
        ++ codes "command_denies_advanced_report_without_entitlement")
    ∷ []

-- What `ProductFeatureKey::new` returns for the two registered keys.
abbrev pub share_record_key : ProductFeatureKey
share_record_key = record { key = codes "vault.share_record"; sep = 5 }

abbrev pub publish_note_key : ProductFeatureKey
publish_note_key = record { key = codes "notes.publish_note"; sep = 5 }

-- So neither `expect` panics.
share_record_key_lem : Key.new (codes "vault") (codes "share_record") ≡ ok share_record_key
unfolding Key.new Key.is_snake_case_segment Key.is_lowercase Key.is_segment_char
share_record_key_lem = refl

publish_note_key_lem : Key.new (codes "notes") (codes "publish_note") ≡ ok publish_note_key
unfolding Key.new Key.is_snake_case_segment Key.is_lowercase Key.is_segment_char
publish_note_key_lem = refl

unfoldable pub product_key_registry : List ProductKeyEntry
product_key_registry = record { key = share_record_key } ∷ record { key = publish_note_key } ∷ []

unfoldable pub product_coverage_manifest : List ProductCoverageEntry
product_coverage_manifest =
    record {
      key = share_record_key;
      layer = backend;
      test =
          codes "api::product_module::"
          ++ codes "product_gate_denies_share_without_entitlement_and_allows_with_it";
    }
    ∷ record {
      key = publish_note_key;
      layer = backend;
      test =
          codes "api::notes_product::"
          ++ codes "notes_publish_gate_denies_without_entitlement_and_allows_with_it";
    }
    ∷ []
