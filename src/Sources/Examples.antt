-- ===== src/Sources/Examples.antt =====
-- The manifest's theorems on a file with the six adapters. A date's instant is the length of its text.
use malacca_port_resilience.Prelude.{
  unique, matches, ℕ, ◌≡◌, refl, Bool, true, false, String, some, [], ◌∷◌, codes, length, ok,
}
use malacca_port_resilience.Authority.{ends_with_offset}
use malacca_port_resilience.Acceptance.{missing}
use malacca_port_resilience.Json.{
  Json, boolean, string, array, object, nil, cons, end, field, TextPlatform,
}
use malacca_port_resilience.Sources.Ready.{IsAuthorized, load_manifest-IsAuthorized}
use malacca_port_resilience.Sources.{
  parse_operator_source_manifest, is_placeholder_text, SourceManifest, SourcePlatform,
  load_manifest, read_manifest,
}

abbrev texts : TextPlatform ℕ
texts = record {
  trim = λ s. s;
  upper = λ s. s;
  string_of = λ _. "";
  stringify = λ _. "";
  locale_before = λ a b. false;
  parse_date = λ s. some (length (codes s));
  iso_string = λ _. "";
  sha256 = λ _. "";
  hmac_sha256 = λ key text. "";
}

-- An adapter whose units have been reviewed or not.
abbrev adapter : Bool → String → Json ℕ
adapter units id = object (
    field "adapterId" (string id) (
      field "sourceSystem" (string "terminal") (
        field "dataOwnerRole" (string "harbour master") (
          field "signingKeyId" (string "key-1") (
            field "fieldMappingReviewed" (boolean true) (
              field "unitsReviewed" (boolean units) (
                field "timezoneReviewed" (boolean true)
                  (field "dataOwnerApproved" (boolean true) end))))))))

abbrev manifest_json : Bool → Json ℕ
manifest_json units = object (
    field "protocolVersion" (string "operator-data-source-manifest.v1") (
      field "manifestId" (string "manifest-1") (
        field "siteId" (string "site-1") (
          field "portId" (string "MYPKG") (
            field "terminalId" (string "T1") (
              field "sceneProfileId" (string "scene-1") (
                field "scenePortNodeId" (string "node-1") (
                  field "operatorOrganization" (string "operator") (
                    field "evidenceLevel" (string "operator-authorized") (
                      field "timezone" (string "Asia/Kuala_Lumpur") (
                        field "authorization"
                          (object (
                            field "reference" (string "ref-1") (
                              field "approvedBy" (string "officer") (
                                field "approvedAt" (string "2026Z") (
                                  field "expiresAt" (string "2026-12-31T00:00:00Z") (
                                    field "permittedPurpose" (string "read-only-shadow")
                                      (field "redistributionAllowed" (boolean false) end)))))))
                          (field "adapters"
                            (array (
                              cons (adapter units "ais_vessel_feed") (
                                cons (adapter true "terminal_operating_system") (
                                  cons (adapter true "vessel_traffic_service") (
                                    cons (adapter true "safety_regulatory_feed") (
                                      cons (adapter true "energy_carbon_feed")
                                        (cons (adapter true "intermodal_transfer_feed") nil)))))))
                            end))))))))))))

abbrev platform : Bool → SourcePlatform ℕ
platform units = record {
  is_timezone = λ _. true;
  show = λ _. "";
  resolve = λ path. path;
  read_json = λ path. ok (manifest_json units);
}

load_manifest-IsAuthorized_example :
    (file : String) × (m : SourceManifest) × (some "manifest.json" ≡ some file)
    × (read_manifest texts (platform true) file ≡ ok m)
    × IsAuthorized texts m 10
unfolding load_manifest parse_operator_source_manifest unique matches ends_with_offset
    is_placeholder_text missing
load_manifest-IsAuthorized_example =
    load_manifest-IsAuthorized texts (platform true) (some "manifest.json") 10 refl

unreviewed_blocked :
    (load_manifest texts (platform false) (some "manifest.json") 10).blockers
    ≡ "units_not_reviewed:ais_vessel_feed" ∷ []
unfolding load_manifest parse_operator_source_manifest unique matches ends_with_offset
    is_placeholder_text missing
unreviewed_blocked = refl
