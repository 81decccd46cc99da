-- ===== src/Sources/Manifests.antt =====
-- server/operatorSourceManifest.ts: `parseOperatorSourceManifest`.
use Prim.Native.String.{◌++◌ as ◌++ˢ◌}
use text.Mathlib.Text.{◌==◌ as str_eq}
use malacca_port_resilience.Prelude.{
  ℕ, suc, Bool, true, false, not, String, Option, none, some, List, [], ◌∷◌, map, length, codes,
  contains, unique, matches, is_id_char, Result, ok, err, ◌==◌, if◌then◌else◌, ◌>>=◌, ◌>>◌,
  throw_if,
}
use malacca_port_resilience.Authority.{ends_with_offset}
use malacca_port_resilience.Community.{outside}
use malacca_port_resilience.Json.{
  Json, boolean, string, array, Fields, get, keys, as_record, as_string, items, TextPlatform,
}

abbrev pub operator_adapter_ids : List String
operator_adapter_ids =
    "ais_vessel_feed" ∷ "terminal_operating_system" ∷ "vessel_traffic_service"
    ∷ "safety_regulatory_feed" ∷ "energy_carbon_feed" ∷ "intermodal_transfer_feed" ∷ []

pub record SourceAdapter : Type 0 where
  pub adapter_id : String
  pub source_system : String
  pub data_owner_role : String
  pub signing_key_id : String
  pub field_mapping_reviewed : Bool
  pub units_reviewed : Bool
  pub timezone_reviewed : Bool
  pub data_owner_approved : Bool

pub record SourceAuthorization : Type 0 where
  pub reference : String
  pub approved_by : String
  pub approved_at : String
  pub expires_at : String

pub record SourceManifest : Type 0 where
  pub manifest_id : String
  pub site_id : String
  pub port_id : String
  pub terminal_id : String
  pub scene_profile_id : String
  pub scene_port_node_id : String
  pub operator_organization : String
  pub evidence_level : String
  pub timezone : String
  pub authorization : SourceAuthorization
  pub adapters : List SourceAdapter
  pub notes : List String

abbrev manifest_fields : List String
manifest_fields =
    "protocolVersion" ∷ "manifestId" ∷ "siteId" ∷ "portId" ∷ "terminalId" ∷ "sceneProfileId"
    ∷ "scenePortNodeId" ∷ "operatorOrganization" ∷ "evidenceLevel" ∷ "timezone" ∷ "authorization"
    ∷ "adapters" ∷ "notes" ∷ []

abbrev authorization_fields : List String
authorization_fields =
    "reference" ∷ "approvedBy" ∷ "approvedAt" ∷ "expiresAt" ∷ "permittedPurpose"
    ∷ "redistributionAllowed" ∷ []

-- The first unknown field is thrown.
abbrev known_keys : List String → String → List String → Result String (Unit {0})
known_keys allowed text ks = elim (outside allowed ks) [ [] ↦ ok tt | k ∷ _ ↦ err (text ++ˢ k) ]

abbrev pub some_or {ℓ} : {A : Type ℓ} → String → Option A → Result String A
some_or error none = err error
some_or error (some a) = ok a

module _ {N : Type 0} where
  abbrev is_text : String → Option (Json N) → Bool
  is_text s v = elim (as_string v) [ none ↦ false | some t ↦ str_eq t s ]

  abbrev is_false : Option (Json N) → Bool
  is_false (some (boolean false)) = true
  is_false _ = false

  abbrev pub as_array : Option (Json N) → Option (List (Json N))
  as_array (some (array vs)) = some (items vs)
  as_array _ = none

  abbrev as_boolean : Option (Json N) → Option Bool
  as_boolean (some (boolean b)) = some b
  as_boolean _ = none

  module _ (p : TextPlatform N) where
    unfoldable pub non_empty_string : Option (Json N) → String → Result String String
    non_empty_string v name = elim (as_string v) [
      | none ↦ err (name ++ˢ " 必须是非空字符串")
      | some s ↦ if str_eq (p.trim s) "" then err (name ++ˢ " 必须是非空字符串") else ok (p.trim s)
    ]

    unfoldable pub stable_name : Option (Json N) → String → Result String String
    unfolding non_empty_string
    stable_name v name = do
      s ← non_empty_string v name
      throw_if (not (matches is_id_char 2 128 s)) (name ++ˢ " 只能使用稳定 ID 字符")
      ok s

    unfoldable pub timezone_date : Option (Json N) → String → Result String String
    unfolding non_empty_string
    timezone_date v name = do
      s ← non_empty_string v name
      throw_if (not (ends_with_offset (codes s))) (name ++ˢ " 必须是带时区的 ISO 8601 时间")
      date ← some_or (name ++ˢ " 必须是带时区的 ISO 8601 时间") (p.parse_date s)
      ok s

    -- One of the adapters; `at` is the text `adapters[index]`.
    unfoldable pub parse_adapter : String → Json N → Result String SourceAdapter
    unfolding non_empty_string
    parse_adapter at v = do
      fs ← some_or (at ++ˢ " 必须是对象") (as_record (some v))
      id ← non_empty_string (get "adapterId" fs) (at ++ˢ ".adapterId")
      throw_if (not (contains id operator_adapter_ids)) ("未知 adapterId " ++ˢ id)
      mapping ←
          some_or (at ++ˢ ".fieldMappingReviewed 必须是布尔值")
            (as_boolean (get "fieldMappingReviewed" fs))
      units ← some_or (at ++ˢ ".unitsReviewed 必须是布尔值") (as_boolean (get "unitsReviewed" fs))
      zone ← some_or (at ++ˢ ".timezoneReviewed 必须是布尔值") (as_boolean (get "timezoneReviewed" fs))
      owner ← some_or (at ++ˢ ".dataOwnerApproved 必须是布尔值") (as_boolean (get "dataOwnerApproved" fs))
      system ← non_empty_string (get "sourceSystem" fs) (at ++ˢ ".sourceSystem")
      role ← non_empty_string (get "dataOwnerRole" fs) (at ++ˢ ".dataOwnerRole")
      key ← non_empty_string (get "signingKeyId" fs) (at ++ˢ ".signingKeyId")
      ok (record {
        adapter_id = id;
        source_system = system;
        data_owner_role = role;
        signing_key_id = key;
        field_mapping_reviewed = mapping;
        units_reviewed = units;
        timezone_reviewed = zone;
        data_owner_approved = owner;
      })

    -- `show` prints an index.
    unfoldable pub parse_adapters :
        (ℕ → String) → ℕ → List (Json N) → Result String (List SourceAdapter)
    unfolding parse_adapter
    parse_adapters show i [] = ok []
    parse_adapters show i (v ∷ vs) = do
      a ← parse_adapter ("adapters[" ++ˢ show i ++ˢ "]") v
      rest ← parse_adapters show (suc i) vs
      ok (a ∷ rest)

    -- The object of `authorization`, after the checks that come before the fields are read.
    unfoldable pub check_shape : Fields N → Result String (Fields N)
    check_shape fs = do
      known_keys manifest_fields "清单包含未定义字段 " (keys fs)
      throw_if (not (is_text "operator-data-source-manifest.v1" (get "protocolVersion" fs)))
          "protocolVersion 必须是 operator-data-source-manifest.v1"
      authorization ← some_or "authorization 必须是对象" (as_record (get "authorization" fs))
      adapters ← some_or "adapters 必须是数组" (as_array (get "adapters" fs))
      known_keys authorization_fields "authorization 包含未定义字段 " (keys authorization)
      throw_if (not (is_text "read-only-shadow" (get "permittedPurpose" authorization)))
          "authorization.permittedPurpose 必须是 read-only-shadow"
      throw_if (not (is_false (get "redistributionAllowed" authorization)))
          "authorization.redistributionAllowed 必须明确为 false"
      ok authorization

    abbrev pub adapters_of : Fields N → List (Json N)
    adapters_of fs = elim (as_array (get "adapters" fs)) [ none ↦ [] | some vs ↦ vs ]

    unfoldable pub parse_authorization : Fields N → Result String SourceAuthorization
    unfolding non_empty_string timezone_date
    parse_authorization fs = do
      reference ← non_empty_string (get "reference" fs) "authorization.reference"
      approved_by ← non_empty_string (get "approvedBy" fs) "authorization.approvedBy"
      approved_at ← timezone_date (get "approvedAt" fs) "authorization.approvedAt"
      expires_at ← timezone_date (get "expiresAt" fs) "authorization.expiresAt"
      ok (record {
        reference = reference;
        approved_by = approved_by;
        approved_at = approved_at;
        expires_at = expires_at;
      })

    -- `String(note)`
    abbrev note_text : Json N → String
    note_text (string s) = s
    note_text v = p.string_of v

    abbrev notes_of : List (Json N) → List String
    notes_of [] = []
    notes_of (v ∷ vs) =
        let rest = notes_of vs in if str_eq (note_text v) "" then rest else note_text v ∷ rest

    abbrev or_none : Option (List (Json N)) → List (Json N)
    or_none none = []
    or_none (some vs) = vs

    -- The manifest whose authorization is read last.
    unfoldable pub parse_fields :
        (String → Bool) → Fields N → List SourceAdapter → Fields N → Result String SourceManifest
    unfolding non_empty_string stable_name parse_authorization
    parse_fields is_timezone fs adapters authorization_fs = do
      throw_if (not (length (unique (map (λ a. a.adapter_id) adapters)) == length adapters))
          "adapters 不得包含重复 adapterId"
      evidence_level ←
          some_or "evidenceLevel 必须是 operator-authorized 或 site-template"
            (as_string (get "evidenceLevel" fs))
      throw_if (not (contains evidence_level ("operator-authorized" ∷ "site-template" ∷ [])))
          "evidenceLevel 必须是 operator-authorized 或 site-template"
      timezone ← non_empty_string (get "timezone" fs) "timezone"
      throw_if (not (is_timezone timezone)) "timezone 必须是有效的 IANA 时区"
      manifest_id ← stable_name (get "manifestId" fs) "manifestId"
      site_id ← stable_name (get "siteId" fs) "siteId"
      port_id ← stable_name (get "portId" fs) "portId"
      terminal_id ← stable_name (get "terminalId" fs) "terminalId"
      scene_profile_id ← stable_name (get "sceneProfileId" fs) "sceneProfileId"
      scene_port_node_id ← stable_name (get "scenePortNodeId" fs) "scenePortNodeId"
      organization ← non_empty_string (get "operatorOrganization" fs) "operatorOrganization"
      authorization ← parse_authorization authorization_fs
      ok (record {
        manifest_id = manifest_id;
        site_id = site_id;
        port_id = port_id;
        terminal_id = terminal_id;
        scene_profile_id = scene_profile_id;
        scene_port_node_id = scene_port_node_id;
        operator_organization = organization;
        evidence_level = evidence_level;
        timezone = timezone;
        authorization = authorization;
        adapters = adapters;
        notes = notes_of (or_none (as_array (get "notes" fs)));
      })

    -- `is_timezone` is the test of `Intl.DateTimeFormat`.
    unfoldable pub parse_operator_source_manifest :
        (String → Bool) → (ℕ → String) → Json N → Result String SourceManifest
    unfolding check_shape parse_adapters parse_fields
    parse_operator_source_manifest is_timezone show value = do
      fs ← some_or "现场数据源清单必须是 JSON 对象" (as_record (some value))
      authorization_fs ← check_shape fs
      adapters ← parse_adapters show 0 (adapters_of fs)
      parse_fields is_timezone fs adapters authorization_fs
