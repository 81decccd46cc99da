-- ===== src/Sources.antt =====
-- server/operatorSourceManifest.ts: the manifest of a site's data sources.
mod Manifests
pub mod Ready
mod Examples
use text.Mathlib.Text.{◌==◌ as str_eq}
use Prim.Native.String.{◌++◌ as ◌++ˢ◌}
use malacca_port_resilience.Prelude.{
  ℕ, Bool, true, false, not, ◌&&◌, ◌||◌, String, Option, none, some, List, [], ◌∷◌, ◌++◌, map, any,
  codes, contains, unique, raised, is_empty, is_some, Result, ok, err, ltb, leb, if◌then◌else◌,
  ◌>>=◌, ◌>>◌, throw_if,
}
use malacca_port_resilience.Authority.{any_word}
use malacca_port_resilience.Acceptance.{missing}
use malacca_port_resilience.Community.{joined_by}
use malacca_port_resilience.Json.{Json, TextPlatform}
unfoldable pub use Manifests.*

-- `PLACEHOLDER_PATTERN`
unfoldable pub is_placeholder_text : String → Bool
is_placeholder_text value =
    any_word
      ("replace" ∷ "placeholder" ∷ "example" ∷ "pending" ∷ "todo" ∷ "tbd" ∷ "待填写" ∷ "待确认" ∷ "示例"
        ∷ [])
      (codes value)

pub record SourceReadiness : Type 0 where
  pub configured : Bool
  pub manifest_path : Option String
  pub manifest : Option SourceManifest
  pub authorization_ready : Bool
  pub missing_adapters : List String
  pub blockers : List String

-- The test of `Intl.DateTimeFormat`, how an index is printed, `path.resolve`, and `readFileSync` with
-- `JSON.parse`, which may throw.
pub record SourcePlatform (N : Type 0) : Type 0 where
  pub is_timezone : String → Bool
  pub show : ℕ → String
  pub resolve : String → String
  pub read_json : String → Result String (Json N)

-- `a > b` and `a <= b` of two dates, of which NaN is none.
abbrev is_after : Option ℕ → Option ℕ → Bool
is_after (some a) (some b) = ltb b a
is_after _ _ = false

abbrev is_by : Option ℕ → Option ℕ → Bool
is_by (some a) (some b) = leb a b
is_by _ _ = false

-- The checks of one adapter.
abbrev pub adapter_checks : SourceAdapter → List (Bool × String)
adapter_checks a =
    (
      any is_placeholder_text (a.source_system ∷ a.data_owner_role ∷ a.signing_key_id ∷ []),
      "adapter_placeholder:" ++ˢ a.adapter_id,
    )
    ∷ (not a.field_mapping_reviewed, "field_mapping_not_reviewed:" ++ˢ a.adapter_id)
    ∷ (not a.units_reviewed, "units_not_reviewed:" ++ˢ a.adapter_id)
    ∷ (not a.timezone_reviewed, "timezone_not_reviewed:" ++ˢ a.adapter_id)
    ∷ (not a.data_owner_approved, "data_owner_not_approved:" ++ˢ a.adapter_id)
    ∷ []

unfoldable pub adapter_blockers : List SourceAdapter → List String
adapter_blockers [] = []
adapter_blockers (a ∷ rest) = raised (adapter_checks a) ++ adapter_blockers rest

abbrev pub missing_of : SourceManifest → List String
missing_of m = missing operator_adapter_ids (map (λ a. a.adapter_id) m.adapters)

module _ {N : Type 0} (p : TextPlatform N) where
  -- The checks of the manifest before those of its adapters.
  abbrev pub manifest_checks : SourceManifest → ℕ → List (Bool × String)
  manifest_checks m now =
      let approved = p.parse_date m.authorization.approved_at in
      let expires = p.parse_date m.authorization.expires_at in
      (not (str_eq m.evidence_level "operator-authorized"), "operator_authorization_not_declared")
      ∷ (
        any is_placeholder_text (
            m.manifest_id ∷ m.site_id ∷ m.port_id ∷ m.terminal_id ∷ m.scene_profile_id
            ∷ m.scene_port_node_id ∷ m.operator_organization ∷ m.authorization.reference
            ∷ m.authorization.approved_by ∷ []),
        "site_placeholders_present",
      )
      ∷ (is_after approved (some now), "authorization_approval_in_future")
      ∷ (is_by expires (some now), "authorization_expired")
      ∷ (is_by expires approved, "authorization_period_invalid")
      ∷ (not (is_empty (missing_of m)), "missing_adapters:" ++ˢ joined_by "," (missing_of m))
      ∷ []

  unfoldable pub manifest_blockers : SourceManifest → ℕ → List String
  unfolding adapter_blockers
  manifest_blockers m now = raised (manifest_checks m now) ++ adapter_blockers m.adapters

  -- `assessOperatorSourceManifest`
  unfoldable pub assess : SourceManifest → ℕ → SourceReadiness
  unfolding manifest_blockers
  assess m now = record {
    configured = true;
    manifest_path = none;
    manifest = some m;
    authorization_ready = is_empty (manifest_blockers m now);
    missing_adapters = missing_of m;
    blockers = unique (manifest_blockers m now);
  }

  -- A manifest that is not there, or cannot be read.
  abbrev not_ready : Bool → Option String → String → SourceReadiness
  not_ready configured path blocker = record {
    configured = configured;
    manifest_path = path;
    manifest = none;
    authorization_ready = false;
    missing_adapters = operator_adapter_ids;
    blockers = blocker ∷ [];
  }

  abbrev pub read_manifest : SourcePlatform N → String → Result String SourceManifest
  read_manifest o path =
      o.read_json (o.resolve path) >>= parse_operator_source_manifest p o.is_timezone o.show

  -- `loadOperatorSourceManifest`; the environment's path is none if it is not set.
  unfoldable pub load_manifest : SourcePlatform N → Option String → ℕ → SourceReadiness
  unfolding assess
  load_manifest o none now = not_ready false none "operator_source_manifest_not_configured"
  load_manifest o (some path) now =
      if str_eq path ""
      then not_ready false none "operator_source_manifest_not_configured"
      else elim (read_manifest o path) [
        | ok m ↦ record (assess m now) { manifest_path = some (o.resolve path) }
        | err error ↦
            not_ready true (some (o.resolve path)) ("operator_source_manifest_invalid:" ++ˢ error)
      ]
