-- ===== src/Json.antt =====
-- JSON values as the gateways read them, and server/operatorIntegrationGateway.ts: `canonicalJson`.
use malacca_port_resilience.Prelude.{
  ℕ, Bool, String, Option, none, some, List, [], ◌∷◌, if◌then◌else◌,
}
use text.Mathlib.Text.{◌==◌ as str_eq}

-- `N` is the type of numbers.
mutual
  pub data Json (N : Type 0) : Type 0 where
    null : Json N
    boolean : Bool → Json N
    number : N → Json N
    string : String → Json N
    array : Items N → Json N
    object : Fields N → Json N

  pub data Items (N : Type 0) : Type 0 where
    nil : Items N
    cons : Json N → Items N → Items N

  pub data Fields (N : Type 0) : Type 0 where
    end : Fields N
    field : String → Json N → Fields N → Fields N

-- What the gateways call on texts, numbers and dates. `string_of` is `String` of a value that is
-- neither a text, null nor undefined; a date is in milliseconds from 1970 on.
pub record TextPlatform (N : Type 0) : Type 0 where
  pub trim : String → String
  pub upper : String → String
  pub string_of : Json N → String
  pub stringify : Json N → String
  pub locale_before : String → String → Bool
  pub parse_date : String → Option ℕ
  pub iso_string : ℕ → String
  pub sha256 : String → String
  -- The HMAC with a key, of a text.
  pub hmac_sha256 : String → String → String

module _ {N : Type 0} where
  -- `fields.key`, where none is undefined.
  abbrev pub get : String → Fields N → Option (Json N)
  get k end = none
  get k (field j v rest) = if str_eq j k then some v else get k rest

  abbrev pub keys : Fields N → List String
  keys end = []
  keys (field k v rest) = k ∷ keys rest

  -- `isRecord(value)`: the fields of an object.
  abbrev pub as_record : Option (Json N) → Option (Fields N)
  as_record (some (object fs)) = some fs
  as_record _ = none

  abbrev pub as_string : Option (Json N) → Option String
  as_string (some (string s)) = some s
  as_string _ = none

  abbrev pub items : Items N → List (Json N)
  items nil = []
  items (cons v rest) = v ∷ items rest

  module _ (p : TextPlatform N) where
    -- `String(value ?? '')`
    abbrev pub to_text : Option (Json N) → String
    to_text none = ""
    to_text (some null) = ""
    to_text (some (string s)) = s
    to_text (some v) = p.string_of v

    -- A field goes before the first one whose key does not come before its own.
    unfoldable pub insert_sorted : String → Json N → Fields N → Fields N
    insert_sorted k v end = field k v end
    insert_sorted k v (field j w rest) =
        if p.locale_before j k
        then field j w (insert_sorted k v rest)
        else field k v (field j w rest)

    unfoldable mutual
      unfolding insert_sorted

      pub canonicalize : Json N → Json N
      canonicalize (array vs) = array (canonicalize_items vs)
      canonicalize (object fs) = object (canonicalize_fields fs)
      canonicalize v = v

      pub canonicalize_items : Items N → Items N
      canonicalize_items nil = nil
      canonicalize_items (cons v rest) = cons (canonicalize v) (canonicalize_items rest)

      pub canonicalize_fields : Fields N → Fields N
      canonicalize_fields end = end
      canonicalize_fields (field k v rest) =
          insert_sorted k (canonicalize v) (canonicalize_fields rest)

    unfoldable pub canonical_json : Json N → String
    canonical_json v = p.stringify (canonicalize v)
