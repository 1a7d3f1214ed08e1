-- ===== src/Contracts/Validate.antt =====
-- The field validators of aoms/contracts/models.py. A validator returns the value that the model
-- keeps or raises.
pub mod Tags
use Prim.Native.Char.{Char, code}
use cortex_mem.Prelude.{
  ℕ, suc, ◌+◌, ◌≡◌, String, Bool, true, false, ◌&&◌, ◌||◌, not, Option, none, some, List, [], ◌∷◌,
  ◌++◌, length, any, all, contains, leb, ltb, if◌then◌else◌, ◌==◌, string_eq, nat_eq,
}
use cortex_mem.Errors.{Result, ok, raise, value_error, ◌>>=◌, ◌>>◌, raise_if}
use cortex_mem.Contracts.{MemoryRecord, ScopeContext, contested, disposition_eq, Provenance}

-- the code points of a text
abbrev pub codes : String → List ℕ
codes String.[] = []
codes (String.◌∷◌ c s) = code c ∷ codes s

abbrev between : ℕ → ℕ → ℕ → Bool
between lo hi c = leb lo c && leb c hi

-- `str.isspace` at one code point, which is what `strip` removes
unfoldable pub is_space : ℕ → Bool
is_space c =
    between 9 13 c
    || between 28 32 c
    || c == 0x85
    || c == 0xa0
    || c == 0x1680
    || between 0x2000 0x200a c
    || c == 0x2028
    || c == 0x2029
    || c == 0x202f
    || c == 0x205f
    || c == 0x3000

unfoldable pub strip_left : String → String
strip_left String.[] = String.[]
strip_left (String.◌∷◌ c s) =
    let rest = strip_left s in if is_space (code c) then rest else String.◌∷◌ c s

abbrev pub is_empty_text : String → Bool
is_empty_text String.[] = true
is_empty_text (String.◌∷◌ c s) = false

unfoldable pub strip_right : String → String
strip_right String.[] = String.[]
strip_right (String.◌∷◌ c s) =
    let rest = strip_right s in
    if is_empty_text rest && is_space (code c) then String.[] else String.◌∷◌ c rest

-- `str.strip`
unfoldable pub strip : String → String
unfolding strip_left strip_right is_space
strip s = strip_right (strip_left s)

-- `_CONTROL_CHARACTERS`: [\x00-\x1f\x7f]
unfoldable pub is_control : ℕ → Bool
is_control c = leb c 0x1f || c == 0x7f

abbrev is_alnum : ℕ → Bool
is_alnum c = between b'A' b'Z' c || between b'a' b'z' c || between b'0' b'9' c

-- the class [A-Za-z0-9._:+=@-]
unfoldable pub is_token : ℕ → Bool
is_token c =
    is_alnum c
    || c == b'.'
    || c == b'_'
    || c == b':'
    || c == b'+'
    || c == b'='
    || c == b'@'
    || c == b'-'

-- `_IDENTIFIER_TOKEN.fullmatch`
unfoldable pub is_identifier : List ℕ → Bool
unfolding is_token
is_identifier [] = false
is_identifier (c ∷ cs) = is_alnum c && all is_token cs

abbrev pub max_record_id_length : ℕ
max_record_id_length = 256

abbrev pub max_claim_key_length : ℕ
max_claim_key_length = 256

abbrev pub max_derived_from_entries : ℕ
max_derived_from_entries = 64

abbrev pub max_derived_from_length : ℕ
max_derived_from_length = 256

-- `_clean_key`
unfoldable pub clean_key : String → ℕ → Result String
unfolding strip is_control
clean_key value limit = do
  raise_if (not (value == strip value)) (value_error "must not have surrounding whitespace")
  raise_if (is_empty_text value) (value_error "must not be empty")
  raise_if (ltb limit (length (codes value))) (value_error "must be at most limit characters")
  raise_if (any is_control (codes value)) (value_error "must not contain control characters")
  ok value

unfoldable pub validate_claim_key : Option String → Result (Option String)
unfolding clean_key
validate_claim_key none = ok none
validate_claim_key (some value) = do key ← clean_key value max_claim_key_length; ok (some key)

unfoldable pub validate_identifier : Option String → Result (Option String)
unfolding clean_key is_identifier
validate_identifier none = ok none
validate_identifier (some value) = do
  key ← clean_key value max_record_id_length
  raise_if (not (is_identifier (codes value)))
      (value_error "must be an opaque identifier, not prose")
  ok (some value)

-- The loop of `derived_from_holds_identifiers`: `normalized` holds what `seen` holds.
unfoldable pub derived_from_loop : List String → List String → Result (List String)
unfolding clean_key is_identifier
derived_from_loop [] normalized = ok normalized
derived_from_loop (value ∷ values) normalized =
    let rest =
      derived_from_loop values
        (if contains normalized value then normalized else normalized ++ value ∷ []) in
    do
      key ← clean_key value max_derived_from_length
      raise_if (not (is_identifier (codes value)))
          (value_error "derived_from entries must be opaque identifiers, not prose")
      rest

unfoldable pub derived_from_holds_identifiers : List String → Result (List String)
unfolding derived_from_loop
derived_from_holds_identifiers values = do
  raise_if (ltb max_derived_from_entries (length values))
      (value_error "derived_from accepts at most 64 entries")
  derived_from_loop values []

-- The loop of `normalize_tags`.
unfoldable pub normalize_loop : List String → List String → List String
normalize_loop [] normalized = normalized
normalize_loop (tag ∷ tags) normalized =
    let clean = strip tag in
    normalize_loop tags (
      if not (is_empty_text clean) && not (contains normalized clean)
      then normalized ++ clean ∷ []
      else normalized)

unfoldable pub normalize_tags : List String → List String
normalize_tags tags = normalize_loop tags []

-- `identifiers_are_clean` of `ScopeContext`
unfoldable pub scope_identifier : String → Result String
scope_identifier value = do
  raise_if (is_empty_text value) (value_error "String should have at least 1 character")
  raise_if (not (value == strip value))
      (value_error "scope identifiers must not have surrounding whitespace")
  ok value

abbrev pub is_none {ℓ} : {A : Type ℓ} → Option A → Bool
is_none none = true
is_none (some a) = false

-- `contested_records_occupy_a_slot` and `updated_not_before_created`
unfoldable pub validate_record : MemoryRecord → Result MemoryRecord
validate_record r = do
  raise_if (r.disposition == contested && is_none r.claim_key)
      (value_error "a contested record must declare a claim_key")
  raise_if (ltb r.updated_at r.created_at)
      (value_error "updated_at must not be earlier than created_at")
  ok r

-- `asserted_at_is_not_forged_future`, with the clock's reading and a tolerance of five minutes
unfoldable pub validate_asserted_at : ℕ → Option ℕ → Result (Option ℕ)
validate_asserted_at now none = ok none
validate_asserted_at now (some value) = do
  raise_if (ltb (now + 300_000_000) value) (value_error "asserted_at must not be in the future")
  ok (some value)
