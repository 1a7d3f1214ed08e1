-- ===== src/Auth.antt =====
-- aoms/auth.py: bearer tokens in the table `auth_tokens`. `scrypt` stands for hashlib's function at
-- the source's parameters, a text for bytes. The values of `secrets` and readings of the clock are
-- arguments, and a datetime has a time zone.
pub mod Lifecycle
pub mod Revoked
use Prim.Native.String.{String, ◌++◌ as text_append}
use Prim.Native.Char.{Char, code}
use cortex_mem.Prelude.{
  ℕ, suc, ◌+◌, Bool, true, false, ◌&&◌, ◌||◌, not, Option, none, some, List, [], ◌∷◌, ◌++◌, map,
  filter, any, contains, length, is_empty, ◌==◌, string_eq, nat_eq, ltb, leb, if◌then◌else◌,
}
use cortex_mem.Prelude.Order.{Order, sorted, str_order, str_leb, pair_order}
use cortex_mem.Errors.{Result, ok, raise, value_error, integrity_error, ◌>>=◌, ◌>>◌, raise_if}
use cortex_mem.Contracts.Validate.{strip}

pub record AuthToken : Type 0 where
  pub token_id : String
  pub name : String
  pub scopes : List String
  pub agent_id : String
  pub workspace_id : String
  pub created_at : ℕ
  pub last_used_at : Option ℕ
  pub expires_at : Option ℕ
  pub revoked_at : Option ℕ

pub record TokenRow : Type 0 where
  pub token : AuthToken
  pub salt : String
  pub secret_hash : String

pub record CreatedToken : Type 0 where
  pub token : AuthToken
  pub secret : String

-- `expires_at is not None and expires_at <= now`
unfoldable pub is_expired : Option ℕ → ℕ → Bool
is_expired none now = false
is_expired (some expires_at) now = leb expires_at now

abbrev pub is_given {ℓ} : {A : Type ℓ} → Option A → Bool
is_given none = false
is_given (some a) = true

-- the property `status`
unfoldable pub status : AuthToken → ℕ → String
status t now =
    if is_given t.revoked_at
    then "revoked"
    else if is_expired t.expires_at now
    then "expired"
    else "active"

-- the values of `TokenScope`
abbrev token_scopes : List String
token_scopes = "read" ∷ "write" ∷ "admin" ∷ []

-- `{TokenScope(str(scope)).value for scope in scopes}`
unfoldable pub scope_set : List String → Result (List String)
scope_set [] = ok []
scope_set (s ∷ scopes) = do
  rest ← scope_set scopes
  _ ← raise_if (not (contains token_scopes s)) (value_error "is not a valid TokenScope")
  ok (if contains rest s then rest else s ∷ rest)

abbrev pub has_id : String → TokenRow → Bool
has_id token_id row = row.token.token_id == token_id

-- `_insert_sync`, with the primary key
unfoldable pub insert_token : TokenRow → List TokenRow → Result (List TokenRow)
insert_token row rows =
    if any (has_id row.token.token_id) rows
    then raise (integrity_error "UNIQUE constraint failed: auth_tokens.token_id")
    else ok (rows ++ row ∷ [])

-- the values of `secrets.token_hex(8)`, `secrets.token_urlsafe(32)` and `secrets.token_bytes`, and
-- the two readings of the clock
pub record TokenDraws : Type 0 where
  pub token_id : String
  pub secret_part : String
  pub salt : String
  pub checked_at : ℕ
  pub created_at : ℕ

unfoldable pub presented_form : String → String → String
presented_form token_id secret_part =
    text_append "aoms" (text_append "_" (text_append token_id (text_append "_" secret_part)))

module _ (scrypt : String → String → String) where
  unfoldable pub new_token :
      String → List String → String → String → Option ℕ → TokenDraws → AuthToken
  new_token name scopes agent_id workspace_id expires_at draws = record {
    token_id = draws.token_id;
    name = strip name;
    scopes = sorted str_order scopes;
    agent_id = strip agent_id;
    workspace_id = strip workspace_id;
    created_at = draws.created_at;
    last_used_at = none;
    expires_at = expires_at;
    revoked_at = none;
  }

  abbrev pub new_row : AuthToken → TokenDraws → TokenRow
  new_row token draws = record {
    token = token;
    salt = draws.salt;
    secret_hash = scrypt draws.secret_part draws.salt;
  }

  -- `create` after its checks
  unfoldable pub issue :
      AuthToken → TokenDraws → List TokenRow → Result (CreatedToken × List TokenRow)
  issue token draws rows = do
    rows' ← insert_token (new_row token draws) rows
    ok (record { token = token; secret = presented_form draws.token_id draws.secret_part }, rows')

  -- the checks, and the scopes without repetition
  unfoldable pub checked_scopes :
      String → List String → String → String → Option ℕ → ℕ → Result (List String)
  checked_scopes name scopes agent_id workspace_id expires_at now = do
    _ ← raise_if (strip name == "") (value_error "token name must not be empty")
    _ ←
        raise_if (strip agent_id == "" || strip workspace_id == "")
          (value_error "agent_id and workspace_id must not be empty")
    unique ← scope_set scopes
    _ ← raise_if (is_empty unique) (value_error "at least one token scope is required")
    _ ← raise_if (is_expired expires_at now) (value_error "expires_at must be in the future")
    ok unique

  unfoldable pub create :
      String
      → List String
      → String
      → String
      → Option ℕ
      → TokenDraws
      → List TokenRow
      → Result (CreatedToken × List TokenRow)
  create name scopes agent_id workspace_id expires_at draws rows = do
    unique ← checked_scopes name scopes agent_id workspace_id expires_at draws.checked_at
    issue (new_token name unique agent_id workspace_id expires_at draws) draws rows

-- `SELECT * FROM auth_tokens WHERE token_id = ?`
unfoldable pub find_token : String → List TokenRow → Option TokenRow
find_token token_id [] = none
find_token token_id (row ∷ rows) =
    if has_id token_id row then some row else find_token token_id rows

-- `ORDER BY created_at DESC, token_id DESC` is the reverse of the ascending order.
abbrev token_order : Order AuthToken
token_order = pair_order (λ (t : AuthToken). t.created_at) (λ (t : AuthToken). t.token_id)

unfoldable pub reverse_onto {ℓ} : {A : Type ℓ} → List A → List A → List A
reverse_onto [] ys = ys
reverse_onto (x ∷ xs) ys = reverse_onto xs (x ∷ ys)

unfoldable pub list_tokens : List TokenRow → List AuthToken
list_tokens rows = reverse_onto (sorted token_order (map (λ (row : TokenRow). row.token) rows)) []

unfoldable pub revoke_row : String → ℕ → TokenRow → TokenRow
revoke_row token_id now row =
    if has_id token_id row && not (is_given row.token.revoked_at)
    then record row { token = record row.token { revoked_at = some now } }
    else row

-- `revoke`: whether one row was updated, and the rows
unfoldable pub revoke : String → ℕ → List TokenRow → Bool × List TokenRow
revoke token_id now rows =
    let id = strip token_id in
    (
      length
            (filter (λ (row : TokenRow). has_id id row && not (is_given row.token.revoked_at)) rows)
          == 1,
      map (revoke_row id now) rows,
    )

abbrev pub is_usable : ℕ → AuthToken → Bool
is_usable now t = not (is_given t.revoked_at) && not (is_expired t.expires_at now)

unfoldable pub usable_count : ℕ → List TokenRow → ℕ
usable_count now rows = length (filter (λ (row : TokenRow). is_usable now row.token) rows)

abbrev cons_first : Char → Option (String × String) → Option (String × String)
cons_first c none = none
cons_first c (some (s, t)) = some (String.◌∷◌ c s, t)

-- the two sides of the first underscore
unfoldable pub split_once : String → Option (String × String)
split_once String.[] = none
split_once (String.◌∷◌ c s) =
    let rest = split_once s in if code c == b'_' then some ("", s) else cons_first c rest

abbrev checked_parts : String → Option (String × String) → Option (String × String)
checked_parts kind none = none
checked_parts kind (some (token_id, secret_part)) =
    if kind == "aoms" && not (token_id == "") && not (secret_part == "")
    then some (token_id, secret_part)
    else none

abbrev second_split : Option (String × String) → Option (String × String)
second_split none = none
second_split (some (kind, rest)) = checked_parts kind (split_once rest)

-- `split("_", 2)` and the tests of the three parts
unfoldable pub parse_token : String → Option (String × String)
parse_token presented = second_split (split_once presented)

unfoldable pub touch : String → ℕ → TokenRow → TokenRow
touch token_id now row =
    if has_id token_id row
    then record row { token = record row.token { last_used_at = some now } }
    else row

module _ (scrypt : String → String → String) where
  abbrev pub accepts : ℕ → String → TokenRow → Bool
  accepts now secret_part row =
      scrypt secret_part row.salt == row.secret_hash && is_usable now row.token

  -- `_authenticate_sync` with the row that it selects
  abbrev pub check_row :
      String → String → ℕ → List TokenRow → Option TokenRow → Option AuthToken × List TokenRow
  check_row token_id secret_part now rows none = (none, rows)
  check_row token_id secret_part now rows (some row) =
      if accepts now secret_part row
      then (
        some (record row.token { last_used_at = some now; revoked_at = none }),
        map (touch token_id now) rows,
      )
      else (none, rows)

  abbrev pub authenticate_parts :
      ℕ → List TokenRow → Option (String × String) → Option AuthToken × List TokenRow
  authenticate_parts now rows none = (none, rows)
  authenticate_parts now rows (some (token_id, secret_part)) =
      check_row token_id secret_part now rows (find_token token_id rows)

  unfoldable pub authenticate : String → ℕ → List TokenRow → Option AuthToken × List TokenRow
  authenticate presented now rows = authenticate_parts now rows (parse_token presented)
