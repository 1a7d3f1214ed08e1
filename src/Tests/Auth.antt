-- ===== src/Tests/Auth.antt =====
-- Tokens of aoms/auth.py. The hash of the tests joins the secret and the salt.
use Prim.Native.String.{String, ◌++◌ as text_append}
use cortex_mem.Prelude.{
  ◌≡◌, ◌≢◌, refl, eq_iff, arith, none, some, List, [], ◌∷◌, map, any, contains,
}
use cortex_mem.Prelude.Order.{sorted, str_leb}
use cortex_mem.Errors.{ok, raise, value_error, Result}
use cortex_mem.Contracts.Validate.{strip}
use cortex_mem.Auth.{
  AuthToken, TokenRow, CreatedToken, TokenDraws, is_expired, scope_set, insert_token,
  presented_form, new_token, issue, checked_scopes, create, find_token, revoke_row, revoke,
  split_once, parse_token, touch, authenticate,
}
use cortex_mem.Auth.Lifecycle.{create-authenticate}
use cortex_mem.Auth.Revoked.{TokenStep, TokenSteps, revoke-authenticate}

abbrev scrypt : String → String → String
scrypt secret salt = text_append salt secret

abbrev draws : TokenDraws
draws = record {
  token_id = "ab12";
  secret_part = "s_3cret";
  salt = "salt";
  checked_at = 10;
  created_at = 11;
}

tokens : Unit {0}
unfolding is_expired scope_set insert_token presented_form new_token issue checked_scopes create
    find_token revoke_row revoke split_once parse_token touch authenticate sorted str_leb strip any
    contains
tokens = tt

abbrev created : Result (CreatedToken × List TokenRow)
created =
    create scrypt " phone " ("write" ∷ "read" ∷ "write" ∷ []) "claude" "myproject" (some 50) draws
      []

abbrev token : AuthToken
token = record {
  token_id = "ab12";
  name = "phone";
  scopes = "read" ∷ "write" ∷ [];
  agent_id = "claude";
  workspace_id = "myproject";
  created_at = 11;
  last_used_at = none;
  expires_at = some 50;
  revoked_at = none;
}

abbrev rows : List TokenRow
rows = record { token = token; salt = "salt"; secret_hash = "salts_3cret" } ∷ []

abbrev handed_out : CreatedToken
handed_out = record { token = token; secret = "aoms_ab12_s_3cret" }

created-ok : created ≡ ok (handed_out, rows)
unfolding tokens
created-ok = refl

unknown_scope :
    create scrypt "phone" ("root" ∷ []) "claude" "myproject" none draws []
    ≡ raise (value_error "is not a valid TokenScope")
unfolding tokens
unknown_scope = refl

id_given : token.token_id ≢ ""
id_given e = ground (arith, eq_iff "ab12" "")

secret_given : draws.secret_part ≢ ""
secret_given e = ground (arith, eq_iff "s_3cret" "")

create-authenticate_example :
    authenticate scrypt "aoms_ab12_s_3cret" 49 rows
    ≡ (some (record token { last_used_at = some 49 }), map (touch "ab12" 49) rows)
unfolding is_expired
create-authenticate_example =
    create-authenticate scrypt " phone " ("write" ∷ "read" ∷ "write" ∷ []) "claude" "myproject"
      (some 50) draws [] handed_out rows 49 (refl, (refl, (refl, (refl, tt)))) id_given secret_given
      created-ok refl

-- the owner tries the revoked token before someone else creates another
abbrev tried : List TokenRow
tried = (authenticate scrypt "aoms_ab12_s_3cret" 25 (revoke "ab12" 20 rows).1).1

abbrev other_draws : TokenDraws
other_draws = record draws { token_id = "cd34" }

abbrev second : Result (CreatedToken × List TokenRow)
second = create scrypt "desk" ("read" ∷ []) "claude" "myproject" none other_draws tried

abbrev rows_of : Result (CreatedToken × List TokenRow) → List TokenRow
rows_of (ok (c, rs)) = rs
rows_of (raise e) = []

abbrev token_of : Result (CreatedToken × List TokenRow) → CreatedToken
token_of (ok (c, rs)) = c
token_of (raise e) = handed_out

second-ok : second ≡ ok (token_of second, rows_of second)
unfolding tokens
second-ok = refl

revoke-authenticate_example :
    authenticate scrypt "aoms_ab12_s_3cret" 30 (rows_of second) ≡ (none, rows_of second)
unfolding find_token parse_token split_once strip
revoke-authenticate_example =
    revoke-authenticate scrypt "ab12" 20 rows (rows_of second)
      (record { token = token; salt = "salt"; secret_hash = "salts_3cret" }) refl
      (TokenSteps.next
        (TokenSteps.next TokenSteps.here (TokenStep.authenticates "aoms_ab12_s_3cret" 25))
        (TokenStep.creates "desk" ("read" ∷ []) "claude" "myproject" none other_draws second-ok))
      "aoms_ab12_s_3cret" "s_3cret" 30 refl
