-- ===== src/Auth/Revoked.antt =====
-- A revoked token of aoms/auth.py stays revoked.
use cortex_mem.Prelude.{
  ℕ, String, ◌≡◌, refl, sym, ◌∙◌, ap, inl, inr, Bool, true, false, Option, none, some, List, [],
  ◌∷◌, ◌++◌, map, arith, ◌==◌, string_eq, Bool-cases, some-inj, if◌then◌else◌,
}
use cortex_mem.Errors.{ok, bind-returns}
use cortex_mem.Contracts.Validate.{strip}
use cortex_mem.Auth.{
  TokenRow, CreatedToken, TokenDraws, is_given, has_id, new_token, new_row, checked_scopes, create,
  find_token, accepts, revoke_row, revoke, parse_token, touch, check_row, authenticate_parts,
  authenticate,
}
use cortex_mem.Auth.Lifecycle.{issue-returns}

-- a row of the id stands, and it is revoked
abbrev pub IsRevoked : String → List TokenRow → Type 0
IsRevoked id rows =
    (row : TokenRow) × (find_token id rows ≡ some row) × (is_given row.token.revoked_at ≡ true)

-- A change of rows that keeps their ids keeps which row an id finds.
find_token-map :
    (f : TokenRow → TokenRow)
    → ((row : TokenRow) → (f row).token.token_id ≡ row.token.token_id)
    → (id : String) (rows : List TokenRow) (row : TokenRow) → find_token id rows ≡ some row
    → find_token id (map f rows) ≡ some (f row)
unfolding find_token
find_token-map f keeps id [] row h = absurd (ground arith)
find_token-map f keeps id (r ∷ rows) row h =
    let same = ap (λ x. x == id) (keeps r) in
    let pick = λ (b : Bool). if b then some (f r) else find_token id (map f rows) in
    elim (Bool-cases (has_id id r)) [
      | inl own ↦
          let e : r ≡ row =
            some-inj (sym (ap (λ b. if b then some r else find_token id rows) own) ∙ h) in
          ap pick (same ∙ own) ∙ ap (λ x. some (f x)) e
      | inr other ↦ ap pick (same ∙ other) ∙ find_token-map f keeps id rows row (rw other at h)
    ]

find_token-own :
    (id : String) (rows : List TokenRow) (row : TokenRow)
    → find_token id rows ≡ some row
    → has_id id row ≡ true
unfolding find_token
find_token-own id [] row h = absurd (ground arith)
find_token-own id (r ∷ rows) row h = ground (arith, find_token-own id rows row)

map-IsRevoked :
    (f : TokenRow → TokenRow)
    → ((row : TokenRow) → (f row).token.token_id ≡ row.token.token_id)
    → ((row : TokenRow)
        → is_given row.token.revoked_at ≡ true
        → is_given (f row).token.revoked_at ≡ true)
    → (id : String) (rows : List TokenRow) → IsRevoked id rows
    → IsRevoked id (map f rows)
map-IsRevoked f keeps stays id rows (row, found, given) =
    (f row, find_token-map f keeps id rows row found, stays row given)

find_token-first :
    (id : String) (rows more : List TokenRow) (row : TokenRow)
    → find_token id rows ≡ some row
    → find_token id (rows ++ more) ≡ some row
unfolding find_token
find_token-first id [] more row h = absurd (ground arith)
find_token-first id (r ∷ rows) more row h = ground (arith, find_token-first id rows more row)

-- a call of the token store
pub data TokenStep (scrypt : String → String → String) (rows : List TokenRow)
    : List TokenRow → Type 0 where
  creates :
      (name : String) (scopes : List String) (agent_id workspace_id : String)
      (expires_at : Option ℕ) (draws : TokenDraws) {c : CreatedToken} {rows' : List TokenRow}
      → create scrypt name scopes agent_id workspace_id expires_at draws rows ≡ ok (c, rows')
      → TokenStep scrypt rows rows'
  revokes : (token_id : String) (now : ℕ) → TokenStep scrypt rows (revoke token_id now rows).1
  authenticates :
      (presented : String) (now : ℕ)
      → TokenStep scrypt rows (authenticate scrypt presented now rows).1

pub data TokenSteps (scrypt : String → String → String) (rows : List TokenRow)
    : List TokenRow → Type 0 where
  here : TokenSteps scrypt rows rows
  next :
      {rows' rows'' : List TokenRow}
      → TokenSteps scrypt rows rows'
      → TokenStep scrypt rows' rows''
      → TokenSteps scrypt rows rows''

touch-keeps :
    (token_id : String) (now : ℕ) (row : TokenRow)
    → ((touch token_id now row).token.token_id ≡ row.token.token_id)
      × ((touch token_id now row).token.revoked_at ≡ row.token.revoked_at)
unfolding touch
touch-keeps token_id now row = ground arith

revoke_row-keeps :
    (token_id : String) (now : ℕ) (row : TokenRow)
    → ((revoke_row token_id now row).token.token_id ≡ row.token.token_id)
      × (is_given row.token.revoked_at ≡ true
          → is_given (revoke_row token_id now row).token.revoked_at ≡ true)
unfolding revoke_row
revoke_row-keeps token_id now row = ground arith

module _ (scrypt : String → String → String) where
  authenticate-IsRevoked :
      (id presented : String) (now : ℕ) (rows : List TokenRow)
      → IsRevoked id rows
      → IsRevoked id (authenticate scrypt presented now rows).1
  unfolding authenticate
  authenticate-IsRevoked id presented now rows h = go (parse_token presented)
    where
      checked :
          (token_id secret_part : String) (found : Option TokenRow)
          → IsRevoked id (check_row scrypt token_id secret_part now rows found).1
      checked token_id secret_part none = h
      checked token_id secret_part (some row) =
          elim (Bool-cases (accepts scrypt now secret_part row)) [
            | inl yes_now ↦ rw yes_now (
                map-IsRevoked (touch token_id now) (λ r. (touch-keeps token_id now r).0)
                  (λ r g. rw (touch-keeps token_id now r).1 g) id rows h)
            | inr no_now ↦ rw no_now h
          ]

      go :
          (parts : Option (String × String))
          → IsRevoked id (authenticate_parts scrypt now rows parts).1
      go none = h
      go (some (token_id, secret_part)) = checked token_id secret_part (find_token token_id rows)

  step-IsRevoked :
      (id : String) {rows rows' : List TokenRow}
      → TokenStep scrypt rows rows'
      → IsRevoked id rows
      → IsRevoked id rows'
  unfolding create revoke
  step-IsRevoked id {rows}
        (creates name scopes agent_id workspace_id expires_at draws {c} {rows'} h)
        (row, found, given) =
      let (unique, _, issued) =
        bind-returns
          (checked_scopes scrypt name scopes agent_id workspace_id expires_at draws.checked_at) _
          h in
      let token = new_token scrypt name unique agent_id workspace_id expires_at draws in
      let (_, _, end) = issue-returns scrypt token draws rows c rows' issued in
      (row, rw end (find_token-first id rows (new_row scrypt token draws ∷ []) row found), given)
  step-IsRevoked id {rows} (revokes token_id now) h =
      map-IsRevoked (revoke_row (strip token_id) now)
        (λ r. (revoke_row-keeps (strip token_id) now r).0)
        (λ r. (revoke_row-keeps (strip token_id) now r).1) id rows h
  step-IsRevoked id {rows} (authenticates presented now) h =
      authenticate-IsRevoked id presented now rows h

  steps-IsRevoked :
      (id : String) {rows rows' : List TokenRow}
      → TokenSteps scrypt rows rows'
      → IsRevoked id rows
      → IsRevoked id rows'
  steps-IsRevoked id here h = h
  steps-IsRevoked id (next before last) h = step-IsRevoked id last (steps-IsRevoked id before h)

  revoke-IsRevoked :
      (token_id : String) (now : ℕ) (rows : List TokenRow) (row : TokenRow)
      → find_token (strip token_id) rows ≡ some row
      → IsRevoked (strip token_id) (revoke token_id now rows).1
  unfolding revoke revoke_row
  revoke-IsRevoked token_id now rows row found = (
    revoke_row (strip token_id) now row,
    find_token-map (revoke_row (strip token_id) now)
        (λ r. (revoke_row-keeps (strip token_id) now r).0) (strip token_id) rows row found,
    given,
  )
    where
      given : is_given (revoke_row (strip token_id) now row).token.revoked_at ≡ true
      given =
          let own : has_id (strip token_id) row ≡ true =
            find_token-own (strip token_id) rows row found in
          ground arith

  -- Once a token that exists is revoked, nothing that is presented under its id authenticates,
  -- whatever calls come between, the creation of other tokens among them.
  pub revoke-authenticate :
      (token_id : String) (now : ℕ) (rows rows' : List TokenRow) (row : TokenRow)
      → find_token (strip token_id) rows ≡ some row
      → TokenSteps scrypt (revoke token_id now rows).1 rows'
      → (presented secret_part : String) (later : ℕ)
      → parse_token presented ≡ some (strip token_id, secret_part)
      → authenticate scrypt presented later rows' ≡ (none, rows')
  unfolding authenticate
  revoke-authenticate token_id now rows rows' row found steps presented secret_part later parsed =
      let (r, found', given) =
        steps-IsRevoked (strip token_id) steps (revoke-IsRevoked token_id now rows row found) in
      let refused : accepts scrypt later secret_part r ≡ false = ground arith in
      rw parsed (rw found' (rw refused refl))
