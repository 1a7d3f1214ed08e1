-- ===== src/Auth/Lifecycle.antt =====
-- A token of aoms/auth.py from its creation to its revocation.
use Prim.Native.String.{String, ◌++◌ as text_append}
use Prim.Native.Char.{code}
use text.Mathlib.TextLemmas.{nil-append, cons-append}
use cortex_mem.Prelude.{
  ℕ, ◌≡◌, ◌≢◌, refl, sym, ap, inl, inr, true, false, Option, none, some, List, [], ◌∷◌, ◌++◌, map,
  arith, any, ◌==◌, string_eq, nat_eq, ==_ne, eq_iff, Bool-cases,
}
use cortex_mem.Errors.{ok, bind-returns, ok-inj}
use cortex_mem.Auth.{
  AuthToken, TokenRow, CreatedToken, TokenDraws, is_expired, has_id, insert_token, presented_form,
  new_token, create, find_token, new_row, issue, checked_scopes, is_usable, split_once, parse_token,
  touch, authenticate,
}

-- `secrets.token_hex` draws hexadecimal digits, and so no underscore.
abbrev pub NoUnderscore : String → Type 0
NoUnderscore String.[] = Unit
NoUnderscore (String.◌∷◌ c s) = ((code c == b'_') ≡ false) × NoUnderscore s

split_once-append :
    (s t : String) → NoUnderscore s → split_once (text_append s (text_append "_" t)) ≡ some (s, t)
unfolding split_once
split_once-append String.[] t h =
    rw (nil-append (text_append "_" t)) (rw (cons-append _ "" t) (rw (nil-append t) refl))
split_once-append (String.◌∷◌ c s) t h =
    let rest = split_once-append s t h.1 in
    rw (cons-append c s (text_append "_" t)) (rw (h.0, rest) refl)

-- What `create` hands out is taken apart into the id and the secret part.
parse_token-presented :
    (token_id secret_part : String)
    → NoUnderscore token_id
    → token_id ≢ ""
    → secret_part ≢ ""
    → parse_token (presented_form token_id secret_part) ≡ some (token_id, secret_part)
unfolding parse_token presented_form
parse_token-presented token_id secret_part plain id_given secret_given =
    let no_id = ==_ne token_id "" id_given in
    let no_secret = ==_ne secret_part "" secret_given in
    let first =
      split_once-append "aoms" (text_append token_id (text_append "_" secret_part))
        (refl, (refl, (refl, (refl, tt)))) in
    let second = split_once-append token_id secret_part plain in
    rw (first, second) (rw (no_id, no_secret) refl)

find_token-append :
    (id : String) (rows : List TokenRow) (row : TokenRow)
    → row.token.token_id ≡ id
    → any (has_id id) rows ≡ false
    → find_token id (rows ++ row ∷ []) ≡ some row
unfolding find_token any
find_token-append id [] row own new = ground (arith, eq_iff row.token.token_id id)
find_token-append id (r ∷ rows) row own new = ground (arith, find_token-append id rows row own)

module _ (scrypt : String → String → String) where
  -- the row that is inserted, under an id that is new
  pub issue-returns :
      (token : AuthToken) (draws : TokenDraws) (rows : List TokenRow) (c : CreatedToken)
      (rows' : List TokenRow)
      → issue scrypt token draws rows ≡ ok (c, rows')
      → (c ≡ record { token = token; secret = presented_form draws.token_id draws.secret_part })
        × (any (has_id token.token_id) rows ≡ false)
        × (rows' ≡ rows ++ new_row scrypt token draws ∷ [])
  unfolding issue insert_token
  issue-returns token draws rows c rows' h = elim (Bool-cases (any (has_id token.token_id) rows)) [
    | inl taken ↦ absurd (ground arith)
    | inr new ↦
        let end = ok-inj (rw new at h) in
        (
          sym (ap (λ (x : CreatedToken × List TokenRow). x.0) end),
          new,
          sym (ap (λ (x : CreatedToken × List TokenRow). x.1) end),
        )
  ]

  -- A token that is still good is accepted.
  authenticate-accepts :
      (token_id secret_part : String) (now : ℕ) (rows : List TokenRow) (row : TokenRow)
      → NoUnderscore token_id
      → token_id ≢ ""
      → secret_part ≢ ""
      → find_token token_id rows ≡ some row
      → scrypt secret_part row.salt ≡ row.secret_hash
      → is_usable now row.token ≡ true
      → authenticate scrypt (presented_form token_id secret_part) now rows ≡ (
        some (record row.token { last_used_at = some now; revoked_at = none }),
        map (touch token_id now) rows,
      )
  unfolding authenticate
  authenticate-accepts token_id secret_part now rows row plain id_given secret_given found same
        usable =
      let parsed = parse_token-presented token_id secret_part plain id_given secret_given in
      let hash : (scrypt secret_part row.salt == row.secret_hash) ≡ true =
        ground (arith, eq_iff (scrypt secret_part row.salt) row.secret_hash) in
      rw parsed (rw found (rw (hash, usable) refl))

  -- The secret that `create` hands out authenticates as the new token, at any time before its
  -- expiry, and marks its use. The draws are not empty, and the id has no underscore.
  pub create-authenticate :
      (name : String) (scopes : List String) (agent_id workspace_id : String)
      (expires_at : Option ℕ) (draws : TokenDraws) (rows : List TokenRow) (c : CreatedToken)
      (rows' : List TokenRow) (now : ℕ)
      → NoUnderscore draws.token_id
      → draws.token_id ≢ ""
      → draws.secret_part ≢ ""
      → create scrypt name scopes agent_id workspace_id expires_at draws rows ≡ ok (c, rows')
      → is_expired expires_at now ≡ false
      → authenticate scrypt c.secret now rows' ≡ (
        some (record c.token { last_used_at = some now }),
        map (touch c.token.token_id now) rows',
      )
  unfolding create new_token
  create-authenticate name scopes agent_id workspace_id expires_at draws rows c rows' now plain
        id_given secret_given h good =
      let (unique, _, issued) =
        bind-returns
          (checked_scopes scrypt name scopes agent_id workspace_id expires_at draws.checked_at) _
          h in
      let token = new_token scrypt name unique agent_id workspace_id expires_at draws in
      let (own, new, end) = issue-returns token draws rows c rows' issued in
      let found = find_token-append draws.token_id rows (new_row scrypt token draws) refl new in
      rw (own, end)
        (authenticate-accepts draws.token_id draws.secret_part now
          (rows ++ new_row scrypt token draws ∷ []) (new_row scrypt token draws) plain id_given
          secret_given found refl (ground arith))
