-- ===== src/Embeddings.antt =====
-- aoms/embeddings.py: a profile and its key, and the text that a provider embeds.
pub mod Queue
pub mod Sweep
pub mod Claims
pub mod Held
pub mod Leases
pub mod Work
pub mod Covered
pub mod Ends
pub mod Rows
pub mod Steps
use Prim.Native.String.{◌++◌ as text_append}
use Prim.Native.Nat.{◌%◌}
use cortex_mem.Prelude.{
  ℕ, zero, suc, ◌/◌, String, Bool, true, false, ◌||◌, List, [], ◌∷◌, ◌==◌, string_eq, ltb,
  if◌then◌else◌,
}
use cortex_mem.Errors.{Result, ok, raise, value_error, ◌>>◌, raise_if}
use cortex_mem.Contracts.{
  MemoryRecord, Content, text, structured, MemoryKind, episode, decision, failure, fact, entity,
  relation, procedure, pattern_kind, Scope, agent_private, workspace, user_global,
}
use cortex_mem.Recall.Pack.{text_take}

pub record EmbeddingProfile : Type 0 where
  pub provider : String
  pub model : String
  pub dimensions : ℕ

-- `__post_init__`
unfoldable pub validate_profile : EmbeddingProfile → Result EmbeddingProfile
validate_profile p =
    raise_if (p.provider == "" || p.model == "")
      (value_error "embedding provider and model must not be empty")
    >> raise_if (ltb p.dimensions 1) (value_error "embedding dimensions must be positive")
    >> ok p

abbrev digits : List String
digits = "0" ∷ "1" ∷ "2" ∷ "3" ∷ "4" ∷ "5" ∷ "6" ∷ "7" ∷ "8" ∷ "9" ∷ []

abbrev digit_at : List String → ℕ → String
digit_at [] n = ""
digit_at (d ∷ ds) zero = d
digit_at (d ∷ ds) (suc n) = digit_at ds n

decimal_loop : ℕ → ℕ → String → String
decimal_loop zero n tail = tail
decimal_loop (suc fuel) n tail =
    let more = decimal_loop fuel (n / 10) (text_append (digit_at digits (n % 10)) tail) in
    if ltb n 10 then text_append (digit_at digits n) tail else more

-- `str(n)`: a number has at most as many digits as its successor.
unfoldable pub decimal : ℕ → String
unfolding decimal_loop
decimal n = decimal_loop (suc n) n ""

-- the property `key`
unfoldable pub profile_key : EmbeddingProfile → String
profile_key p =
    text_append p.provider
      (text_append "/" (text_append p.model (text_append "@" (decimal p.dimensions))))

abbrev pub kind_value : MemoryKind → String
kind_value episode = "episode"
kind_value decision = "decision"
kind_value failure = "failure"
kind_value fact = "fact"
kind_value entity = "entity"
kind_value relation = "relation"
kind_value procedure = "procedure"
kind_value pattern_kind = "pattern"

abbrev pub scope_value : Scope → String
scope_value agent_private = "agent-private"
scope_value workspace = "workspace"
scope_value user_global = "user-global"

-- `separator.join(parts)`
unfoldable pub join_with : String → List String → String
join_with separator [] = ""
join_with separator (p ∷ []) = p
join_with separator (p ∷ q ∷ parts) =
    text_append p (text_append separator (join_with separator (q ∷ parts)))

abbrev rendered_content : Content → String
rendered_content (text payload) = payload
rendered_content (structured payload) = payload

abbrev tag_part : List String → List String
tag_part [] = []
tag_part (t ∷ tags) = text_append "tags: " (join_with " " (t ∷ tags)) ∷ []

unfoldable pub text_for_embedding : ℕ → MemoryRecord → String
text_for_embedding max_characters r =
    text_take max_characters
      (join_with "\n" (kind_value r.kind ∷ rendered_content r.content ∷ tag_part r.tags))
