-- ===== src/Contracts/Values.antt =====
-- `content: str | dict[str, Any] | list[Any]`: a text, or structured content by its canonical
-- JSON text.
use cortex_mem.Prelude.{
  String, Comparable, ◌==◌, string_eq, Bool, true, false, ◌≡◌, ◌↔◌, arith, eq_iff,
}

pub data Content : Type 0 where
  text structured : String → Content

abbrev pub content_beq : Content → Content → Bool
content_beq (text s) (text t) = s == t
content_beq (text s) (structured t) = false
content_beq (structured s) (text t) = false
content_beq (structured s) (structured t) = s == t

pub content_beq_iff : (a b : Content) → (content_beq a b ≡ true) ↔ (a ≡ b)
content_beq_iff (text s) (text t) = ground (arith, eq_iff s t)
content_beq_iff (text s) (structured t) = ground arith
content_beq_iff (structured s) (text t) = ground arith
content_beq_iff (structured s) (structured t) = ground (arith, eq_iff s t)

instance abbrev pub content_eq : Comparable Content
content_eq = record { equals = content_beq; equals_iff = content_beq_iff }
