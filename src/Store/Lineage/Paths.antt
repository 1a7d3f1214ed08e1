-- ===== src/Store/Lineage/Paths.antt =====
-- The paths of `_lineage_sync` of aoms/repositories/sqlite.py, which are texts: where an id has no
-- comma, the first path holds that id alone.
use Prim.Native.String.{String, ◌++◌ as text_append}
use Prim.Native.Char.{code}
use text.Mathlib.TextLemmas.{nil-append, cons-append}
use text.Mathlib.TextEquality.{Char-path}
use cortex_mem.Prelude.{
  ◌≡◌, ◌≢◌, refl, ap, ◌∙◌, inl, inr, true, false, ◌&&◌, arith, ◌==◌, nat_eq, nat_beq_iff,
  Bool-cases,
}
use cortex_mem.Store.Lineage.{begins_with, instr, first_path}

abbrev pub NoComma : String → Type 0
NoComma String.[] = Unit
NoComma (String.◌∷◌ c s) = ((code c == b',') ≡ false) × NoComma s

-- An id and a comma do not end before the comma.
begins_with-short : (id : String) → begins_with (text_append id ",") "" ≡ false
unfolding begins_with
begins_with-short String.[] = refl
begins_with-short (String.◌∷◌ c id) = rw (cons-append c id ",") refl

-- An id and a comma, at the beginning of an id without commas and a comma.
begins_with-same :
    (id old : String)
    → NoComma old
    → begins_with (text_append id ",") (text_append old ",") ≡ true
    → id ≡ old
unfolding begins_with
begins_with-same String.[] String.[] plain h = refl
begins_with-same String.[] (String.◌∷◌ d old) plain h =
    let h' : (code "," == code d) && begins_with "" (text_append old ",") ≡ true =
      rw (cons-append d old ",") at h in
    let apart = plain.0 in
    absurd (ground (arith, nat_beq_iff (code ",") (code d), nat_beq_iff (code d) b','))
begins_with-same (String.◌∷◌ c id) String.[] plain h =
    let h' : (code c == code ",") && false ≡ true =
      rw (cons-append c id ",", begins_with-short id) at h in
    absurd (ground arith)
begins_with-same (String.◌∷◌ c id) (String.◌∷◌ d old) plain h =
    let h' : (code c == code d) && begins_with (text_append id ",") (text_append old ",") ≡ true =
      rw (cons-append c id ",", cons-append d old ",") at h in
    let first : code c ≡ code d = ground (arith, nat_beq_iff (code c) (code d)) in
    let rest : begins_with (text_append id ",") (text_append old ",") ≡ true = ground arith in
    let same = Char-path c d first in
    ap (λ x. String.◌∷◌ x id) same ∙ ap (String.◌∷◌ d) (begins_with-same id old plain.1 rest)

first_path-cons : (id : String) → first_path id ≡ String.◌∷◌ "," (text_append id ",")
unfolding first_path
first_path-cons id =
    cons-append "," "" (text_append id ",") ∙ ap (String.◌∷◌ ",") (nil-append (text_append id ","))

later_instr :
    (id old : String)
    → NoComma old
    → instr (text_append old ",") (String.◌∷◌ "," (text_append id ",")) ≡ false
unfolding instr begins_with
later_instr id String.[] plain = rw (begins_with-short id) refl
later_instr id (String.◌∷◌ d old) plain =
    let rest = later_instr id old plain.1 in
    let apart : (code "," == code d) ≡ false =
      ground (arith, plain.0, nat_beq_iff (code ",") (code d), nat_beq_iff (code d) b',') in
    rw (cons-append d old ",") (rw (apart, rest) refl)

-- A path of one id without commas holds that id alone.
pub first_path-instr :
    (old id : String) → NoComma old → id ≢ old → instr (first_path old) (first_path id) ≡ false
unfolding instr begins_with
first_path-instr old id plain other =
    rw (first_path-cons old, first_path-cons id)
      (elim (Bool-cases (begins_with (text_append id ",") (text_append old ","))) [
        | inl same ↦ absurd (other (begins_with-same id old plain same))
        | inr apart ↦ rw (apart, later_instr id old plain) refl
      ])
