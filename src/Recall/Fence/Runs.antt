-- ===== src/Recall/Fence/Runs.antt =====
-- Runs of backticks in a payload, and `_fence_length` of aoms/recall.py.
use Prim.Native.Char.{Char}
use Prim.Native.Nat.{max}
use cortex_mem.Prelude.{
  ℕ, zero, suc, ◌+◌, ◌≤◌, ◌<◌, nat_eq, ◌≡◌, refl, sym, ap, ◌∙◌, ◌⊎◌, inl, inr, String, Bool, true,
  arith, Bool-cases, leb, leb→le, subst, if◌then◌else◌,
}
use cortex_mem.Recall.Fence.{is_backtick, longest_run, fence_length}

-- The text starts with so many backticks.
abbrev pub StartsWithRun : ℕ → String → Type 0
StartsWithRun zero s = Unit
StartsWithRun (suc n) String.[] = ⊥
StartsWithRun (suc n) (String.◌∷◌ c s) = (is_backtick c ≡ true) × StartsWithRun n s

-- So many backticks stand together somewhere in the text.
abbrev pub HasRun : ℕ → String → Type 0
HasRun n String.[] = StartsWithRun n String.[]
HasRun n (String.◌∷◌ c s) = StartsWithRun n (String.◌∷◌ c s) ⊎ HasRun n s

longest_run-maximum : (current maximum : ℕ) (s : String) → maximum ≤ longest_run current maximum s
unfolding longest_run
longest_run-maximum current maximum String.[] = omega arith
longest_run-maximum current maximum (String.◌∷◌ c s) = elim (Bool-cases (is_backtick c)) [
  | inl tick ↦
      rw tick (omega (arith, longest_run-maximum (current + 1) (max maximum (current + 1)) s))
  | inr other ↦ rw other (longest_run-maximum 0 maximum s)
]

longest_run-StartsWithRun :
    (n current maximum : ℕ) (s : String)
    → current ≤ maximum
    → StartsWithRun n s
    → current + n ≤ longest_run current maximum s
unfolding longest_run
longest_run-StartsWithRun zero current maximum s le run =
    omega (arith, longest_run-maximum current maximum s)
longest_run-StartsWithRun (suc n) current maximum String.[] le run = absurd run
longest_run-StartsWithRun (suc n) current maximum (String.◌∷◌ c s) le (tick, run) = rw tick (
    omega (
      arith,
      longest_run-StartsWithRun n (current + 1) (max maximum (current + 1)) s (omega arith) run,
    ))

longest_run-HasRun :
    (n current maximum : ℕ) (s : String)
    → current ≤ maximum
    → HasRun n s
    → n ≤ longest_run current maximum s
unfolding longest_run
longest_run-HasRun n current maximum String.[] le run =
    omega (arith, longest_run-StartsWithRun n current maximum String.[] le run)
longest_run-HasRun n current maximum (String.◌∷◌ c s) le (inl run) =
    omega (arith, longest_run-StartsWithRun n current maximum (String.◌∷◌ c s) le run)
longest_run-HasRun n current maximum (String.◌∷◌ c s) le (inr run) =
    elim (Bool-cases (is_backtick c)) [
      | inl tick ↦
          rw tick
            (longest_run-HasRun n (current + 1) (max maximum (current + 1)) s (omega arith) run)
      | inr other ↦ rw other (longest_run-HasRun n 0 maximum s (omega arith) run)
    ]

-- Where the loop's result comes from: the run before, the run at the start, or a later one.
abbrev Achieved : ℕ → ℕ → String → ℕ → Type 0
Achieved current maximum s n =
    (n ≡ maximum) ⊎ (((k : ℕ) × StartsWithRun k s × (n ≡ current + k)) ⊎ HasRun n s)

HasRun-zero : (s : String) → HasRun 0 s
HasRun-zero String.[] = tt
HasRun-zero (String.◌∷◌ c s) = inl tt

HasRun-start : (n : ℕ) (s : String) → StartsWithRun n s → HasRun n s
HasRun-start n String.[] run = run
HasRun-start n (String.◌∷◌ c s) run = inl run

Achieved-tick :
    (current maximum n : ℕ) (c : Char) (s : String)
    → is_backtick c ≡ true
    → Achieved (current + 1) (max maximum (current + 1)) s n
    → Achieved current maximum (String.◌∷◌ c s) n
Achieved-tick current maximum n c s tick (inl e) = elim (Bool-cases (leb (current + 1) maximum)) [
  | inl longer ↦ let le = leb→le (current + 1) maximum longer in inl (omega arith)
  | inr shorter ↦ inr (inl (1, (tick, tt), ground arith))
]
Achieved-tick current maximum n c s tick (inr (inl (k, run, e))) =
    inr (inl (suc k, (tick, run), omega arith))
Achieved-tick current maximum n c s tick (inr (inr run)) = inr (inr (inr run))

Achieved-other :
    (current maximum n : ℕ) (c : Char) (s : String)
    → Achieved 0 maximum s n
    → Achieved current maximum (String.◌∷◌ c s) n
Achieved-other current maximum n c s (inl e) = inl e
Achieved-other current maximum n c s (inr (inl (k, run, e))) =
    let same : k ≡ n = omega arith in
    inr (inr (inr (HasRun-start n s (subst (λ m. StartsWithRun m s) same run))))
Achieved-other current maximum n c s (inr (inr run)) = inr (inr (inr run))

longest_run_step :
    (current maximum : ℕ) (c : Char) (s : String)
    → longest_run current maximum (String.◌∷◌ c s) ≡ (
        if is_backtick c
        then longest_run (current + 1) (max maximum (current + 1)) s
        else longest_run 0 maximum s)
unfolding longest_run
longest_run_step current maximum c s = refl

longest_run-Achieved :
    (current maximum : ℕ) (s : String) → Achieved current maximum s (longest_run current maximum s)
unfolding longest_run
longest_run-Achieved current maximum String.[] = inl refl
longest_run-Achieved current maximum (String.◌∷◌ c s) = elim (Bool-cases (is_backtick c)) [
  | inl tick ↦
      subst (Achieved current maximum (String.◌∷◌ c s))
        (sym (
          longest_run_step current maximum c s
          ∙ ap
              (λ (b : Bool).
                if b
                then longest_run (current + 1) (max maximum (current + 1)) s
                else longest_run 0 maximum s)
              tick))
        (Achieved-tick current maximum _ c s tick
          (longest_run-Achieved (current + 1) (max maximum (current + 1)) s))
  | inr other ↦
      subst (Achieved current maximum (String.◌∷◌ c s))
        (sym (
          longest_run_step current maximum c s
          ∙ ap
              (λ (b : Bool).
                if b
                then longest_run (current + 1) (max maximum (current + 1)) s
                else longest_run 0 maximum s)
              other))
        (Achieved-other current maximum _ c s (longest_run-Achieved 0 maximum s))
]

longest_run-found : (s : String) → HasRun (longest_run 0 0 s) s
longest_run-found s = elim (longest_run-Achieved 0 0 s) [
  | inl none_found ↦ rw none_found (HasRun-zero s)
  | inr (inl (k, run, e)) ↦
      let same : k ≡ longest_run 0 0 s = omega arith in
      HasRun-start _ s (subst (λ m. StartsWithRun m s) same run)
  | inr (inr run) ↦ run
]

-- The fence of a payload is the shortest of four or more backticks that is longer than each run of
-- backticks in the payload, so the payload never closes its own fence.
pub fence_length-shortest :
    (payload : String)
    → (4 ≤ fence_length payload)
      × ((n : ℕ) → HasRun n payload → n < fence_length payload)
      × ((width : ℕ)
          → 4 ≤ width
          → ((n : ℕ) → HasRun n payload → n < width)
          → fence_length payload ≤ width)
unfolding fence_length
fence_length-shortest payload = (
  omega arith,
  λ n run. omega (arith, longest_run-HasRun n 0 0 payload (omega arith) run),
  λ width four longer. omega (arith, longer (longest_run 0 0 payload) (longest_run-found payload)),
)
