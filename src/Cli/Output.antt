-- ===== src/Cli/Output.antt =====
-- What one callback of examples/cli.rs gives to the output device.
use simple_sip_rs.Prelude.{
  ℕ, zero, suc, ◌+◌, ◌-◌, ◌≤◌, ◌≡◌, refl, sym, ap, ◌∙◌, List, [], ◌∷◌, ◌++◌, map, length, take,
  drop, replicate, arith, length-take, take_all, drop_all, ◌<◌, ltb, Bool-cases, inl, inr,
  if◌then◌else◌,
}
use mathlib.Core.List.{append_assoc}
use simple_sip_rs.Cli.{fill, output_callback}

-- What one callback gives to the device: samples, and silence behind them.
pub record Part : Type 0 where
  pub samples : List ℕ
  pub silence : ℕ

abbrev pub samples_of : List Part → List ℕ
samples_of [] = []
samples_of (part ∷ parts) = part.samples ++ samples_of parts

abbrev pub sizes : List Part → List ℕ
sizes [] = []
sizes (part ∷ parts) = (length part.samples + part.silence) ∷ sizes parts

module _ (from_sample : ℕ → ℕ) where
  abbrev pub rendered : List Part → List ℕ
  rendered [] = []
  rendered (part ∷ parts) =
      (map from_sample part.samples ++ replicate part.silence (from_sample 0)) ++ rendered parts

  fill_nil : (n : ℕ) → fill from_sample n [] ≡ replicate n (from_sample 0)
  unfolding fill
  fill_nil zero = refl
  fill_nil (suc n) = ap (λ (l : List ℕ). from_sample 0 ∷ l) (fill_nil n)

  pub fill_lem :
      (n silence : ℕ) (samples : List ℕ)
      → length samples + silence ≡ n
      → fill from_sample n samples ≡ map from_sample samples ++ replicate silence (from_sample 0)
  unfolding fill
  fill_lem n silence [] h =
      let same : n ≡ silence = omega arith in
      fill_nil n ∙ ap (λ m. replicate m (from_sample 0)) same
  fill_lem zero silence (s ∷ samples) h = absurd (omega arith)
  fill_lem (suc n) silence (s ∷ samples) h =
      ap (λ (l : List ℕ). from_sample s ∷ l) (fill_lem n silence samples (omega arith))

  pub rendered-append : (ps qs : List Part) → rendered (ps ++ qs) ≡ rendered ps ++ rendered qs
  rendered-append [] qs = refl
  rendered-append (p ∷ ps) qs =
      let own = map from_sample p.samples ++ replicate p.silence (from_sample 0) in
      ap (λ (l : List ℕ). own ++ l) (rendered-append ps qs)
      ∙ sym (append_assoc own (rendered ps) (rendered qs))

pub samples_of-append : (ps qs : List Part) → samples_of (ps ++ qs) ≡ samples_of ps ++ samples_of qs
samples_of-append [] qs = refl
samples_of-append (p ∷ ps) qs =
    ap (λ (l : List ℕ). p.samples ++ l) (samples_of-append ps qs)
    ∙ sym (append_assoc p.samples (samples_of ps) (samples_of qs))

pub sizes-append : (ps qs : List Part) → sizes (ps ++ qs) ≡ sizes ps ++ sizes qs
sizes-append [] qs = refl
sizes-append (p ∷ ps) qs =
    ap (λ (l : List ℕ). (length p.samples + p.silence) ∷ l) (sizes-append ps qs)

take_beyond : (n : ℕ) (xs : List ℕ) → length xs ≤ n → take n xs ≡ xs
take_beyond zero [] h = refl
take_beyond (suc n) [] h = refl
take_beyond zero (x ∷ xs) h = absurd (omega arith)
take_beyond (suc n) (x ∷ xs) h = ap (λ (l : List ℕ). x ∷ l) (take_beyond n xs (omega arith))

drop_beyond : (n : ℕ) (xs : List ℕ) → length xs ≤ n → drop n xs ≡ []
drop_beyond zero [] h = refl
drop_beyond (suc n) [] h = refl
drop_beyond zero (x ∷ xs) h = absurd (omega arith)
drop_beyond (suc n) (x ∷ xs) h = drop_beyond n xs (omega arith)

-- A callback plays the next samples, and silence only where there are too few.
abbrev pub IsPlayed : (ℕ → ℕ) → ℕ → List ℕ → Type 0
IsPlayed from_sample n buffer = output_callback from_sample n buffer ≡ (
  drop n buffer,
  map from_sample (take n buffer) ++ replicate (n - length buffer) (from_sample 0),
)

pub callback_lem : (from_sample : ℕ → ℕ) (n : ℕ) (buffer : List ℕ) → IsPlayed from_sample n buffer
unfolding output_callback
callback_lem from_sample n buffer = elim (Bool-cases (ltb n (length buffer))) [
  | inl longer ↦
      let short : n < length buffer = ground arith in
      let fits : length (take n buffer) + (n - length buffer) ≡ n =
        ground (arith, length-take n buffer) in
      rw (longer, fill_lem from_sample n (n - length buffer) (take n buffer) fits) refl
  | inr shorter ↦
      let long : length buffer ≤ n = ground arith in
      rw
        (
          shorter,
          take_all buffer,
          drop_all buffer,
          take_beyond n buffer long,
          drop_beyond n buffer long,
          fill_lem from_sample n (n - length buffer) buffer (omega arith),
        )
        refl
]

-- The samples that a callback takes, and the silence behind them, fill its data.
pub fits_lem :
    (n : ℕ) (buffer : List ℕ)
    → let m : ℕ = if ltb n (length buffer) then n else length buffer in
      length (take m buffer) + (n - m) ≡ n
fits_lem n buffer = elim (Bool-cases (ltb n (length buffer))) [
  | inl longer ↦ rw longer (ground (arith, length-take n buffer))
  | inr shorter ↦ rw shorter (ground (arith, length-take (length buffer) buffer))
]
