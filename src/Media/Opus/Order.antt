-- ===== src/Media/Opus/Order.antt =====
-- What src/media/opus.rs does with the samples of its user, whatever the order of calls and ticks.
use simple_sip_rs.Prelude.{
  ℕ, zero, suc, ◌≡◌, refl, sym, ap, ap₂, ◌∙◌, inl, inr, List, [], ◌∷◌, ◌++◌, length, take, drop,
  replicate, take-append-drop, List-cases, Bool-cases, ltb, ◌==◌, ◌-◌, if◌then◌else◌,
}
use mathlib.Core.List.{append_assoc, append-nil}
use simple_sip_rs.Media.Libraries.{MediaLib, IsMediaLib}
use simple_sip_rs.Media.TelephoneEvents.{Media, audio, telephone_event, output_empty}
use simple_sip_rs.Media.Opus.{OpusCodec, samples_count, resized, append_to_buffer, get_next_packet}
use simple_sip_rs.Media.Opus.Drain.{heard, taken, empty_tick, tick_fields}

-- What the session does to its codec.
pub data Act : Type 0 where
  give : Media → Act
  tick : Act

abbrev samples_of : Act → List ℕ
samples_of (give (audio xs)) = xs
samples_of _ = []

-- The samples that the codec is given, in order.
abbrev pub given : List Act → List ℕ
given [] = []
given (a ∷ acts) = samples_of a ++ given acts

-- The samples that are not silence.
abbrev pub audible : List ℕ → List ℕ
audible [] = []
audible (x ∷ xs) = let later = audible xs in if x == 0 then later else x ∷ later

audible-append : (xs ys : List ℕ) → audible (xs ++ ys) ≡ audible xs ++ audible ys
audible-append [] ys = refl
audible-append (x ∷ xs) ys = elim (Bool-cases (x == 0)) [
  | inl silent ↦ rw silent (audible-append xs ys)
  | inr loud ↦ rw loud (ap (λ (t : List ℕ). x ∷ t) (audible-append xs ys))
]

audible-silence : (n : ℕ) → audible (replicate n 0) ≡ []
audible-silence zero = refl
audible-silence (suc n) = audible-silence n

-- What is heard of two parts depends on what is heard of each.
audible_parts :
    (xs xs' ys ys' : List ℕ)
    → audible xs ≡ audible xs'
    → audible ys ≡ audible ys'
    → audible (xs ++ ys) ≡ audible (xs' ++ ys')
audible_parts xs xs' ys ys' p q =
    audible-append xs ys ∙ ap₂ (λ (a b : List ℕ). a ++ b) p q ∙ sym (audible-append xs' ys')

module _ (l : MediaLib) where
  unfoldable pub act : Act → OpusCodec l → OpusCodec l
  act (give media) c = (append_to_buffer l c media).0
  act tick c = (get_next_packet l c).0

  unfoldable pub run : List Act → OpusCodec l → OpusCodec l
  run [] c = c
  run (a ∷ acts) c = run acts (act a c)

  -- All samples of the codec: those that the encoder has been given, and those that wait.
  abbrev pub samples : OpusCodec l → List ℕ
  samples c = heard l c ++ c.buffer_out

  audible-resized : (n : ℕ) (xs : List ℕ) → audible (resized l n xs) ≡ audible xs
  audible-resized n xs = elim (Bool-cases (ltb (length xs) n)) [
    | inl short ↦ rw short (
        audible-append xs (replicate (n - length xs) 0)
        ∙ ap (λ (t : List ℕ). audible xs ++ t) (audible-silence (n - length xs))
        ∙ append-nil (audible xs))
    | inr full ↦ rw full refl
  ]

  tick-samples :
      (c : OpusCodec l) → IsMediaLib l → audible (samples (act tick c)) ≡ audible (samples c)
  unfolding act get_next_packet
  tick-samples c law = elim (List-cases c.buffer_out) [
    | inl e ↦ ap (λ (d : OpusCodec l). audible (samples d)) (empty_tick l c c.buffer_out e)
    | inr (x, xs, e) ↦
        let n : ℕ = samples_count l c in
        let frame : List ℕ = take (taken l n c) c.buffer_out in
        let left : List ℕ = drop (taken l n c) c.buffer_out in
        let f = tick_fields l n c x xs law refl e in
        ap₂ (λ (h b : List ℕ). audible (h ++ b)) f.1 f.0
        ∙ ap audible (append_assoc (heard l c) (resized l n frame) left)
        ∙ audible_parts (heard l c) (heard l c) (resized l n frame ++ left) c.buffer_out refl (
            audible_parts (resized l n frame) frame left left (audible-resized n frame) refl
            ∙ ap audible (take-append-drop (taken l n c) c.buffer_out))
  ]

  act-samples :
      (a : Act) (c : OpusCodec l) (later : List ℕ)
      → IsMediaLib l
      → audible (samples (act a c) ++ later) ≡ audible (samples c ++ (samples_of a ++ later))
  unfolding act append_to_buffer
  act-samples (give (audio xs)) c later law = ap audible (
      ap (λ (t : List ℕ). t ++ later) (sym (append_assoc (heard l c) c.buffer_out xs))
      ∙ append_assoc (samples c) xs later)
  act-samples (give (telephone_event k e)) c later law = refl
  act-samples (give output_empty) c later law = refl
  act-samples tick c later law =
      audible_parts (samples (act tick c)) (samples c) later later (tick-samples c law) refl

  -- Opus: whatever samples the codec is given between its ticks, and whatever errors there are,
  -- none is lost, doubled or moved: but for silence, what its encoder has been given, followed by
  -- what waits in the buffer, is what these were before, followed by the samples given since, in
  -- order. It assumes that an encoder takes all that it is given.
  pub audio_kept :
      (acts : List Act) (c : OpusCodec l)
      → IsMediaLib l
      → audible (samples (run acts c)) ≡ audible (samples c ++ given acts)
  unfolding run
  audio_kept [] c law = ap audible (sym (append-nil (samples c)))
  audio_kept (a ∷ acts) c law = audio_kept acts (act a c) law ∙ act-samples a c (given acts) law
