-- ===== src/Media/Offers/Found.antt =====
-- What is found in a session description was offered there.
use simple_sip_rs.Prelude.{
  ◌≡◌, refl, sym, ap, subst, ◌⊎◌, inl, inr, ℕ, Bool, true, false, ◌&&◌, ◌||◌, ◌==◌, List, [], ◌∷◌,
  some, Text, text_eq, eq_of_text_eq, arith, Bool-cases, Option-cases,
}
use simple_sip_rs.Sdp.{
  Rtpmap, SdpAttribute, rtpmap, fmtp, ptime, sendrecv, rtcp_mux, other_attribute, SdpMedia,
}
use simple_sip_rs.Media.Offers.{to_lowercase, is_audio, find_rtpmap, find_codec}

abbrev pub In : {A : Type 0} → A → List A → Type 0
In x [] = ⊥
In x (y ∷ ys) = (x ≡ y) ⊎ In x ys

-- An audio medium has the attribute, under the name.
abbrev pub Offers : Text → List SdpMedia → SdpMedia → Rtpmap → Type 0
Offers name media m a =
    In m media
    × (is_audio m.media ≡ true)
    × In (rtpmap a) m.attributes
    × (to_lowercase a.codec_name ≡ name)

some-injective : {A : Type 0} {a b : A} → some a ≡ some b → a ≡ b
some-injective p = cc

find_rtpmap-In :
    (name : Text) (attributes : List SdpAttribute) (a : Rtpmap)
    → find_rtpmap name attributes ≡ some a
    → In (rtpmap a) attributes × (to_lowercase a.codec_name ≡ name)
unfolding find_rtpmap
find_rtpmap-In name [] a h = absurd (ground arith)
find_rtpmap-In name (rtpmap b ∷ l) a h =
    elim (Bool-cases (text_eq (to_lowercase b.codec_name) name)) [
      | inl same ↦
          let h' : some b ≡ some a = rw same at h in
          let e : b ≡ a = some-injective h' in
          (
            inl (ap rtpmap (sym e)),
            subst (λ (c : Rtpmap). to_lowercase c.codec_name ≡ name) e (eq_of_text_eq _ _ same),
          )
      | inr other ↦
          let h' : find_rtpmap name l ≡ some a = rw other at h in
          let (i, e) = find_rtpmap-In name l a h' in (inr i, e)
    ]
find_rtpmap-In name (ptime _ ∷ l) a h = let (i, e) = find_rtpmap-In name l a h in (inr i, e)
find_rtpmap-In name (fmtp _ ∷ l) a h = let (i, e) = find_rtpmap-In name l a h in (inr i, e)
find_rtpmap-In name (sendrecv ∷ l) a h = let (i, e) = find_rtpmap-In name l a h in (inr i, e)
find_rtpmap-In name (rtcp_mux ∷ l) a h = let (i, e) = find_rtpmap-In name l a h in (inr i, e)
find_rtpmap-In name (other_attribute _ ∷ l) a h =
    let (i, e) = find_rtpmap-In name l a h in (inr i, e)

Offers-cons :
    (name : Text) (x : SdpMedia) (media : List SdpMedia) (m : SdpMedia) (a : Rtpmap)
    → Offers name media m a
    → Offers name (x ∷ media) m a
Offers-cons name x media m a (i, au, at, n) = (inr i, au, at, n)

pub find_codec-Offers :
    (name : Text) (media : List SdpMedia) (m : SdpMedia) (a : Rtpmap)
    → find_codec name media ≡ some (m, a)
    → Offers name media m a
unfolding find_codec
find_codec-Offers name [] m a h = absurd (ground arith)
find_codec-Offers name (x ∷ media) m a h = elim (Bool-cases (is_audio x.media)) [
  | inr other ↦ Offers-cons name x media m a (find_codec-Offers name media m a (rw other at h))
  | inl audio ↦ elim (Option-cases (find_rtpmap name x.attributes)) [
    | inl e ↦ Offers-cons name x media m a (find_codec-Offers name media m a (rw (audio, e) at h))
    | inr (b, e) ↦
        let h' : some (x, b) ≡ some (m, a) = rw (audio, e) at h in
        let p : (x, b) ≡ (m, a) = some-injective h' in
        let q = find_rtpmap-In name x.attributes b e in
        subst (λ (c : SdpMedia × Rtpmap). Offers name (x ∷ media) c.0 c.1) p
          (inl refl, audio, q.0, q.1)
  ]
]

-- Does an audio medium have an `rtpmap` attribute with the payload type?
abbrev any : {A : Type 0} → (A → Bool) → List A → Bool
any p [] = false
any p (x ∷ xs) = p x || any p xs

abbrev type_is : ℕ → SdpAttribute → Bool
type_is n (rtpmap a) = a.payload_type == n
type_is n _ = false

abbrev pub offers_type : ℕ → List SdpMedia → Bool
offers_type n media = any (λ m. is_audio m.media && any (type_is n) m.attributes) media

not_any :
    {A : Type 0} (p : A → Bool) (x : A) (xs : List A) → In x xs → any p xs ≡ false → p x ≡ false
not_any p x [] i h = elim i [ ]
not_any p x (y ∷ ys) (inl e) h = rw e (ground arith)
not_any p x (y ∷ ys) (inr i) h = not_any p x ys i (ground arith)

pub type_not_offered :
    (name : Text) (media : List SdpMedia) (m : SdpMedia) (a : Rtpmap) (n : ℕ)
    → Offers name media m a
    → offers_type n media ≡ false
    → (a.payload_type == n) ≡ false
type_not_offered name media m a n (i, au, at, e) h =
    let no : (is_audio m.media && any (type_is n) m.attributes) ≡ false =
      not_any (λ (d : SdpMedia). is_audio d.media && any (type_is n) d.attributes) m media i h in
    not_any (type_is n) (rtpmap a) m.attributes at (rw au at no)
