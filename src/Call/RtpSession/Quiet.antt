-- ===== src/Call/RtpSession/Quiet.antt =====
-- When src/call/rtp_session.rs tells the user that there is nothing more to send.
use simple_sip_rs.Prelude.{
  ℕ, zero, suc, ◌≡◌, refl, sym, ap, ◌∙◌, inl, inr, Bool, true, false, not, ◌&&◌, ◌||◌, subst, List,
  [], ◌∷◌, ◌++◌, replicate, Outcome, ok, err, panic, arith, Bool-cases, if◌then◌else◌,
}
use mathlib.Core.List.{append_assoc, append-nil}
use simple_sip_rs.Channels.{Sender, IsSender, Receiver}
use simple_sip_rs.Utils
use simple_sip_rs.Media.Libraries.{MediaLib}
use simple_sip_rs.Media.TelephoneEvents.{Media, output_empty}
use simple_sip_rs.Media.Codecs.{Codec, get_next_packet}
use simple_sip_rs.Config.{SocketAddr}
use simple_sip_rs.Call.RtpSession.{
  Udp, RtpSession, joined, after_packets, send_packets, send_codec, send_codecs, after_codecs,
  send_next_packet,
}
use simple_sip_rs.Call.RtpSession.Delivery.{told}

-- How often a sequence falls from true to false, after a first value.
abbrev pub falling : Bool → List Bool → ℕ
falling prev [] = 0
falling prev (b ∷ bs) = let later = falling b bs in if prev && not b then suc later else later

not-not : (b : Bool) → not (not b) ≡ b
not-not true = refl
not-not false = refl

count_one :
    (xs : List Media) (b : Bool) (n : ℕ)
    → (xs ++ (if b then output_empty ∷ [] else [])) ++ replicate n output_empty
      ≡ xs ++ replicate (if b then suc n else n) output_empty
count_one xs true n = append_assoc xs (output_empty ∷ []) (replicate n output_empty)
count_one xs false n = ap (λ (y : List Media). y ++ replicate n output_empty) (append-nil xs)

module _ (l : MediaLib) (u : Udp) (tx : Sender Media) (rx : Receiver Media) where
  abbrev pub Session : Type 0
  Session = RtpSession l u tx rx

  abbrev flag_of : Outcome Bool → Bool
  flag_of (ok b) = b
  flag_of _ = false

  abbrev or_later : Outcome (List l.rtp.Packet) → Bool → Bool
  or_later (ok (p ∷ ps)) later = true
  or_later (ok []) later = later
  or_later (err e) later = later
  or_later panic later = later

  -- Does a codec have a packet to send?
  unfoldable pub has_packets : List (Codec l) → Bool
  has_packets [] = false
  has_packets (c ∷ cs) = or_later (get_next_packet l c).1 (has_packets cs)

  -- Is there a packet to send at this tick?
  unfoldable pub busy : Session → Bool
  busy s = has_packets s.codecs

  unfoldable pub ticks : ℕ → Session → Session
  ticks zero s = s
  ticks (suc n) s = ticks n (send_next_packet l u tx rx s).0

  unfoldable pub trace : ℕ → Session → List Bool
  trace zero s = []
  trace (suc n) s = busy s ∷ trace n (send_next_packet l u tx rx s).0

  abbrev pub AllSucceed : ℕ → Session → Type 0
  AllSucceed zero s = Unit {0}
  AllSucceed (suc n) s =
      ((send_next_packet l u tx rx s).1 ≡ ok tt) × AllSucceed n (send_next_packet l u tx rx s).0

  joined_flag :
      (had did : Bool) (c : Codec l) (x : u.Socket × List (Codec l) × Outcome Bool)
      → (joined l u tx rx had c x).2 ≡ ok did
      → (b : Bool) × (x.2 ≡ ok b) × (did ≡ had || b)
  joined_flag had did c (socket, cs, ok b) h = (b, refl, ground (arith, h))
  joined_flag had did c (socket, cs, err e) h = absurd (ground arith)
  joined_flag had did c (socket, cs, panic) h = absurd (ground arith)

  after_packets_flag :
      (had did : Bool) (c : Codec l) (cs : List (Codec l)) (x : u.Socket × Outcome (Unit {0}))
      (addr : SocketAddr)
      → (after_packets l u tx rx had c cs x (send_codecs l u tx rx addr cs)).2 ≡ ok did
      → (b : Bool) × ((send_codecs l u tx rx addr cs x.0).2 ≡ ok b) × (did ≡ had || b)
  after_packets_flag had did c cs (socket, ok _) addr h =
      joined_flag had did c (send_codecs l u tx rx addr cs socket) h
  after_packets_flag had did c cs (socket, err e) addr h = absurd (ground arith)
  after_packets_flag had did c cs (socket, panic) addr h = absurd (ground arith)

  send_codec_flag :
      (cs : List (Codec l)) (did : Bool) (socket : u.Socket) (addr : SocketAddr)
      (x : Codec l × Outcome (List l.rtp.Packet)) (rest : Bool)
      → ((b : Bool) (socket' : u.Socket)
          → (send_codecs l u tx rx addr cs socket').2 ≡ ok b
          → b ≡ rest)
      → (send_codec l u tx rx addr cs socket x (send_codecs l u tx rx addr cs)).2 ≡ ok did
      → did ≡ or_later x.1 rest
  send_codec_flag cs did socket addr (c, ok []) rest later h =
      let (b, e, f) =
        after_packets_flag false did c cs (send_packets l u tx rx addr [] socket) addr h in
      f ∙ later b _ e
  send_codec_flag cs did socket addr (c, ok (p ∷ ps)) rest later h =
      let (b, e, f) =
        after_packets_flag true did c cs (send_packets l u tx rx addr (p ∷ ps) socket) addr h in
      f
  send_codec_flag cs did socket addr (c, err e) rest later h = absurd (ground arith)
  send_codec_flag cs did socket addr (c, panic) rest later h = absurd (ground arith)

  -- What the code remembers of a tick is whether one of its codecs had a packet.
  send_codecs_flag :
      (cs : List (Codec l)) (did : Bool) (socket : u.Socket) (addr : SocketAddr)
      → (send_codecs l u tx rx addr cs socket).2 ≡ ok did
      → did ≡ has_packets cs
  unfolding send_codecs has_packets
  send_codecs_flag [] did socket addr h = ground arith
  send_codecs_flag (c ∷ cs) did socket addr h =
      send_codec_flag cs did socket addr (get_next_packet l c) (has_packets cs)
        (λ b socket'. send_codecs_flag cs b socket' addr) h

  abbrev Tells : Session → Bool → Session → Type 0
  Tells s b s' =
      (told l u tx rx s'
        ≡ told l u tx rx s ++ (if not s.notified_empty && not b then output_empty ∷ [] else []))
      × (s'.notified_empty ≡ not b)

  after_codecs-Tells :
      (s : Session) (socket : u.Socket) (cs : List (Codec l)) (o : Outcome Bool)
      → IsSender tx
      → (after_codecs l u tx rx s (socket, cs, o)).1 ≡ ok tt
      → Tells s (flag_of o) (after_codecs l u tx rx s (socket, cs, o)).0
  unfolding Utils.send
  after_codecs-Tells s socket cs (err e) law h = absurd (ground arith)
  after_codecs-Tells s socket cs panic law h = absurd (ground arith)
  after_codecs-Tells s socket cs (ok true) law h = elim (Bool-cases s.notified_empty) [
    | inl e ↦ rw e (sym (append-nil _), refl)
    | inr e ↦ rw e (sym (append-nil _), refl)
  ]
  after_codecs-Tells s socket cs (ok false) law h = elim (Bool-cases s.notified_empty) [
    | inl e ↦ rw e (sym (append-nil _), refl)
    | inr e ↦ elim (Bool-cases (tx.send s.media_channel.sender output_empty).1) [
      | inl done ↦ rw (e, done) (law.send_ok _ output_empty done, refl)
      | inr lost ↦ absurd (ground (arith, h, e, lost))
    ]
  ]

  after_codecs_ok :
      (s : Session) (socket : u.Socket) (cs : List (Codec l)) (o : Outcome Bool)
      → (after_codecs l u tx rx s (socket, cs, o)).1 ≡ ok tt
      → (did : Bool) × (o ≡ ok did)
  after_codecs_ok s socket cs (ok did) h = (did, refl)
  after_codecs_ok s socket cs (err e) h = absurd (ground arith)
  after_codecs_ok s socket cs panic h = absurd (ground arith)

  tick-Tells :
      (s : Session)
      → IsSender tx
      → (send_next_packet l u tx rx s).1 ≡ ok tt
      → Tells s (busy s) (send_next_packet l u tx rx s).0
  unfolding send_next_packet busy
  tick-Tells s law h =
      let x = send_codecs l u tx rx s.remote_addr s.codecs s.udp_socket in
      let (did, e) = after_codecs_ok s x.0 x.1 x.2 h in
      subst (λ (b : Bool). Tells s b (send_next_packet l u tx rx s).0)
        (ap flag_of e ∙ send_codecs_flag s.codecs did s.udp_socket s.remote_addr e)
        (after_codecs-Tells s x.0 x.1 x.2 law h)

  -- As long as the ticks succeed, they tell the user of nothing but the end of the output, as
  -- often as the sending stops: as often as the sequence of whether one of the codecs has a
  -- packet for the tick falls from true to false, where the flag notified_empty gives its first
  -- value, negated. It assumes the law of the channel.
  pub notifications :
      (n : ℕ) (s : Session)
      → IsSender tx
      → AllSucceed n s
      → told l u tx rx (ticks n s)
        ≡ told l u tx rx s ++ replicate (falling (not s.notified_empty) (trace n s)) output_empty
  unfolding ticks trace
  notifications zero s law ok_all = sym (append-nil (told l u tx rx s))
  notifications (suc n) s law ok_all =
      let s' = (send_next_packet l u tx rx s).0 in
      let (now, flag) = tick-Tells s law ok_all.0 in
      let flag' : not s'.notified_empty ≡ busy s = ap not flag ∙ not-not (busy s) in
      let later : told l u tx rx (ticks n s')
          ≡ told l u tx rx s' ++ replicate (falling (busy s) (trace n s')) output_empty =
        notifications n s' law ok_all.1
        ∙ ap (λ (b : Bool). told l u tx rx s' ++ replicate (falling b (trace n s')) output_empty)
            flag' in
      later
      ∙ ap (λ (y : List Media). y ++ replicate (falling (busy s) (trace n s')) output_empty) now
      ∙ count_one (told l u tx rx s) (not s.notified_empty && not (busy s))
          (falling (busy s) (trace n s'))
