-- ===== src/Context/Ports.antt =====
-- Which ports `get_next_udp_port` of src/context.rs hands out, call after call.
use simple_sip_rs.Prelude.{
  ℕ, zero, suc, ◌+◌, ◌*◌, ◌-◌, ◌/◌, ◌%◌, ◌≤◌, ◌<◌, ◌≡◌, refl, ◌≢◌, ok, arith, ◌∙◌, ap, subst, ◌⊎◌,
  inl, inr,
}
use native.Mathlib.Nat.{suc-mod, mod-eq_of_lt, mod_self, zero-mod, div-add-mod}
use native.Mathlib.Decide.{dec_lt}
use simple_sip_rs.Config.{Config}
use simple_sip_rs.Context.{SipContext, from_config, get_next_udp_port}

-- The context after some calls, and the port that the next call returns.
unfoldable pub after : ℕ → SipContext → SipContext
after zero c = c
after (suc n) c = (get_next_udp_port (after n c)).0

unfoldable pub port_of_call : ℕ → SipContext → ℕ
unfolding after
port_of_call n c = (get_next_udp_port (after n c)).1

-- How many ports a range gives: every second one, both ends included.
abbrev pub port_count : Config → ℕ
port_count c = (c.rtp_port_end - c.rtp_port_start) / 2 + 1

-- The remainder counts up to the modulus, and starts again.
mod-suc_cases :
    (n m : ℕ)
    → 0 < m
    → ((suc (n % m) < m) × (suc n % m ≡ suc (n % m))) ⊎ ((suc (n % m) ≡ m) × (suc n % m ≡ 0))
mod-suc_cases n m h = elim (dec_lt (suc (n % m)) m) [
  | yes p ↦ inl (p, suc-mod n m ∙ mod-eq_of_lt p)
  | no p ↦
      let e : suc (n % m) ≡ m = omega arith in
      inr (e, suc-mod n m ∙ ap (λ (k : ℕ). k % m) e ∙ mod_self m)
]

after-config : (n : ℕ) (c : SipContext) → (after n c).config ≡ c.config
unfolding after get_next_udp_port
after-config zero c = refl
after-config (suc n) c = after-config n c

from_config_ok :
    (config : Config) (c : SipContext)
    → from_config config ≡ ok c
    → (c.config ≡ config)
      × (c.next_udp_port ≡ config.rtp_port_start)
      × (config.rtp_port_start ≤ config.rtp_port_end)
unfolding from_config
from_config_ok config c h = ground arith

-- One call takes the port of a remainder to the port of the next.
advance :
    (c : SipContext) (n : ℕ)
    → c.config.rtp_port_start ≤ c.config.rtp_port_end
    → c.config.rtp_port_end < 65534
    → c.next_udp_port ≡ c.config.rtp_port_start + 2 * (n % port_count c.config)
    → (get_next_udp_port c).0.next_udp_port
      ≡ c.config.rtp_port_start + 2 * (suc n % port_count c.config)
unfolding get_next_udp_port
advance c n le k e = elim (mod-suc_cases n (port_count c.config) (omega arith)) [
  | inl p ↦ ground arith
  | inr p ↦ ground arith
]

after-from_config :
    (config : Config) (c : SipContext) (n : ℕ)
    → from_config config ≡ ok c
    → config.rtp_port_end < 65534
    → (after n c).next_udp_port ≡ config.rtp_port_start + 2 * (n % port_count config)
unfolding after
after-from_config config c zero h k =
    let f = from_config_ok config c h in rw zero-mod (f.1 ∙ omega arith)
after-from_config config c (suc n) h k =
    let f = from_config_ok config c h in
    let e = after-config n c ∙ f.0 in
    let ih = after-from_config config c n h k in
    subst
      (λ (g : Config).
        (get_next_udp_port (after n c)).0.next_udp_port
        ≡ g.rtp_port_start + 2 * (suc n % port_count g))
      e (advance (after n c) n (rw e f.2) (rw e k) (rw e ih))

-- A context made from a valid configuration whose range ends below 65534 hands out on its n-th
-- call the port start + 2 * (n mod k), for the k ports of the range.
pub port_of_call_lem :
    (config : Config) (c : SipContext) (n : ℕ)
    → from_config config ≡ ok c
    → config.rtp_port_end < 65534
    → port_of_call n c ≡ config.rtp_port_start + 2 * (n % port_count config)
unfolding port_of_call get_next_udp_port
port_of_call_lem config c n h k = after-from_config config c n h k

-- Two numbers less than `m` apart have different remainders.
multiples : (m p q : ℕ) → m * p < m * q → m * q < m * p + m → ⊥
multiples m p q l u = elim (dec_lt p q) [
  | yes a ↦ let x : m * (p + 1) ≤ m * q = grind arith in omega arith
  | no a ↦ let x : m * q ≤ m * p = grind arith in omega arith
]

mod_repeats : (i j m : ℕ) → i < j → j < i + m → i % m ≡ j % m → ⊥
mod_repeats i j m l u e =
    multiples m (i / m) (j / m) (omega (arith, div-add-mod i m, div-add-mod j m))
      (omega (arith, div-add-mod i m, div-add-mod j m))

-- A context made from a valid configuration whose range ends below 65534 hands out different
-- ports to two of its calls that are fewer than k calls apart, for the k ports of the range.
pub port_of_call_distinct :
    (config : Config) (c : SipContext) (i j : ℕ)
    → from_config config ≡ ok c
    → config.rtp_port_end < 65534
    → i < j
    → j < i + port_count config
    → port_of_call i c ≢ port_of_call j c
port_of_call_distinct config c i j h k lt near e =
    mod_repeats i j (port_count config) lt near
      (omega (arith, port_of_call_lem config c i h k, port_of_call_lem config c j h k))

climb :
    (config : Config) (c : SipContext) (n : ℕ)
    → from_config config ≡ ok c
    → 65534 ≤ config.rtp_port_end
    → config.rtp_port_start % 2 ≡ 0
    → config.rtp_port_start + 2 * n < 65536
    → (after n c).next_udp_port ≡ config.rtp_port_start + 2 * n
unfolding after get_next_udp_port
climb config c zero h k even l = let f = from_config_ok config c h in f.1 ∙ omega arith
climb config c (suc n) h k even l =
    let f = from_config_ok config c h in
    let e = after-config n c ∙ f.0 in
    let g = ap (λ (x : Config). x.rtp_port_end) e in
    let ih = climb config c n h k even (omega arith) in ground arith

-- Where the range starts at an even port and ends at 65534 or beyond, the call after the last
-- even port returns port 0.
pub port_of_call_wraps :
    (config : Config) (c : SipContext)
    → from_config config ≡ ok c
    → 65534 ≤ config.rtp_port_end
    → config.rtp_port_start % 2 ≡ 0
    → config.rtp_port_start < 65536
    → port_of_call ((65536 - config.rtp_port_start) / 2) c ≡ 0
port_of_call_wraps config c h k even l =
    let n : ℕ = (65536 - config.rtp_port_start) / 2 - 1 in
    let ih = climb config c n h k even (omega arith) in
    let f = from_config_ok config c h in
    let e = after-config n c ∙ f.0 in
    let g = ap (λ (x : Config). x.rtp_port_end) e in
    let s : (65536 - config.rtp_port_start) / 2 ≡ suc n = omega arith in
    rw s (unfold port_of_call after get_next_udp_port in ground arith)
