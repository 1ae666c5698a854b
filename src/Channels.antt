-- ===== src/Channels.antt =====
-- The channels of `tokio::sync::mpsc`, as an interface: the repository only calls them. A channel is
-- the pair of a sending half and a receiving half, each with a state.
use simple_sip_rs.Prelude.{◌≡◌, Bool, true, false, List, [], ◌∷◌, ◌++◌, Option, none, some}

-- `send` returns the new state and whether it succeeded; a bounded channel that is full is waited
-- for. `sent` is all that was accepted, in order.
pub record Sender (A : Type 0) : Type 1 where
  pub State : Type 0
  pub send : State → A → State × Bool
  pub is_closed : State → Bool
  pub sent : State → List A

pub record IsSender {A : Type 0} (c : Sender A) : Type 0 where
  pub send_ok :
      (s : c.State) (a : A) → (c.send s a).1 ≡ true → c.sent (c.send s a).0 ≡ c.sent s ++ a ∷ []
  pub send_failed :
      (s : c.State) (a : A) → (c.send s a).1 ≡ false → c.sent (c.send s a).0 ≡ c.sent s

pub data TryRecv (A : Type 0) : Type 0 where
  received : A → TryRecv A
  empty : TryRecv A
  disconnected : TryRecv A

-- `queued` is what is in the channel now, and `arrivals` all that the receiver gets from now on until
-- the channel is closed. `recv` waits for the next of these; `none` is the closed channel.
pub record Receiver (A : Type 0) : Type 1 where
  pub State : Type 0
  pub is_closed : State → Bool
  pub recv : State → State × Option A
  pub try_recv : State → State × TryRecv A
  pub arrivals : State → List A
  pub queued : State → List A

pub record IsReceiver {A : Type 0} (c : Receiver A) : Type 0 where
  pub recv_next :
      (s : c.State) (a : A) (as' : List A)
      → c.arrivals s ≡ a ∷ as'
      → ((c.recv s).1 ≡ some a) × (c.arrivals (c.recv s).0 ≡ as')
  pub recv_end : (s : c.State) → c.arrivals s ≡ [] → (c.recv s).1 ≡ none
  pub recv_closed : (s : c.State) → c.arrivals s ≡ [] → c.arrivals (c.recv s).0 ≡ []
  pub try_recv_next :
      (s : c.State) (a : A) (as' : List A)
      → c.queued s ≡ a ∷ as'
      → ((c.try_recv s).1 ≡ received a) × (c.queued (c.try_recv s).0 ≡ as')
  pub try_recv_end : (s : c.State) (a : A) → c.queued s ≡ [] → (c.try_recv s).1 ≡ received a → ⊥
