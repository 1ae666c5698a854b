-- ===== src/Manager/Stopping.antt =====
-- What stopping the session of src/manager.rs does to its task.
use simple_sip_rs.Prelude.{◌≡◌, refl, ap, false, some}
use simple_sip_rs.Channels.{Sender, Receiver}
use simple_sip_rs.Call.Runtime.{Runtime}
use simple_sip_rs.Call.Incoming.{IncomingCall}
use simple_sip_rs.Call.Ongoing.{Tasks}
use simple_sip_rs.Manager.{
  InnerSipManager, inner_is_running, inner_stop, inner_drop, SipManager, stop, is_running,
}

module _ (t : Runtime) (calls : Sender (IncomingCall t)) (rx : Receiver (IncomingCall t))
    (k : Tasks) where
  -- Stopping the manager while the task of its socket runs drops the session as it is, with a
  -- handle that was not aborted; and the manager says that it is not running.
  pub stop_keeps_task :
      (m : SipManager t calls rx k) (i : InnerSipManager t k)
      → m.inner ≡ some i
      → k.is_finished i.handle ≡ false
      → let (m', dropped) = stop t calls rx k m in
        (dropped ≡ some i) × (is_running t calls rx k m' ≡ false)
  unfolding stop is_running inner_drop inner_stop inner_is_running
  stop_keeps_task m i e running =
      let same : inner_drop t k i ≡ i = rw running in (rw e (ap some same), refl)
