-- ===== src/UsbTransport/Conn/Delay.antt =====
-- The pause between two requests on one connection.
use ipp_usb.Base.{ℕ, ◌+◌, ◌≡◌, ◌≤◌, ◌⊎◌, arith}
use ipp_usb.UsbTransport.Conn.{UsbConn, reset_conn, delay_before}

-- A request that is ready at the time `ready`, on a connection that was put back at the time `now`,
-- is sent no earlier than the quirk `request-delay` says, and without a pause if that has passed.
pub delay_before-reset_conn :
    (conn : UsbConn) (now ready : ℕ)
    → (now + conn.delay_interval ≤ ready + delay_before (reset_conn conn now) ready)
      × ((delay_before (reset_conn conn now) ready ≡ 0)
          ⊎ (ready + delay_before (reset_conn conn now) ready ≡ now + conn.delay_interval))
unfolding reset_conn delay_before
delay_before-reset_conn conn now ready = ground arith
