-- ===== src/UsbTransport.antt =====
-- usbtransport.go: HTTP over the USB connections of one device.
-- Children: UsbTransport/Pool (which request has which connection, and Shutdown), UsbTransport/Conn
-- (reading and writing on one connection), UsbTransport/Opening (the start of a transport),
-- UsbTransport/Request (what a request becomes) and UsbTransport/RoundTrip (its response).
pub mod Pool
pub mod Conn
pub mod Opening
pub mod Request
pub mod RoundTrip
