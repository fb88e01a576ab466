-- ===== src/Tests.antt =====
-- Runs of the modelled functions on concrete inputs. Child modules: Tests/Files (the readers of
-- files), Tests/Devices (devices and their quirks), Tests/Access (clients and their rights),
-- Tests/Transport (connections and requests), Tests/Lifecycle (responses), Tests/Plugging (a device
-- that is plugged in) and Tests/Services (requests to the proxy, and a printer that is advertised).
mod Files
mod Devices
mod Access
mod Transport
mod Lifecycle
mod Plugging
mod Services
