-- ===== src/Lib.antt =====
-- ipp-usb lets an IPP-over-USB printer be used as a network printer: a daemon watches the USB bus,
-- keeps a pool of USB connections to each device, proxies HTTP requests to it, and announces it by
-- DNS-SD. This library models the parts of the daemon that decide, in Go files at the root of the
-- repository, as functions that can be run, and proves what they promise.
--
-- How the parts interact. The bus loop (Pnp) keeps lists of USB addresses and starts and stops
-- devices by their difference (UsbCommon). A device that starts (Device) is opened and identified
-- (UsbTransport), its quirks are selected from the quirks files (Quirks, by the patterns of Hwid
-- and Glob), its state file is read and a port is allocated (DevState), and its services are
-- collected (Dnssd). Each request is authorized (Auth) by the rules of the configuration (Conf),
-- prepared, and sent over one of the pool's connections, which is put back when the response has
-- been read (UsbTransport). Requests come in through the proxy (Http), the printer is asked for its
-- attributes to describe its service (Ipp), and devices and transfers are libusb's (UsbIo).
-- Configuration, state and quirks files are all read by IniFile.
--
-- Which file models what:
--   Glob        glob.go: GlobMatch and globMatchInternal (glob_match, loop)
--   Hwid        hwid.go: ParseHWIDPattern, Match
--   Paper       paper.go: Less, Classify
--   LineWriter  linewriter.go: Write, Close, WriteClose; the callback is the list of its calls
--   UsbCommon   usbcommon.go: UsbAddrList's Add, Find and Diff, IsIppOverUsb, Ident, UUID
--   Auth        auth.go: rules (Rules), AuthUIDinfoLookup (Lookup), AuthHTTPRequest (Request)
--   IniFile     inifile.go: getc to getcNl (Reader), token (Token), Next (Records), the Load methods
--               (Values)
--   Quirks      quirks.go: put, prioritizeAndSave and the Pull methods, parsing (Parsing), getters
--               (Getters), readFile (Files)
--   Conf        conf.go: confMatchName, confLoadInternal, ConfLoad
--   DevState    devstate.go: load, LoadDevState, LoadUsedPorts, HTTPListen
--   UsbTransport  usbtransport.go: usbConnGet, put and Shutdown as atomic steps (Pool), Read and Write
--               of usbConn (Conn), RoundTripWithSession up to the connection (Request) and from it on,
--               with usbResponseBodyWrapper and sanitizeIppResponse (RoundTrip), and NewUsbTransport
--               (Opening)
--   Pnp         pnp.go: the rounds of PnPStart; status.go: StatusSet, StatusDel
--   Dnssd       dnssd.go: TXT records with AddPDL, services, the names of instances
--   Device      device.go: NewDevice, Shutdown, Close
--   Uuid        uuid.go: UUIDNormalize
--   BridgeFind  bridge_find.go: BridgeFindDevice
--   Ipp         ipp.go: the reading of attributes, decode (Decoding), the queries and IppService
--               (Query)
--   Http        http.go: ServeHTTP, its headers, errors and redirections
--   UsbIo       usbio_libusb.go: UsbGetIppOverUsbDeviceDescs (Descriptor), Send and Recv (Transfer)
--   Base        what all of them share: Go strings as lists of bytes, with the functions of strings
--               and strconv that the program calls, Go's int, and Go's maps
--   Tests       runs on concrete inputs
-- The goroutines that share a transport are a relation of atomic steps on its state; the loop of
-- the bus is a relation of rounds. A structure that a method changes is an argument and a result
-- of its function. An error is a constructor of a result type, with the message as far as it
-- matters.
--
-- Bounds and fuel. Numbers are natural numbers, with the program's own range checks, and with
-- wrap-around written out where the code multiplies. Go's int is used where no number is negative,
-- or as a sum of both signs. Glob.loop runs on the length of the pattern plus one; LineWriter.loop
-- on the length of the text; the search of UsbCommon on the length of the list. The readers of
-- files run on a multiple of the length of the file, which suffices on a file whose last line ends
-- with a newline (IniFile.Progress); on other files `none` can mean that the program reads for
-- ever.
--
-- confMatchName runs on the length of the pattern plus one, which suffices for a pattern in ASCII
-- (Conf.Names); all patterns of the program are.
--
-- Read of a connection runs on the transfers that the device makes; `none` means that the device
-- has not answered yet. Drained bodies end by hypothesis, as io.Copy returns at the end or at an
-- error.
--
-- Parameters, as their code is not in the repository: time.ParseDuration, http.CanonicalHeaderKey,
-- the operating system's users, network addresses and sockets (Host and Users), whether a port can
-- be listened on, fmt.Sprintf of hexadecimal numbers, SHA-1, what libusb tells of devices and
-- transfers, what a device answers when it is opened, configured and asked for its texts,
-- strings.EqualFold and strings.ToLower beyond ASCII, the HTTP client, how a body is read and
-- drained, and the decoder and encoder of goipp. Not modelled, and arguments too: the answers of
-- EsclService and the DNS-SD publisher. `NewDevice` takes what IppService answers as an argument
-- as well; Ipp shows what that can be.
--
-- Not modelled: the calls of libusb that open, configure and reset a device (usbio_libusb.go), the
-- decoder of scanner attributes (escl.go), Avahi and the publishing goroutine (dnssd.go,
-- dnssd_avahi.go), the life of the HTTP server and the copy of bodies (http.go), loggers
-- (logger.go), program start (main.go and the files for each platform), the control socket
-- (ctrlsock.go), the text of the status (status.go) and the bridge (bridge.go): they are input and
-- output for the most part. Of usbtransport.go, the dump of USB parameters and the contexts of
-- timeouts are left out, and of all modelled files String methods, logging, locks, directory walks
-- and the writing of the state file.
mod Base
pub mod Glob
pub mod Paper
pub mod Hwid
pub mod LineWriter
pub mod UsbCommon
pub mod Auth
pub mod IniFile
pub mod Quirks
pub mod Conf
pub mod DevState
pub mod UsbTransport
pub mod Pnp
pub mod Dnssd
pub mod Device
pub mod Uuid
pub mod BridgeFind
pub mod Ipp
pub mod Http
pub mod UsbIo
mod Tests
