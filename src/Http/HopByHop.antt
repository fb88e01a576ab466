-- ===== src/Http/HopByHop.antt =====
-- The headers that are not passed on.
use ipp_usb.Base.{
  ◌≡◌, refl, ◌||◌, if◌then◌else◌, none, List, [], ◌∷◌, Bytes, codes, is_among, split, arith,
}
use ipp_usb.Base.Dict.{lookup, delete, lookup-delete}
use ipp_usb.UsbTransport.Request.{Header}
use ipp_usb.UsbTransport.RoundTrip.{first_value}
use ipp_usb.Http.{hop_by_hop, delete_all, listed, remove_hop_by_hop}

lookup-delete_all :
    (name : Bytes) (names : List Bytes) (hdr : Header)
    → lookup name (delete_all names hdr) ≡ (if is_among name names then none else lookup name hdr)
unfolding delete_all
lookup-delete_all name [] hdr = refl
lookup-delete_all name (n ∷ names) hdr =
    ground (arith, lookup-delete_all name names (delete n hdr), lookup-delete n name hdr)

-- A header is removed exactly if it is one of the eight names that are always removed, or if the
-- first value of "Connection" lists it; all others keep their values.
pub lookup-remove_hop_by_hop :
    (canonical : Bytes → Bytes) (name : Bytes) (hdr : Header)
    → lookup name (remove_hop_by_hop canonical hdr) ≡ (
        if is_among name hop_by_hop
          || is_among name
              (listed canonical (split (first_value (lookup (codes "Connection") hdr)) b','))
        then none
        else lookup name hdr)
unfolding remove_hop_by_hop
lookup-remove_hop_by_hop canonical name hdr = ground (
  arith,
  lookup-delete_all name hop_by_hop (
      delete_all (listed canonical (split (first_value (lookup (codes "Connection") hdr)) b','))
        hdr),
  lookup-delete_all name
      (listed canonical (split (first_value (lookup (codes "Connection") hdr)) b',')) hdr,
)
