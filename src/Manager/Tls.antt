-- ===== src/Manager/Tls.antt =====
-- The TLS options that the two servers of the process get.
use starknet_operators.Prelude.{
  arith, ◌≡◌, Bool, true, false, Option, none, some, List, [], ◌∷◌, ◌++◌,
}
use starknet_operators.Manager.Slices.{Slice, contents}
use starknet_operators.Manager.Host.{Host, TlsOption, disable_http2, get_certificate}
use starknet_operators.Manager.Flags.{Flags}
use starknet_operators.Manager.Process.{Proc, next}
use starknet_operators.Manager.Main.{tls_slices}

abbrev pub http2_options : {W : Type 0} → Bool → List (TlsOption W)
http2_options true = []
http2_options false = disable_http2 ∷ []

abbrev pub cert_options : {W : Type 0} → Option W → List (TlsOption W)
cert_options none = []
cert_options (some w) = get_certificate w ∷ []

module _ {h : Host} (flags : Flags) (p q : Proc h) (wa wb : Option h.Watcher) (sa sb : Slice)
    (empty : p.memory ≡ [])
    (made : tls_slices {h = h} flags p ≡ (next ((wa, sa), (wb, sb)), q)) where
  -- If there are no TLS options yet, the runtime gives a slice that grows from nothing to one
  -- element the capacity of one, and the options of both servers are made, then each server has
  -- exactly the option that switches HTTP/2 off, unless HTTP/2 is enabled, and after it the
  -- certificate of its own watcher, if it has one: though both slices start from one slice,
  -- neither server gets the certificate of the other.
  pub tls_slices-separate :
      h.grow 0 1 ≡ 1
      → (contents q.memory sa ≡ http2_options flags.enable_http2 ++ cert_options wa)
        × (contents q.memory sb ≡ http2_options flags.enable_http2 ++ cert_options wb)
  unfolding tls_slices contents
  tls_slices-separate exact = ground arith
