-- ===== src/NetcodeAddress.antt =====
-- The address of a client as netcode.io gives it (src/bindings.rs). The library's union of the two
-- kinds of bytes is read as either.
use yojimbo_rs.Prelude.{
  ℕ, ◌≡◌, ◌≢◌, Bool, true, false, Option, none, some, List, ◌==◌, arith, if◌then◌else◌,
}

-- `netcode_address_t`; the constants of its `type_` are the library's.
pub record Raw : Type 0 where
  pub kind : ℕ
  pub data_ipv4 : List ℕ
  pub data_ipv6 : List ℕ
  pub port : ℕ

module _ (netcode_address_ipv4 netcode_address_ipv6 : ℕ) where
  unfoldable pub is_ipv4 : Raw → Bool
  is_ipv4 raw = raw.kind == netcode_address_ipv4

  unfoldable pub is_ipv6 : Raw → Bool
  is_ipv6 raw = raw.kind == netcode_address_ipv6

  unfoldable pub ipv4 : Raw → Option (List ℕ)
  unfolding is_ipv4
  ipv4 raw = if is_ipv4 raw then some raw.data_ipv4 else none

  -- The test is that of IPv4, as in the code.
  unfoldable pub ipv6 : Raw → Option (List ℕ)
  unfolding is_ipv4
  ipv6 raw = if is_ipv4 raw then some raw.data_ipv6 else none

  -- An address that `is_ipv6` says is IPv6 has no bytes by `ipv6`, nor by `ipv4`; an IPv4 address
  -- has bytes by both. The library's two constants have to differ.
  pub ipv6-misses :
      netcode_address_ipv4 ≢ netcode_address_ipv6
      → (raw : Raw)
      → (is_ipv6 raw ≡ true → (ipv6 raw ≡ none) × (ipv4 raw ≡ none))
        × (is_ipv4 raw ≡ true → (ipv6 raw ≡ some raw.data_ipv6) × (ipv4 raw ≡ some raw.data_ipv4))
  unfolding is_ipv6 is_ipv4 ipv6 ipv4
  ipv6-misses differ raw = (
    λ six.
        let four : (raw.kind == netcode_address_ipv4) ≡ false = ground (arith, six, differ) in
        (rw four, rw four),
    λ four. (rw four, rw four),
  )
