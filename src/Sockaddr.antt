-- ===== src/Sockaddr.antt =====
-- Socket addresses as the sources read them. A `struct sockaddr` is its bytes: the first is `sa_len`
-- and the second `sa_family`, and those of a `struct sockaddr_in` from 4 to 7 are its address in
-- network order.
use freebsd_radix_userland.Common.{
  ℕ, ◌-◌, ◌+◌, ◌*◌, ◌&&◌, Option, none, some, List, ◌++◌, length, get_or, take, replicate, leb,
  if◌then◌else◌,
}

abbrev pub sa_len : List ℕ → ℕ
sa_len x = get_or x 0 0

abbrev pub sa_family : List ℕ → ℕ
sa_family x = get_or x 1 0

abbrev pub af_inet : ℕ
af_inet = 2

-- `ntohl(m->sin_addr.s_addr)`
abbrev pub sin_addr : List ℕ → ℕ
sin_addr x = get_or x 4 0 * 16777216 + get_or x 5 0 * 65536 + get_or x 6 0 * 256 + get_or x 7 0

-- The size of a `struct sockaddr_storage`.
abbrev pub storage_size : ℕ
storage_size = 128

-- `memcpy(&entry->dst, sa_dst, sa_dst->sa_len)` into zeroed storage: `none` where it reads or
-- writes out of bounds.
unfoldable pub store : List ℕ → Option (List ℕ)
store x =
    if leb (sa_len x) storage_size && leb (sa_len x) (length x)
    then some (take (sa_len x) x ++ replicate (storage_size - sa_len x) 0)
    else none
