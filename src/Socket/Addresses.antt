-- ===== src/Socket/Addresses.antt =====
-- `is_my_ip` of src/libs/socket/socket.c. The IPv4 addresses of the interfaces are a parameter.
use geo_ns_core.Common.{ℕ, Bool, false, ◌||◌, List, [], ◌∷◌}
use geo_ns_core.Text.{Text, codes, str_eq, strn_eq}

abbrev pub max_ipv6_length : ℕ
max_ipv6_length = 39

-- The loop over the interfaces.
unfoldable pub is_interface : List Text → Text → Bool
unfolding str_eq
is_interface [] ip = false
is_interface (address ∷ addresses) ip = str_eq ip address || is_interface addresses ip

unfoldable pub is_my_ip : List Text → Text → Bool
unfolding is_interface strn_eq
is_my_ip addresses ip = strn_eq max_ipv6_length ip (codes "0.0.0.0") || is_interface addresses ip
