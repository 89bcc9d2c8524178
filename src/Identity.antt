-- ===== src/Identity.antt =====
-- src/identity/identity.cpp: UUIDs, connection strings and discovery addresses. A failed parse
-- (std::nullopt, or an exception of stoi) is `none`. isxdigit and isalnum are those of the C locale.
pub mod RoundTrip
mod Examples
use naleystogramm_core.Prelude.{
  ℕ, ◌+◌, Bool, true, false, not, ◌&&◌, ◌||◌, Option, none, some, List, [], ◌∷◌, ◌++◌, ◌==◌, ltb,
  leb, length, get_elem?, if◌then◌else◌,
}
use naleystogramm_core.Prelude.Text.{Text, is_empty, all_bytes}
use naleystogramm_core.Prelude.Int.{ℤ, pos, negsuc}
use naleystogramm_core.Prelude.Scan.{split_first, split_last, trim}
use naleystogramm_core.Prelude.Decimal.{to_string, stoi, is_digit}

pub record PeerInfo : Type 0 where
  pub name : Text
  pub uuid : Text
  pub ip : Text
  pub port : ℕ

pub record DiscoveryAddress : Type 0 where
  pub username : Text
  pub host : Text
  pub port : ℕ

abbrev pub default_discovery_port : ℕ
default_discovery_port = 47822

abbrev pub is_xdigit : ℕ → Bool
is_xdigit c = is_digit c || (leb b'a' c && leb c b'f') || (leb b'A' c && leb c b'F')

abbrev is_alnum : ℕ → Bool
is_alnum c = is_digit c || (leb b'a' c && leb c b'z') || (leb b'A' c && leb c b'Z')

abbrev is_hyphen_pos : ℕ → Bool
is_hyphen_pos i = i == 8 || i == 13 || i == 18 || i == 23

unfoldable pub hyphen_at : ℕ → Text → Bool
hyphen_at i s = elim (get_elem? s i) [ none ↦ false | some c ↦ c == b'-' ]

-- The loop over the bytes from index i.
unfoldable pub hex_from : ℕ → Text → Bool
hex_from i [] = true
hex_from i (c ∷ s) = (is_hyphen_pos i || is_xdigit c) && hex_from (i + 1) s

unfoldable pub is_valid_uuid : Text → Bool
unfolding hyphen_at hex_from
is_valid_uuid s =
    length s == 36
    && (hyphen_at 8 s && hyphen_at 13 s && hyphen_at 18 s && hyphen_at 23 s)
    && hex_from 0 s

unfoldable pub connection_string : (uuid ip : Text) → (port : ℕ) → Text
connection_string uuid ip port = uuid ++ b'@' ∷ (ip ++ b':' ∷ to_string port)

-- A port in 1 … 65535, of what stoi gave.
port_of : Option ℤ → Option ℕ
port_of none = none
port_of (some (negsuc n)) = none
port_of (some (pos n)) = if n == 0 || ltb 65535 n then none else some n

-- The address behind the UUID, split at its last colon.
parse_ip_port : (uuid : Text) → Option (Text × Text) → Option PeerInfo
unfolding port_of
parse_ip_port uuid none = none
parse_ip_port uuid (some (ip, digits)) =
    if is_empty ip || is_empty digits then none else elim (port_of (stoi digits)) [
      | none ↦ none
      | some p ↦ some (record { name = []; uuid = uuid; ip = ip; port = p })
    ]

parse_peer : Option (Text × Text) → Option PeerInfo
unfolding parse_ip_port
parse_peer none = none
parse_peer (some (uuid, ip_port)) =
    if not (is_valid_uuid uuid) then none else parse_ip_port uuid (split_last b':' ip_port)

unfoldable pub parse_connection_string : Text → Option PeerInfo
unfolding parse_peer
parse_connection_string s = parse_peer (split_first b'@' s)

abbrev is_name_char : ℕ → Bool
is_name_char c = is_alnum c || c == b'_' || c == b'.' || c == b'-'

parse_host : (username host_port : Text) → Option (Text × Text) → Option DiscoveryAddress
unfolding port_of
parse_host name host_port none =
    some (record { username = name; host = host_port; port = default_discovery_port })
parse_host name host_port (some (host, digits)) =
    if is_empty host || is_empty digits then none else elim (port_of (stoi digits)) [
      | none ↦ none
      | some p ↦ some (record { username = name; host = host; port = p })
    ]

parse_user : Option (Text × Text) → Option DiscoveryAddress
unfolding parse_host
parse_user none = none
parse_user (some (name, host_port)) =
    if is_valid_uuid name
    then none
    else if is_empty name || not (all_bytes is_name_char name) || is_empty host_port
    then none
    else parse_host name host_port (split_last b':' host_port)

unfoldable pub parse_discovery_address : Text → Option DiscoveryAddress
unfolding parse_user
parse_discovery_address s = parse_user (split_first b'@' s)

-- setDisplayName, up to handing the name to the session settings.
unfoldable pub display_name : Text → Text
display_name name = trim name
