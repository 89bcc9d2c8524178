-- ===== src/Identity/Examples.antt =====
-- Addresses (src/identity/identity.cpp) on concrete input.
use naleystogramm_core.Prelude.{◌≡◌, refl, some, [], ◌++◌, arith}
use naleystogramm_core.Prelude.Text.{Text, codes}
use naleystogramm_core.Prelude.Decimal.{stoi}
use naleystogramm_core.Prelude.Scan.{split_first, split_last}
use naleystogramm_core.Identity.{
  PeerInfo, is_valid_uuid, connection_string, parse_connection_string,
}
use naleystogramm_core.Identity.RoundTrip.{parse-connection_string}

abbrev own : Text
own = codes "01234567-89ab-4def-8123-456789ABCDEF"

abbrev address : PeerInfo
address = record { name = []; uuid = own; ip = codes "fe80::1"; port = 47821 }

parse-connection_string_example :
    parse_connection_string (connection_string own (codes "fe80::1") 47821) ≡ some address
unfolding is_valid_uuid
parse-connection_string_example =
    parse-connection_string own (codes "fe80::1") 47821 refl (cc) (omega arith) (omega arith)

-- stoi reads a port up to its first other byte.
lenient :
    parse_connection_string (own ++ codes "@10.0.0.1: +80abc")
    ≡ some (record { name = []; uuid = own; ip = codes "10.0.0.1"; port = 80 })
unfolding parse_connection_string is_valid_uuid split_first split_last stoi
lenient = refl
