-- ===== src/Identity/RoundTrip.antt =====
-- Connection strings of src/identity/identity.cpp: parsing what was printed, what a parse yields, and
-- how the two address formats exclude one another.
use naleystogramm_core.Prelude.{
  ℕ, suc, ◌+◌, ◌≤◌, ◌<◌, ◌≡◌, ◌≢◌, ◌⊎◌, refl, true, false, none, some, [], ◌∷◌, ◌++◌, arith,
}
use naleystogramm_core.Prelude.Text.{Text, all_bytes}
use naleystogramm_core.Prelude.Scan.{lacks, split_last-lacks, split_first-append, split_last-append}
use naleystogramm_core.Prelude.Decimal.{
  to_string, stoi-to_string, to_string-ne-nil, all_digits-to_string, all_digits-lacks,
}
use naleystogramm_core.Identity.{
  PeerInfo, default_discovery_port, is_hyphen_pos, hyphen_at, hex_from, is_valid_uuid, is_name_char,
  connection_string, parse_ip_port, parse_peer, parse_connection_string, parse_host,
  parse_discovery_address,
}

-- Bytes that are hexadecimal but at the hyphens' places are no '@'.
lacks-hex_from :
    (i : ℕ) (s : Text)
    → hex_from i s ≡ true
    → ((j : ℕ) → is_hyphen_pos (i + j) ≡ true → hyphen_at j s ≡ true)
    → lacks b'@' s ≡ true
unfolding hex_from hyphen_at
lacks-hex_from i [] h k = refl
lacks-hex_from i (c ∷ s) h k =
    let tail : lacks b'@' s ≡ true =
      lacks-hex_from (i + 1) s (ground arith) (λ j e. k (suc j) (ground arith)) in
    ground (arith, k 0, tail)

hyphen_places : (j : ℕ) → is_hyphen_pos (0 + j) ≡ true → (j ≡ 8) ⊎ (j ≡ 13) ⊎ (j ≡ 18) ⊎ (j ≡ 23)
hyphen_places j h = ground arith

hyphens_known :
    (s : Text) (j : ℕ)
    → is_valid_uuid s ≡ true
    → is_hyphen_pos (0 + j) ≡ true
    → hyphen_at j s ≡ true
unfolding is_valid_uuid
hyphens_known s j h e = ground (arith, hyphen_places j e)

lacks-uuid : (s : Text) → is_valid_uuid s ≡ true → lacks b'@' s ≡ true
lacks-uuid s h =
    lacks-hex_from 0 s (unfold is_valid_uuid in ground arith) (λ j e. hyphens_known s j h e)

parse_split :
    (uuid ip : Text) (port : ℕ)
    → is_valid_uuid uuid ≡ true
    → ip ≢ []
    → 0 < port
    → port ≤ 65535
    → parse_ip_port uuid (some (ip, to_string port))
      ≡ some (record { name = []; uuid = uuid; ip = ip; port = port })
unfolding parse_ip_port
parse_split uuid ip port v n p q =
    ground (arith, stoi-to_string port (omega arith), to_string-ne-nil port)

-- Parsing the connection string of a valid UUID, an address that is not empty and a port in
-- 1 … 65535 gives these back, with no name, whatever bytes the address holds.
pub parse-connection_string :
    (uuid ip : Text) (port : ℕ)
    → is_valid_uuid uuid ≡ true
    → ip ≢ []
    → 0 < port
    → port ≤ 65535
    → parse_connection_string (connection_string uuid ip port)
      ≡ some (record { name = []; uuid = uuid; ip = ip; port = port })
unfolding parse_connection_string connection_string
parse-connection_string uuid ip port v n p q =
    rw
      (
        split_first-append b'@' uuid (ip ++ b':' ∷ to_string port) (lacks-uuid uuid v),
        parse_peer,
        v,
        split_last-append b':' ip (to_string port)
            (all_digits-lacks b':' (to_string port) refl (all_digits-to_string port)),
      )
      (parse_split uuid ip port v n p q)

-- What parseConnectionString yields can be dialled: its UUID is valid, its address is not empty and
-- its port is in 1 … 65535. The name is left empty.
pub parse_connection_string_sound :
    (s : Text) (p : PeerInfo)
    → parse_connection_string s ≡ some p
    → (is_valid_uuid p.uuid ≡ true) × (p.ip ≢ []) × (0 < p.port) × (p.port ≤ 65535) × (p.name ≡ [])
unfolding parse_connection_string
parse_connection_string_sound s p h = ground arith

-- No string is both a connection string and a discovery address.
pub formats_exclude :
    (s : Text) → (parse_connection_string s ≡ none) ⊎ (parse_discovery_address s ≡ none)
unfolding parse_connection_string parse_discovery_address
formats_exclude s = ground arith

lacks-name : (s : Text) → all_bytes is_name_char s ≡ true → lacks b'@' s ≡ true
lacks-name [] h = refl
lacks-name (c ∷ s) h = ground (arith, lacks-name s)

parse_host_port :
    (name host : Text) (port : ℕ)
    → host ≢ []
    → 0 < port
    → port ≤ 65535
    → parse_host name (host ++ b':' ∷ to_string port) (some (host, to_string port))
      ≡ some (record { username = name; host = host; port = port })
unfolding parse_host
parse_host_port name host port n p q =
    ground (arith, stoi-to_string port (omega arith), to_string-ne-nil port)

append-ne-nil : (a : Text) (c : ℕ) (b : Text) → a ++ c ∷ b ≢ []
append-ne-nil [] c b h = cc
append-ne-nil (d ∷ a) c b h = cc

-- An address username@host:port is parsed into its parts, and username@host, where the host holds no
-- colon, gets the default port; the username is one that a discovery server admits and no UUID.
pub parse_discovery_address_lem :
    (name host : Text) (port : ℕ)
    → is_valid_uuid name ≡ false
    → name ≢ []
    → all_bytes is_name_char name ≡ true
    → host ≢ []
    → 0 < port
    → port ≤ 65535
    → (parse_discovery_address (name ++ b'@' ∷ (host ++ b':' ∷ to_string port))
        ≡ some (record { username = name; host = host; port = port }))
      × (lacks b':' host ≡ true
          → parse_discovery_address (name ++ b'@' ∷ host)
            ≡ some (record { username = name; host = host; port = default_discovery_port }))
unfolding parse_discovery_address
parse_discovery_address_lem name host port u n c h p q = (
  rw (split_first-append b'@' name (host ++ b':' ∷ to_string port) (lacks-name name c)) (
      ground (
        arith,
        append-ne-nil host b':' (to_string port),
        split_last-append b':' host (to_string port)
            (all_digits-lacks b':' (to_string port) refl (all_digits-to_string port)),
        parse_host_port name host port h p q,
      )),
  λ l.
      rw (split_first-append b'@' name host (lacks-name name c))
        (ground (arith, split_last-lacks b':' host)),
)
