-- ===== src/Discovery/Lookup.antt =====
-- An account from registerAccount to the lookup of it (src/net/discoveryclient.cpp).
use naleystogramm_core.Prelude.{ℕ, ◌^◌, ◌%◌, ◌<◌, ◌≡◌, ◌≢◌, refl, ap, false, some, [], arith}
use naleystogramm_core.Prelude.Text.{Text, codes, text_eq, is_empty, not_empty}
use naleystogramm_core.Prelude.Int.{pos}
use naleystogramm_core.Session.Values.{object, find_field, to_uint16, Reader, IsReader}
use naleystogramm_core.Discovery.{
  LookupResult, lookup_success, register_fields, lookup_found, on_lookup,
}

found :
    (host username : Text) (r : LookupResult)
    → is_empty r.uuid ≡ false
    → is_empty r.ip ≡ false
    → 0 < r.port
    → lookup_found host username r ≡ lookup_success r
unfolding lookup_found
found host username r u a p = ground arith

-- Where the server answers a lookup with the object that registerAccount sent it, the uuid and the address
-- of which are not empty and the port of which is from 1 to 65535, the lookup gives the listeners the user's
-- name, uuid, key, address and port as they were registered, whatever the optional fields.
pub on_lookup-register_fields :
    (r : Reader) (host username uuid pubkey ip email invite_code client_version body : Text)
    (port : ℕ)
    → IsReader r
    → uuid ≢ []
    → ip ≢ []
    → 0 < port
    → port < 2 ^ 16
    → on_lookup r host username (
        some (record {
          code = 200;
          body = body;
          json = some (
              object
                (register_fields username uuid pubkey ip port email invite_code client_version));
        }))
      ≡ some (
          lookup_success
            (record { username = username; uuid = uuid; pubkey = pubkey; ip = ip; port = port }))
unfolding on_lookup register_fields find_field text_eq to_uint16
on_lookup-register_fields r host username uuid pubkey ip email invite_code client_version body port
      reads u a p q =
    let f = register_fields username uuid pubkey ip port email invite_code client_version in
    rw
      (
        reads.of_text (codes "username") username username f refl,
        reads.of_text (codes "uuid") [] uuid f refl,
        reads.of_text (codes "pubkey") [] pubkey f refl,
        reads.of_text (codes "ip") [] ip f refl,
        reads.of_int (codes "port") (pos 0) (pos port) f (omega arith) refl,
      )
      (let kept : port % 2 ^ 16 ≡ port = omega arith in
        rw kept (
          ap some (
            found host username
              (record { username = username; uuid = uuid; pubkey = pubkey; ip = ip; port = port })
              (not_empty uuid u) (not_empty ip a) p)))
