-- ===== src/Groups/Membership.antt =====
-- joinGroup, leaveGroup and loadSavedGroups of src/net/groupmanager.cpp.
use naleystogramm_core.Prelude.{
  ℕ, ◌!=◌, Bool, false, ◌||◌, Option, none, some, List, [], ◌∷◌, ◌++◌, length, if◌then◌else◌,
}
use naleystogramm_core.Prelude.Text.{Text, codes, text_eq, is_empty}
use naleystogramm_core.Prelude.Map.{get, put, erase}
use naleystogramm_core.Groups.{
  Group, Conn, joined, left, join_error, leave_request, ws_disconnected, Groups, Env, emit,
  connect_group,
}

-- leaveGroup waits until the thread has ended, which tells its listeners if it was connected.
unfoldable pub leave_of : (id : Text) → Option Conn → Groups → Groups
leave_of id none g = g
leave_of id (some c) g =
    let stopped = if c.connected then emit (ws_disconnected id) g else g in
    emit (left id) (record (emit (leave_request c.info.server_url c.info.token) stopped) {
      conns = erase id g.conns;
      saved = erase id g.saved;
    })

unfoldable pub leave_group : (id : Text) → Groups → Groups
leave_group id g = leave_of id (get id g.conns) g

-- The server's answers: none with a status of 2xx, one that is no JSON, or what it grants.
pub data JoinReply : Type 0 where
  refused : (code : Text) → JoinReply
  garbled : JoinReply
  granted : (token key_enc role : Text) → JoinReply

abbrev pub name_of : Option (Text × Bool) → (default : Text) → Text
name_of none d = d
name_of (some (n, b)) d = n

abbrev pub is_broadcast : Option (Text × Bool) → Bool
is_broadcast none = false
is_broadcast (some (n, b)) = b

unfoldable pub granted_of :
    (url username : Text)
    → (keys : Text × Text) → (token role group_key : Text) → (info : Option (Text × Bool))
    → (now : ℕ) → Groups
    → Groups
granted_of url username (priv, public) token role group_key info now g =
    let group : Group = record {
      id = url;
      name = name_of info url;
      is_channel = is_broadcast info;
      server_url = url;
      username = username;
      token = token;
      group_key = group_key;
      local_priv_key = priv;
      local_pub_key = public;
      is_admin = text_eq role (codes "owner") || text_eq role (codes "admin");
      joined_at = now;
    } in
    if length group_key != 32
    then emit (join_error url (codes "key decryption failed")) g
    else connect_group group (emit (joined group) (record g { saved = put url group g.saved }))

unfoldable pub join_with :
    Env
    → (url username : Text) → Option (Text × Text)
    → JoinReply
    → (info : Option (Text × Bool)) → (now : ℕ) → Groups
    → Groups
join_with env url username none reply info now g = emit (join_error url (codes "keygen failed")) g
join_with env url username (some keys) (refused code) info now g =
    emit (join_error url (codes "join request failed (HTTP " ++ code ++ codes ")")) g
join_with env url username (some keys) garbled info now g =
    emit (join_error url (codes "invalid join response")) g
join_with env url username (some keys) (granted token key_enc role) info now g =
    granted_of url username keys token role (env.ecies_decrypt keys.0 (env.from_base64 key_enc))
      info now g

unfoldable pub join_group :
    Env
    → (url username : Text) → JoinReply
    → (info : Option (Text × Bool)) → (now : ℕ) → Groups
    → Groups
join_group env url username reply info now g =
    join_with env url username env.generate_keys reply info now g

unfoldable pub connect_all : List Group → Groups → Groups
connect_all [] g = g
connect_all (info ∷ gs) g =
    let g' = connect_group info g in
    connect_all gs (if is_empty info.token || length info.group_key != 32 then g else g')
