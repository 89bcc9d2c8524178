-- ===== src/Storage/Stages.antt =====
-- The stages of migrate (src/storage/storage.cpp), each keeping the columns that are there.
use naleystogramm_core.Prelude.{
  ◌≡◌, ◌∙◌, ◌++◌, Bool, true, false, ◌&&◌, List, [], ◌∷◌, arith, Bool-cases, inl, inr,
}
use naleystogramm_core.Prelude.Text.{Text, codes, text_eq, text_eq_iff}
use naleystogramm_core.Prelude.Map.{get}
use naleystogramm_core.Storage.Sql.{All, contains}
use naleystogramm_core.Storage.Schema.{
  Schema, has_column, create_table, add_cols, contact_columns, message_columns, blocked_columns,
  added_to_contacts, added_to_messages, group_columns, group_message_columns, account_columns,
  migrate,
}
use naleystogramm_core.Storage.Upgrade.{
  HasAll, has_column-create_table, has_column-add_cols, get-create_table, get-add_cols,
}

unfoldable pub all_in : List Text → List Text → Bool
all_in [] ks = true
all_in (c ∷ cs) ks = contains c ks && all_in cs ks

pick : (P : Text → Type 0) (c : Text) (ks : List Text) → All P ks → contains c ks ≡ true → P c
unfolding contains
pick P c [] h e = cc
pick P c (k ∷ ks) h e = elim (Bool-cases (text_eq k c)) [
  | inl same ↦ rw ((text_eq_iff k c).0 same) at (h.0)
  | inr other ↦ pick P c ks h.1 (ground arith)
]

pub subset : (P : Text → Type 0) (cs ks : List Text) → all_in cs ks ≡ true → All P ks → All P cs
unfolding all_in
subset P [] ks e h = tt
subset P (c ∷ cs) ks e h = (pick P c ks h (ground arith), subset P cs ks (ground arith) h)

pub All-both : (P : Text → Type 0) (cs ks : List Text) → All P cs → All P ks → All P (cs ++ ks)
All-both P [] ks h k = k
All-both P (c ∷ cs) ks h k = (h.0, All-both P cs ks h.1 k)

-- No column is lost.
abbrev pub Keeps : Schema → Schema → Type 0
Keeps s s' = (t c : Text) → has_column s t c ≡ true → has_column s' t c ≡ true

pub Keeps-HasAll :
    (s s' : Schema) → Keeps s s' → (t : Text) (cs : List Text) → HasAll s t cs → HasAll s' t cs
Keeps-HasAll s s' k t [] h = tt
Keeps-HasAll s s' k t (c ∷ cs) h = (k t c h.0, Keeps-HasAll s s' k t cs h.1)

pub created : (t : Text) (cols : List Text) (s : Schema) → Keeps s (create_table t cols s)
created t cols s u c h = has_column-create_table t u c cols s h

pub extended : (t : Text) (cols : List Text) (s : Schema) → Keeps s (add_cols t cols s)
extended t cols s u c h = has_column-add_cols t u c cols s h

-- The stages of migrate.
abbrev pub made_contacts : Schema → Schema
made_contacts s = create_table (codes "contacts") contact_columns s

abbrev pub made_messages : Schema → Schema
made_messages s = create_table (codes "messages") message_columns (made_contacts s)

abbrev pub made_blocked : Schema → Schema
made_blocked s = create_table (codes "blocked_list") blocked_columns (made_messages s)

abbrev pub full_contacts : Schema → Schema
full_contacts s = add_cols (codes "contacts") added_to_contacts (made_blocked s)

abbrev pub full_messages : Schema → Schema
full_messages s = add_cols (codes "messages") added_to_messages (full_contacts s)

abbrev pub made_groups : Schema → Schema
made_groups s = create_table (codes "groups") group_columns (full_messages s)

abbrev pub made_group_messages : Schema → Schema
made_group_messages s = create_table (codes "group_messages") group_message_columns (made_groups s)

-- The stages change two tables and the list of the blocked.
pub get-full_messages :
    (u : Text) (s : Schema)
    → text_eq (codes "contacts") u ≡ false
    → text_eq (codes "messages") u ≡ false
    → text_eq (codes "blocked_list") u ≡ false
    → get u (full_messages s) ≡ get u s
get-full_messages u s c m b =
    get-add_cols (codes "messages") u added_to_messages (full_contacts s) m
    ∙ get-add_cols (codes "contacts") u added_to_contacts (made_blocked s) c
    ∙ get-create_table (codes "blocked_list") u blocked_columns (made_messages s) b
    ∙ get-create_table (codes "messages") u message_columns (made_contacts s) m
    ∙ get-create_table (codes "contacts") u contact_columns s c

-- What is there after a stage is there in the end.
pub from_groups : (s : Schema) → Keeps (made_groups s) (migrate s)
unfolding migrate
from_groups s u c h =
    created (codes "discovery_account") account_columns (made_group_messages s) u c
      (created (codes "group_messages") group_message_columns (made_groups s) u c h)

pub from_full : (s : Schema) → Keeps (full_messages s) (migrate s)
from_full s u c h =
    from_groups s u c (created (codes "groups") group_columns (full_messages s) u c h)

pub from_blocked : (s : Schema) → Keeps (made_blocked s) (migrate s)
from_blocked s u c h = from_full s u c (
    extended (codes "messages") added_to_messages (full_contacts s) u c
      (extended (codes "contacts") added_to_contacts (made_blocked s) u c h))

pub from_contacts : (s : Schema) → Keeps (made_contacts s) (migrate s)
from_contacts s u c h = from_blocked s u c (
    created (codes "blocked_list") blocked_columns (made_messages s) u c
      (created (codes "messages") message_columns (made_contacts s) u c h))
