-- ===== src/Server/Transfer/Rows.antt =====
-- What the rows of a batch hold: the members of the JSON value in each stored text.
use Prim.Native.String.{String}
use weee_chatroom.Common.{
  ◌≡◌, ◌⊎◌, inl, inr, refl, ap, ap₂, List, [], ◌∷◌, ◌++◌, map, Option, none, some, Option-cases,
}
use weee_chatroom.Server.Services.{Services, Fields}
use weee_chatroom.Server.World.{entry}
use weee_chatroom.Server.Transfer.{message_row, group_message_row, data_list}

module _ (services : Services) where
  open services use {json}

  -- The row of a text: its members of three names, and the text.
  pub record IsRead (a b c : String) (msg_str : String) (row : Fields) : Type 0 where
    pub msg : json.Json
    pub x : String
    pub y : String
    pub z : String
    pub parsed : json.parse msg_str ≡ some msg
    pub first : json.get msg a ≡ some x
    pub second : json.get msg b ≡ some y
    pub third : json.get msg c ≡ some z
    pub made : row ≡ ((a, x) ∷ (b, y) ∷ (c, z) ∷ ("json", msg_str) ∷ [])

  -- The text is no JSON, or lacks one of the members.
  pub IsUnread : String → String → String → String → Type 0
  IsUnread a b c msg_str =
      (json.parse msg_str ≡ none)
      ⊎ ((msg : json.Json) × (json.parse msg_str ≡ some msg)
          × ((json.get msg a ≡ none) ⊎ (json.get msg b ≡ none) ⊎ (json.get msg c ≡ none)))

  -- The rows of a list of texts, in order.
  pub data Rows (a b c : String) : List String → List Fields → Type 0 where
    no_rows : Rows a b c [] []
    and_row :
        {msg_str : String} {row : Fields} {texts : List String} {rows : List Fields}
        → IsRead a b c msg_str row
        → Rows a b c texts rows
        → Rows a b c (msg_str ∷ texts) (row ∷ rows)

  -- One of the texts cannot be read.
  pub record Broken (a b c : String) (texts : List String) : Type 0 where
    pub before : List String
    pub msg_str : String
    pub after : List String
    pub there : texts ≡ before ++ msg_str ∷ after
    pub unread : IsUnread a b c msg_str

  -- The texts of the rows are those of the list.
  unfoldable pub texts_of : List Fields → List String
  texts_of rows = map (λ row. entry row "json") rows

  -- What the loop needs to know of the function that makes a row.
  pub IsReader : String → String → String → (String → Option Fields) → Type 0
  IsReader a b c row_of =
      (msg_str : String)
      → ((row : Fields) × (row_of msg_str ≡ some row)
          × IsRead a b c msg_str row
          × (entry row "json" ≡ msg_str))
        ⊎ ((row_of msg_str ≡ none) × IsUnread a b c msg_str)

  pub message_row-IsReader : IsReader "sender_id" "receiver_id" "content" (message_row services)
  unfolding message_row entry IsReader IsUnread
  message_row-IsReader msg_str = elim (Option-cases (json.parse msg_str)) [
    | inl bad ↦ inr (rw (message_row, bad) refl, inl bad)
    | inr (msg, e) ↦ elim (Option-cases (json.get msg "sender_id")) [
      | inl bad ↦ inr (rw (message_row, e, bad) refl, inr (msg, e, inl bad))
      | inr (x, f) ↦ elim (Option-cases (json.get msg "receiver_id")) [
        | inl bad ↦ inr (rw (message_row, e, f, bad) refl, inr (msg, e, inr (inl bad)))
        | inr (y, g) ↦ elim (Option-cases (json.get msg "content")) [
          | inl bad ↦ inr (rw (message_row, e, f, g, bad) refl, inr (msg, e, inr (inr bad)))
          | inr (z, h) ↦ inl (
            _,
            rw (message_row, e, f, g, h) refl,
            record {
              msg = msg;
              x = x;
              y = y;
              z = z;
              parsed = e;
              first = f;
              second = g;
              third = h;
              made = refl;
            },
            refl,
          )
        ]
      ]
    ]
  ]

  pub group_message_row-IsReader :
      IsReader "group_id" "sender_id" "content" (group_message_row services)
  unfolding group_message_row entry IsReader IsUnread
  group_message_row-IsReader msg_str = elim (Option-cases (json.parse msg_str)) [
    | inl bad ↦ inr (rw (group_message_row, bad) refl, inl bad)
    | inr (msg, e) ↦ elim (Option-cases (json.get msg "group_id")) [
      | inl bad ↦ inr (rw (group_message_row, e, bad) refl, inr (msg, e, inl bad))
      | inr (x, f) ↦ elim (Option-cases (json.get msg "sender_id")) [
        | inl bad ↦ inr (rw (group_message_row, e, f, bad) refl, inr (msg, e, inr (inl bad)))
        | inr (y, g) ↦ elim (Option-cases (json.get msg "content")) [
          | inl bad ↦ inr (rw (group_message_row, e, f, g, bad) refl, inr (msg, e, inr (inr bad)))
          | inr (z, h) ↦ inl (
            _,
            rw (group_message_row, e, f, g, h) refl,
            record {
              msg = msg;
              x = x;
              y = y;
              z = z;
              parsed = e;
              first = f;
              second = g;
              third = h;
              made = refl;
            },
            refl,
          )
        ]
      ]
    ]
  ]

  -- The loop makes the rows of all texts, or stops at one that cannot be read.
  pub data_list_lem :
      (a b c : String) (row_of : String → Option Fields) (texts : List String)
      → IsReader a b c row_of
      → ((rows : List Fields) × (data_list services row_of texts ≡ some rows)
          × Rows a b c texts rows
          × (texts_of rows ≡ texts))
        ⊎ ((data_list services row_of texts ≡ none) × Broken a b c texts)
  unfolding data_list IsReader texts_of
  data_list_lem a b c row_of [] reader = inl ([], refl, no_rows, refl)
  data_list_lem a b c row_of (msg_str ∷ texts) reader = elim (reader msg_str) [
    | inr (bad, unread) ↦ inr (
      rw bad refl,
      record { before = []; msg_str = msg_str; after = texts; there = refl; unread = unread },
    )
    | inl (row, e, read, same) ↦ elim (data_list_lem a b c row_of texts reader) [
      | inl (rows, f, all, rest) ↦
          inl (row ∷ rows, rw (e, f) refl, and_row read all, ap₂ (◌∷◌) same rest)
      | inr (bad, broken) ↦ inr (
        rw (e, bad) refl,
        record {
          before = msg_str ∷ broken.before;
          msg_str = broken.msg_str;
          after = broken.after;
          there = ap (◌∷◌ msg_str) broken.there;
          unread = broken.unread;
        },
      )
    ]
  ]
