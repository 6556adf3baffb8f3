-- ===== src/Client/Logs/Window.antt =====
-- What `loadChatLogs` loads, against a plain description: the latest lines but `offset`, at most
-- `count` of them.
use weee_chatroom.Common.{
  ℕ, zero, suc, ◌+◌, ◌-◌, ◌≤◌, ◌≡◌, refl, sym, ap, ◌∙◌, inl, inr, List, [], ◌∷◌, ◌++◌, none, some,
  length, take, drop, reverse, reverse-cons, ltb, leb, if◌then◌else◌, arith, Bool, true, Bool-cases,
  Option-cases, take_all, length-append, take-append_self, drop-append_self, take-append-drop,
  length-eq-zero, subst, ltb→lt, ltb_false→le, length-take, length-drop,
}
use mathlib.Core.List.{reverse-append, reverse-reverse}
use Prim.Native.String.{String}
use weee_chatroom.Server.Services.{JsonLibrary}
use weee_chatroom.Client.{Client, find}
use weee_chatroom.Client.Chat.{get_log_path}
use weee_chatroom.Client.Logs.{parse_lines, load_lines, load_chat_logs}

-- The last `n`, as the list goes.
abbrev pub latest {ℓ} : {A : Type ℓ} → ℕ → List A → List A
latest n xs = reverse (take n (reverse xs))

abbrev pub but_latest {ℓ} : {A : Type ℓ} → ℕ → List A → List A
but_latest n xs = reverse (drop n (reverse xs))

module _ {A : Type 0} where
  length-reverse : (xs : List A) → length (reverse xs) ≡ length xs
  length-reverse [] = refl
  length-reverse (x ∷ xs) =
      ap length (reverse-cons x xs)
      ∙ omega (arith, length-append (reverse xs) (x ∷ []), length-reverse xs)

  pub length-latest : (n : ℕ) (xs : List A) → length (latest n xs) ≤ n
  length-latest n xs =
      omega (arith, length-reverse (take n (reverse xs)), length-take n (reverse xs))

  take_front : (n : ℕ) (xs ys : List A) → length xs ≡ n → take n (xs ++ ys) ≡ xs
  take_front n xs ys h = subst (λ k. take k (xs ++ ys) ≡ xs) h (take-append_self xs ys)

  drop_front : (n : ℕ) (xs ys : List A) → length xs ≡ n → drop n (xs ++ ys) ≡ ys
  drop_front n xs ys h = subst (λ k. drop k (xs ++ ys) ≡ ys) h (drop-append_self xs ys)

  latest-append : (n : ℕ) (xs ys : List A) → length ys ≡ n → latest n (xs ++ ys) ≡ ys
  latest-append n xs ys h =
      rw (reverse-append xs ys, take_front n (reverse ys) (reverse xs) (length-reverse ys ∙ h))
        (reverse-reverse ys)

  but_latest-append : (n : ℕ) (xs ys : List A) → length ys ≡ n → but_latest n (xs ++ ys) ≡ xs
  but_latest-append n xs ys h =
      rw (reverse-append xs ys, drop_front n (reverse ys) (reverse xs) (length-reverse ys ∙ h))
        (reverse-reverse xs)

  -- With fewer than `n`, all are the latest.
  latest_few : (n : ℕ) (xs : List A) → length xs ≤ n → latest n xs ≡ xs
  latest_few n xs h =
      rw (take_all n (reverse xs) (omega (arith, length-reverse xs))) (reverse-reverse xs)

  drop_all : (n : ℕ) (xs : List A) → length xs ≤ n → drop n xs ≡ []
  drop_all n xs h = length-eq-zero (drop n xs) (omega (arith, length-drop n xs))

  but_latest_few : (n : ℕ) (xs : List A) → length xs ≤ n → but_latest n xs ≡ []
  but_latest_few n xs h = rw (drop_all n (reverse xs) (omega (arith, length-reverse xs))) refl

  latest_lem : (n : ℕ) (xs : List A) → latest n xs ≡ drop (length xs - n) xs
  latest_lem n xs = elim (Bool-cases (ltb (length xs) n)) [
    | inl few ↦
        let none_left : 0 ≡ length xs - n = omega (arith, ltb→lt (length xs) n few) in
        latest_few n xs (omega (arith, ltb→lt (length xs) n few)) ∙ ap (λ k. drop k xs) none_left
    | inr many ↦
        let k = length xs - n in
        ap (latest n) (sym (take-append-drop k xs))
        ∙ latest-append n (take k xs) (drop k xs)
            (omega (arith, length-drop k xs, ltb_false→le (length xs) n many))
  ]

  but_latest_lem : (n : ℕ) (xs : List A) → but_latest n xs ≡ take (length xs - n) xs
  but_latest_lem n xs = elim (Bool-cases (ltb (length xs) n)) [
    | inl few ↦
        let none_left : 0 ≡ length xs - n = omega (arith, ltb→lt (length xs) n few) in
        but_latest_few n xs (omega (arith, ltb→lt (length xs) n few))
        ∙ ap (λ k. take k xs) none_left
    | inr many ↦
        let k = length xs - n in
        ap (but_latest n) (sym (take-append-drop k xs))
        ∙ but_latest-append n (take k xs) (drop k xs)
            (omega (arith, length-drop k xs, ltb_false→le (length xs) n many))
  ]

  drop-take : (a b : ℕ) (xs : List A) → drop a (take b xs) ≡ take (b - a) (drop a xs)
  drop-take zero b xs = ap (λ k. take k xs) (omega arith)
  drop-take (suc a) zero xs =
      let none_left : 0 ≡ 0 - suc a = omega arith in ap (λ k. take k (drop (suc a) xs)) none_left
  drop-take (suc a) (suc b) [] = sym (take_all (suc b - suc a) [] (omega arith))
  drop-take (suc a) (suc b) (x ∷ xs) = drop-take a b xs ∙ ap (λ k. take k (drop a xs)) (omega arith)

  -- The latest `count` lines without the latest `offset`, by indices.
  window :
      (count offset : ℕ) (xs : List A)
      → latest count (but_latest offset xs)
        ≡ take
            (length xs - offset - (length xs - offset - count))
            (drop (length xs - offset - count) xs)
  window count offset xs =
      let kept = length xs - offset in
      latest_lem count (but_latest offset xs)
      ∙ ap (λ l. drop (length l - count) l) (but_latest_lem offset xs)
      ∙ ap (λ k. drop (k - count) (take kept xs)) (omega (arith, length-take kept xs))
      ∙ drop-take (kept - count) kept xs

load_lines_lem :
    (json : JsonLibrary) (user_id : String) (lines : List String) (count offset : ℕ)
    → load_lines json user_id lines count offset
      ≡ parse_lines json user_id (latest count (but_latest offset lines))
unfolding load_lines parse_lines
load_lines_lem json user_id lines count offset =
    let total = length lines in
    elim (Bool-cases (leb total offset)) [
      | inl none_left ↦
          rw (load_lines, none_left)
            (ap (parse_lines json user_id) (
              sym (
                ap (latest count) (but_latest_few offset lines (ground arith))
                ∙ latest_few count [] (omega arith))))
      | inr some_left ↦
          let start : (if ltb (offset + count) total then total - offset - count else 0)
              ≡ total - offset - count =
            ground (arith, Bool-cases (ltb (offset + count) total)) in
          rw (load_lines, some_left, start)
            (ap (parse_lines json user_id) (sym (window count offset lines)))
    ]

load_lines_none :
    (json : JsonLibrary) (user_id : String) (count offset : ℕ)
    → load_lines json user_id [] count offset ≡ some []
unfolding load_lines
load_lines_none json user_id count offset =
    let none_left : leb 0 offset ≡ true = ground arith in rw (load_lines, none_left) refl

-- The lines of the log of a friend or a group; a file that does not exist has none.
abbrev pub log_lines : (json : JsonLibrary) → String → Bool → Client json → List String
log_lines json peer_id is_group c = elim (find c.files (get_log_path c.user_id peer_id is_group)) [
  | some lines ↦ lines
  | none ↦ []
]

-- `loadChatLogs` reads the latest `count` lines that come before the latest `offset` ones, in their
-- order, and all of those before where there are fewer.
pub load_chat_logs_lem :
    (json : JsonLibrary) (peer_id : String) (count offset : ℕ) (is_group : Bool) (c : Client json)
    → load_chat_logs json peer_id count offset is_group c
      ≡ parse_lines json c.user_id
          (latest count (but_latest offset (log_lines json peer_id is_group c)))
unfolding load_chat_logs
load_chat_logs_lem json peer_id count offset is_group c =
    elim (Option-cases (find c.files (get_log_path c.user_id peer_id is_group))) [
      | inl missing ↦
          rw (load_chat_logs, log_lines, missing)
            (sym (load_lines_none json c.user_id count offset)
              ∙ load_lines_lem json c.user_id [] count offset)
      | inr (lines, there) ↦
          rw (load_chat_logs, log_lines, there) (load_lines_lem json c.user_id lines count offset)
    ]
