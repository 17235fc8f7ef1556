-- ===== src/Core/Json/Reader.antt =====
-- A reader after RFC 8259, written without a look at the writers, for objects whose values are strings
-- without escapes or unsigned integers, and that have at most 16 members and no space between tokens.
use anisette_kit.Prelude.{
  ℕ, zero, suc, ◌+◌, ◌-◌, ◌*◌, ◌&&◌, not, Bool, true, false, Option, none, some, List, [], ◌∷◌, leb,
  ◌==◌, if◌then◌else◌,
}
use anisette_kit.Prelude.Options.{◌>>=◌}
use anisette_kit.Prelude.Text.{Text}

pub data JsonValue : Type 0 where
  string : Text → JsonValue
  number : ℕ → JsonValue

-- A character that may stand in a string as it is.
abbrev pub is_unescaped : ℕ → Bool
is_unescaped c = leb 0x20 c && not (c == b'"') && not (c == 0x5C)

-- A string behind its first quote, and what follows its last.
unfoldable pub read_string : Text → Option (Text × Text)
read_string [] = none
read_string (c ∷ cs) =
    let rest = (do (t, behind) ← read_string cs; some (c ∷ t, behind)) in
    if c == b'"' then some ([], cs) else if is_unescaped c then rest else none

-- The digits in front, after ones that stand for `before`, and what follows them.
unfoldable pub read_number : (before : ℕ) → Text → ℕ × Text
read_number before [] = (before, [])
read_number before (c ∷ cs) =
    let rest = read_number (before * 10 + (c - b'0')) cs in
    if leb b'0' c && leb c b'9' then rest else (before, c ∷ cs)

unfoldable pub as_string : Option (Text × Text) → Option (JsonValue × Text)
as_string none = none
as_string (some (t, behind)) = some (string t, behind)

unfoldable pub read_value : Text → Option (JsonValue × Text)
read_value [] = none
read_value (c ∷ cs) =
    if c == b'"'
    then as_string (read_string cs)
    else if leb b'0' c && leb c b'9'
    then some (number (read_number 0 (c ∷ cs)).0, (read_number 0 (c ∷ cs)).1)
    else none

-- One character that has to stand there.
unfoldable pub expect : ℕ → Text → Option Text
expect d [] = none
expect d (c ∷ cs) = if c == d then some cs else none

unfoldable pub read_member : Text → Option ((Text × JsonValue) × Text)
read_member cs = do
  key_cs ← expect b'"' cs
  (key, behind_key) ← read_string key_cs
  value_cs ← expect b':' behind_key
  (value, behind) ← read_value value_cs
  some ((key, value), behind)

-- What follows a member: more of them, or the end.
unfoldable pub read_more :
    Text → (members : Text → Option (List (Text × JsonValue))) → Option (List (Text × JsonValue))
read_more [] members = none
read_more (c ∷ cs) members =
    if c == b',' then members cs else if (c == b'}') && is_empty cs then some [] else none
  where
    is_empty : Text → Bool
    is_empty [] = true
    is_empty (c ∷ cs) = false

unfoldable pub read_members : (most : ℕ) → Text → Option (List (Text × JsonValue))
read_members zero cs = none
read_members (suc most) cs = do
  (member, behind) ← read_member cs
  members ← read_more behind (λ cs'. read_members most cs')
  some (member ∷ members)

unfoldable pub read_object : Text → Option (List (Text × JsonValue))
read_object cs = do members_cs ← expect b'{' cs; read_members 16 members_cs
