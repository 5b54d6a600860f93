-- ===== src/Launch/Reader.antt =====
-- `JSON.parse` for an object of natural numbers, in a text without spaces and with no escapes in its
-- names: any other text is refused.
use node_apphost.Base.{
  ℕ, ◌+◌, ◌*◌, ◌-◌, Str, Bool, [], ◌∷◌, ◌++◌, Option, none, some, if◌then◌else◌, ◌==◌, ◌&&◌, ◌||◌,
  ltb, leb,
}
use node_apphost.Base.Dict.{Dict, insert}

-- What the reader expects, with the members that it has read.
pub data Reading : Type 0 where
  at_start at_first refused : Reading
  at_name : Dict ℕ → Reading
  in_name : Str → Dict ℕ → Reading
  at_colon at_number : Str → Dict ℕ → Reading
  in_number : Str → ℕ → Dict ℕ → Reading
  at_end : Dict ℕ → Reading

is_digit : ℕ → Bool
is_digit c = leb 48 c && leb c 57

unfoldable pub read_char : Reading → ℕ → Reading
unfolding is_digit
read_char at_start c = if c == b'{' then at_first else refused
read_char at_first c =
    if c == b'"' then in_name [] [] else (if c == b'}' then at_end [] else refused)
read_char (at_name d) c = if c == b'"' then in_name [] d else refused
read_char (in_name k d) c =
    if c == b'"'
    then at_colon k d
    else (if c == 92 || ltb c 32 then refused else in_name (k ++ c ∷ []) d)
read_char (at_colon k d) c = if c == b':' then at_number k d else refused
read_char (at_number k d) c = if is_digit c then in_number k (c - 48) d else refused
read_char (in_number k n d) c =
    if is_digit c
    then (if n == 0 then refused else in_number k (n * 10 + (c - 48)) d)
    else (if c == b','
        then at_name (insert k n d)
        else (if c == b'}' then at_end (insert k n d) else refused))
read_char _ c = refused

unfoldable pub read_chars : Str → Reading → Reading
unfolding read_char
read_chars [] r = r
read_chars (c ∷ s) r = read_chars s (read_char r c)

end_of : Reading → Option (Dict ℕ)
end_of (at_end d) = some d
end_of _ = none

unfoldable pub read_object : Str → Option (Dict ℕ)
unfolding read_chars end_of
read_object s = end_of (read_chars s at_start)
