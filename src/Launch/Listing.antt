-- ===== src/Launch/Listing.antt =====
-- The listing of the package as a text, and what `JSON.parse` reads from it.
use node_apphost.Base.{
  ℕ, zero, suc, ◌+◌, ◌*◌, ◌/◌, ◌%◌, ◌≤◌, ◌<◌, Str, Bool, true, false, List, [], ◌∷◌, ◌++◌, some,
  if◌then◌else◌, ◌≡◌, ◌≢◌, refl, sym, arith, ap, ◌∙◌, Bool-cases, inl, inr, All, drop, ltb,
}
use mathlib.Core.List.{append_assoc, append-nil}
use node_apphost.Base.Dict.{Dict, insert}
use node_apphost.Base.Decimal.{decimal, digits}
use node_apphost.Base.Search.{starts_with}
use node_apphost.Launch.{
  Apk, folder, entry_text, append_entry, append_entries, names_of, assets_text,
}
use node_apphost.Launch.Reader.{
  Reading, at_start, at_first, at_name, in_name, at_number, in_number, read_char, read_chars,
  read_object,
}

read_chars-append :
    (s t : Str) (r : Reading) → read_chars (s ++ t) r ≡ read_chars t (read_chars s r)
unfolding read_chars
read_chars-append [] t r = refl
read_chars-append (c ∷ s) t r = read_chars-append s t (read_char r c)

-- A character that a JSON text holds as it is.
abbrev pub IsClear : ℕ → Type 0
IsClear c = (c ≢ 34) × (c ≢ 92) × (32 ≤ c)

read_chars-name :
    (s k : Str) (d : Dict ℕ) → All IsClear s → read_chars s (in_name k d) ≡ in_name (k ++ s) d
unfolding read_chars read_char
read_chars-name [] k d h = ap (λ x. in_name x d) (sym (append-nil k))
read_chars-name (c ∷ s) k d ((p, q, r), h) =
    let e : read_char (in_name k d) c ≡ in_name (k ++ c ∷ []) d = ground arith in
    ap (read_chars s) e
    ∙ read_chars-name s (k ++ c ∷ []) d h
    ∙ ap (λ x. in_name x d) (append_assoc k (c ∷ []) s)

first_digit :
    (k : Str) (n : ℕ) (d : Dict ℕ) → n < 10 → read_char (at_number k d) (n + 48) ≡ in_number k n d
unfolding read_char
first_digit k n d h = ground arith

next_digit :
    (k : Str) (n m : ℕ) (d : Dict ℕ)
    → 0 < n
    → m < 10
    → read_char (in_number k n d) (m + 48) ≡ in_number k (n * 10 + m) d
unfolding read_char
next_digit k n m d h b = ground arith

read_chars-digits :
    (fuel n : ℕ) (k : Str) (d : Dict ℕ)
    → n < fuel
    → read_chars (digits fuel n) (at_number k d) ≡ in_number k n d
unfolding digits read_chars
read_chars-digits zero n k d h = elim h [ ]
read_chars-digits (suc fuel) n k d h = elim (Bool-cases (ltb n 10)) [
  | inl e ↦ rw e (first_digit k n d (ground arith))
  | inr e ↦ rw e (
      read_chars-append (digits fuel (n / 10)) ((n % 10 + 48) ∷ []) (at_number k d)
      ∙ ap (read_chars ((n % 10 + 48) ∷ [])) (read_chars-digits fuel (n / 10) k d (ground arith))
      ∙ next_digit k (n / 10) (n % 10) d (ground arith) (omega arith)
      ∙ ap (λ x. in_number k x d) (omega arith))
]

read_chars-decimal :
    (n : ℕ) (k : Str) (d : Dict ℕ) → read_chars (decimal n) (at_number k d) ≡ in_number k n d
unfolding decimal
read_chars-decimal n k d = read_chars-digits (n + 1) n k d (omega arith)

-- The members that the entries of the archive are, on top of those in `d`.
abbrev pub listed : Apk → List Str → Dict ℕ → Dict ℕ
listed apk [] d = d
listed apk (n ∷ ns) d =
    listed apk ns
      (if starts_with folder n then insert (drop 18 n) (apk.asset_size (drop 7 n)) d else d)

-- The text so far has been read, but for the end of its last number.
abbrev HasRead : Str × Bool → Dict ℕ → Type 0
HasRead (text, true) d = (read_chars text at_start ≡ at_first) × (d ≡ [])
HasRead (text, false) d =
    (k : Str) × (n : ℕ) × (d' : Dict ℕ) × (read_chars text at_start ≡ in_number k n d')
    × (insert k n d' ≡ d)

All-drop : (n : ℕ) (s : Str) → All IsClear s → All IsClear (drop n s)
All-drop zero s h = h
All-drop (suc n) [] h = h
All-drop (suc n) (c ∷ s) (p, h) = All-drop n s h

-- A member, behind `{` or a comma.
read_member :
    (apk : Apk) (name : Str) (d : Dict ℕ) (r : Reading)
    → All IsClear name
    → read_char r b'"' ≡ in_name [] d
    → read_chars (entry_text apk name) r ≡ in_number (drop 18 name) (apk.asset_size (drop 7 name)) d
unfolding entry_text read_chars
read_member apk name d r h e =
    let k = drop 18 name in
    ap (read_chars (k ++ b'"' ∷ b':' ∷ decimal (apk.asset_size (drop 7 name)))) e
    ∙ read_chars-append k (b'"' ∷ b':' ∷ decimal (apk.asset_size (drop 7 name))) (in_name [] d)
    ∙ ap (read_chars (b'"' ∷ b':' ∷ decimal (apk.asset_size (drop 7 name))))
        (read_chars-name k [] d (All-drop 18 name h))
    ∙ read_chars-decimal (apk.asset_size (drop 7 name)) k d

at_comma :
    (k : Str) (n : ℕ) (d : Dict ℕ) → read_char (in_number k n d) b',' ≡ at_name (insert k n d)
unfolding read_char
at_comma k n d = refl

member_read :
    (apk : Apk) (text : Str) (name : Str) (d : Dict ℕ) (r : Reading)
    → All IsClear name
    → read_chars text at_start ≡ r
    → read_char r b'"' ≡ in_name [] d
    → HasRead
        (text ++ entry_text apk name, false)
        (insert (drop 18 name) (apk.asset_size (drop 7 name)) d)
member_read apk text name d r h e q = (
  drop 18 name,
  apk.asset_size (drop 7 name),
  d,
  read_chars-append text (entry_text apk name) at_start
      ∙ ap (read_chars (entry_text apk name)) e
      ∙ read_member apk name d r h q,
  refl,
)

member_behind :
    (apk : Apk) (text : Str) (name k : Str) (n : ℕ) (d : Dict ℕ)
    → All IsClear name
    → read_chars text at_start ≡ in_number k n d
    → HasRead
        (text ++ b',' ∷ entry_text apk name, false)
        (insert (drop 18 name) (apk.asset_size (drop 7 name)) (insert k n d))
unfolding read_char
member_behind apk text name k n d h e =
    let t = text ++ b',' ∷ [] in
    let q : read_chars t at_start ≡ at_name (insert k n d) =
      read_chars-append text (b',' ∷ []) at_start
      ∙ ap (read_chars (b',' ∷ [])) e
      ∙ (unfold read_chars in refl) in
    let l = append_assoc text (b',' ∷ []) (entry_text apk name) in
    let (k', n', d', p, i) =
      member_read apk t name (insert k n d) (at_name (insert k n d)) h q refl in
    (k', n', d', ap (λ x. read_chars x at_start) (sym l) ∙ p, i)

append_entry-HasRead :
    (apk : Apk) (st : Str × Bool) (name : Str) (d : Dict ℕ)
    → All IsClear name
    → HasRead st d
    → HasRead (append_entry apk st name) (
        if starts_with folder name
        then insert (drop 18 name) (apk.asset_size (drop 7 name)) d
        else d)
unfolding append_entry read_char
append_entry-HasRead apk (text, true) name d h (r, e) =
    elim (Bool-cases (starts_with folder name)) [
      | inl q ↦ rw (q, e) (member_read apk text name [] at_first h r refl)
      | inr q ↦ rw q (r, e)
    ]
append_entry-HasRead apk (text, false) name d h (k, n, d', r, e) =
    elim (Bool-cases (starts_with folder name)) [
      | inl q ↦ rw (q, ← e) (member_behind apk text name k n d' h r)
      | inr q ↦ rw q (k, n, d', r, e)
    ]

append_entries-HasRead :
    (apk : Apk) (ns : List Str) (st : Str × Bool) (d : Dict ℕ)
    → All (λ n. All IsClear n) ns
    → HasRead st d
    → HasRead (append_entries apk ns st) (listed apk ns d)
unfolding append_entries
append_entries-HasRead apk [] st d h r = r
append_entries-HasRead apk (n ∷ ns) st d (h, hs) r =
    append_entries-HasRead apk ns (append_entry apk st n) _ hs (append_entry-HasRead apk st n d h r)

closed : (st : Str × Bool) (d : Dict ℕ) → HasRead st d → read_object (st.0 ++ b'}' ∷ []) ≡ some d
unfolding read_object read_char read_chars
closed (text, true) d (r, e) = rw (read_chars-append text (b'}' ∷ []) at_start, r, e) refl
closed (text, false) d (k, n, d', r, e) =
    rw (read_chars-append text (b'}' ∷ []) at_start, r, e) refl

-- The names of the entries that the listing takes in.
abbrev pub HasClearNames : Apk → Type 0
HasClearNames apk = All (λ n. All IsClear n) (names_of apk.entries)

-- What `JSON.parse` reads from the text of the listing.
pub read_object-assets_text :
    (apk : Apk)
    → HasClearNames apk
    → read_object (assets_text apk) ≡ some (listed apk (names_of apk.entries) [])
unfolding assets_text
read_object-assets_text apk h =
    closed (append_entries apk (names_of apk.entries) (b'{' ∷ [], true)) _ (
      append_entries-HasRead apk (names_of apk.entries) (b'{' ∷ [], true) [] h
        (unfold read_chars read_char in refl, refl))
