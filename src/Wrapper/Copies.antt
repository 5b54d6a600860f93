-- ===== src/Wrapper/Copies.antt =====
-- patch/node/node_wrapper.cc: the copy of the bytes that `JS_SetBuffer` makes with `strdup`.
use node_apphost.Base.{
  ℕ, ◌<◌, Str, Bool, true, false, [], ◌∷◌, ◌++◌, none, if◌then◌else◌, ◌==◌, ◌≡◌, refl, arith,
  length, length-append, take, ltb, ◌||◌, ap,
}
use node_apphost.Wrapper.{js_buffer, rt_buffer, new_value, set_buffer, set_as}

-- A C string ends before the first byte 0.
unfoldable pub c_string : Str → Str
c_string [] = []
c_string (c ∷ s) = let rest = c_string s in if c == 0 then [] else c ∷ rest

abbrev pub has_zero : Str → Bool
has_zero [] = false
has_zero (c ∷ s) = c == 0 || has_zero s

pub c_string-append : (s t : Str) → has_zero s ≡ false → c_string (s ++ t) ≡ s ++ c_string t
unfolding c_string
c_string-append [] t h = refl
c_string-append (c ∷ s) t h = ground (arith, c_string-append s t)

pub length-c_string : (s t : Str) → has_zero s ≡ true → length (c_string (s ++ t)) < length s
unfolding c_string
length-c_string [] t h = cc
length-c_string (c ∷ s) t h = ground (arith, length-c_string s t)

take-append : (s t : Str) → take (length s) (s ++ t) ≡ s
take-append [] t = refl
take-append (c ∷ s) t = ap (λ x. c ∷ x) (take-append s t)

pub set_buffer-whole :
    (data_ extra : Str)
    → set_buffer (data_ ++ extra) (length data_) new_value
      ≡ set_as rt_buffer
          (if length data_ == 0 then length (data_ ++ extra) else length data_)
          (js_buffer data_)
          new_value
unfolding set_buffer
set_buffer-whole data_ extra =
    let e : ltb (length (data_ ++ extra)) (length data_) ≡ false =
      ground (arith, length-append data_ extra) in
    rw (e, take-append data_ extra) refl

pub set_buffer-short : (s : Str) (size : ℕ) → length s < size → set_buffer s size new_value ≡ none
unfolding set_buffer
set_buffer-short s size h = let e : ltb (length s) size ≡ true = ground arith in rw e refl
