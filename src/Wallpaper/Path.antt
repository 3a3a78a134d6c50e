-- ===== src/Wallpaper/Path.antt =====
-- src/compositor/src/wallpaper.c: texts with the key and its value, and the path that is found.
use zen_os.Base.{
  Bool, true, not, ◌&&◌, ◌||◌, some, [], ◌∷◌, ◌++◌, Bytes, ◌≡◌, refl, ◌∙◌, arith, ◌==◌,
}
use zen_os.Base.Scan.{done, skip_blanks, string_after_match}
use zen_os.Base.Texts.{quoteless, blank, skip_blanks-append, string_after_match-append}
use zen_os.Wallpaper.{value, quoted_value, colon_value, path_key, path_key_tail, find_path}

-- Characters that stand for themselves in a value.
abbrev pub ordinary : Bytes → Bool
ordinary [] = true
ordinary (x ∷ xs) = not (x == 0 || x == b'"' || x == b'\\') && ordinary xs

value-ordinary :
    (v : Bytes) (rest : Bytes) → ordinary v ≡ true → value (v ++ b'"' ∷ rest) ≡ done (some v)
unfolding value
value-ordinary [] [] h = refl
value-ordinary [] (y ∷ rest) h = refl
value-ordinary (x ∷ []) rest h = ground (arith, value-ordinary [] rest refl)
value-ordinary (x ∷ y ∷ v) rest h = ground (arith, value-ordinary (y ∷ v) rest)

find_path_found :
    (buf rest : Bytes)
    → string_after_match path_key buf ≡ some rest
    → find_path buf ≡ colon_value (skip_blanks rest)
unfolding find_path
find_path_found buf rest e = rw (e, find_path)

quoted_value_found :
    (before_quote path rest : Bytes)
    → blank before_quote ≡ true
    → ordinary path ≡ true
    → quoted_value (skip_blanks (before_quote ++ b'"' ∷ (path ++ b'"' ∷ rest))) ≡ done (some path)
unfolding quoted_value
quoted_value_found before_quote path rest q p =
    rw (skip_blanks-append before_quote b'"' (path ++ b'"' ∷ rest) q refl)
      (value-ordinary path rest p)

colon_value_found :
    (before_colon before_quote path rest : Bytes)
    → blank before_colon ≡ true
    → blank before_quote ≡ true
    → ordinary path ≡ true
    → colon_value
        (skip_blanks (before_colon ++ b':' ∷ (before_quote ++ b'"' ∷ (path ++ b'"' ∷ rest))))
      ≡ done (some path)
unfolding colon_value
colon_value_found before_colon before_quote path rest b q p =
    rw (skip_blanks-append before_colon b':' (before_quote ++ b'"' ∷ (path ++ b'"' ∷ rest)) b refl)
      (quoted_value_found before_quote path rest q p)

-- A text with the key and its value.
abbrev pub theme_text : Bytes → Bytes → Bytes → Bytes → Bytes → Bytes
theme_text pre before_colon before_quote path rest =
    pre ++ (path_key ++ (before_colon ++ b':' ∷ (before_quote ++ b'"' ∷ (path ++ b'"' ∷ rest))))

-- In a text where the key stands behind text without quote and NUL, and then, with any blanks
-- between them, a colon and a quoted path, the path is found as it stands, if it has no quote,
-- backslash or NUL.
pub find_path_lem :
    (pre before_colon before_quote path rest : Bytes)
    → quoteless pre ≡ true
    → blank before_colon ≡ true
    → blank before_quote ≡ true
    → ordinary path ≡ true
    → find_path (theme_text pre before_colon before_quote path rest) ≡ done (some path)
find_path_lem pre before_colon before_quote path rest h b q p =
    let behind_key = before_colon ++ b':' ∷ (before_quote ++ b'"' ∷ (path ++ b'"' ∷ rest)) in
    find_path_found (theme_text pre before_colon before_quote path rest) behind_key
      (string_after_match-append pre path_key_tail behind_key h)
    ∙ colon_value_found before_colon before_quote path rest b q p
