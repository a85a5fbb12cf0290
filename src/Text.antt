-- ===== src/Text.antt =====
-- Byte strings, and the BaseLib functions on NUL-terminated strings that the sources call.
use Prim.Native.Char.{code}
use Prim.Native.String.{String}
use edk2_uemu.Common.{ℕ, zero, suc, Bool, true, ◌&&◌, ◌||◌, List, [], ◌∷◌, ◌==◌, if◌then◌else◌}

-- The bytes from a CHAR8 pointer on.
abbrev pub Text : Type 0
Text = List ℕ

-- A string literal, without its NUL.
abbrev pub codes : String → Text
codes String.[] = []
codes (String.◌∷◌ c s) = code c ∷ codes s

-- AsciiStrnLenS: the characters before the NUL, looking at no more than the given number.
unfoldable pub ascii_strn_len_s : Text → ℕ → ℕ
ascii_strn_len_s _ zero = 0
ascii_strn_len_s [] (suc n) = 0
ascii_strn_len_s (c ∷ cs) (suc n) = if c == 0 then 0 else suc (ascii_strn_len_s cs n)

-- AsciiStrCmp (a, b) == 0. The end of a literal stands for its NUL.
unfoldable pub ascii_str_eq : Text → Text → Bool
ascii_str_eq [] [] = true
ascii_str_eq [] (d ∷ ds) = d == 0
ascii_str_eq (c ∷ cs) [] = c == 0
ascii_str_eq (c ∷ cs) (d ∷ ds) = c == d && (c == 0 || ascii_str_eq cs ds)
