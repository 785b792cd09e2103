-- ===== src/Update/Checksums.antt =====
-- The file of checksums, `ParseChecksums`. A text is a string of bytes.
use Prim.Native.Char.{Char, code}
use Prim.Native.String.{String, char_at, len}
use telemux.Base.{◌-◌, Bool, true, List, [], ◌∷◌, string_eq, leb, nat_eq, if◌then◌else◌, ◌&&◌}
use telemux.Base.Text.{is_space}
use telemux.Base.Dict.{Dict, insert}

-- The lines that bufio.ScanLines splits at line feeds; a last line without one counts where it is
-- not empty.
lines : String → List String
lines String.[] = []
lines (String.◌∷◌ c s) =
    let rest = lines s in
    if nat_eq (code c) 10
    then "" ∷ rest
    else elim rest [ [] ↦ String.◌∷◌ c "" ∷ [] | l ∷ ls ↦ String.◌∷◌ c l ∷ ls ]

-- The scanner stops at a line that fills its buffer of 64 KB.
scanned : List String → List String
scanned [] = []
scanned (l ∷ ls) = let rest = scanned ls in if leb 65536 (len l) then [] else l ∷ rest

-- strings.Fields. The scanner drops a carriage return at the end of a line, which is space.
joined : Char → Bool → List String → List String
joined c apart [] = String.◌∷◌ c "" ∷ []
joined c apart (f ∷ fs) = if apart then String.◌∷◌ c "" ∷ f ∷ fs else String.◌∷◌ c f ∷ fs

starts_apart : String → Bool
unfolding is_space
starts_apart String.[] = true
starts_apart (String.◌∷◌ c s) = is_space c

unfoldable pub fields : String → List String
unfolding joined starts_apart is_space
fields String.[] = []
fields (String.◌∷◌ c s) =
    let rest = fields s in if is_space c then rest else joined c (starts_apart s) rest

-- strings.ToLower, on ASCII: the digits of a checksum are hexadecimal.
lower_char : Char → Char
lower_char c =
    let n = code c in
    if leb 65 n && leb n 90 then char_at "abcdefghijklmnopqrstuvwxyz" (n - 65) else c

unfoldable pub to_lower : String → String
unfolding lower_char
to_lower String.[] = String.[]
to_lower (String.◌∷◌ c s) = String.◌∷◌ (lower_char c) (to_lower s)

last : String → List String → String
last f [] = f
last f (g ∷ fs) = last g fs

note_line : List String → Dict String → Dict String
unfolding last to_lower
note_line [] out = out
note_line (f ∷ []) out = out
note_line (f ∷ g ∷ fs) out = insert (last g fs) (to_lower f) out

note_lines : List String → Dict String → Dict String
unfolding note_line fields
note_lines [] out = out
note_lines (l ∷ ls) out = note_lines ls (note_line (fields l) out)

unfoldable pub parse_checksums : String → Dict String
unfolding lines scanned note_lines
parse_checksums text = note_lines (scanned (lines text)) []
