-- ===== src/Client/Terminal.antt =====
-- What the client reads from the terminal.
use distributed_hash_table.Prelude.{
  ℕ, [], ◌∷◌, Option, none, some, Bool, ◌&&◌, ◌||◌, ◌==◌, leb, if◌then◌else◌, Outcome, ok, panic,
}
use distributed_hash_table.Pdu.Text.{Text}
use distributed_hash_table.Client.{Client}

-- `char::is_whitespace`: the characters with the property White_Space.
abbrev is_whitespace : ℕ → Bool
is_whitespace c =
    leb 0x9 c && leb c 0xd
    || c == 0x20
    || c == 0x85
    || c == 0xa0
    || c == 0x1680
    || leb 0x2000 c && leb c 0x200a
    || c == 0x2028
    || c == 0x2029
    || c == 0x202f
    || c == 0x205f
    || c == 0x3000

abbrev trim_start : Text → Text
trim_start [] = []
trim_start (c ∷ cs) = let rest = trim_start cs in if is_whitespace c then rest else c ∷ cs

abbrev keep_before : ℕ → Text → Text
keep_before c [] = if is_whitespace c then [] else c ∷ []
keep_before c (d ∷ ds) = c ∷ d ∷ ds

abbrev trim_end : Text → Text
trim_end [] = []
trim_end (c ∷ cs) = keep_before c (trim_end cs)

abbrev pub trim : Text → Text
trim t = trim_end (trim_start t)

-- `read_line` at the end of the input reads nothing, and is no error.
abbrev pub read_line : Client → Option Text × Client
read_line c = elim c.inputs [ [] ↦ (some [], c) | line ∷ rest ↦ (line, record c { inputs = rest }) ]

-- `unwrap`, and `trim`
abbrev trimmed_answer : Option Text × Client → Outcome (Text × Client)
trimmed_answer (none, c) = panic
trimmed_answer (some line, c) = ok (trim line, c)

abbrev pub ask_for : Client → Outcome (Text × Client)
ask_for c = trimmed_answer (read_line c)
