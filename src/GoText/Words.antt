-- ===== src/GoText/Words.antt =====
-- Words and joins of Go's `strings`, on byte lists.
use dcr.Prelude.{ℕ, ◌-◌, ◌&&◌, List, [], ◌∷◌, ◌++◌, map, reverse, leb, ◌==◌, if◌then◌else◌}
use dcr.Prelude.Bytes.{Bytes}
use dcr.GoText.{is_space, cons_head}

unfoldable pub upper_byte : ℕ → ℕ
upper_byte c = if leb b'a' c && leb c b'z' then c - 32 else c

-- strings.ToUpper
unfoldable pub to_upper : Bytes → Bytes
unfolding upper_byte
to_upper = map upper_byte

unfoldable pub trim_left_byte : ℕ → Bytes → Bytes
trim_left_byte q [] = []
trim_left_byte q (c ∷ s) = let rest = trim_left_byte q s in if c == q then rest else c ∷ s

-- strings.Trim with a cutset of one byte
unfoldable pub trim_byte : ℕ → Bytes → Bytes
unfolding trim_left_byte
trim_byte q s = reverse (trim_left_byte q (reverse (trim_left_byte q s)))

-- The pieces between white space, empty ones included.
unfoldable pub split_space : Bytes → List Bytes
split_space [] = [] ∷ []
split_space (c ∷ s) = let more = split_space s in if is_space c then [] ∷ more else cons_head c more

abbrev pub nonempty : List Bytes → List Bytes
nonempty [] = []
nonempty ([] ∷ more) = nonempty more
nonempty ((c ∷ s) ∷ more) = (c ∷ s) ∷ nonempty more

-- strings.Fields
unfoldable pub fields : Bytes → List Bytes
unfolding split_space
fields s = nonempty (split_space s)

-- strings.Join
unfoldable pub join : List Bytes → Bytes → Bytes
join [] sep = []
join (s ∷ []) sep = s
join (s ∷ t ∷ more) sep = s ++ (sep ++ join (t ∷ more) sep)
