-- ===== src/Daemon/Dispatch/Mtu.antt =====
-- `apply_mtu_override_to_conf_text` (src/privileged/dispatch.rs): the MTU of a request is written into
-- the text of the configuration.
use tunmux.Prelude.{
  Bool, List, List_eq, [], false, if◌then◌else◌, ltb, none, not, some, suc, zero, ℕ, ℕ_eq, ◌%◌,
  ◌&&◌, ◌++◌, ◌+◌, ◌/◌, ◌==◌, ◌||◌, ◌∷◌,
}
use tunmux.Text.{Str, codes, lines, split_once, starts_with, to_ascii_lowercase, trim}

abbrev pub eq_ignore_ascii_case : Str → Str → Bool
eq_ignore_ascii_case a b = to_ascii_lowercase a == to_ascii_lowercase b

-- a u16 in decimal: five digits at most
unfoldable pub show_decimal : ℕ → ℕ → Str
show_decimal zero n = []
show_decimal (suc fuel) n =
    let high = show_decimal fuel (n / 10) in
    if ltb n 10 then (b'0' + n) ∷ [] else high ++ (b'0' + n % 10) ∷ []

unfoldable pub mtu_line : ℕ → Str
unfolding show_decimal
mtu_line mtu = codes "MTU = " ++ show_decimal 5 mtu

unfoldable pub is_interface_header : Str → Bool
unfolding trim to_ascii_lowercase
is_interface_header line = eq_ignore_ascii_case (trim line) (codes "[interface]")

unfoldable pub is_mtu_directive : Str → Bool
unfolding split_once trim to_ascii_lowercase
is_mtu_directive line = elim (split_once b'=' (trim line)) [
  | none ↦ false
  | some (key, _) ↦ eq_ignore_ascii_case (trim key) (codes "mtu")
]

abbrev pub is_header : Str → Bool
is_header line = starts_with (b'[' ∷ []) (trim line)

-- the first loop: whether the line stands in [Interface], and whether it is replaced
unfoldable pub replace_lines : ℕ → Bool → List Str → List Str
unfolding is_interface_header is_mtu_directive trim starts_with mtu_line
replace_lines mtu inside [] = []
replace_lines mtu inside (line ∷ rest) =
    let header = is_header line in
    (if not header && (inside && is_mtu_directive line) then mtu_line mtu else line)
    ∷ replace_lines mtu (if header then is_interface_header line else inside) rest

-- `found`
unfoldable pub has_mtu_line : Bool → List Str → Bool
unfolding is_interface_header is_mtu_directive trim starts_with
has_mtu_line inside [] = false
has_mtu_line inside (line ∷ rest) =
    let header = is_header line in
    not header && (inside && is_mtu_directive line)
    || has_mtu_line (if header then is_interface_header line else inside) rest

-- every line with its "\n"
unfoldable pub join_lines : List Str → Str
join_lines [] = []
join_lines (line ∷ rest) = line ++ 10 ∷ join_lines rest

-- the second loop: after the first header
unfoldable pub insert_line : ℕ → List Str → List Str
unfolding is_interface_header mtu_line
insert_line mtu [] = []
insert_line mtu (line ∷ rest) =
    let later = insert_line mtu rest in
    if is_interface_header line then line ∷ mtu_line mtu ∷ rest else line ∷ later

unfoldable pub apply_mtu_override_to_conf_text : Str → ℕ → Str
unfolding lines replace_lines has_mtu_line join_lines insert_line
apply_mtu_override_to_conf_text conf_text mtu =
    let out = join_lines (replace_lines mtu false (lines conf_text)) in
    if has_mtu_line false (lines conf_text) then out else join_lines (insert_line mtu (lines out))
