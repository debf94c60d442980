-- ===== src/App/Address.antt =====
-- The address arguments of the commands of p2pshare.py: `target.rsplit(":", 1)`, `strip("[]")` and
-- `int`.
pub mod Printed
use cisc468_python.Base.{
  ℕ, suc, ◌+◌, ◌-◌, ◌*◌, Str, codes, starts_with, if◌then◌else◌, leb, ◌==◌, Bool, true, false, ◌&&◌,
  ◌||◌, not, List, [], ◌∷◌, ◌++◌, Option, none, some, ◌≡◌, refl,
}
use cisc468_python.Json.{ℤ, pos, negsuc}
use cisc468_python.Json.Lexer.{is_digit}

with_first : ℕ → Str → Option (Str × Str) → Option (Str × Str)
with_first c s (some (before, after)) = some (c ∷ before, after)
with_first c s none = if c == b':' then some ([], s) else none

-- What is before and behind the last colon. Without a colon the two names cannot be unpacked.
unfoldable pub rsplit_colon : Str → Option (Str × Str)
unfolding with_first
rsplit_colon [] = none
rsplit_colon (c ∷ s) = with_first c s (rsplit_colon s)

unfoldable pub strip_front : (ℕ → Bool) → Str → Str
strip_front p [] = []
strip_front p (c ∷ s) = let rest = strip_front p s in if p c then rest else c ∷ s

shorter : (ℕ → Bool) → ℕ → Str → Str
shorter p c [] = if p c then [] else c ∷ []
shorter p c (d ∷ s) = c ∷ d ∷ s

unfoldable pub strip_back : (ℕ → Bool) → Str → Str
unfolding shorter
strip_back p [] = []
strip_back p (c ∷ s) = shorter p c (strip_back p s)

-- `s.strip(…)`, of the characters with this property
unfoldable pub strip : (ℕ → Bool) → Str → Str
unfolding strip_front strip_back
strip p s = strip_back p (strip_front p s)

abbrev pub is_bracket : ℕ → Bool
is_bracket c = c == b'[' || c == b']'

-- `str.isspace`
abbrev pub is_blank : ℕ → Bool
is_blank c =
    c == 32
    || (leb 9 c && leb c 13)
    || (leb 28 c && leb c 31)
    || c == 133
    || c == 160
    || c == 5760
    || (leb 8192 c && leb c 8202)
    || c == 8232
    || c == 8233
    || c == 8239
    || c == 8287
    || c == 12288

-- Digits with single underscores between them; `ready` says that a digit came last.
unfoldable pub int_digits : ℕ → Bool → Str → Option ℕ
int_digits acc ready [] = if ready then some acc else none
int_digits acc ready (c ∷ s) =
    let digit = int_digits (acc * 10 + (c - 48)) true s in
    let gap = int_digits acc false s in
    if is_digit c then digit else if c == b'_' && ready then gap else none

-- The port of a sign and digits. One below zero, which no connection can have, is refused here; the
-- program takes it, and finds no peer there.
unfoldable pub port_of : Str → Option ℕ
unfolding int_digits
port_of [] = none
port_of (c ∷ s) = if c == b'+' then int_digits 0 false s else int_digits 0 false (c ∷ s)

-- `int(s)`, for ASCII digits
unfoldable pub parse_port : Str → Option ℕ
unfolding port_of strip
parse_port s = port_of (strip is_blank s)

with_port : (Str → Str) → Option (Str × Str) → Option (Str × ℕ)
unfolding parse_port
with_port change none = none
with_port change (some (host, port_s)) = elim (parse_port port_s) [
  | none ↦ none
  | some port ↦ some (change host, port)
]

-- The address of `cmd_list_files` and `cmd_request_file`
unfoldable pub parse_address : Str → Option (Str × ℕ)
unfolding with_port rsplit_colon
parse_address target = with_port (λ host. host) (rsplit_colon target)

-- The address of `cmd_add_contact`, which takes the brackets of an IPv6 address away.
unfoldable pub parse_new_address : Str → Option (Str × ℕ)
unfolding with_port rsplit_colon strip
parse_new_address target =
    if starts_with target (codes "[")
    then with_port (strip is_bracket) (rsplit_colon target)
    else with_port (λ host. host) (rsplit_colon target)

address_test : parse_new_address (codes "[::1]: 80_80\n") ≡ some (codes "::1", 8080)
unfolding parse_new_address starts_with
address_test = refl
