-- ===== src/Py/Text.antt =====
-- Python's `str` methods, on the native texts: `strip`, truth, and `join`.
use Prim.Native.Char.{Char, code}
use Prim.Native.String.{◌++◌ as text_append}
use project_nexus.Prelude.{
  ℕ, suc, ◌≡◌, refl, Bool, true, false, not, ◌&&◌, ◌||◌, List, [], ◌∷◌, String, leb, nat_eq, ◌==◌,
  if◌then◌else◌,
}

-- s + t
infixr 65 ◌⧺◌
abbrev pub ◌⧺◌ : String → String → String
s ⧺ t = text_append s t

-- The code points that `str.isspace` accepts, which `strip` removes.
unfoldable pub is_space : ℕ → Bool
is_space c =
    (leb 9 c && leb c 13)
    || (leb 28 c && leb c 32)
    || nat_eq c 0x85
    || nat_eq c 0xa0
    || nat_eq c 0x1680
    || (leb 0x2000 c && leb c 0x200a)
    || nat_eq c 0x2028
    || nat_eq c 0x2029
    || nat_eq c 0x202f
    || nat_eq c 0x205f
    || nat_eq c 0x3000

unfoldable pub lstrip : String → String
lstrip String.[] = String.[]
lstrip (String.◌∷◌ c s) = let rest = lstrip s in if is_space (code c) then rest else String.◌∷◌ c s

cons_unless_blank : Char → String → String
cons_unless_blank c String.[] = if is_space (code c) then String.[] else String.◌∷◌ c String.[]
cons_unless_blank c (String.◌∷◌ d s) = String.◌∷◌ c (String.◌∷◌ d s)

unfoldable pub rstrip : String → String
unfolding cons_unless_blank
rstrip String.[] = String.[]
rstrip (String.◌∷◌ c s) = cons_unless_blank c (rstrip s)

-- s.startswith(prefix)
unfoldable pub starts_with : String → String → Bool
starts_with String.[] s = true
starts_with (String.◌∷◌ d prefix) String.[] = false
starts_with (String.◌∷◌ d prefix) (String.◌∷◌ c s) =
    nat_eq (code d) (code c) && starts_with prefix s

-- len(s)
unfoldable pub str_len : String → ℕ
str_len String.[] = 0
str_len (String.◌∷◌ c s) = suc (str_len s)

-- s.strip()
unfoldable pub strip : String → String
unfolding lstrip rstrip is_space
strip s = rstrip (lstrip s)

-- bool(s)
abbrev pub str_truthy : String → Bool
str_truthy s = not (s == "")

-- sep.join(parts)
unfoldable pub join : String → List String → String
join sep [] = ""
join sep (p ∷ []) = p
join sep (p ∷ q ∷ r) = p ⧺ sep ⧺ join sep (q ∷ r)

strip_runs : strip "  a b\t\n" ≡ "a b"
unfolding strip
strip_runs = refl

join_runs : join "," ("a" ∷ "b" ∷ "c" ∷ []) ≡ "a,b,c"
unfolding join
join_runs = refl
