-- ===== src/Hub/Sessions/Keys.antt =====
-- The keys of nodes/brainstem_4070/sessions.py tell the pairs apart, because core/family.py admits
-- no colon in a member's id. (A person's name may hold one.)
use Prim.Native.Char.{code}
use text.Mathlib.TextLemmas.{append_cancel_right, cons-append, nil-append}
use project_nexus.Prelude.{
  ◌≡◌, refl, ap, ◌∙◌, sym, Bool, true, false, ◌||◌, String, arith, nat_eq, if◌then◌else◌,
}
use project_nexus.Py.Text.{◌⧺◌}
use project_nexus.Hub.Sessions.Store.{key}

unfoldable pub has_colon : String → Bool
has_colon String.[] = false
has_colon (String.◌∷◌ c s) = nat_eq (code c) b':' || has_colon s

-- what follows the last colon
after_last : String → String
after_last String.[] = String.[]
after_last (String.◌∷◌ c s) =
    let rest = after_last s in
    if has_colon s then rest else if nat_eq (code c) b':' then s else String.◌∷◌ c s

colons : (m : String) → "::" ⧺ m ≡ String.◌∷◌ ":" (String.◌∷◌ ":" m)
colons m =
    cons-append ":" ":" m
    ∙ ap (String.◌∷◌ ":") (cons-append ":" "" m ∙ ap (String.◌∷◌ ":") (nil-append m))

has_colon-key : (p m : String) → has_colon (p ⧺ "::" ⧺ m) ≡ true
unfolding has_colon
has_colon-key String.[] m = rw (nil-append, colons) refl
has_colon-key (String.◌∷◌ c p) m = rw cons-append (ground (arith, has_colon-key p m))

after_last-key : (p m : String) → has_colon m ≡ false → after_last (p ⧺ "::" ⧺ m) ≡ m
unfolding after_last has_colon
after_last-key String.[] m h = rw (nil-append, colons) (ground arith)
after_last-key (String.◌∷◌ c p) m h = rw cons-append (rw (has_colon-key p m) (after_last-key p m h))

-- Two pairs share a session key only if they are the same pair, provided that the member ids hold
-- no colon.
pub key_injective :
    (p p' m m' : String)
    → has_colon m ≡ false
    → has_colon m' ≡ false
    → key p m ≡ key p' m'
    → (p ≡ p') × (m ≡ m')
unfolding key
key_injective p p' m m' h h' e =
    let same = sym (after_last-key p m h) ∙ ap after_last e ∙ after_last-key p' m' h' in
    (append_cancel_right p p' ("::" ⧺ m) (e ∙ ap (λ x. p' ⧺ "::" ⧺ x) (sym same)), same)
