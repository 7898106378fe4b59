-- ===== src/Embedder/Scopes/Names.antt =====
-- The scope names of nodes/embedder_4070/scopes.py tell members and kinds of scope apart.
use Prim.Native.Char.{code}
use text.Mathlib.TextLemmas.{append_cancel_left, cons-append}
use project_nexus.Prelude.{ℕ, ◌≡◌, ◌≢◌, ap, String, arith}
use project_nexus.Embedder.Scopes.Defs.{private_scope, experiential_scope, shared_scope}

-- The first character.
first : String → ℕ
first String.[] = 0
first (String.◌∷◌ c s) = code c

first-private : (m : String) → first (private_scope m) ≡ b'p'
unfolding first private_scope
first-private m = ap first (cons-append "p" "rivate:" m)

first-experiential : (m : String) → first (experiential_scope m) ≡ b'e'
unfolding first experiential_scope
first-experiential m = ap first (cons-append "e" "xperiential:" m)

first-shared : first shared_scope ≡ b's'
unfolding first
first-shared = omega arith

pub private-ne-experiential : (a b : String) → private_scope a ≢ experiential_scope b
private-ne-experiential a b e =
    absurd (omega (arith, first-private a, first-experiential b, ap first e))

pub private-ne-shared : (a : String) → private_scope a ≢ shared_scope
private-ne-shared a e = absurd (omega (arith, first-private a, first-shared, ap first e))

pub experiential-ne-shared : (a : String) → experiential_scope a ≢ shared_scope
experiential-ne-shared a e = absurd (omega (arith, first-experiential a, first-shared, ap first e))

pub private_injective : (a b : String) → private_scope a ≡ private_scope b → a ≡ b
unfolding private_scope
private_injective a b e = append_cancel_left "private:" a b e

pub experiential_injective : (a b : String) → experiential_scope a ≡ experiential_scope b → a ≡ b
unfolding experiential_scope
experiential_injective a b e = append_cancel_left "experiential:" a b e

pub private-ne-empty : (a : String) → private_scope a ≢ ""
unfolding first
private-ne-empty a e = absurd (omega (arith, first-private a, ap first e))
