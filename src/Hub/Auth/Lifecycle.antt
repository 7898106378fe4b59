-- ===== src/Hub/Auth/Lifecycle.antt =====
-- nodes/brainstem_4070/auth.py: about requests after a revocation.
use project_nexus.Prelude.{
  false_ne_true, ℕ, ◌≡◌, refl, sym, ◌∙◌, Bool, true, false, not, ◌&&◌, Option, none, some, List, [],
  ◌∷◌, String, arith, ◌==◌, nat_eq, filter, if_both, if_known, inl, inr, Option-cases, subst, All,
}
use project_nexus.Hub.Auth.Token.{Kdf, verify_token, looks_like_token, parse_bearer}
use project_nexus.Hub.Auth.Store.{
  TokenEntry, Content, unreadable, holds, TokenStore, read, reload_from, reload_if_changed, flush,
  revoke_in, revoke, used, or_here, walk, after_walk, verify, granted, require_token, access_of,
}
use project_nexus.Hub.Auth.Visits.{Visit, visit, visit_all}
use project_nexus.Hub.Auth.Laws.{IsIn, require_token_sound}

-- The memory agrees with the file, as far as a reload goes.
abbrev SettledAt : ℕ → Option (ℕ × Content) → Type 0
SettledAt mtime none = Unit
SettledAt mtime (some (m, unreadable)) = Unit
SettledAt mtime (some (m, holds items)) = nat_eq m mtime ≡ true

abbrev Settled : TokenStore → Type 0
Settled s = SettledAt s.mtime s.disk

pub nat_eq_refl : (n : ℕ) → nat_eq n n ≡ true
nat_eq_refl n = ground arith

-- Nobody of the name is left.
abbrev IsGone : String → List TokenEntry → Type 0
IsGone name = All (λ e. (e.name == name) ≡ false)

and_right : (a b : Bool) → (a && b) ≡ true → b ≡ true
and_right a b h = ground arith

abbrev store : List TokenEntry → ℕ → Option (ℕ × Content) → TokenStore
store es t d = record { entries = es; mtime = t; disk = d }

reload-Settled :
    (f : Bool) (es : List TokenEntry) (t : ℕ) (d : Option (ℕ × Content))
    → Settled (reload_from f d (store es t d))
unfolding reload_from read
reload-Settled f es t none = tt
reload-Settled f es t (some (m, unreadable)) =
    if_both {A = TokenStore} Settled (not f && nat_eq m t) tt tt
reload-Settled f es t (some (m, holds items)) =
    if_known {A = TokenStore} Settled (not f && nat_eq m t)
      (λ same. and_right (not f) (nat_eq m t) same) (λ changed. nat_eq_refl m)

reload-IsGone :
    (name : String) (es : List TokenEntry) (t : ℕ) (d : Option (ℕ × Content))
    → SettledAt t d
    → IsGone name es
    → IsGone name (reload_from false d (store es t d)).entries
unfolding reload_from read
reload-IsGone name es t none h g = tt
reload-IsGone name es t (some (m, unreadable)) h g =
    if_both {A = TokenStore} (λ s. IsGone name s.entries) (nat_eq m t) g g
reload-IsGone name es t (some (m, holds items)) h g =
    if_known {A = TokenStore} (λ s. IsGone name s.entries) (nat_eq m t) (λ same. g)
      (λ changed. absurd (false_ne_true (sym changed ∙ h)))

IsGone-filter :
    (name : String) (es : List TokenEntry) → IsGone name (filter (λ e. not (e.name == name)) es)
IsGone-filter name [] = tt
IsGone-filter name (e ∷ es) =
    if_known {A = List TokenEntry} (IsGone name) (not (e.name == name))
      (λ other. (not_true (e.name == name) other, IsGone-filter name es))
      (λ same. IsGone-filter name es)
  where
    not_true : (b : Bool) → not b ≡ true → b ≡ false
    not_true b h = ground arith

-- Revoking leaves nobody of the name, in memory and after the next reload.
revoke_in-Settled :
    (written : Option ℕ) (name : String) (s : TokenStore)
    → Settled s
    → Settled (revoke_in written name s).1 × IsGone name (revoke_in written name s).1.entries
unfolding revoke_in flush
revoke_in-Settled none name s h =
    if_both {A = Option Bool × TokenStore} (λ r. Settled r.1 × IsGone name r.1.entries) _
      (h, IsGone-filter name s.entries) (h, IsGone-filter name s.entries)
revoke_in-Settled (some m) name s h =
    if_both {A = Option Bool × TokenStore} (λ r. Settled r.1 × IsGone name r.1.entries) _
      (nat_eq_refl m, IsGone-filter name s.entries) (h, IsGone-filter name s.entries)

gone_member :
    (name : String) (es : List TokenEntry) (e : TokenEntry)
    → IsGone name es
    → IsIn e es
    → (e.name == name) ≡ false
gone_member name [] e g i = absurd i
gone_member name (x ∷ es) e g (inl same) = subst (λ y. (y.name == name) ≡ false) same g.0
gone_member name (x ∷ es) e g (inr i) = gone_member name es e g.1 i

-- What a revocation leaves, and every request after it keeps.
abbrev Keeps : String → TokenStore → Type 0
Keeps name s = Settled s × IsGone name s.entries

reload-Keeps :
    (name : String) (s : TokenStore) → Keeps name s → Keeps name (reload_if_changed false s)
unfolding reload_if_changed
reload-Keeps name s (settled, gone) = (
  reload-Settled false s.entries s.mtime s.disk,
  reload-IsGone name s.entries s.mtime s.disk settled gone,
)

or_here-IsGone :
    (name : String) (here : Bool) (now : String) (x : TokenEntry) (es : List TokenEntry)
    (r : Option TokenEntry × List TokenEntry)
    → (x.name == name) ≡ false
    → IsGone name es
    → IsGone name r.1
    → IsGone name (or_here here now x es r).1
unfolding or_here used
or_here-IsGone name here now x es (some m, es') other g h = (other, h)
or_here-IsGone name true now x es (none, es') other g h = (other, g)
or_here-IsGone name false now x es (none, es') other g h = (other, g)

walk-IsGone :
    (name : String) (kdf : Kdf) (now token : String) (es : List TokenEntry)
    → IsGone name es
    → IsGone name (walk kdf now token es).1
unfolding walk
walk-IsGone name kdf now token [] g = tt
walk-IsGone name kdf now token (e ∷ es) g =
    or_here-IsGone name (verify_token kdf e.hash token) now e es (walk kdf now token es) g.0 g.1
      (walk-IsGone name kdf now token es g.1)

after_walk-Keeps :
    (name : String) (written : Option ℕ) (s : TokenStore) (r : Option TokenEntry × List TokenEntry)
    → Keeps name s
    → IsGone name r.1
    → Keeps name (after_walk written s r).1
unfolding after_walk flush
after_walk-Keeps name written s (none, es) k g = k
after_walk-Keeps name none s (some m, es) k g = (k.0, g)
after_walk-Keeps name (some t) s (some m, es) k g = (nat_eq_refl t, g)

verify-Keeps :
    (name : String) (kdf : Kdf) (written : Option ℕ) (now token : String) (s : TokenStore)
    → Keeps name s
    → Keeps name (verify kdf written now s token).1
unfolding verify
verify-Keeps name kdf written now token s k =
    let r = reload-Keeps name s k in
    if_both {A = Option TokenEntry × TokenStore} (λ x. Keeps name x.1) (looks_like_token token)
      (after_walk-Keeps name written _ _ r (walk-IsGone name kdf now token _ r.1)) k

pub access-store : (r : Option TokenEntry × TokenStore) → (access_of r).1 ≡ r.1
unfolding access_of
access-store (none, s) = refl
access-store (some e, s) = refl

visit-Keeps :
    (name : String) (kdf : Kdf) (v : Visit) (s : TokenStore)
    → Keeps name s
    → Keeps name (visit kdf v s)
unfolding visit require_token
visit-Keeps name kdf v s k = elim (Option-cases (parse_bearer v.header)) [
  | inl absent ↦ rw (absent, visit) k
  | inr (token, there) ↦
      rw (there, visit)
        (subst (Keeps name) (sym (access-store (verify kdf v.written v.now s token)))
          (verify-Keeps name kdf v.written v.now token s k))
]

visits-Keeps :
    (name : String) (kdf : Kdf) (vs : List Visit) (s : TokenStore)
    → Keeps name s
    → Keeps name (visit_all kdf vs s)
unfolding visit_all
visits-Keeps name kdf [] s k = k
visits-Keeps name kdf (v ∷ vs) s k = visits-Keeps name kdf vs _ (visit-Keeps name kdf v s k)

-- After a token was revoked, no request is let in under its name: not the first one, nor one after any
-- other requests, whatever headers they carry and whether or not their uses and the revocation could be
-- written to the file, as long as nobody else writes the file and no token of that name is created.
pub revoked_stays_out :
    (kdf : Kdf) (written written' : Option ℕ) (now name : String) (s : TokenStore)
    (visits : List Visit) (header : Option String) (e : TokenEntry)
    → (require_token kdf written' now (visit_all kdf visits (revoke written s name).1) header).0
      ≡ granted e
    → (e.name == name) ≡ false
unfolding revoke reload_if_changed used
revoked_stays_out kdf written written' now name s visits header e h =
    let s' : TokenStore = visit_all kdf visits (revoke written s name).1 in
    let k = visits-Keeps name kdf visits _ (
      revoke_in-Settled written name (reload_if_changed false s)
        (reload-Settled false s.entries s.mtime s.disk)) in
    let (token, there, (stored, is_in, passes, is_used)) =
      require_token_sound kdf written' now s' header e h in
    subst (λ x. (x.name == name) ≡ false) (sym is_used)
      (gone_member name (reload_if_changed false s').entries stored (reload-Keeps name s' k).1
        is_in)
